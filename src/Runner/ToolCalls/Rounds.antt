-- ===== src/Runner/ToolCalls/Rounds.antt =====
-- The rounds of parseToolCallsFromText on a text of blocks.
use gocoon.Common.{
  ℕ, zero, suc, ◌+◌, ◌<◌, false, Bytes, List, [], ◌∷◌, ◌++◌, none, some, ◌≡◌, refl, sym, ap, ◌∙◌,
  length, take, drop, All-append, drop-append, drop-drop, append_assoc, append-nil, arith,
}
use gocoon.Common.Assoc.{bytes_eq}
use gocoon.Tl.Ids.{codes}
use gocoon.Runner.Text.{index}
use gocoon.Runner.Text.Search.{Lacks, index-tag, index_behind, index-Lacks}
use gocoon.Runner.Json.{Json, Object}
use gocoon.Runner.Strip.{tool_call_open_tag, tool_call_close_tag}
use gocoon.Runner.Extract.{extract_json_object}
use gocoon.Runner.Extract.Balanced.{IsObject, braces}
use gocoon.Runner.Extract.Taken.{extract_json_object_iff}
use gocoon.Runner.Tools.{is_empty}
use gocoon.Runner.ToolCalls.{
  ExtractedCall, Outside, generate_tool_call_id, arguments_or_empty, parse_block, parse_loop,
}
use gocoon.Runner.ToolCalls.Written.{
  name_of, IsCall, AreCalls, none_left, call, block, blocks, close_tag,
}

-- A round of parseToolCallsFromText.
module _ (lib : Outside) (n k : ℕ) (v : Bytes) where
  pub round_done : index tool_call_open_tag v ≡ none → parse_loop lib (suc n) k v ≡ []
  unfolding parse_loop
  round_done h = rw (h, parse_loop) refl

  round_call :
      (i j : ℕ) (name args : Bytes)
      → index tool_call_open_tag v ≡ some i
      → let content = drop (i + length tool_call_open_tag) v in
        index tool_call_close_tag content ≡ some j
        → parse_block lib content j ≡ some (name, args)
        → parse_loop lib (suc n) k v
          ≡ record {
            id = generate_tool_call_id lib k;
            name = name;
            arguments = arguments_or_empty lib args;
          }
            ∷ parse_loop lib n (suc k) (drop (j + length tool_call_close_tag) content)
  unfolding parse_loop
  round_call i j name args h g e = rw (h, parse_loop) (rw g (rw e refl))

module _ (lib : Outside) where
  parse_block-eq :
      (content raw name args : Bytes) (j brace : ℕ)
      → index (codes "{") (take j content) ≡ some brace
      → extract_json_object content brace ≡ some raw
      → lib.json.unmarshal_call raw ≡ some (name, args)
      → is_empty name ≡ false
      → parse_block lib content j ≡ some (name, args)
  unfolding parse_block
  parse_block-eq content raw name args j brace h g e f =
      rw (h, parse_block) (rw g (rw e (rw f refl)))

  abbrev pub extracted : ℕ → Object × Bytes → ExtractedCall
  extracted k (fn, args) = record {
    id = generate_tool_call_id lib k;
    name = name_of fn;
    arguments = arguments_or_empty lib args;
  }

  -- The content of a block that is whole.
  abbrev lines : Bytes → Bytes
  lines j = codes "\n" ++ (j ++ codes "\n")

  block_parses :
      {tc : Json} {fn : Object} {j args : Bytes} (rest : Bytes)
      → IsCall lib.json tc fn j args
      → parse_block lib
          (codes "\n" ++ (j ++ (codes "\n" ++ (close_tag ++ rest))))
          (length (lines j))
        ≡ some (name_of fn, args)
  block_parses {fn = fn} {j = j} {args = args} rest h =
      parse_block-eq (codes "\n" ++ (j ++ tail)) j (name_of fn) args (length (lines j)) 1
        (brace j h.object)
        ((extract_json_object_iff (codes "\n" ++ (j ++ tail)) 1 j).1 (tail, refl, h.object))
        h.read_back h.has_name
    where
      tail : Bytes
      tail = codes "\n" ++ (close_tag ++ rest)

      brace :
          (j : Bytes)
          → IsObject j
          → index (codes "{") (take (length (lines j)) (codes "\n" ++ (j ++ tail))) ≡ some 1
      brace j (braces b) = refl

  pub round_block :
      {tc : Json} {fn : Object} {j args : Bytes} (n k : ℕ) (v rest : Bytes)
      → index (codes "<tool_call>") v ≡ none
      → IsCall lib.json tc fn j args
      → parse_loop lib (suc n) k (v ++ block j rest)
        ≡ extracted k (fn, args) ∷ parse_loop lib n (suc k) rest
  unfolding tool_call_open_tag tool_call_close_tag
  round_block {fn = fn} {j = j} {args = args} n k v rest g h =
      round_call lib n k (v ++ block j rest) (length v) (length (lines j)) (name_of fn) args
        (index-tag b'<' (codes "tool_call>") v content (ground arith) g)
        (ap (index close_tag) (behind_open ∙ front)
          ∙ index-tag b'<' (codes "/tool_call>") (lines j) rest (ground arith)
              (index-Lacks b'<' (codes "/tool_call>") (lines j) no_tag))
        (ap (λ x. parse_block lib x (length (lines j))) behind_open ∙ block_parses rest h)
      ∙ ap (λ x. extracted k (fn, args) ∷ parse_loop lib n (suc k) x) behind_close
    where
      content : Bytes
      content = codes "\n" ++ (j ++ (codes "\n" ++ (close_tag ++ rest)))

      front : content ≡ lines j ++ (close_tag ++ rest)
      front = ap (λ x. codes "\n" ++ x) (sym (append_assoc j (codes "\n") (close_tag ++ rest)))

      behind_open : drop (length v + 11) (v ++ block j rest) ≡ content
      behind_open =
          drop-drop (length v) 11 (v ++ block j rest) ∙ ap (drop 11) (drop-append v (block j rest))

      behind_close : drop (length (lines j) + 12) (drop (length v + 11) (v ++ block j rest)) ≡ rest
      behind_close =
          ap (drop (length (lines j) + 12)) (behind_open ∙ front)
          ∙ drop-drop (length (lines j)) 12 (lines j ++ (close_tag ++ rest))
          ∙ ap (drop 12) (drop-append (lines j) (close_tag ++ rest))

      no_tag : Lacks b'<' (lines j)
      no_tag = (refl, All-append _ j (codes "\n") h.plain (ground arith))

  abbrev pub extracted_from : ℕ → List (Object × Bytes) → List ExtractedCall
  extracted_from k [] = []
  extracted_from k (c ∷ cs) = extracted k c ∷ extracted_from (suc k) cs

  pub loop-blocks :
      {tcs : List Json} {js : List Bytes} {cs : List (Object × Bytes)} (n k : ℕ) (v : Bytes)
      → index (codes "<tool_call>") v ≡ none
      → AreCalls lib.json tcs js cs
      → length js < n
      → parse_loop lib n k (v ++ blocks js) ≡ extracted_from k cs
  loop-blocks zero k v g hs lt = absurd (omega arith)
  loop-blocks (suc n) k v g none_left lt =
      ap (parse_loop lib (suc n) k) (append-nil v)
      ∙ round_done lib n k v (unfold tool_call_open_tag in g)
  loop-blocks (suc n) k v g (call {fn = fn} {json = j} {args = args} {js = js} h hs) lt =
      ap (parse_loop lib (suc n) k) (sym (append_assoc v (codes "\n") (block j (blocks js))))
      ∙ round_block n k (v ++ codes "\n") (blocks js)
          (index_behind b'\n' b'<' (codes "tool_call>") v [] (ground arith) g) h
      ∙ ap (λ x. extracted k (fn, args) ∷ x) (loop-blocks n (suc k) [] refl hs (omega arith))

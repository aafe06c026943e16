-- ===== src/Runner/ToolCalls/RoundTrip.antt =====
-- The calls that rewriteAssistantToolCalls writes into a message, found again in its text.
use gocoon.Common.{
  ℕ, All, false, ◌||◌, if◌then◌else◌, suc, ◌≤◌, Bytes, List, [], ◌∷◌, ◌++◌, none, some, ◌≡◌, refl,
  ap, ◌∙◌, length, length-append, arith,
}
use gocoon.Common.Assoc.{lookup, put, delete, bytes_eq, bytes_beq, lookup-delete, lookup-put}
use gocoon.Tl.Ids.{codes}
use gocoon.Runner.Text.{index}
use gocoon.Runner.Json.{Json, string, Object, JsonLibrary, as_array, string_or_empty}
use gocoon.Runner.Strip.{tool_call_open_tag, think_open_tag}
use gocoon.Runner.Strip.Spans.{strip_think_blocks_iff, whole}
use gocoon.Runner.Tools.{
  is_empty, message_content_as_string, write_calls, rewrite_assistant_tool_calls,
}
use gocoon.Runner.ToolCalls.{
  ExtractedCall, generate_tool_call_id, arguments_or_empty, Outside, parse_loop,
  parse_tool_calls_from_text,
}
use gocoon.Runner.ToolCalls.Written.{
  name_of, AreCalls, none_left, call, block, blocks, tail_of, think-block, think-blocks,
  write_calls-blocks, write_calls_first,
}
use gocoon.Runner.ToolCalls.Rounds.{round_done, round_block, loop-blocks, extracted, extracted_from}

pub parse_stripped :
    (lib : Outside) (s : Bytes)
    → index (codes "<think>") s ≡ none
    → parse_tool_calls_from_text lib s ≡ parse_loop lib (suc (length s)) 0 s
unfolding parse_tool_calls_from_text think_open_tag
parse_stripped lib s h =
    ap (λ x. parse_loop lib (suc (length x)) 0 x) ((strip_think_blocks_iff s s).1 (whole s h))

length-blocks : (js : List Bytes) → length js ≤ length (blocks js)
length-blocks [] = omega arith
length-blocks (j ∷ js) = omega (arith, length-blocks js, length-append j (tail_of (blocks js)))

module _ (lib : Outside) where
  -- The text of a message, empty or not, with its calls behind it.
  written_parses :
      {tcs : List Json} {js : List Bytes} {cs : List (Object × Bytes)} (existing : Bytes)
      → AreCalls lib.json tcs js cs
      → index (codes "<think>") existing ≡ none
      → index (codes "<tool_call>") existing ≡ none
      → parse_tool_calls_from_text lib (write_calls lib.json tcs existing) ≡ extracted_from lib 0 cs
  written_parses {js = js} (c ∷ sb) hs no_think no_call =
      ap (parse_tool_calls_from_text lib) (write_calls-blocks lib.json c sb hs)
      ∙ parse_stripped lib ((c ∷ sb) ++ blocks js) (think-blocks (c ∷ sb) hs no_think)
      ∙ loop-blocks lib (suc (length ((c ∷ sb) ++ blocks js))) 0 (c ∷ sb) no_call hs
          (omega (arith, length-blocks js, length-append sb (blocks js)))
  written_parses [] none_left no_think no_call =
      parse_stripped lib [] refl ∙ round_done lib 0 0 [] (unfold tool_call_open_tag in refl)
  written_parses [] (call {fn = fn} {json = j} {args = args} {js = js} h hs) no_think no_call =
      ap (parse_tool_calls_from_text lib) (write_calls_first lib.json h hs)
      ∙ parse_stripped lib (block j (blocks js))
          (think-block j (blocks js) h.plain (think-blocks [] hs refl))
      ∙ round_block lib (length (block j (blocks js))) 0 [] (blocks js) refl h
      ∙ ap (λ x. extracted lib 0 (fn, args) ∷ x)
          (loop-blocks lib (length (block j (blocks js))) 1 [] refl hs
            (omega (arith, length-blocks js, length-append j (tail_of (blocks js)))))

-- What a rewritten message holds.
rewritten :
    (lib : JsonLibrary) (msg : Object) (tc : Json) (tcs : List Json)
    → as_array (lookup (codes "tool_calls") msg) ≡ some (tc ∷ tcs)
    → (msg' : Object) × (rewrite_assistant_tool_calls lib msg ≡ some msg')
      × (string_or_empty (lookup (codes "content") msg')
          ≡ write_calls lib (tc ∷ tcs) (message_content_as_string (lookup (codes "content") msg)))
      × (lookup (codes "tool_calls") msg' ≡ none)
unfolding rewrite_assistant_tool_calls
rewritten lib msg tc tcs h =
    let content =
      write_calls lib (tc ∷ tcs) (message_content_as_string (lookup (codes "content") msg)) in
    let full = put (codes "content") (string content) msg in
    (
      delete (codes "tool_calls") full,
      rw (h, rewrite_assistant_tool_calls) refl,
      ap string_or_empty (
          lookup-delete (codes "tool_calls") (codes "content") full
          ∙ lookup-put (codes "content") (codes "content") (string content) msg),
      lookup-delete (codes "tool_calls") (codes "tool_calls") full,
    )

-- Marshal writes the arguments without space around them.
abbrev pub Trimmed : Outside → List (Object × Bytes) → Type 0
Trimmed lib = All λ (fn, args). (lib.trim_space args ≡ args) × (is_empty args ≡ false)

-- A null stands for no arguments.
abbrev pub object_for_null : Bytes → Bytes
object_for_null args = if bytes_beq args (codes "null") then codes "{}" else args

-- The calls that are found, numbered from `k` on.
abbrev pub found_from : Outside → ℕ → List (Object × Bytes) → List ExtractedCall
found_from lib k [] = []
found_from lib k ((fn, args) ∷ cs) =
    record { id = generate_tool_call_id lib k; name = name_of fn; arguments = object_for_null args }
    ∷ found_from lib (suc k) cs

trimmed_arguments :
    (lib : Outside) (args : Bytes)
    → lib.trim_space args ≡ args
    → is_empty args ≡ false
    → arguments_or_empty lib args ≡ object_for_null args
unfolding arguments_or_empty
trimmed_arguments lib args h g =
    ap (λ a. if is_empty a || bytes_beq a (codes "null") then codes "{}" else a) h
    ∙ ap (λ b. if b || bytes_beq args (codes "null") then codes "{}" else args) g

found_same :
    (lib : Outside) (k : ℕ) (cs : List (Object × Bytes))
    → Trimmed lib cs
    → extracted_from lib k cs ≡ found_from lib k cs
found_same lib k [] t = refl
found_same lib k ((fn, args) ∷ cs) t =
    ap
      (λ a.
        record { id = generate_tool_call_id lib k; name = name_of fn; arguments = a }
        ∷ extracted_from lib (suc k) cs)
      (trimmed_arguments lib args (t.0).0 (t.0).1)
    ∙ ap
        (λ x.
          record {
            id = generate_tool_call_id lib k;
            name = name_of fn;
            arguments = object_for_null args;
          }
          ∷ x)
        (found_same lib (suc k) cs t.1)

-- An assistant's message with tool calls, whose text has neither a think tag nor a tool call, is
-- rewritten to a message without tool_calls, and parsing the text of that one gives all of the
-- calls back, in order, each with its name and the JSON of its arguments, {} for null: the
-- arguments are the value of their text where that is JSON, and that text as a string where it is
-- not. For each call it is taken that encoding/json writes the object of its name and arguments
-- without a <, with the same text for the arguments as on their own, without space around it, and
-- reads back from it the name, which is not empty, and that text.
pub parse_tool_calls_from_text-rewrite_assistant_tool_calls :
    (lib : Outside) (msg : Object) (tc : Json) (tcs : List Json) (js : List Bytes)
    (cs : List (Object × Bytes))
    → as_array (lookup (codes "tool_calls") msg) ≡ some (tc ∷ tcs)
    → AreCalls lib.json (tc ∷ tcs) js cs
    → Trimmed lib cs
    → let existing = message_content_as_string (lookup (codes "content") msg) in
      index (codes "<think>") existing ≡ none
      → index (codes "<tool_call>") existing ≡ none
      → (msg' : Object) × (rewrite_assistant_tool_calls lib.json msg ≡ some msg')
        × (lookup (codes "tool_calls") msg' ≡ none)
        × (parse_tool_calls_from_text lib (string_or_empty (lookup (codes "content") msg'))
            ≡ found_from lib 0 cs)
parse_tool_calls_from_text-rewrite_assistant_tool_calls lib msg tc tcs js cs h hs t no_think
      no_call =
    let (msg', e, content, gone) = rewritten lib.json msg tc tcs h in
    (
      msg',
      e,
      gone,
      ap (parse_tool_calls_from_text lib) content
          ∙ written_parses lib (message_content_as_string (lookup (codes "content") msg)) hs
              no_think no_call
          ∙ found_same lib 0 cs t,
    )

-- ===== src/Runner/ToolCalls/Written.antt =====
-- The text that rewriteAssistantToolCalls writes: what is there and one block for each call.
use gocoon.Common.{
  ℕ, false, Bytes, List, [], ◌∷◌, ◌++◌, Option, none, some, ◌≡◌, refl, sym, ap, ◌∙◌, length,
  append_assoc, append-nil, arith,
}
use gocoon.Common.Assoc.{lookup, bytes_eq}
use gocoon.Tl.Ids.{codes}
use gocoon.Runner.Text.{shift, index}
use gocoon.Runner.Text.Search.{Lacks, index_pass, index_behind}
use gocoon.Runner.Json.{Json, string, Object, JsonLibrary, as_object, string_or_empty, map_json}
use gocoon.Runner.Strip.{tool_call_open_tag, tool_call_close_tag}
use gocoon.Runner.Extract.Balanced.{IsObject}
use gocoon.Runner.Tools.{is_empty, separated, call_object, write_call, write_calls}

abbrev pub name_of : Object → Bytes
name_of fn = string_or_empty (lookup (codes "name") fn)

-- The arguments of a call are a text, which is JSON or stands for itself.
abbrev pub value_or_text : Bytes → Option Json → Json
value_or_text args none = string args
value_or_text args (some v) = v

abbrev pub arguments_of : JsonLibrary → Object → Json
arguments_of lib fn =
    let args = string_or_empty (lookup (codes "arguments") fn) in
    value_or_text args (lib.unmarshal args)

-- The object of a call: its name and its arguments.
abbrev pub called : JsonLibrary → Object → Json
called lib fn =
    map_json ((codes "name", string (name_of fn)) ∷ (codes "arguments", arguments_of lib fn) ∷ [])

-- One entry of `tool_calls`, with what encoding/json makes of it: its object is written without a
-- `<`, which Marshal escapes, and is read back with the name, which is not empty, and with the text
-- of the arguments as Marshal writes them.
pub record IsCall (lib : JsonLibrary) (tc : Json) (fn : Object) (json args : Bytes) : Type 0 where
  pub entry : Object
  pub is_entry : as_object (some tc) ≡ some entry
  pub is_function : as_object (lookup (codes "function") entry) ≡ some fn
  pub written : lib.marshal (called lib fn) ≡ some json
  pub arguments : lib.marshal (arguments_of lib fn) ≡ some args
  pub object : IsObject json
  pub plain : Lacks b'<' json
  pub read_back : lib.unmarshal_call json ≡ some (name_of fn, args)
  pub has_name : is_empty (name_of fn) ≡ false

pub data AreCalls (lib : JsonLibrary)
    : List Json → List Bytes → List (Object × Bytes) → Type 0 where
  none_left : AreCalls lib [] [] []
  call :
      {tc : Json} {fn : Object} {json args : Bytes} {tcs : List Json} {js : List Bytes}
      {cs : List (Object × Bytes)}
      → IsCall lib tc fn json args
      → AreCalls lib tcs js cs
      → AreCalls lib (tc ∷ tcs) (json ∷ js) ((fn, args) ∷ cs)

-- The text of the calls.
abbrev pub block : Bytes → Bytes → Bytes
block j rest =
    codes "<tool_call>" ++ (codes "\n" ++ (j ++ (codes "\n" ++ (codes "</tool_call>" ++ rest))))

abbrev pub blocks : List Bytes → Bytes
blocks [] = []
blocks (j ∷ js) = codes "\n" ++ block j (blocks js)

abbrev pub open_line : Bytes
open_line = codes "<tool_call>\n"

abbrev pub close_tag : Bytes
close_tag = codes "</tool_call>"

block_assoc : (sb j : Bytes) → sb ++ open_line ++ (j ++ codes "\n") ++ close_tag ≡ sb ++ block j []
block_assoc sb j =
    append_assoc (sb ++ open_line) (j ++ codes "\n") close_tag
    ∙ append_assoc sb open_line (j ++ codes "\n" ++ close_tag)
    ∙ ap (λ t. sb ++ (open_line ++ t)) (append_assoc j (codes "\n") close_tag)

block-append : (sb j rest : Bytes) → sb ++ block j [] ++ rest ≡ sb ++ block j rest
block-append sb j rest =
    append_assoc sb (block j []) rest
    ∙ ap (λ t. sb ++ (open_line ++ t)) (append_assoc j (codes "\n" ++ close_tag) rest)

value_same :
    (args : Bytes) (o : Option Json)
    → (elim o [ none ↦ string args | some v ↦ v ]) ≡ value_or_text args o
value_same args none = refl
value_same args (some v) = refl

module _ (lib : JsonLibrary) where
  call_object-called : (fn : Object) → map_json (call_object lib fn) ≡ called lib fn
  unfolding call_object
  call_object-called fn =
      let args = string_or_empty (lookup (codes "arguments") fn) in
      ap (λ v. map_json ((codes "name", string (name_of fn)) ∷ (codes "arguments", v) ∷ []))
        (value_same args (lib.unmarshal args))

  write_call-IsCall :
      {tc : Json} {fn : Object} {json args : Bytes} (sb : Bytes)
      → IsCall lib tc fn json args
      → write_call lib tc sb ≡ separated sb ++ block json []
  unfolding write_call tool_call_open_tag tool_call_close_tag
  write_call-IsCall {fn = fn} {json = json} sb h =
      rw (h.is_entry, write_call)
        (rw h.is_function (
          rw (ap lib.marshal (call_object-called fn) ∙ h.written)
            (block_assoc (separated sb) json)))

  -- Behind a text that is not empty every call has a line break in front.
  pub write_calls-blocks :
      {tcs : List Json} {js : List Bytes} {cs : List (Object × Bytes)} (c : ℕ) (sb : Bytes)
      → AreCalls lib tcs js cs
      → write_calls lib tcs (c ∷ sb) ≡ (c ∷ sb) ++ blocks js
  write_calls-blocks c sb none_left = sym (append-nil (c ∷ sb))
  write_calls-blocks c sb (call {tc = tc} {json = j} {tcs = tcs} {js = js} h hs) =
      ap (write_calls lib tcs) (write_call-IsCall (c ∷ sb) h)
      ∙ write_calls-blocks c (sb ++ codes "\n" ++ block j []) hs
      ∙ block-append (c ∷ sb ++ codes "\n") j (blocks js)
      ∙ append_assoc (c ∷ sb) (codes "\n") (block j (blocks js))

  pub write_calls_first :
      {tc : Json} {fn : Object} {j args : Bytes} {tcs : List Json} {js : List Bytes}
      {cs : List (Object × Bytes)}
      → IsCall lib tc fn j args
      → AreCalls lib tcs js cs
      → write_calls lib (tc ∷ tcs) [] ≡ block j (blocks js)
  write_calls_first {j = j} {tcs = tcs} {js = js} h hs =
      ap (write_calls lib tcs) (write_call-IsCall [] h)
      ∙ write_calls-blocks b'<' (codes "tool_call>\n" ++ (j ++ (codes "\n" ++ close_tag))) hs
      ∙ block-append [] j (blocks js)

-- A text of calls has no think tag.
abbrev think : Bytes
think = codes "<think>"

abbrev pub tail_of : Bytes → Bytes
tail_of rest = codes "\n" ++ (close_tag ++ rest)

think-tail : (rest : Bytes) → index think rest ≡ none → index think (tail_of rest) ≡ none
think-tail rest h = rw h refl

think-line : (s : Bytes) → index think s ≡ none → index think (open_line ++ s) ≡ none
think-line s h = rw h refl

pub think-block :
    (j rest : Bytes) → Lacks b'<' j → index think rest ≡ none → index think (block j rest) ≡ none
think-block j rest h g = think-line (j ++ tail_of rest) (
    index_pass b'<' (codes "think>") j (tail_of rest) h ∙ ap (shift (length j)) (think-tail rest g))

module _ {lib : JsonLibrary} where
  pub think-blocks :
      {tcs : List Json} {js : List Bytes} {cs : List (Object × Bytes)} (v : Bytes)
      → AreCalls lib tcs js cs
      → index think v ≡ none
      → index think (v ++ blocks js) ≡ none
  think-blocks v none_left g = ap (index think) (append-nil v) ∙ g
  think-blocks v (call {json = j} {js = js} h hs) g =
      index_behind b'\n' b'<' (codes "think>") v (block j (blocks js)) (ground arith) g
      ∙ ap (λ o. shift (length v) (shift 1 o))
          (think-block j (blocks js) h.plain (think-blocks [] hs refl))

-- ===== src/Runner/Tools.antt =====
-- cmd/gocoon-runner/tools_translate.go: the side of the requests.
pub mod Cdata
pub mod Fields
pub mod Roles
pub mod Messages
use gocoon.Common.{
  ℕ, Bool, true, false, not, ◌&&◌, Bytes, List, [], ◌∷◌, ◌++◌, Option, none, some, ◌==◌, ltb,
  if◌then◌else◌,
}
use gocoon.Common.Assoc.{lookup, delete, put, bytes_eq, bytes_beq}
use gocoon.Common.Options.{◌>>=◌}
use gocoon.Tl.Ids.{codes}
use gocoon.Runner.Text.{replace_all, trim_left}
use gocoon.Runner.Json.{
  Json, null, boolean, number, string, array, object, Object, JsonLibrary, as_object, as_array,
  string_or_empty, map_json, list_json, items, fields,
}
use gocoon.Runner.Strip.{tool_call_open_tag, tool_call_close_tag}
unfoldable pub use gocoon.Runner.Prompt.{
  line, tool_prompt_preamble, tool_prompt_postamble, tool_response_open_tag,
  tool_response_close_tag, default_presence_penalty, unsupported_fields, is_empty, separated,
  message_content_as_string, rewrite_tool_message,
}

abbrev pub or_empty : Option (List Json) → List Json
or_empty none = []
or_empty (some xs) = xs

-- `for _, f := range unsupportedFields { delete(obj, f) }`
abbrev pub delete_all : List Bytes → Object → Object
delete_all [] obj = obj
delete_all (f ∷ fs) obj = delete_all fs (delete f obj)

unfoldable pub penalty_or_default : Object → Object
penalty_or_default obj = elim (lookup (codes "presence_penalty") obj) [
  | none ↦ put (codes "presence_penalty") default_presence_penalty obj
  | some _ ↦ obj
]

-- `sysMsg`
abbrev pub system_message : Bytes → Object
system_message injection =
    (codes "role", string (codes "system"))
    ∷ (codes "content", string (trim_left b'\n' injection))
    ∷ []

module _ (lib : JsonLibrary) where
  unfoldable pub request_has_tools : Bytes → Bool
  request_has_tools body = elim (lib.unmarshal_tools body) [ none ↦ false | some n ↦ ltb 0 n ]

  -- The loop of buildToolInjection.
  abbrev pub tool_lines : List Json → Option Bytes
  tool_lines [] = some []
  tool_lines (t ∷ ts) = do l ← lib.marshal t; ls ← tool_lines ts; some (line l ++ ls)

  unfoldable pub build_tool_injection : List Json → Option Bytes
  build_tool_injection tools = do
    lines ← tool_lines tools
    some (tool_prompt_preamble ++ lines ++ tool_prompt_postamble)

  -- The object of one call: its arguments as JSON where they are, and as text otherwise.
  unfoldable pub call_object : Object → Object
  call_object fn =
      let args = string_or_empty (lookup (codes "arguments") fn) in
      (codes "name", string (string_or_empty (lookup (codes "name") fn)))
      ∷ (codes "arguments", elim (lib.unmarshal args) [ none ↦ string args | some v ↦ v ])
      ∷ []

  unfoldable pub write_call : Json → Bytes → Bytes
  write_call tc sb = elim (as_object (some tc)) [
    | none ↦ sb
    | some tc_obj ↦ elim (as_object (lookup (codes "function") tc_obj)) [
      | none ↦ sb
      | some fn ↦ elim (lib.marshal (map_json (call_object fn))) [
        | none ↦ sb
        | some call_json ↦
            separated sb ++ line tool_call_open_tag ++ line call_json ++ tool_call_close_tag
      ]
    ]
  ]

  abbrev pub write_calls : List Json → Bytes → Bytes
  write_calls [] sb = sb
  write_calls (tc ∷ tcs) sb = write_calls tcs (write_call tc sb)

  unfoldable pub rewrite_assistant_tool_calls : Object → Option Object
  rewrite_assistant_tool_calls msg = elim (as_array (lookup (codes "tool_calls") msg)) [
    | none ↦ none
    | some [] ↦ none
    | some (tc ∷ tcs) ↦
        let existing = message_content_as_string (lookup (codes "content") msg) in
        some (
          delete (codes "tool_calls")
            (put (codes "content") (string (write_calls (tc ∷ tcs) existing)) msg))
  ]

  -- The message of an assistant, with its calls in its text or as it is.
  unfoldable pub rewrite_assistant : Object → Object
  rewrite_assistant obj = elim (rewrite_assistant_tool_calls obj) [
    | none ↦ obj
    | some rewritten ↦ rewritten
  ]

  -- A round of the loop over the messages: what it appends, and whether the system message was found.
  unfoldable pub rewrite_object : Bytes → Bool → Object → Object × Bool
  rewrite_object injection sys_found obj =
      let role = string_or_empty (lookup (codes "role") obj) in
      let existing = message_content_as_string (lookup (codes "content") obj) in
      if bytes_beq role (codes "system") && not sys_found
      then (put (codes "content") (string (existing ++ injection)) obj, true)
      else (
        if bytes_beq role (codes "assistant")
            then rewrite_assistant obj
            else if bytes_beq role (codes "tool")
            then rewrite_tool_message obj
            else obj,
        sys_found,
      )

  unfoldable pub rewrite_message : Bytes → Bool → Json → Json × Bool
  rewrite_message injection sys_found m = elim (as_object (some m)) [
    | none ↦ (m, sys_found)
    | some obj ↦
        let (obj', found) = rewrite_object injection sys_found obj in (map_json obj', found)
  ]

  unfoldable pub rewrite_history_messages : Bytes → Bool → List Json → List Json × Bool
  rewrite_history_messages injection sys_found [] = ([], sys_found)
  rewrite_history_messages injection sys_found (m ∷ ms) =
      let (m', found) = rewrite_message injection sys_found m in
      let (ms', found') = rewrite_history_messages injection found ms in (m' ∷ ms', found')

  unfoldable pub rewritten_messages : Bytes → Object → List Json
  rewritten_messages injection obj =
      let msgs = or_empty (as_array (lookup (codes "messages") obj)) in
      let (rewritten, sys_found) = rewrite_history_messages injection false msgs in
      if sys_found then rewritten else map_json (system_message injection) ∷ rewritten

  -- What is done with the fields where there are tools.
  unfoldable pub translate_object : Bytes → Object → Object
  translate_object injection obj = penalty_or_default (
      put (codes "stream") (boolean false) (
        delete_all unsupported_fields
          (put (codes "messages") (list_json (rewritten_messages injection obj)) obj)))

  -- `json.Unmarshal` into a `map[string]any`; null leaves the map nil.
  unfoldable pub unmarshal_object : Bytes → Option Object
  unmarshal_object body = elim (lib.unmarshal body) [
    | some (object f) ↦ some (fields f)
    | some null ↦ some []
    | _ ↦ none
  ]

  unfoldable pub translate_request_body : Bytes → Option Bytes
  translate_request_body body = do
    obj ← unmarshal_object body
    elim (lookup (codes "tools") obj) [
      | none ↦ some body
      | some tools_any ↦ elim (as_array (some tools_any)) [
        | some (t ∷ ts) ↦ do
          injection ← build_tool_injection (t ∷ ts)
          lib.marshal (map_json (translate_object injection obj))
        | _ ↦ lib.marshal (map_json (delete (codes "tool_choice") (delete (codes "tools") obj)))
      ]
    ]

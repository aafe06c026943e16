-- ===== src/Runner/Prompt.antt =====
-- cmd/gocoon-runner/tools_translate.go: the texts of the prompt, the content of a message, and the
-- messages of tools.
use gocoon.Common.{
  Bool, true, false, not, ◌&&◌, Bytes, List, [], ◌∷◌, ◌++◌, Option, none, some, if◌then◌else◌,
}
use gocoon.Common.Assoc.{lookup, bytes_eq, bytes_beq}
use gocoon.Tl.Ids.{codes}
use gocoon.Runner.Text.{replace_all}
use gocoon.Runner.Json.{Json, number, string, array, Object, as_object, string_or_empty, items}

abbrev pub line : Bytes → Bytes
line s = s ++ (b'\n' ∷ [])

abbrev pub tool_prompt_preamble : Bytes
tool_prompt_preamble =
    codes "\n\n# Tools\n\n"
    ++ codes "You may call one or more functions to assist with the user query.\n\n"
    ++ codes "You are provided with function signatures within <tools></tools> XML tags:\n"
    ++ codes "<tools>\n"

abbrev pub tool_prompt_postamble : Bytes
tool_prompt_postamble =
    codes "</tools>\n\n"
    ++ codes "For each function call, return a json object with function name and arguments "
    ++ codes "within <tool_call></tool_call> XML tags:\n"
    ++ codes "<tool_call>\n"
    ++ codes "{\"name\": <function-name>, \"arguments\": <args-json-object>}"
    ++ codes "\n"
    ++ codes "</tool_call>"

abbrev pub tool_response_open_tag : Bytes
tool_response_open_tag = codes "<tool_response>"

abbrev pub tool_response_close_tag : Bytes
tool_response_close_tag = codes "</tool_response>"

-- 1.5
abbrev pub default_presence_penalty : Json
default_presence_penalty = number 0x3ff8_0000_0000_0000

unfoldable pub unsupported_fields : List Bytes
unsupported_fields =
    codes "tools"
    ∷ codes "tool_choice"
    ∷ codes "parallel_tool_calls"
    ∷ codes "store"
    ∷ codes "web_search_options"
    ∷ codes "safety_identifier"
    ∷ codes "service_tier"
    ∷ codes "metadata"
    ∷ codes "modalities"
    ∷ codes "prompt_cache_key"
    ∷ codes "stream_options"
    ∷ []

-- `sb.Len() > 0`
abbrev pub is_empty : Bytes → Bool
is_empty [] = true
is_empty (b ∷ s) = false

-- A line break between what was written and what follows.
abbrev pub separated : Bytes → Bytes
separated s = if is_empty s then s else line s

abbrev is_text_part : Object → Bool
is_text_part p = bytes_beq (string_or_empty (lookup (codes "type") p)) (codes "text")

-- A round of the loop over the parts, on what was written so far.
unfoldable pub write_part : Json → Bytes → Bytes
write_part part sb = elim (as_object (some part)) [
  | none ↦ sb
  | some p ↦
      let t = string_or_empty (lookup (codes "text") p) in
      if is_text_part p && not (is_empty t) then separated sb ++ t else sb
]

abbrev pub write_parts : List Json → Bytes → Bytes
write_parts [] sb = sb
write_parts (part ∷ parts) sb = write_parts parts (write_part part sb)

unfoldable pub message_content_as_string : Option Json → Bytes
message_content_as_string (some (string s)) = s
message_content_as_string (some (array parts)) = write_parts (items parts) []
message_content_as_string _ = []

unfoldable pub rewrite_tool_message : Object → Object
rewrite_tool_message msg =
    let content = message_content_as_string (lookup (codes "content") msg) in
    let safe = replace_all content (codes "]]>") (codes "]]]]><![CDATA[>") in
    (codes "role", string (codes "user"))
    ∷ (
      codes "content",
      string (
          tool_response_open_tag
          ++ codes "\n<![CDATA["
          ++ safe
          ++ codes "]]>\n"
          ++ tool_response_close_tag),
    )
    ∷ []

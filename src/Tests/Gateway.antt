-- ===== src/Tests/Gateway.antt =====
-- Requests and responses of the gateway, with an encoding/json for the texts at hand.
use gocoon.Common.{
  ◌+◌, ◌-◌, Option, take, length, if◌then◌else◌, ◌≡◌, ◌↔◌, ◌⊎◌, refl, arith, true, Bytes, List, [],
  ◌∷◌, ◌++◌, none, some, map, drop,
}
use gocoon.Common.Assoc.{lookup, bytes_eq, bytes_beq}
use gocoon.Tl.Ids.{codes}
use gocoon.Runner.Text.{index}
use gocoon.Runner.Json.{
  Json, null, string, object, Fields, end, field, Object, JsonLibrary, as_array, string_or_empty,
  map_json, list_json,
}
use gocoon.Runner.Strip.{strip_think_blocks}
use gocoon.Runner.Strip.Spans.{ThinkStripped, strip_think_blocks_iff}
use gocoon.Runner.Extract.{extract_json_object, scan, scan_byte}
use gocoon.Runner.Extract.Balanced.{IsObject, string}
use gocoon.Runner.Extract.Taken.{extract_json_object_iff}
use gocoon.Runner.Prompt.{rewrite_tool_message, message_content_as_string}
use gocoon.Runner.Tools.{
  translate_request_body, unmarshal_object, build_tool_injection, rewritten_messages,
  rewrite_assistant_tool_calls, system_message, or_empty,
}
use gocoon.Runner.Tools.Cdata.{read_tool_response, read_tool_response-rewrite_tool_message}
use gocoon.Runner.Tools.Fields.{field_after, translate_request_body_fields}
use gocoon.Runner.Tools.Roles.{NoSystem, is_system, passed, injected}
use gocoon.Runner.Tools.Messages.{rewritten_messages_cases}
use gocoon.Runner.ToolCalls.{Outside, parse_tool_calls_from_text}
use gocoon.Runner.ToolCalls.Written.{IsCall, none_left, call}
use gocoon.Runner.ToolCalls.RoundTrip.{
  found_from, parse_tool_calls_from_text-rewrite_assistant_tool_calls,
}

strip_think_blocks_iff_example :
    (strip_think_blocks (codes "a<think>b</think>c<think>d") ≡ codes "ac")
    ↔ ThinkStripped (codes "a<think>b</think>c<think>d") (codes "ac")
strip_think_blocks_iff_example =
    strip_think_blocks_iff (codes "a<think>b</think>c<think>d") (codes "ac")

extract_json_object_iff_example :
    (extract_json_object (codes "x {\"}\": 1} y") 2 ≡ some (codes "{\"}\": 1}")) ↔ (
      (rest : Bytes) × (drop 2 (codes "x {\"}\": 1} y") ≡ codes "{\"}\": 1}" ++ rest)
      × IsObject (codes "{\"}\": 1}"))
extract_json_object_iff_example =
    extract_json_object_iff (codes "x {\"}\": 1} y") 2 (codes "{\"}\": 1}")

abbrev tool_result : Object
tool_result = (codes "role", string (codes "tool")) ∷ (codes "content", string (codes "a]]>b")) ∷ []

read_tool_response-rewrite_tool_message_example :
    (string_or_empty (lookup (codes "role") (rewrite_tool_message tool_result)) ≡ codes "user")
    × (read_tool_response
          (string_or_empty (lookup (codes "content") (rewrite_tool_message tool_result)))
        ≡ some (message_content_as_string (lookup (codes "content") tool_result)))
read_tool_response-rewrite_tool_message_example =
    read_tool_response-rewrite_tool_message tool_result

-- The call `f({})` of an assistant, in a body with one tool.
abbrev a_function : Object
a_function = (codes "name", string (codes "f")) ∷ (codes "arguments", string (codes "{}")) ∷ []

abbrev a_call : Json
a_call = map_json ((codes "function", map_json a_function) ∷ [])

abbrev assistant : Object
assistant =
    (codes "role", string (codes "assistant"))
    ∷ (codes "content", string (codes "yes"))
    ∷ (codes "tool_calls", list_json (a_call ∷ []))
    ∷ []

abbrev a_body : Object
a_body =
    (codes "tools", list_json (null ∷ []))
    ∷ (codes "messages", list_json (map_json assistant ∷ []))
    ∷ (codes "store", null)
    ∷ []

abbrev call_text : Bytes
call_text = codes "{\"arguments\":{},\"name\":\"f\"}"

-- `null` is the text of null, every other text is that of the body, and every object that of the call.
abbrev texts : JsonLibrary
texts = record {
  unmarshal = λ s. some (map_json a_body);
  marshal = λ v. some call_text;
  unmarshal_tools = λ s. some 1;
  unmarshal_call = λ s. some (codes "f", codes "{}");
}

a_body_fields : unmarshal_object texts [] ≡ some a_body
unfolding unmarshal_object
a_body_fields = refl

a_body_tools : lookup (codes "tools") a_body ≡ some (list_json (null ∷ []))
unfolding lookup
a_body_tools = refl

an_injection : (s : Bytes) × (build_tool_injection texts (null ∷ []) ≡ some s)
unfolding build_tool_injection
an_injection = (_, refl)

translate_request_body_fields_example :
    (o : Object) × (translate_request_body texts [] ≡ some call_text)
    × ((k : Bytes) → lookup k o ≡ field_after texts an_injection.0 a_body k)
translate_request_body_fields_example =
    translate_request_body_fields texts [] an_injection.0 a_body (list_json (null ∷ [])) null []
      a_body_fields a_body_tools refl an_injection.1

rewritten_messages_cases_example :
    let msgs = or_empty (as_array (lookup (codes "messages") a_body)) in
    let out = rewritten_messages texts (codes "T") a_body in
    (NoSystem msgs × (out ≡ map_json (system_message (codes "T")) ∷ map (passed texts) msgs))
    ⊎ ((pre : List Json) × (m : Json) × (post : List Json) × (msgs ≡ pre ++ m ∷ post)
        × NoSystem pre
        × (is_system m ≡ true)
        × (out ≡ map (passed texts) pre ++ injected (codes "T") m ∷ map (passed texts) post))
rewritten_messages_cases_example = rewritten_messages_cases texts (codes "T") a_body

-- An encoding/json that writes null, texts without an escape, and objects; that reads `{}`; and that
-- reads the name and the text of the arguments of what it wrote for a call.
abbrev mutual
  show : Json → Bytes
  show (string s) = codes "\"" ++ s ++ codes "\""
  show (object f) = codes "{" ++ show_fields f ++ codes "}"
  show _ = codes "null"

  show_fields : Fields → Bytes
  show_fields end = []
  show_fields (field k v end) = codes "\"" ++ k ++ codes "\":" ++ show v
  show_fields (field k v (field j w f)) =
      codes "\"" ++ k ++ codes "\":" ++ show v ++ codes "," ++ show_fields (field j w f)

abbrev name_and_rest : Bytes → Option (Bytes × Bytes)
name_and_rest s = elim (index (codes "\"") s) [
  | none ↦ none
  | some i ↦ let rest = drop (i + 14) s in some (take i s, take (length rest - 1) rest)
]

abbrev printed : JsonLibrary
printed = record {
  unmarshal = λ s. if bytes_beq s (codes "{}") then some (object end) else none;
  marshal = λ v. some (show v);
  unmarshal_tools = λ s. none;
  unmarshal_call = λ s. name_and_rest (drop 9 s);
}

abbrev around : Outside
around = record {
  json = printed;
  trim_space = λ s. s;
  raw_url_encoding = λ s. s;
  rand = λ n. some (n ∷ []);
}

-- The calls `f({})` and `g("hi")`, of which the second has arguments that are not JSON.
abbrev b_function : Object
b_function = (codes "name", string (codes "g")) ∷ (codes "arguments", string (codes "hi")) ∷ []

abbrev b_call : Json
b_call = map_json ((codes "function", map_json b_function) ∷ [])

abbrev two_calls : Object
two_calls =
    (codes "role", string (codes "assistant"))
    ∷ (codes "content", string (codes "yes"))
    ∷ (codes "tool_calls", list_json (a_call ∷ b_call ∷ []))
    ∷ []

abbrev a_text : Bytes
a_text = codes "{\"name\":\"f\",\"arguments\":{}}"

abbrev b_text : Bytes
b_text = codes "{\"name\":\"g\",\"arguments\":\"hi\"}"

a_text-IsObject : IsObject a_text
unfolding extract_json_object scan scan_byte
a_text-IsObject = ((extract_json_object_iff a_text 0 a_text).0 refl).2

b_text-IsObject : IsObject b_text
unfolding extract_json_object scan scan_byte
b_text-IsObject = ((extract_json_object_iff b_text 0 b_text).0 refl).2

a_call-IsCall : IsCall printed a_call a_function a_text (codes "{}")
unfolding lookup
a_call-IsCall = record {
  entry = (codes "function", map_json a_function) ∷ [];
  is_entry = refl;
  is_function = refl;
  written = refl;
  arguments = refl;
  object = a_text-IsObject;
  plain = ground arith;
  read_back = refl;
  has_name = refl;
}

b_call-IsCall : IsCall printed b_call b_function b_text (codes "\"hi\"")
unfolding lookup
b_call-IsCall = record {
  entry = (codes "function", map_json b_function) ∷ [];
  is_entry = refl;
  is_function = refl;
  written = refl;
  arguments = refl;
  object = b_text-IsObject;
  plain = ground arith;
  read_back = refl;
  has_name = refl;
}

two_calls_array : as_array (lookup (codes "tool_calls") two_calls) ≡ some (a_call ∷ b_call ∷ [])
unfolding lookup
two_calls_array = refl

two_calls_no_think :
    index (codes "<think>") (message_content_as_string (lookup (codes "content") two_calls)) ≡ none
unfolding lookup message_content_as_string
two_calls_no_think = refl

two_calls_no_call :
    index (codes "<tool_call>") (message_content_as_string (lookup (codes "content") two_calls))
    ≡ none
unfolding lookup message_content_as_string
two_calls_no_call = refl

parse_tool_calls_from_text-rewrite_assistant_tool_calls_example :
    (msg : Object) × (rewrite_assistant_tool_calls printed two_calls ≡ some msg)
    × (lookup (codes "tool_calls") msg ≡ none)
    × (parse_tool_calls_from_text around (string_or_empty (lookup (codes "content") msg))
        ≡ found_from around 0 ((a_function, codes "{}") ∷ (b_function, codes "\"hi\"") ∷ []))
parse_tool_calls_from_text-rewrite_assistant_tool_calls_example =
    parse_tool_calls_from_text-rewrite_assistant_tool_calls around two_calls a_call (b_call ∷ [])
      (a_text ∷ b_text ∷ []) ((a_function, codes "{}") ∷ (b_function, codes "\"hi\"") ∷ [])
      two_calls_array (call a_call-IsCall (call b_call-IsCall none_left))
      ((refl, refl), ((refl, refl), tt)) two_calls_no_think two_calls_no_call

-- ===== src/Runner/ToolCalls.antt =====
-- cmd/gocoon-runner/tools_translate.go: the side of the responses.
pub mod Written
pub mod Rounds
pub mod RoundTrip
use gocoon.Common.{
  ℕ, zero, suc, ◌+◌, Bool, true, false, ◌&&◌, ◌||◌, Bytes, List, [], ◌∷◌, ◌++◌, Option, none, some,
  if◌then◌else◌, length, take, drop,
}
use gocoon.Common.Options.{◌>>=◌}
use gocoon.Common.Assoc.{lookup, put, bytes_eq, bytes_beq}
use gocoon.Tl.Ids.{codes}
use gocoon.Runner.Text.{index}
use gocoon.Runner.Json.{
  Json, string, object, Object, JsonLibrary, as_object, as_array, string_or_empty, map_json,
  list_json,
}
use gocoon.Runner.Strip.{
  tool_call_open_tag, tool_call_close_tag, strip_think_blocks, strip_think_and_tool_calls,
}
use gocoon.Runner.Extract.{extract_json_object}
use gocoon.Runner.Tools.{is_empty, unmarshal_object}

pub record ExtractedCall : Type 0 where
  pub id : Bytes
  pub name : Bytes
  pub arguments : Bytes

-- What the runner takes from elsewhere: encoding/json, strings.TrimSpace, the base64 alphabet for
-- URLs, and what the n-th read of nine random bytes gives.
pub record Outside : Type 0 where
  pub json : JsonLibrary
  pub trim_space : Bytes → Bytes
  pub raw_url_encoding : Bytes → Bytes
  pub rand : ℕ → Option Bytes

module _ (lib : Outside) where
  unfoldable pub generate_tool_call_id : ℕ → Bytes
  generate_tool_call_id n = elim (lib.rand n) [
    | none ↦ codes "tc_fallback"
    | some b ↦ codes "tc_" ++ lib.raw_url_encoding b
  ]

  unfoldable pub arguments_or_empty : Bytes → Bytes
  arguments_or_empty raw =
      let args = lib.trim_space raw in
      if is_empty args || bytes_beq args (codes "null") then codes "{}" else args

  abbrev pub named : Bytes × Bytes → Option (Bytes × Bytes)
  named (name, args) = if is_empty name then none else some (name, args)

  -- The name and the arguments of the block whose content the text begins with; its close tag is at
  -- the index.
  unfoldable pub parse_block : Bytes → ℕ → Option (Bytes × Bytes)
  parse_block content close_idx = do
    brace ← index (codes "{") (take close_idx content)
    raw ← extract_json_object content brace
    call ← lib.json.unmarshal_call raw
    named call

  -- The loop of parseToolCallsFromText: the text is what is behind searchFrom, the first argument
  -- counts the rounds that are left, and the second the ids that were made.
  unfoldable pub parse_loop : ℕ → ℕ → Bytes → List ExtractedCall
  parse_loop zero k text = []
  parse_loop (suc n) k text = elim (index tool_call_open_tag text) [
    | none ↦ []
    | some i ↦
        let content = drop (i + length tool_call_open_tag) text in
        elim (index tool_call_close_tag content) [
          | none ↦ []
          | some j ↦
              let rest = drop (j + length tool_call_close_tag) content in
              elim (parse_block content j) [
                | none ↦ parse_loop n k rest
                | some (name, args) ↦
                    record {
                      id = generate_tool_call_id k;
                      name = name;
                      arguments = arguments_or_empty args;
                    }
                    ∷ parse_loop n (suc k) rest
              ]
        ]
  ]

  unfoldable pub parse_tool_calls_from_text : Bytes → List ExtractedCall
  parse_tool_calls_from_text text =
      let cleaned = strip_think_blocks text in parse_loop (suc (length cleaned)) 0 cleaned

  abbrev call_json : ExtractedCall → Json
  call_json c = map_json (
      (codes "id", string c.id)
      ∷ (codes "type", string (codes "function"))
      ∷ (
        codes "function",
        map_json ((codes "name", string c.name) ∷ (codes "arguments", string c.arguments) ∷ []),
      )
      ∷ [])

  abbrev pub calls_json : List ExtractedCall → List Json
  calls_json [] = []
  calls_json (c ∷ cs) = call_json c ∷ calls_json cs

  -- The message and the choice around it.
  unfoldable pub translate_message : Object → Object
  translate_message msg =
      let content = string_or_empty (lookup (codes "content") msg) in
      elim (parse_tool_calls_from_text content) [
        | [] ↦ put (codes "content") (string (strip_think_blocks content)) msg
        | c ∷ cs ↦
            put (codes "content") (string (strip_think_and_tool_calls lib.trim_space content))
              (put (codes "tool_calls") (list_json (calls_json (c ∷ cs))) msg)
      ]

  unfoldable pub translate_choice : Object → Object → Object
  translate_choice msg choice0 =
      let choice = put (codes "message") (map_json (translate_message msg)) choice0 in
      elim (parse_tool_calls_from_text (string_or_empty (lookup (codes "content") msg))) [
        | [] ↦ choice
        | c ∷ cs ↦ put (codes "finish_reason") (string (codes "tool_calls")) choice
      ]

  -- The object of the body, where its first choice has a message.
  unfoldable pub translate_response : Object → Option Object
  translate_response obj = elim (as_array (lookup (codes "choices") obj)) [
    | some (c ∷ choices) ↦ do
      choice0 ← as_object (some c)
      msg ← as_object (lookup (codes "message") choice0)
      some (
          put (codes "choices") (list_json (map_json (translate_choice msg choice0) ∷ choices)) obj)
    | _ ↦ none
  ]

  unfoldable pub translate_response_body : Bytes → Option Bytes
  translate_response_body body = elim (unmarshal_object lib.json body) [
    | none ↦ some body
    | some obj ↦ elim (translate_response obj) [
      | none ↦ some body
      | some obj' ↦ lib.json.marshal (map_json obj')
    ]
  ]

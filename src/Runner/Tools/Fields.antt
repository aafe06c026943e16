-- ===== src/Runner/Tools/Fields.antt =====
-- translateRequestBody: the fields of what it sends.
use gocoon.Common.{
  Bool, false, ◌||◌, Bytes, List, [], ◌∷◌, Option, none, some, ◌≡◌, inl, inr, refl, ap, subst, ◌∙◌,
  if◌then◌else◌, Option-cases, Bool-cases, arith,
}
use gocoon.Common.Options.{◌>>=◌}
use gocoon.Common.Assoc.{
  lookup, put, delete, bytes_eq, bytes_beq, bytes_beq_iff, lookup-delete, lookup-put,
}
use gocoon.Tl.Ids.{codes}
use gocoon.Runner.Json.{Json, boolean, Object, JsonLibrary, as_array, map_json, list_json}
use gocoon.Runner.Tools.{
  unsupported_fields, default_presence_penalty, build_tool_injection, rewritten_messages,
  delete_all, penalty_or_default, translate_object, unmarshal_object, translate_request_body,
}

abbrev pub is_one_of : Bytes → List Bytes → Bool
is_one_of k [] = false
is_one_of k (f ∷ fs) = bytes_beq f k || is_one_of k fs

lookup-delete_all :
    (k : Bytes) (fs : List Bytes) (obj : Object)
    → lookup k (delete_all fs obj) ≡ (if is_one_of k fs then none else lookup k obj)
lookup-delete_all k [] obj = refl
lookup-delete_all k (f ∷ fs) obj =
    ground (arith, lookup-delete_all k fs (delete f obj), lookup-delete f k obj)

abbrev pub or_default : Option Json → Json
or_default none = default_presence_penalty
or_default (some v) = v

lookup-penalty :
    (k : Bytes) (obj : Object)
    → lookup k (penalty_or_default obj) ≡ (
        if bytes_beq (codes "presence_penalty") k
        then some (or_default (lookup (codes "presence_penalty") obj))
        else lookup k obj)
unfolding penalty_or_default
lookup-penalty k obj = elim (Option-cases (lookup (codes "presence_penalty") obj)) [
  | inl e ↦
      rw (e, penalty_or_default)
        (lookup-put (codes "presence_penalty") k default_presence_penalty obj)
  | inr (v, e) ↦
      rw (e, penalty_or_default)
        (elim (Bool-cases (bytes_beq (codes "presence_penalty") k)) [
          | inl g ↦
              subst
                (λ j.
                  lookup j obj
                  ≡ (if bytes_beq (codes "presence_penalty") j then some v else lookup j obj))
                ((bytes_beq_iff (codes "presence_penalty") k).0 g) e
          | inr g ↦ rw g refl
        ])
]

-- The fields of what is sent: which key has which value.
module _ (lib : JsonLibrary) (injection : Bytes) (obj : Object) where
  abbrev pub field_after : Bytes → Option Json
  field_after k =
      if bytes_beq (codes "presence_penalty") k
      then some (or_default (lookup (codes "presence_penalty") obj))
      else if bytes_beq (codes "stream") k
      then some (boolean false)
      else if is_one_of k unsupported_fields
      then none
      else if bytes_beq (codes "messages") k
      then some (list_json (rewritten_messages lib injection obj))
      else lookup k obj

  abbrev messages : Json
  messages = list_json (rewritten_messages lib injection obj)

  abbrev with_messages : Object
  with_messages = put (codes "messages") messages obj

  abbrev with_stream : Object
  with_stream = put (codes "stream") (boolean false) (delete_all unsupported_fields with_messages)

  lookup-with_stream :
      (k : Bytes)
      → lookup k with_stream ≡ (
          if bytes_beq (codes "stream") k
          then some (boolean false)
          else if is_one_of k unsupported_fields
          then none
          else if bytes_beq (codes "messages") k
          then some messages
          else lookup k obj)
  lookup-with_stream k =
      lookup-put (codes "stream") k (boolean false) (delete_all unsupported_fields with_messages)
      ∙ ap (λ o. if bytes_beq (codes "stream") k then some (boolean false) else o)
          (lookup-delete_all k unsupported_fields with_messages
            ∙ ap (λ o. if is_one_of k unsupported_fields then none else o)
                (lookup-put (codes "messages") k messages obj))

  same_penalty :
      lookup (codes "presence_penalty") with_stream ≡ lookup (codes "presence_penalty") obj
  same_penalty = lookup-with_stream (codes "presence_penalty") ∙ unfold unsupported_fields in refl

  lookup-translate_object :
      (k : Bytes) → lookup k (translate_object lib injection obj) ≡ field_after k
  unfolding translate_object
  lookup-translate_object k =
      lookup-penalty k with_stream
      ∙ ap
          (λ o.
            if bytes_beq (codes "presence_penalty") k
            then some (or_default o)
            else lookup k with_stream)
          same_penalty
      ∙ ap
          (λ o.
            if bytes_beq (codes "presence_penalty") k
            then some (or_default (lookup (codes "presence_penalty") obj))
            else o)
          (lookup-with_stream k)

-- For a body that is an object with a non-empty array of tools, where the injection can be built,
-- what is marshalled has none of the unsupported fields, has stream false, the rewritten messages
-- and a presence_penalty, which is 1.5 unless the body had one, and every other field as it was.
pub translate_request_body_fields :
    (lib : JsonLibrary) (body injection : Bytes) (obj : Object) (tools t : Json) (ts : List Json)
    → unmarshal_object lib body ≡ some obj
    → lookup (codes "tools") obj ≡ some tools
    → as_array (some tools) ≡ some (t ∷ ts)
    → build_tool_injection lib (t ∷ ts) ≡ some injection
    → (obj' : Object) × (translate_request_body lib body ≡ lib.marshal (map_json obj'))
      × ((k : Bytes) → lookup k obj' ≡ field_after lib injection obj k)
unfolding translate_request_body
translate_request_body_fields lib body injection obj tools t ts h g e f = (
  translate_object lib injection obj,
  rw (h, translate_request_body) (rw (g, ◌>>=◌) (rw e (rw f refl))),
  lookup-translate_object lib injection obj,
)

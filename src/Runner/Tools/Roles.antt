-- ===== src/Runner/Tools/Roles.antt =====
-- translateRequestBody: what a message becomes by its role.
use gocoon.Common.{
  Bool, true, false, not, ◌&&◌, Bytes, List, [], ◌++◌, Option, none, some, ◌≡◌, inl, inr, refl, sym,
  ap, ◌∙◌, if◌then◌else◌, All, Option-cases, Bool-cases,
}
use mathlib.Core.Path.{fun_ext}
use gocoon.Common.Assoc.{lookup, put, bytes_eq, bytes_beq}
use gocoon.Tl.Ids.{codes}
use gocoon.Runner.Json.{
  Json, null, string, Object, JsonLibrary, as_object, string_or_empty, map_json,
}
use gocoon.Runner.Tools.{
  message_content_as_string, rewrite_tool_message, rewrite_assistant_tool_calls, rewrite_assistant,
  rewrite_object, rewrite_message,
}

abbrev pub role_of : Option Object → Bytes
role_of none = []
role_of (some obj) = string_or_empty (lookup (codes "role") obj)

abbrev pub is_system : Json → Bool
is_system m = bytes_beq (role_of (as_object (some m))) (codes "system")

abbrev pub NoSystem : List Json → Type 0
NoSystem = All λ m. is_system m ≡ false

abbrev pub content_of : Object → Bytes
content_of obj = message_content_as_string (lookup (codes "content") obj)

-- The message that gets the injection, at the end of its content.
abbrev pub appended : Bytes → Option Object → Json
appended injection none = null
appended injection (some obj) =
    map_json (put (codes "content") (string (content_of obj ++ injection)) obj)

abbrev pub injected : Bytes → Json → Json
injected injection m = appended injection (as_object (some m))

module _ (lib : JsonLibrary) where
  -- A message of an assistant, where rewriteAssistantToolCalls gives a new one or not.
  abbrev pub with_calls : Object → Option Object → Object
  with_calls obj none = obj
  with_calls obj (some rewritten) = rewritten

  -- What a message becomes by its role, which does not get the injection.
  abbrev pub passed_object : Object → Object
  passed_object obj =
      if bytes_beq (role_of (some obj)) (codes "assistant")
      then with_calls obj (rewrite_assistant_tool_calls lib obj)
      else if bytes_beq (role_of (some obj)) (codes "tool")
      then rewrite_tool_message obj
      else obj

  abbrev pub passed_as : Json → Option Object → Json
  passed_as m none = m
  passed_as m (some obj) = map_json (passed_object obj)

  abbrev pub passed : Json → Json
  passed m = passed_as m (as_object (some m))

  -- What the loop makes of a message behind the system message.
  abbrev pub kept_message : Json → Json
  kept_message m = (rewrite_message lib [] true m).0

  module _ (injection : Bytes) (obj : Object) where
    abbrev role : Bytes
    role = string_or_empty (lookup (codes "role") obj)

    object_other :
        (found : Bool)
        → bytes_beq role (codes "system") && not found ≡ false
        → rewrite_object lib injection found obj ≡ ((rewrite_object lib [] true obj).0, found)
    unfolding rewrite_object
    object_other found h = elim (Bool-cases (bytes_beq role (codes "system"))) [
      | inl e ↦ rw (h, rewrite_object) (rw e refl)
      | inr e ↦ rw (e, rewrite_object) refl
    ]

    object_system :
        bytes_beq role (codes "system") ≡ true
        → rewrite_object lib injection false obj
          ≡ (put (codes "content") (string (content_of obj ++ injection)) obj, true)
    unfolding rewrite_object
    object_system h = rw (h, rewrite_object) refl

  abbrev pub as_message : Object × Bool → Json × Bool
  as_message (obj, found) = (map_json obj, found)

  module _ (injection : Bytes) (found : Bool) (m : Json) where
    message_other : as_object (some m) ≡ none → rewrite_message lib injection found m ≡ (m, found)
    unfolding rewrite_message
    message_other e = rw (e, rewrite_message) refl

    message_object :
        (o : Object)
        → as_object (some m) ≡ some o
        → rewrite_message lib injection found m ≡ as_message (rewrite_object lib injection found o)
    unfolding rewrite_message
    message_object o e = rw (e, rewrite_message) refl

    role_at :
        {o : Option Object}
        → as_object (some m) ≡ o
        → bytes_beq (role_of o) (codes "system") ≡ is_system m
    role_at e = sym (ap (λ x. bytes_beq (role_of x) (codes "system")) e)

  -- A message behind the system message, or of another role.
  pub rewrite_kept :
      (injection : Bytes) (found : Bool) (m : Json)
      → is_system m && not found ≡ false
      → rewrite_message lib injection found m ≡ (kept_message m, found)
  rewrite_kept injection found m h = elim (Option-cases (as_object (some m))) [
    | inl e ↦
        message_other injection found m e ∙ sym (ap (λ p. (p.0, found)) (message_other [] true m e))
    | inr (o, e) ↦
        message_object injection found m o e
        ∙ ap as_message
            (object_other injection o found (ap (λ b. b && not found) (role_at [] true m e) ∙ h))
        ∙ sym (ap (λ p. (p.0, found)) (message_object [] true m o e))
  ]

  pub rewrite_injected :
      (injection : Bytes) (m : Json)
      → is_system m ≡ true
      → rewrite_message lib injection false m ≡ (injected injection m, true)
  rewrite_injected injection m h = elim (Option-cases (as_object (some m))) [
    | inl e ↦ cc (sym h ∙ sym (role_at [] true m e))
    | inr (o, e) ↦
        message_object injection false m o e
        ∙ ap as_message (object_system injection o (role_at [] true m e ∙ h))
        ∙ sym (ap (λ x. (appended injection x, true)) e)
  ]

  rewrite_assistant_cases :
      (obj : Object) (o : Option Object)
      → rewrite_assistant_tool_calls lib obj ≡ o
      → rewrite_assistant lib obj ≡ with_calls obj o
  unfolding rewrite_assistant
  rewrite_assistant_cases obj none h = rw (h, rewrite_assistant) refl
  rewrite_assistant_cases obj (some o) h = rw (h, rewrite_assistant) refl

  object_passed : (obj : Object) → (rewrite_object lib [] true obj).0 ≡ passed_object obj
  unfolding rewrite_object
  object_passed obj =
      let told =
        ap
          (λ x.
            if bytes_beq (role_of (some obj)) (codes "assistant")
            then x
            else if bytes_beq (role_of (some obj)) (codes "tool")
            then rewrite_tool_message obj
            else obj)
          (rewrite_assistant_cases obj (rewrite_assistant_tool_calls lib obj) refl) in
      elim (Bool-cases (bytes_beq (role_of (some obj)) (codes "system"))) [
        | inl e ↦ rw (e, rewrite_object) told
        | inr e ↦ rw (e, rewrite_object) told
      ]

  message_passed : (m : Json) → kept_message m ≡ passed m
  message_passed m = elim (Option-cases (as_object (some m))) [
    | inl e ↦ ap (λ p. p.0) (message_other [] true m e) ∙ sym (ap (passed_as m) e)
    | inr (o, e) ↦
        ap (λ p. p.0) (message_object [] true m o e)
        ∙ ap map_json (object_passed o)
        ∙ sym (ap (passed_as m) e)
  ]

  pub kept-passed : kept_message ≡ passed
  kept-passed = fun_ext message_passed

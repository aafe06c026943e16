-- ===== src/Runner/Tools/Messages.antt =====
-- translateRequestBody: the messages of what it sends.
use gocoon.Common.{
  true, false, Bytes, List, [], ◌∷◌, ◌++◌, ◌≡◌, ◌⊎◌, inl, inr, refl, ap, ◌∙◌, if◌then◌else◌, map,
  Bool-cases, arith,
}
use gocoon.Common.Assoc.{lookup, bytes_eq}
use gocoon.Tl.Ids.{codes}
use gocoon.Runner.Json.{Json, Object, JsonLibrary, as_array, map_json}
use gocoon.Runner.Tools.{rewrite_history_messages, rewritten_messages, or_empty, system_message}
use gocoon.Runner.Tools.Roles.{
  is_system, NoSystem, injected, passed, kept_message, rewrite_kept, rewrite_injected, kept-passed,
}

module _ (lib : JsonLibrary) where
  history_found :
      (injection : Bytes) (ms : List Json)
      → rewrite_history_messages lib injection true ms ≡ (map (kept_message lib) ms, true)
  unfolding rewrite_history_messages
  history_found injection [] = refl
  history_found injection (m ∷ ms) =
      rw (rewrite_kept lib injection true m (ground arith), rewrite_history_messages)
        (rw (history_found injection ms) refl)

  history_none :
      (injection : Bytes) (ms : List Json)
      → NoSystem ms
      → rewrite_history_messages lib injection false ms ≡ (map (kept_message lib) ms, false)
  unfolding rewrite_history_messages
  history_none injection [] h = refl
  history_none injection (m ∷ ms) h =
      rw (rewrite_kept lib injection false m (ground (arith, h.0)), rewrite_history_messages)
        (rw (history_none injection ms h.1) refl)

  history_split :
      (injection : Bytes) (pre post : List Json) (m : Json)
      → NoSystem pre
      → is_system m ≡ true
      → rewrite_history_messages lib injection false (pre ++ m ∷ post)
        ≡ (map (kept_message lib) pre ++ injected injection m ∷ map (kept_message lib) post, true)
  unfolding rewrite_history_messages
  history_split injection [] post m h g =
      rw (rewrite_injected lib injection m g, rewrite_history_messages)
        (rw (history_found injection post) refl)
  history_split injection (p ∷ pre) post m h g =
      rw (rewrite_kept lib injection false p (ground (arith, h.0)), rewrite_history_messages)
        (rw (history_split injection pre post m h.1 g) refl)

  -- Messages without a system message, or the first one of them.
  first_system :
      (ms : List Json)
      → NoSystem ms
        ⊎ ((pre : List Json) × (m : Json) × (post : List Json) × (ms ≡ pre ++ m ∷ post)
            × NoSystem pre
            × (is_system m ≡ true))
  first_system [] = inl tt
  first_system (m ∷ ms) = elim (Bool-cases (is_system m)) [
    | inl e ↦ inr ([], m, ms, refl, tt, e)
    | inr e ↦ elim (first_system ms) [
      | inl h ↦ inl (e, h)
      | inr (pre, p, post, same, h, g) ↦
          inr (m ∷ pre, p, post, ap (λ (x : List Json). m ∷ x) same, (e, h), g)
    ]
  ]

  -- The injection is appended to the content of the first system message, or stands in a new
  -- system message in front where there is none; every other message is in its place: one of an
  -- assistant is what rewriteAssistantToolCalls makes of it, where it has calls, one of a tool is
  -- what rewriteToolMessage makes of it, and all else is as it was.
  pub rewritten_messages_cases :
      (injection : Bytes) (obj : Object)
      → let msgs = or_empty (as_array (lookup (codes "messages") obj)) in
        let out = rewritten_messages lib injection obj in
        (NoSystem msgs × (out ≡ map_json (system_message injection) ∷ map (passed lib) msgs))
        ⊎ ((pre : List Json) × (m : Json) × (post : List Json) × (msgs ≡ pre ++ m ∷ post)
            × NoSystem pre
            × (is_system m ≡ true)
            × (out ≡ map (passed lib) pre ++ injected injection m ∷ map (passed lib) post))
  unfolding rewritten_messages
  rewritten_messages_cases injection obj =
      let msgs = or_empty (as_array (lookup (codes "messages") obj)) in
      elim (first_system msgs) [
        | inl h ↦ inl (
          h,
          ap (λ r. if r.1 then r.0 else map_json (system_message injection) ∷ r.0)
                (history_none injection msgs h)
              ∙ ap (λ f. map_json (system_message injection) ∷ map f msgs) (kept-passed lib),
        )
        | inr (pre, m, post, same, h, g) ↦ inr (
          pre,
          m,
          post,
          same,
          h,
          g,
          ap (λ r. if r.1 then r.0 else map_json (system_message injection) ∷ r.0)
                (ap (rewrite_history_messages lib injection false) same
                  ∙ history_split injection pre post m h g)
              ∙ ap (λ f. map f pre ++ injected injection m ∷ map f post) (kept-passed lib),
        )
      ]

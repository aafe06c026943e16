-- ===== src/Cocoon/Correlator/Closing.antt =====
-- What a shutdown leaves: failAll of pkg/cocoon/correlator.go.
use gocoon.Common.{
  ℕ, ◌≡◌, refl, sym, ap, ◌∙◌, inl, inr, Bool, true, false, Bytes, List, [], ◌∷◌, none, some, ◌==◌,
  if◌then◌else◌, All, All-mono, Bool-cases, arith,
}
use gocoon.Common.Int.{ℤ}
use gocoon.Common.Assoc.{lookup, int_eq, UniqueKeys-lookup}
use gocoon.Common.State.{err}
use gocoon.Cocoon.Errors.{Error, correlator_closed}
use gocoon.Cocoon.Correlator.{
  Channels, empty, send_error, PendingQuery, Correlator, update, register, deliver, fail, send_all,
  fail_all, gc_expired,
}
use gocoon.Cocoon.Correlator.Invariant.{IsWellFormed, deliver_unknown, fail_unknown}
use gocoon.Cocoon.Correlator.Loops.{gc_expired_closed}

-- The loop of `fail_all`: channels that are empty, or already have the error, end with the error.
module _ (e : Error) where
  abbrev pub failed : Channels
  failed = record { answer = none; error = some e }

  send_all_keeps :
      (es : List (ℤ × PendingQuery)) (f : ℕ → Channels) (s : ℕ)
      → f s ≡ failed
      → send_all e es f s ≡ failed
  unfolding send_all send_error
  send_all_keeps [] f s h = h
  send_all_keeps ((k, p) ∷ es) f s h =
      send_all_keeps es (update f p.slot (send_error e (f p.slot))) s (ground arith)

  send_all_hits :
      (es : List (ℤ × PendingQuery)) (f : ℕ → Channels) (k : ℤ) (pq : PendingQuery)
      → lookup k es ≡ some pq
      → f pq.slot ≡ empty
      → send_all e es f pq.slot ≡ failed
  unfolding send_all send_error lookup
  send_all_hits [] f k pq h g = cc
  send_all_hits ((j, p) ∷ es) f k pq h g = elim (Bool-cases (p.slot == pq.slot)) [
    | inl same ↦
        send_all_keeps es (update f p.slot (send_error e (f p.slot))) pq.slot (ground arith)
    | inr other ↦
        send_all_hits es (update f p.slot (send_error e (f p.slot))) k pq (ground arith)
          (ground arith)
  ]

pub fail_all_resolves :
    (e : Error) (c : Correlator) (k : ℤ) (pq : PendingQuery)
    → IsWellFormed c
    → lookup k c.pending ≡ some pq
    → let c' = fail_all e c in
      (c'.channels pq.slot ≡ record { answer = none; error = some e })
      × (c'.pending ≡ [])
      × ((id : ℤ) (timeout now : ℕ) → register id timeout now c' ≡ err correlator_closed c')
      × ((id : ℤ) (b : Bytes) → deliver id b c' ≡ (c', false))
      × ((id : ℤ) (e' : Error) → fail id e' c' ≡ (c', false))
      × ((now : ℕ) → gc_expired now c' ≡ (c', 0))
unfolding fail_all
fail_all_resolves e c k pq w h = (
  send_all_hits e c.pending c.channels k pq h (w.fresh k pq h).1,
  refl,
  λ id timeout now. unfold register in refl,
  λ id b. deliver_unknown id b (fail_all e c) (unfold lookup in refl),
  λ id e'. fail_unknown id e' (fail_all e c) (unfold lookup in refl),
  λ now. gc_expired_closed now (fail_all e c) refl,
)

-- Whether a pending query has the slot.
abbrev pub holds : ℕ → List (ℤ × PendingQuery) → Bool
holds s [] = false
holds s ((k, p) ∷ es) = let rest = holds s es in if p.slot == s then true else rest

holds-empty :
    (es : List (ℤ × PendingQuery)) (f : ℕ → Channels) (s : ℕ)
    → All (λ (k, p). f p.slot ≡ empty) es
    → holds s es ≡ true
    → f s ≡ empty
holds-empty [] f s all h = cc
holds-empty ((k, p) ∷ es) f s all h = elim (Bool-cases (p.slot == s)) [
  | inl e ↦ ground (arith, e, all.0)
  | inr e ↦ holds-empty es f s all.1 (ap (λ b. if b then true else holds s es) (sym e) ∙ h)
]

send_all_at :
    (e : Error) (es : List (ℤ × PendingQuery)) (f : ℕ → Channels) (s : ℕ)
    → (holds s es ≡ true → f s ≡ empty)
    → send_all e es f s ≡ (if holds s es then failed e else f s)
unfolding send_all send_error
send_all_at e [] f s h = refl
send_all_at e ((k, p) ∷ es) f s h = elim (Bool-cases (p.slot == s)) [
  | inl g ↦
      let was = h (ap (λ b. if b then true else holds s es) g) in
      send_all_keeps e es (update f p.slot (send_error e (f p.slot))) s (ground (arith, g, was))
      ∙ sym (ap (λ b. if (if b then true else holds s es) then failed e else f s) g)
  | inr g ↦
      let same : update f p.slot (send_error e (f p.slot)) s ≡ f s = ground (arith, g) in
      send_all_at e es (update f p.slot (send_error e (f p.slot))) s
        (λ x. same ∙ h (ap (λ b. if b then true else holds s es) g ∙ x))
      ∙ ap (λ x. if holds s es then failed e else x) same
      ∙ sym (ap (λ b. if (if b then true else holds s es) then failed e else f s) g)
]

-- After a shutdown of a well-formed correlator, also of one with nothing pending, the channels of
-- the pending queries have the error and no others are changed, nothing is pending, queries are
-- refused, answers and errors find no one and the collector does nothing.
pub fail_all_exact :
    (e : Error) (c : Correlator)
    → IsWellFormed c
    → let c' = fail_all e c in
      ((s : ℕ) → c'.channels s ≡ (if holds s c.pending then failed e else c.channels s))
      × (c'.pending ≡ [])
      × ((id : ℤ) (timeout now : ℕ) → register id timeout now c' ≡ err correlator_closed c')
      × ((id : ℤ) (b : Bytes) → deliver id b c' ≡ (c', false))
      × ((id : ℤ) (e' : Error) → fail id e' c' ≡ (c', false))
      × ((now : ℕ) → gc_expired now c' ≡ (c', 0))
unfolding fail_all
fail_all_exact e c w = (
  λ s. send_all_at e c.pending c.channels s (
      holds-empty c.pending c.channels s (
        All-mono (λ (k, p) h. (w.fresh k p h).1) c.pending (UniqueKeys-lookup c.pending w.unique))),
  refl,
  λ id timeout now. unfold register in refl,
  λ id b. deliver_unknown id b (fail_all e c) (unfold lookup in refl),
  λ id e'. fail_unknown id e' (fail_all e c) (unfold lookup in refl),
  λ now. gc_expired_closed now (fail_all e c) refl,
)

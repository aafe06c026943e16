-- ===== src/Cocoon/Correlator/Loops.antt =====
-- gcExpired and failAll, the calls that loop over all queries, keep a correlator well formed.
use gocoon.Common.{
  ℕ, ◌≡◌, refl, inl, inr, true, false, List, [], ◌∷◌, none, some, All, All-mono, ap, ◌∙◌, ◌≢◌,
  Bool-cases, arith,
}
use gocoon.Common.Int.{ℤ}
use gocoon.Common.Assoc.{
  lookup, delete, int_eq, int_beq_iff, UniqueKeys, UniqueKeys-lookup, lookup-delete,
}
use gocoon.Cocoon.Errors.{Error}
use gocoon.Cocoon.Correlator.{
  Channels, send_error, PendingQuery, Correlator, update, send_all, fail_all, is_expired, gc_entry,
  gc_loop, gc_expired,
}
use gocoon.Cocoon.Correlator.Invariant.{
  IsWellFormed, Single, resolve-IsWellFormed, send_error-Single,
}

pub gc_entry-IsWellFormed :
    (now : ℕ) (id : ℤ) (pq : PendingQuery) (c : Correlator) (n : ℕ)
    → IsWellFormed c
    → lookup id c.pending ≡ some pq
    → IsWellFormed (gc_entry now id pq (c, n)).0
unfolding gc_entry
gc_entry-IsWellFormed now id pq c n w h = elim (Bool-cases (is_expired now pq)) [
  | inl e ↦ rw e (resolve-IsWellFormed c w id pq _ h (send_error-Single _ _ (w.fresh id pq h).1))
  | inr e ↦ rw e w
]

-- The entries that a loop has not reached are still what their keys look up.
delete-All :
    (id : ℤ) (m es : List (ℤ × PendingQuery))
    → lookup id es ≡ none
    → All (λ (k, p). lookup k m ≡ some p) es
    → All (λ (k, p). lookup k (delete id m) ≡ some p) es
unfolding lookup
delete-All id m [] new all = tt
delete-All id m ((k, p) ∷ es) new all = (
  ground (arith, lookup-delete id k m, int_beq_iff id k, int_beq_iff k id, all.0),
  delete-All id m es (ground arith) all.1,
)

pub gc_entry-All :
    (now : ℕ) (id : ℤ) (pq : PendingQuery) (c : Correlator) (n : ℕ) (es : List (ℤ × PendingQuery))
    → lookup id es ≡ none
    → All (λ (k, p). lookup k c.pending ≡ some p) es
    → All (λ (k, p). lookup k (gc_entry now id pq (c, n)).0.pending ≡ some p) es
unfolding gc_entry
gc_entry-All now id pq c n es new all = elim (Bool-cases (is_expired now pq)) [
  | inl e ↦ rw e (delete-All id c.pending es new all)
  | inr e ↦ rw e all
]

gc_loop-IsWellFormed :
    (now : ℕ) (es : List (ℤ × PendingQuery)) (c : Correlator) (n : ℕ)
    → UniqueKeys es
    → All (λ (k, p). lookup k c.pending ≡ some p) es
    → IsWellFormed c
    → IsWellFormed (gc_loop now es (c, n)).0
unfolding gc_loop
gc_loop-IsWellFormed now [] c n u all w = w
gc_loop-IsWellFormed now ((id, pq) ∷ es) c n u all w =
    let (c', n') = gc_entry now id pq (c, n) in
    gc_loop-IsWellFormed now es c' n' u.1 (gc_entry-All now id pq c n es u.0 all.1)
      (gc_entry-IsWellFormed now id pq c n w all.0)

pub gc_expired_closed : (now : ℕ) (c : Correlator) → c.closed ≡ true → gc_expired now c ≡ (c, 0)
unfolding gc_expired
gc_expired_closed now c h = ground arith

pub gc_expired_open :
    (now : ℕ) (c : Correlator) → c.closed ≡ false → gc_expired now c ≡ gc_loop now c.pending (c, 0)
unfolding gc_expired
gc_expired_open now c h = ground arith

pub gc_expired-IsWellFormed :
    (now : ℕ) (c : Correlator) → IsWellFormed c → IsWellFormed (gc_expired now c).0
gc_expired-IsWellFormed now c w = elim (Bool-cases c.closed) [
  | inl h ↦ rw (gc_expired_closed now c h) w
  | inr h ↦
      rw (gc_expired_open now c h)
        (gc_loop-IsWellFormed now c.pending c 0 w.unique (UniqueKeys-lookup c.pending w.unique) w)
]

-- The loop of `fail_all` at one slot `s`.
module _ (e : Error) (s : ℕ) where
  pub send_all_other :
      (es : List (ℤ × PendingQuery)) (f : ℕ → Channels)
      → All (λ (k, p). p.slot ≢ s) es
      → send_all e es f s ≡ f s
  unfolding send_all
  send_all_other [] f all = refl
  send_all_other ((k, p) ∷ es) f all =
      send_all_other es (update f p.slot (send_error e (f p.slot))) all.1 ∙ ground (arith, all.0)

  send_all-Single :
      (es : List (ℤ × PendingQuery)) (f : ℕ → Channels)
      → All (λ (k, p). (f p.slot).answer ≡ none) es
      → Single (f s)
      → Single (send_all e es f s)
  unfolding send_all send_error
  send_all-Single [] f all h = h
  send_all-Single ((k, p) ∷ es) f all h =
      send_all-Single es (update f p.slot (send_error e (f p.slot)))
        (All-mono (λ (j, q) a. ground arith) es all.1) (ground (arith, all.0))

pub fail_all-IsWellFormed :
    (e : Error) (c : Correlator) → IsWellFormed c → IsWellFormed (fail_all e c)
unfolding fail_all lookup
fail_all-IsWellFormed e c w = record {
  unique = tt;
  fresh = λ k p h. cc;
  own = λ j k p q hj hk same. cc;
  once = λ s.
      send_all-Single e s c.pending c.channels
        (All-mono (λ (k, p) h. ap (λ (ch : Channels). ch.answer) (w.fresh k p h).1) c.pending
          entries)
        (w.once s);
  unused = λ s h.
      send_all_other e s c.pending c.channels
        (All-mono (λ (k, p) g. λ eq. absurd (omega (arith, (w.fresh k p g).0))) c.pending entries)
      ∙ w.unused s h;
}
  where
    entries : All (λ (k, p). lookup k c.pending ≡ some p) c.pending
    entries = UniqueKeys-lookup c.pending w.unique

-- ===== src/Cocoon/Correlator/Expiry.antt =====
-- What the collector removes, and what it tells the callers.
use gocoon.Common.{
  ℕ, ◌+◌, ◌≡◌, refl, ◌∙◌, true, false, List, [], ◌∷◌, Option, none, some, ◌==◌, if◌then◌else◌, ◌&&◌,
  inl, inr, Bool-cases, arith,
}
use gocoon.Common.Int.{ℤ}
use gocoon.Common.Assoc.{lookup, int_eq, int_beq_iff, UniqueKeys, lookup-delete}
use gocoon.Cocoon.Errors.{wrapped, request_timeout}
use gocoon.Cocoon.Correlator.{
  Channels, empty, send_error, PendingQuery, Correlator, is_expired, gc_entry, gc_loop, gc_expired,
}
use gocoon.Cocoon.Correlator.Invariant.{IsWellFormed}
use gocoon.Cocoon.Correlator.Loops.{gc_expired_open, gc_expired-IsWellFormed}

-- What becomes of an entry at time `now`.
abbrev pub surviving : ℕ → Option PendingQuery → Option PendingQuery
surviving now none = none
surviving now (some pq) = if is_expired now pq then none else some pq

-- What a loop leaves of `d` that comes to an entry `o`.
abbrev left_over : ℕ → Option PendingQuery → Option PendingQuery → Option PendingQuery
left_over now none d = d
left_over now (some pq) d = if is_expired now pq then none else d

abbrev pub count_expired : ℕ → List (ℤ × PendingQuery) → ℕ
count_expired now [] = 0
count_expired now ((k, pq) ∷ es) = (if is_expired now pq then 1 else 0) + count_expired now es

gc_loop-lookup :
    (now : ℕ) (es : List (ℤ × PendingQuery)) (c : Correlator) (n : ℕ) (j : ℤ)
    → UniqueKeys es
    → lookup j (gc_loop now es (c, n)).0.pending ≡ left_over now (lookup j es) (lookup j c.pending)
unfolding gc_loop gc_entry lookup
gc_loop-lookup now [] c n j u = refl
gc_loop-lookup now ((k, p) ∷ es) c n j u =
    let (c', n') = gc_entry now k p (c, n) in
    gc_loop-lookup now es c' n' j u.1
    ∙ ground (arith, lookup-delete k j c.pending, int_beq_iff k j, u.0)

gc_loop-count :
    (now : ℕ) (es : List (ℤ × PendingQuery)) (c : Correlator) (n : ℕ)
    → (gc_loop now es (c, n)).1 ≡ n + count_expired now es
unfolding gc_loop gc_entry
gc_loop-count now [] c n = omega arith
gc_loop-count now ((k, p) ∷ es) c n =
    let (c', n') = gc_entry now k p (c, n) in gc_loop-count now es c' n' ∙ ground arith

abbrev pub timed_out : Channels
timed_out = record { answer = none; error = some (wrapped request_timeout) }

gc_loop_keeps :
    (now : ℕ) (es : List (ℤ × PendingQuery)) (c : Correlator) (n s : ℕ)
    → c.channels s ≡ timed_out
    → (gc_loop now es (c, n)).0.channels s ≡ timed_out
unfolding gc_loop gc_entry send_error
gc_loop_keeps now [] c n s h = h
gc_loop_keeps now ((k, p) ∷ es) c n s h =
    let (c', n') = gc_entry now k p (c, n) in gc_loop_keeps now es c' n' s (ground arith)

gc_loop_hits :
    (now : ℕ) (es : List (ℤ × PendingQuery)) (c : Correlator) (n : ℕ) (k : ℤ) (pq : PendingQuery)
    → lookup k es ≡ some pq
    → is_expired now pq ≡ true
    → c.channels pq.slot ≡ empty
    → (gc_loop now es (c, n)).0.channels pq.slot ≡ timed_out
unfolding gc_loop gc_entry send_error lookup
gc_loop_hits now [] c n k pq h x g = cc
gc_loop_hits now ((j, p) ∷ es) c n k pq h x g =
    let (c', n') = gc_entry now j p (c, n) in
    elim (Bool-cases (is_expired now p && (p.slot == pq.slot))) [
      | inl hit ↦ gc_loop_keeps now es c' n' pq.slot (ground arith)
      | inr miss ↦ gc_loop_hits now es c' n' k pq (ground arith) x (ground arith)
    ]

-- On an open, well-formed correlator the collector removes the queries whose deadline is past and
-- no other, tells each of them of the timeout, leaves the channels of the others empty, and
-- returns how many it removed.
pub gc_expired_exact :
    (now : ℕ) (c : Correlator) (k : ℤ) (pq : PendingQuery)
    → IsWellFormed c
    → c.closed ≡ false
    → lookup k c.pending ≡ some pq
    → let (c', count) = gc_expired now c in
      ((j : ℤ) → lookup j c'.pending ≡ surviving now (lookup j c.pending))
      × (c'.channels pq.slot ≡ (if is_expired now pq then timed_out else empty))
      × (count ≡ count_expired now c.pending)
gc_expired_exact now c k pq w alive here = (
  λ j.
      rw (gc_expired_open now c alive)
        (gc_loop-lookup now c.pending c 0 j w.unique ∙ survives (lookup j c.pending)),
  elim (Bool-cases (is_expired now pq)) [
    | inl x ↦
        rw (x, gc_expired_open now c alive)
          (gc_loop_hits now c.pending c 0 k pq here x (w.fresh k pq here).1)
    | inr x ↦ rw x ((gc_expired-IsWellFormed now c w).fresh k pq (stays x)).1
  ],
  rw (gc_expired_open now c alive) (gc_loop-count now c.pending c 0 ∙ omega arith),
)
  where
    survives : (o : Option PendingQuery) → left_over now o o ≡ surviving now o
    survives none = refl
    survives (some p) = refl

    stays : is_expired now pq ≡ false → lookup k (gc_expired now c).0.pending ≡ some pq
    stays x =
        rw (gc_expired_open now c alive)
          (gc_loop-lookup now c.pending c 0 k w.unique ∙ rw here (rw x))

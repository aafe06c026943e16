-- ===== src/Cocoon/Correlator/Shutdown.antt =====
-- What becomes of a query along a run, and what a closed correlator holds.
use gocoon.Common.{
  ℕ, ◌+◌, Bool, ◌≡◌, ◌≢◌, ◌⊎◌, refl, sym, ap, ◌∙◌, inl, inr, true, false, Bytes, List, [], ◌∷◌,
  none, some, if◌then◌else◌, Option-cases, Bool-cases, arith,
}
use gocoon.Common.Int.{ℤ}
use gocoon.Common.Assoc.{lookup, delete, int_eq, int_beq, int_beq_iff, lookup-delete, lookup-put}
use gocoon.Common.State.{err}
use gocoon.Cocoon.Errors.{Error, correlator_closed}
use gocoon.Cocoon.Correlator.{
  empty, send_error, PendingQuery, Correlator, register, deliver, fail, fail_all, gc_entry, gc_loop,
  gc_expired, is_expired, new_correlator,
}
use gocoon.Cocoon.Correlator.Invariant.{
  IsWellFormed, deliver_found, deliver_unknown, fail_found, fail_unknown, register-eq-ok,
}
use gocoon.Cocoon.Correlator.Loops.{gc_expired_closed, gc_expired_open}
use gocoon.Cocoon.Correlator.Delivery.{
  Step, Reach, register_step, deliver_step, fail_step, fail_all_step, gc_step, here, step,
  Reach-IsWellFormed, Reach-keeps, deliver_routes,
}
use gocoon.Cocoon.Correlator.Closing.{fail_all_resolves}
use gocoon.Cocoon.Correlator.Expiry.{gc_expired_exact, surviving, timed_out}

-- Where a query is that was pending: still there, or its channels hold something.
abbrev pub Tracked : ℤ → PendingQuery → Correlator → Type 0
Tracked k pq c = (lookup k c.pending ≡ some pq) ⊎ (c.channels pq.slot ≢ empty)

-- The call that takes the query away fills its channels.
deliver_settles :
    (id : ℤ) (b : Bytes) (c : Correlator) (pq : PendingQuery)
    → IsWellFormed c
    → lookup id c.pending ≡ some pq
    → (deliver id b c).0.channels pq.slot ≢ empty
deliver_settles id b c pq w at h = ground (arith, h, (deliver_routes id b c pq w at).1 pq.slot)

fail_settles :
    (id : ℤ) (e : Error) (c : Correlator) (pq : PendingQuery)
    → IsWellFormed c
    → lookup id c.pending ≡ some pq
    → (fail id e c).0.channels pq.slot ≢ empty
unfolding send_error
fail_settles id e c pq w at h = ground (
  arith,
  sym (ap (λ (r : Correlator × Bool). r.0.channels pq.slot) (fail_found id e c pq at)) ∙ h,
  (w.fresh id pq at).1,
)

module _ (id k : ℤ) (pq : PendingQuery) (c : Correlator) (at : lookup k c.pending ≡ some pq) where
  same_key : int_beq id k ≡ true → lookup id c.pending ≡ some pq
  same_key e = ap (λ j. lookup j c.pending) ((int_beq_iff id k).0 e) ∙ at

  other_key : int_beq id k ≡ false → lookup k (delete id c.pending) ≡ some pq
  other_key e = ground (arith, lookup-delete id k c.pending, e, at)

Step-Tracked :
    {c d : Correlator} (k : ℤ) (pq : PendingQuery)
    → IsWellFormed c
    → Step c d
    → lookup k c.pending ≡ some pq
    → Tracked k pq d
Step-Tracked {c} k pq w (register_step {c'} id timeout now s h) at =
    let (new, _, e) = register-eq-ok id timeout now c c' s h in
    inl (
      rw e (
        ground (
          arith,
          lookup-put id k (record { slot = c.next_slot; deadline = now + timeout }) c.pending,
          new,
          at,
          int_beq_iff id k,
        )))
Step-Tracked {c} k pq w (deliver_step id b) at = elim (Bool-cases (int_beq id k)) [
  | inl e ↦ inr (deliver_settles id b c pq w (same_key id k pq c at e))
  | inr e ↦ elim (Option-cases (lookup id c.pending)) [
    | inl h ↦ inl (rw (deliver_unknown id b c h) at)
    | inr (p, h) ↦ inl (rw (deliver_found id b c p h) (other_key id k pq c at e))
  ]
]
Step-Tracked {c} k pq w (fail_step id x) at = elim (Bool-cases (int_beq id k)) [
  | inl e ↦ inr (fail_settles id x c pq w (same_key id k pq c at e))
  | inr e ↦ elim (Option-cases (lookup id c.pending)) [
    | inl h ↦ inl (rw (fail_unknown id x c h) at)
    | inr (p, h) ↦ inl (rw (fail_found id x c p h) (other_key id k pq c at e))
  ]
]
Step-Tracked {c} k pq w (fail_all_step x) at =
    inr (λ h. cc (sym h ∙ (fail_all_resolves x c k pq w at).0))
Step-Tracked {c} k pq w (gc_step now) at = elim (Bool-cases c.closed) [
  | inl h ↦ inl (rw (gc_expired_closed now c h) at)
  | inr h ↦
      let exact = gc_expired_exact now c k pq w h at in
      elim (Bool-cases (is_expired now pq)) [
        | inl x ↦ inr (λ g. cc (sym g ∙ exact.1 ∙ ap (λ b. if b then timed_out else empty) x))
        | inr x ↦ inl (exact.0 k ∙ ap (surviving now) at ∙ ap (λ b. if b then none else some pq) x)
      ]
]

pub Reach-Tracked :
    {c d : Correlator} (k : ℤ) (pq : PendingQuery)
    → IsWellFormed c
    → Reach c d
    → lookup k c.pending ≡ some pq
    → Tracked k pq d
Reach-Tracked k pq w here at = inl at
Reach-Tracked k pq w (step {d} r st) at = elim (Reach-Tracked k pq w r at) [
  | inl there ↦ Step-Tracked k pq (Reach-IsWellFormed w r) st there
  | inr full ↦
      inr (λ h. full (sym (Reach-keeps pq.slot (Reach-IsWellFormed w r) (step here st) full) ∙ h))
]

-- A closed correlator has no query.
abbrev pub IsQuiet : Correlator → Type 0
IsQuiet c = c.closed ≡ true → c.pending ≡ []

gc_loop_closed :
    (now : ℕ) (es : List (ℤ × PendingQuery)) (c : Correlator) (n : ℕ)
    → (gc_loop now es (c, n)).0.closed ≡ c.closed
unfolding gc_loop gc_entry
gc_loop_closed now [] c n = refl
gc_loop_closed now ((k, p) ∷ es) c n =
    let (c', n') = gc_entry now k p (c, n) in gc_loop_closed now es c' n' ∙ ground arith

pub gc_expired_same : (now : ℕ) (c : Correlator) → (gc_expired now c).0.closed ≡ c.closed
gc_expired_same now c = elim (Bool-cases c.closed) [
  | inl h ↦ rw (gc_expired_closed now c h) refl
  | inr h ↦ rw (gc_expired_open now c h) (gc_loop_closed now c.pending c 0)
]

pub deliver_same : (id : ℤ) (b : Bytes) (c : Correlator) → (deliver id b c).0.closed ≡ c.closed
unfolding deliver
deliver_same id b c = ground arith

pub fail_same : (id : ℤ) (e : Error) (c : Correlator) → (fail id e c).0.closed ≡ c.closed
unfolding fail
fail_same id e c = ground arith

pub register_refused :
    (id : ℤ) (timeout now : ℕ) (c : Correlator)
    → c.closed ≡ true
    → register id timeout now c ≡ err correlator_closed c
unfolding register
register_refused id timeout now c h = rw h refl

Step-IsQuiet : {c d : Correlator} → IsQuiet c → Step c d → IsQuiet d
unfolding lookup
Step-IsQuiet {c} q (register_step {c'} id timeout now s h) shut =
    let (_, _, e) = register-eq-ok id timeout now c c' s h in
    let was : c.closed ≡ true = sym (ap (λ (d : Correlator). d.closed) e) ∙ shut in
    cc (sym h ∙ register_refused id timeout now c was)
Step-IsQuiet {c} q (deliver_step id b) shut =
    let empty_map = q (sym (deliver_same id b c) ∙ shut) in
    ap (λ (r : Correlator × Bool). r.0.pending) (deliver_unknown id b c (ap (lookup id) empty_map))
    ∙ empty_map
Step-IsQuiet {c} q (fail_step id x) shut =
    let empty_map = q (sym (fail_same id x c) ∙ shut) in
    ap (λ (r : Correlator × Bool). r.0.pending) (fail_unknown id x c (ap (lookup id) empty_map))
    ∙ empty_map
Step-IsQuiet {c} q (fail_all_step x) shut = unfold fail_all in refl
Step-IsQuiet {c} q (gc_step now) shut =
    let was = sym (gc_expired_same now c) ∙ shut in
    ap (λ (r : Correlator × ℕ). r.0.pending) (gc_expired_closed now c was) ∙ q was

pub Reach-IsQuiet : {c d : Correlator} → IsQuiet c → Reach c d → IsQuiet d
Reach-IsQuiet q here = q
Reach-IsQuiet q (step r st) = Step-IsQuiet (Reach-IsQuiet q r) st

-- A refused registration changes nothing.
pub register-eq-err :
    (id : ℤ) (timeout now : ℕ) (c c' : Correlator) (e : Error)
    → register id timeout now c ≡ err e c'
    → c' ≡ c
unfolding register
register-eq-err id timeout now c c' e h = ground arith

pub new_correlator-IsQuiet : IsQuiet new_correlator
unfolding new_correlator
new_correlator-IsQuiet h = refl

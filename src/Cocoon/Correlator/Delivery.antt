-- ===== src/Cocoon/Correlator/Delivery.antt =====
-- Runs of a correlator, and where answers and errors end up.
use gocoon.Common.{
  ℕ, ◌≡◌, ◌≢◌, refl, sym, ap, ◌∙◌, inl, inr, true, false, Bytes, List, [], ◌∷◌, none, some, ◌==◌,
  if◌then◌else◌, All, All-mono, Option-cases, Bool-cases, arith,
}
use gocoon.Common.Int.{ℤ}
use gocoon.Common.Assoc.{lookup, int_eq, int_beq, int_beq_iff, UniqueKeys-lookup, lookup-delete}
use gocoon.Common.State.{ok}
use gocoon.Cocoon.Errors.{Error}
use gocoon.Cocoon.Correlator.{
  Channels, empty, send_answer, PendingQuery, Correlator, update, new_correlator, register, deliver,
  fail, fail_all, gc_entry, gc_loop, gc_expired,
}
use gocoon.Cocoon.Correlator.Invariant.{
  IsWellFormed, new_correlator-IsWellFormed, deliver-IsWellFormed, fail-IsWellFormed,
  register-IsWellFormed, deliver_found, deliver_unknown, fail_found, fail_unknown, register-eq-ok,
}
use gocoon.Cocoon.Correlator.Loops.{
  gc_expired-IsWellFormed, fail_all-IsWellFormed, gc_expired_closed, gc_expired_open,
  send_all_other,
}

-- One call, by whichever goroutine holds the lock.
pub data Step (c : Correlator) : Correlator → Type 0 where
  register_step :
      {c' : Correlator} (id : ℤ) (timeout now s : ℕ)
      → register id timeout now c ≡ ok s c'
      → Step c c'
  deliver_step : (id : ℤ) (b : Bytes) → Step c (deliver id b c).0
  fail_step : (id : ℤ) (e : Error) → Step c (fail id e c).0
  fail_all_step : (e : Error) → Step c (fail_all e c)
  gc_step : (now : ℕ) → Step c (gc_expired now c).0

pub data Reach (c : Correlator) : Correlator → Type 0 where
  here : Reach c c
  step : {d d' : Correlator} → Reach c d → Step d d' → Reach c d'

Step-IsWellFormed : {c d : Correlator} → IsWellFormed c → Step c d → IsWellFormed d
Step-IsWellFormed {c} w (register_step {c'} id timeout now s h) =
    register-IsWellFormed id timeout now c c' s w h
Step-IsWellFormed {c} w (deliver_step id b) = deliver-IsWellFormed id b c w
Step-IsWellFormed {c} w (fail_step id e) = fail-IsWellFormed id e c w
Step-IsWellFormed {c} w (fail_all_step e) = fail_all-IsWellFormed e c w
Step-IsWellFormed {c} w (gc_step now) = gc_expired-IsWellFormed now c w

pub Reach-IsWellFormed : {c d : Correlator} → IsWellFormed c → Reach c d → IsWellFormed d
Reach-IsWellFormed w here = w
Reach-IsWellFormed w (step r st) = Step-IsWellFormed (Reach-IsWellFormed w r) st

-- Every state that a new correlator reaches is well formed: ids are unique, a pending query's
-- channels are its own and still empty, no query gets both an answer and an error, and unused
-- channels are empty.
pub new_correlator-Reach-IsWellFormed : {c : Correlator} → Reach new_correlator c → IsWellFormed c
new_correlator-Reach-IsWellFormed r = Reach-IsWellFormed new_correlator-IsWellFormed r

-- A slot with something in it is no pending query's.
not_pending :
    (c : Correlator) (s : ℕ)
    → IsWellFormed c
    → c.channels s ≢ empty
    → (k : ℤ) (p : PendingQuery) → lookup k c.pending ≡ some p
    → p.slot ≢ s
not_pending c s w full k p h e = full (ap c.channels (sym e) ∙ (w.fresh k p h).1)

update_other : (f : ℕ → Channels) (t s : ℕ) (ch : Channels) → t ≢ s → update f t ch s ≡ f s
update_other f t s ch h = ground arith

gc_loop_other :
    (now : ℕ) (es : List (ℤ × PendingQuery)) (c : Correlator) (n s : ℕ)
    → All (λ (k, p). p.slot ≢ s) es
    → (gc_loop now es (c, n)).0.channels s ≡ c.channels s
unfolding gc_loop gc_entry
gc_loop_other now [] c n s all = refl
gc_loop_other now ((k, p) ∷ es) c n s all =
    let (c', n') = gc_entry now k p (c, n) in
    gc_loop_other now es c' n' s all.1 ∙ ground (arith, all.0)

Step-keeps :
    {c d : Correlator} (s : ℕ)
    → IsWellFormed c
    → Step c d
    → c.channels s ≢ empty
    → d.channels s ≡ c.channels s
Step-keeps {c} s w (register_step {c'} id timeout now t h) full =
    let (new, _, e) = register-eq-ok id timeout now c c' t h in
    rw e (update_other c.channels c.next_slot s empty (λ same. full (w.unused s (omega arith))))
Step-keeps {c} s w (deliver_step id b) full = elim (Option-cases (lookup id c.pending)) [
  | inl h ↦ rw (deliver_unknown id b c h)
  | inr (pq, h) ↦
      rw (deliver_found id b c pq h)
        (update_other c.channels pq.slot s _ (not_pending c s w full id pq h))
]
Step-keeps {c} s w (fail_step id e) full = elim (Option-cases (lookup id c.pending)) [
  | inl h ↦ rw (fail_unknown id e c h)
  | inr (pq, h) ↦
      rw (fail_found id e c pq h)
        (update_other c.channels pq.slot s _ (not_pending c s w full id pq h))
]
Step-keeps {c} s w (fail_all_step e) full =
    unfold fail_all in
    send_all_other e s c.pending c.channels (
      All-mono (λ (k, p) h. not_pending c s w full k p h) c.pending
        (UniqueKeys-lookup c.pending w.unique))
Step-keeps {c} s w (gc_step now) full = elim (Bool-cases c.closed) [
  | inl h ↦ rw (gc_expired_closed now c h)
  | inr h ↦ rw (gc_expired_open now c h) (
      gc_loop_other now c.pending c 0 s (
        All-mono (λ (k, p) g. not_pending c s w full k p g) c.pending
          (UniqueKeys-lookup c.pending w.unique)))
]

-- From a well-formed correlator on, a query's channels that hold an answer or an error hold the
-- same for good, whatever calls follow.
pub Reach-keeps :
    {c d : Correlator} (s : ℕ)
    → IsWellFormed c
    → Reach c d
    → c.channels s ≢ empty
    → d.channels s ≡ c.channels s
Reach-keeps s w here full = refl
Reach-keeps s w (step {d} r st) full =
    let same = Reach-keeps s w r full in
    Step-keeps s (Reach-IsWellFormed w r) st (λ e. full (sym same ∙ e)) ∙ same

-- An answer for a pending query of a well-formed correlator is taken: it lands in the channels of
-- the query that carries its id, and those alone change; that query is no longer pending, and all
-- others still are; a second answer, or an error, for the same id is then dropped.
pub deliver_routes :
    (id : ℤ) (b : Bytes) (c : Correlator) (pq : PendingQuery)
    → IsWellFormed c
    → lookup id c.pending ≡ some pq
    → let (c', found) = deliver id b c in
      (found ≡ true)
      × ((s : ℕ)
          → c'.channels s
            ≡ (if s == pq.slot then record { answer = some b; error = none } else c.channels s))
      × ((j : ℤ) → lookup j c'.pending ≡ (if int_beq id j then none else lookup j c.pending))
      × ((b' : Bytes) → deliver id b' c' ≡ (c', false))
      × ((e : Error) → fail id e c' ≡ (c', false))
deliver_routes id b c pq w h =
    let gone = lookup-delete id id c.pending in
    rw (deliver_found id b c pq h) (
      refl,
      λ s. unfold send_answer in ground (arith, (w.fresh id pq h).1),
      λ j. lookup-delete id j c.pending,
      λ b'. deliver_unknown id b' _ (ground (arith, gone, int_beq_iff id id)),
      λ e. fail_unknown id e _ (ground (arith, gone, int_beq_iff id id)),
    )

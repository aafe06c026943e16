-- ===== src/Cocoon/Correlator/Invariant.antt =====
-- Well-formed correlators, and that register, deliver and fail keep them so.
use gocoon.Common.{
  ℕ, suc, ◌+◌, ◌≤◌, ◌<◌, ◌≡◌, refl, ◌⊎◌, inl, inr, true, false, Bytes, none, some, Option-cases,
  arith,
}
use gocoon.Common.Int.{ℤ}
use gocoon.Common.Assoc.{
  lookup, delete, put, int_eq, int_beq_iff, UniqueKeys, lookup-delete, lookup-put,
  delete-UniqueKeys, put-UniqueKeys,
}
use gocoon.Common.State.{ok}
use gocoon.Cocoon.Errors.{Error}
use gocoon.Cocoon.Correlator.{
  Channels, empty, send_answer, send_error, PendingQuery, Correlator, update, new_correlator,
  register, deliver, fail,
}

-- Pending queries have slots of their own with nothing in them, no slot holds both an answer and an
-- error, and slots that are not given out are empty.
pub record IsWellFormed (c : Correlator) : Type 0 where
  pub unique : UniqueKeys c.pending
  pub fresh :
      (k : ℤ) (pq : PendingQuery)
      → lookup k c.pending ≡ some pq
      → (pq.slot < c.next_slot) × (c.channels pq.slot ≡ empty)
  pub own :
      (j k : ℤ) (p q : PendingQuery)
      → lookup j c.pending ≡ some p
      → lookup k c.pending ≡ some q
      → p.slot ≡ q.slot
      → j ≡ k
  pub once : (s : ℕ) → ((c.channels s).answer ≡ none) ⊎ ((c.channels s).error ≡ none)
  pub unused : (s : ℕ) → c.next_slot ≤ s → c.channels s ≡ empty

pub new_correlator-IsWellFormed : IsWellFormed new_correlator
unfolding new_correlator lookup
new_correlator-IsWellFormed = record {
  unique = tt;
  fresh = λ k pq h. cc;
  own = λ j k p q h. cc;
  once = λ s. inl refl;
  unused = λ s h. refl;
}

-- What one channel holds at most.
abbrev pub Single : Channels → Type 0
Single ch = (ch.answer ≡ none) ⊎ (ch.error ≡ none)

-- A pending query leaves with channels that hold one thing.
module _ (c : Correlator) (w : IsWellFormed c) (id : ℤ) (pq : PendingQuery) (ch : Channels) where
  abbrev pub resolve : Correlator
  resolve = record c { pending = delete id c.pending; channels = update c.channels pq.slot ch }

  pub resolve-IsWellFormed : lookup id c.pending ≡ some pq → Single ch → IsWellFormed resolve
  resolve-IsWellFormed here single = record {
    unique = delete-UniqueKeys id c.pending w.unique;
    fresh = λ k p h.
        ground (
          arith,
          lookup-delete id k c.pending,
          w.fresh k p,
          w.own id k pq p here,
          int_beq_iff id k,
        );
    own = λ j k p q hj hk.
        ground (arith, lookup-delete id j c.pending, lookup-delete id k c.pending, w.own j k p q);
    once = λ s. ground (arith, w.once s, single);
    unused = λ s h. ground (arith, w.unused s h, w.fresh id pq here);
  }

send_answer-Single : (b : Bytes) (ch : Channels) → ch ≡ empty → Single (send_answer b ch)
unfolding send_answer
send_answer-Single b ch h = ground arith

pub send_error-Single : (e : Error) (ch : Channels) → ch ≡ empty → Single (send_error e ch)
unfolding send_error
send_error-Single e ch h = ground arith

pub deliver_found :
    (id : ℤ) (b : Bytes) (c : Correlator) (pq : PendingQuery)
    → lookup id c.pending ≡ some pq
    → deliver id b c ≡ (
      record c {
        pending = delete id c.pending;
        channels = update c.channels pq.slot (send_answer b (c.channels pq.slot));
      },
      true,
    )
unfolding deliver
deliver_found id b c pq h = rw (h, deliver)

pub deliver_unknown :
    (id : ℤ) (b : Bytes) (c : Correlator) → lookup id c.pending ≡ none → deliver id b c ≡ (c, false)
unfolding deliver
deliver_unknown id b c h = rw (h, deliver)

pub fail_found :
    (id : ℤ) (e : Error) (c : Correlator) (pq : PendingQuery)
    → lookup id c.pending ≡ some pq
    → fail id e c ≡ (
      record c {
        pending = delete id c.pending;
        channels = update c.channels pq.slot (send_error e (c.channels pq.slot));
      },
      true,
    )
unfolding fail
fail_found id e c pq h = rw (h, fail)

pub fail_unknown :
    (id : ℤ) (e : Error) (c : Correlator) → lookup id c.pending ≡ none → fail id e c ≡ (c, false)
unfolding fail
fail_unknown id e c h = rw (h, fail)

pub deliver-IsWellFormed :
    (id : ℤ) (b : Bytes) (c : Correlator) → IsWellFormed c → IsWellFormed (deliver id b c).0
deliver-IsWellFormed id b c w = elim (Option-cases (lookup id c.pending)) [
  | inl h ↦ rw (deliver_unknown id b c h) w
  | inr (pq, h) ↦
      rw (deliver_found id b c pq h)
        (resolve-IsWellFormed c w id pq _ h (send_answer-Single b _ (w.fresh id pq h).1))
]

pub fail-IsWellFormed :
    (id : ℤ) (e : Error) (c : Correlator) → IsWellFormed c → IsWellFormed (fail id e c).0
fail-IsWellFormed id e c w = elim (Option-cases (lookup id c.pending)) [
  | inl h ↦ rw (fail_unknown id e c h) w
  | inr (pq, h) ↦
      rw (fail_found id e c pq h)
        (resolve-IsWellFormed c w id pq _ h (send_error-Single e _ (w.fresh id pq h).1))
]

-- A new query takes the next slot.
abbrev pub added : Correlator → ℤ → ℕ → Correlator
added c id deadline = record c {
  pending = put id (record { slot = c.next_slot; deadline = deadline }) c.pending;
  next_slot = suc c.next_slot;
  channels = update c.channels c.next_slot empty;
}

module _ (c : Correlator) (w : IsWellFormed c) (id : ℤ) (deadline : ℕ) where
  added-IsWellFormed : lookup id c.pending ≡ none → IsWellFormed (added c id deadline)
  added-IsWellFormed new = record {
    unique = put-UniqueKeys id _ c.pending w.unique;
    fresh = λ k p h. ground (
      arith,
      lookup-put id k (record { slot = c.next_slot; deadline = deadline }) c.pending,
      w.fresh k p,
    );
    own = λ j k p q hj hk same. ground (
      arith,
      lookup-put id j (record { slot = c.next_slot; deadline = deadline }) c.pending,
      lookup-put id k (record { slot = c.next_slot; deadline = deadline }) c.pending,
      int_beq_iff id j,
      int_beq_iff id k,
      w.own j k p q,
      w.fresh j p,
      w.fresh k q,
    );
    once = λ s. ground (arith, w.once s);
    unused = λ s h. ground (arith, w.unused s);
  }

pub register_adds :
    (id : ℤ) (timeout now : ℕ) (c : Correlator)
    → c.closed ≡ false
    → lookup id c.pending ≡ none
    → register id timeout now c ≡ ok c.next_slot (added c id (now + timeout))
unfolding register
register_adds id timeout now c open_ h = ground arith

pub register-eq-ok :
    (id : ℤ) (timeout now : ℕ) (c c' : Correlator) (s : ℕ)
    → register id timeout now c ≡ ok s c'
    → (lookup id c.pending ≡ none) × (s ≡ c.next_slot) × (c' ≡ added c id (now + timeout))
unfolding register
register-eq-ok id timeout now c c' s h = ground arith

pub register-IsWellFormed :
    (id : ℤ) (timeout now : ℕ) (c c' : Correlator) (s : ℕ)
    → IsWellFormed c
    → register id timeout now c ≡ ok s c'
    → IsWellFormed c'
register-IsWellFormed id timeout now c c' s w h =
    let (new, _, e) = register-eq-ok id timeout now c c' s h in
    rw e (added-IsWellFormed c w id (now + timeout) new)

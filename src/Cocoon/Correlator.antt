-- ===== src/Cocoon/Correlator.antt =====
-- pkg/cocoon/correlator.go: the queries in flight over one session.
pub mod Invariant
pub mod Loops
pub mod Delivery
pub mod Closing
pub mod Expiry
pub mod Shutdown
use gocoon.Common.{
  ℕ, suc, ◌+◌, Bool, true, false, Bytes, List, [], ◌∷◌, Option, none, some, ltb, ◌==◌,
  if◌then◌else◌,
}
use gocoon.Common.Int.{ℤ}
use gocoon.Common.Assoc.{lookup, delete, put, int_eq}
use gocoon.Common.State.{Result, Method, ok, err}
use gocoon.Cocoon.Errors.{Error, wrapped, request_timeout, correlator_closed, duplicate_query_id}

-- The two channels of a query, each a buffer of one.
pub record Channels : Type 0 where
  pub answer : Option Bytes
  pub error : Option Error

abbrev pub empty : Channels
empty = record { answer = none; error = none }

-- `select { case ch <- v: default: }`
unfoldable pub send_answer : Bytes → Channels → Channels
send_answer v c = record c { answer = elim c.answer [ none ↦ some v | some w ↦ some w ] }

unfoldable pub send_error : Error → Channels → Channels
send_error e c = record c { error = elim c.error [ none ↦ some e | some d ↦ some d ] }

-- A pending query names its channels by a slot, since its caller holds them too.
pub record PendingQuery : Type 0 where
  pub slot : ℕ
  pub deadline : ℕ

pub record Correlator : Type 0 where
  pub pending : List (ℤ × PendingQuery)
  pub closed : Bool
  pub next_slot : ℕ
  pub channels : ℕ → Channels

abbrev pub update : (ℕ → Channels) → ℕ → Channels → ℕ → Channels
update f s c = λ i. if i == s then c else f i

unfoldable pub new_correlator : Correlator
new_correlator = record { pending = []; closed = false; next_slot = 0; channels = λ _. empty }

-- Returns the slot of the new query's channels.
unfoldable pub register : ℤ → ℕ → ℕ → Method Correlator Error ℕ
register id timeout now c =
    if c.closed then err correlator_closed c else elim (lookup id c.pending) [
      | some _ ↦ err duplicate_query_id c
      | none ↦ ok c.next_slot (record c {
        pending = put id (record { slot = c.next_slot; deadline = now + timeout }) c.pending;
        next_slot = suc c.next_slot;
        channels = update c.channels c.next_slot empty;
      })
    ]

unfoldable pub deliver : ℤ → Bytes → Correlator → Correlator × Bool
deliver id payload c = elim (lookup id c.pending) [
  | none ↦ (c, false)
  | some pq ↦ (
    record c {
      pending = delete id c.pending;
      channels = update c.channels pq.slot (send_answer payload (c.channels pq.slot));
    },
    true,
  )
]

unfoldable pub fail : ℤ → Error → Correlator → Correlator × Bool
fail id e c = elim (lookup id c.pending) [
  | none ↦ (c, false)
  | some pq ↦ (
    record c {
      pending = delete id c.pending;
      channels = update c.channels pq.slot (send_error e (c.channels pq.slot));
    },
    true,
  )
]

-- `for _, pq := range pending { select { case pq.err <- err: default: } }`
unfoldable pub send_all : Error → List (ℤ × PendingQuery) → (ℕ → Channels) → ℕ → Channels
send_all e [] f = f
send_all e ((id, pq) ∷ es) f = send_all e es (update f pq.slot (send_error e (f pq.slot)))

unfoldable pub fail_all : Error → Correlator → Correlator
fail_all e c = record c { pending = []; closed = true; channels = send_all e c.pending c.channels }

-- `now.After(pq.deadline)`
abbrev pub is_expired : ℕ → PendingQuery → Bool
is_expired now pq = ltb pq.deadline now

unfoldable pub gc_entry : ℕ → ℤ → PendingQuery → Correlator × ℕ → Correlator × ℕ
gc_entry now id pq (c, count) =
    if is_expired now pq
    then (
      record c {
        pending = delete id c.pending;
        channels =
            update c.channels pq.slot (send_error (wrapped request_timeout) (c.channels pq.slot));
      },
      count + 1,
    )
    else (c, count)

-- The loop ranges over the entries that the map had at its start.
unfoldable pub gc_loop : ℕ → List (ℤ × PendingQuery) → Correlator × ℕ → Correlator × ℕ
gc_loop now [] r = r
gc_loop now ((id, pq) ∷ es) r = gc_loop now es (gc_entry now id pq r)

unfoldable pub gc_expired : ℕ → Correlator → Correlator × ℕ
gc_expired now c = if c.closed then (c, 0) else gc_loop now c.pending (c, 0)

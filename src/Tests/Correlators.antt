-- ===== src/Tests/Correlators.antt =====
-- The correlator with two queries in flight.
use gocoon.Common.{ℕ, ◌≡◌, ◌≢◌, refl, true, false, Bytes, [], ◌∷◌, none, some, ◌==◌, if◌then◌else◌}
use gocoon.Common.Int.{ℤ, pos, negsuc}
use gocoon.Common.Assoc.{lookup, delete, put, int_eq, int_beq}
use gocoon.Common.State.{ok, err}
use gocoon.Cocoon.Errors.{Error, wrapped, request_timeout, correlator_closed, already_closed}
use gocoon.Cocoon.Correlator.{
  Correlator, empty, update, new_correlator, register, deliver, fail, fail_all, gc_expired,
  send_answer,
}
use gocoon.Cocoon.Correlator.Invariant.{
  IsWellFormed, new_correlator-IsWellFormed, register-IsWellFormed,
}
use gocoon.Cocoon.Correlator.Delivery.{
  register_step, deliver_step, fail_all_step, Reach, here, step, new_correlator-Reach-IsWellFormed,
  Reach-keeps, deliver_routes,
}
use gocoon.Cocoon.Correlator.Closing.{holds, failed, fail_all_exact}
use gocoon.Cocoon.Correlator.Expiry.{surviving, timed_out, gc_expired_exact}

-- Queries 7 and -2, with the deadlines 15 and 40.
abbrev first : Correlator
first = record {
  pending = (pos 7, record { slot = 0; deadline = 15 }) ∷ [];
  closed = false;
  next_slot = 1;
  channels = update (λ _. empty) 0 empty;
}

abbrev two : Correlator
two = record {
  pending =
      (negsuc 1, record { slot = 1; deadline = 40 })
      ∷ (pos 7, record { slot = 0; deadline = 15 })
      ∷ [];
  closed = false;
  next_slot = 2;
  channels = update (update (λ _. empty) 0 empty) 1 empty;
}

first_registered : register (pos 7) 5 10 new_correlator ≡ ok 0 first
unfolding register new_correlator lookup put delete
first_registered = refl

two_registered : register (negsuc 1) 30 10 first ≡ ok 1 two
unfolding register lookup put delete
two_registered = refl

Reach-two : Reach new_correlator two
Reach-two =
    step (step here (register_step (pos 7) 5 10 0 first_registered))
      (register_step (negsuc 1) 30 10 1 two_registered)

two-IsWellFormed : IsWellFormed two
two-IsWellFormed =
    register-IsWellFormed (negsuc 1) 30 10 first two 1
      (register-IsWellFormed (pos 7) 5 10 new_correlator first 0 new_correlator-IsWellFormed
        first_registered)
      two_registered

-- Once query 7 is answered, a shutdown leaves the answer where it is.
answered_slot : (deliver (pos 7) (1 ∷ []) two).0.channels 0 ≢ empty
unfolding deliver lookup send_answer delete
answered_slot h = cc

abbrev answered : Correlator
answered = (deliver (pos 7) (1 ∷ []) two).0

abbrev shut : Error
shut = wrapped already_closed

Reach-keeps_example : (fail_all shut answered).channels 0 ≡ answered.channels 0
Reach-keeps_example =
    Reach-keeps 0
      (new_correlator-Reach-IsWellFormed (step Reach-two (deliver_step (pos 7) (1 ∷ []))))
      (step here (fail_all_step shut)) answered_slot

found_seven : lookup (pos 7) two.pending ≡ some (record { slot = 0; deadline = 15 })
unfolding lookup
found_seven = refl

deliver_routes_example :
    let (c', found) = deliver (pos 7) (1 ∷ []) two in
    (found ≡ true)
    × ((s : ℕ)
        → c'.channels s
          ≡ (if s == 0 then record { answer = some (1 ∷ []); error = none } else two.channels s))
    × ((j : ℤ) → lookup j c'.pending ≡ (if int_beq (pos 7) j then none else lookup j two.pending))
    × ((b : Bytes) → deliver (pos 7) b c' ≡ (c', false))
    × ((e : Error) → fail (pos 7) e c' ≡ (c', false))
deliver_routes_example =
    deliver_routes (pos 7) (1 ∷ []) two (record { slot = 0; deadline = 15 }) two-IsWellFormed
      found_seven

abbrev request_timeout_error : Error
request_timeout_error = wrapped request_timeout

fail_all_exact_example :
    let c' = fail_all request_timeout_error two in
    ((s : ℕ)
      → c'.channels s
        ≡ (if holds s two.pending then failed request_timeout_error else two.channels s))
    × (c'.pending ≡ [])
    × ((id : ℤ) (timeout now : ℕ) → register id timeout now c' ≡ err correlator_closed c')
    × ((id : ℤ) (b : Bytes) → deliver id b c' ≡ (c', false))
    × ((id : ℤ) (e' : Error) → fail id e' c' ≡ (c', false))
    × ((now : ℕ) → gc_expired now c' ≡ (c', 0))
fail_all_exact_example = fail_all_exact request_timeout_error two two-IsWellFormed

-- At time 16 query 7 is past its deadline, and -2 is not.
gc_expired_exact_example :
    let (c', count) = gc_expired 16 two in
    ((j : ℤ) → lookup j c'.pending ≡ surviving 16 (lookup j two.pending))
    × (c'.channels 0 ≡ timed_out)
    × (count ≡ 1)
gc_expired_exact_example =
    gc_expired_exact 16 two (pos 7) (record { slot = 0; deadline = 15 }) two-IsWellFormed refl
      found_seven

-- ===== src/Cocoon/Streams/Invariant.antt =====
-- Runs of a session's streams, and what holds of every state they reach.
use gocoon.Common.{
  ℕ, ◌≡◌, refl, true, false, Bytes, [], none, some, Bool-cases, Option-cases, inl, inr, arith,
}
use gocoon.Common.Assoc.{lookup, bytes_eq}
use gocoon.Cocoon.Inference.{Chunk, try_decode_query_part}
use gocoon.Cocoon.Streams.{
  Session, close, fresh_stream, open_stream, send_to, send_final, route, dispatch_packet, receive,
}
use gocoon.Cocoon.Streams.Calls.{
  IsWellFormed, send_to-IsWellFormed, close-IsWellFormed, receive-IsWellFormed,
  open_stream-IsWellFormed,
}

unfoldable pub new_session : Session
new_session = record { streams = []; next_slot = 0; channels = λ _. fresh_stream [] }

-- One call, of the reading goroutine, of a request's own goroutine or of a consumer. A send and a
-- close are steps of their own too, so that other calls may come between those of one dispatch.
pub data Step (s : Session) : Session → Type 0 where
  open_step : (req : Bytes) → Step s (open_stream req s).0
  dispatch_step : (payload : Bytes) → Step s (dispatch_packet payload s)
  final_step : (slot : ℕ) (chunk : Chunk) → Step s (send_final slot chunk s)
  send_step : (slot : ℕ) (chunk : Chunk) → Step s (send_to slot chunk s)
  close_step : (slot : ℕ) → Step s (close slot s)
  receive_step : (slot : ℕ) → Step s (receive slot s)

pub data Reach (s : Session) : Session → Type 0 where
  here : Reach s s
  step : {t u : Session} → Reach s t → Step t u → Reach s u

-- The ways through route and dispatch_packet.
route_unknown :
    (chunk : Chunk) (s : Session) → lookup chunk.request_id s.streams ≡ none → route chunk s ≡ s
unfolding route
route_unknown chunk s h = rw (h, route)

pub route_part :
    (chunk : Chunk) (s : Session) (slot : ℕ)
    → lookup chunk.request_id s.streams ≡ some slot
    → chunk.is_final ≡ false
    → route chunk s ≡ send_to slot chunk s
unfolding route
route_part chunk s slot h f = rw (h, route) (rw f)

pub route_last :
    (chunk : Chunk) (s : Session) (slot : ℕ)
    → lookup chunk.request_id s.streams ≡ some slot
    → chunk.is_final ≡ true
    → route chunk s ≡ close slot (send_to slot chunk s)
unfolding route
route_last chunk s slot h f = rw (h, route) (rw f)

dispatch_ignored :
    (payload : Bytes) (s : Session)
    → try_decode_query_part payload ≡ none
    → dispatch_packet payload s ≡ s
unfolding dispatch_packet
dispatch_ignored payload s h = rw (h, dispatch_packet)

dispatch_routed :
    (payload : Bytes) (s : Session) (chunk : Chunk)
    → try_decode_query_part payload ≡ some chunk
    → dispatch_packet payload s ≡ route chunk s
unfolding dispatch_packet
dispatch_routed payload s chunk h = rw (h, dispatch_packet)

route-IsWellFormed : (chunk : Chunk) (s : Session) → IsWellFormed s → IsWellFormed (route chunk s)
route-IsWellFormed chunk s w = elim (Option-cases (lookup chunk.request_id s.streams)) [
  | inl h ↦ rw (route_unknown chunk s h) w
  | inr (slot, h) ↦
      let sent = send_to-IsWellFormed slot chunk s w in
      elim (Bool-cases chunk.is_final) [
        | inl f ↦
            rw (route_last chunk s slot h f) (close-IsWellFormed slot (send_to slot chunk s) sent)
        | inr f ↦ rw (route_part chunk s slot h f) sent
      ]
]

Step-IsWellFormed : {s t : Session} → IsWellFormed s → Step s t → IsWellFormed t
unfolding send_final
Step-IsWellFormed {s} w (open_step req) = open_stream-IsWellFormed req s w
Step-IsWellFormed {s} w (dispatch_step payload) =
    elim (Option-cases (try_decode_query_part payload)) [
      | inl h ↦ rw (dispatch_ignored payload s h) w
      | inr (chunk, h) ↦ rw (dispatch_routed payload s chunk h) (route-IsWellFormed chunk s w)
    ]
Step-IsWellFormed {s} w (final_step slot chunk) =
    close-IsWellFormed slot (send_to slot chunk s) (send_to-IsWellFormed slot chunk s w)
Step-IsWellFormed {s} w (send_step slot chunk) = send_to-IsWellFormed slot chunk s w
Step-IsWellFormed {s} w (close_step slot) = close-IsWellFormed slot s w
Step-IsWellFormed {s} w (receive_step slot) = receive-IsWellFormed slot s w

new_session-IsWellFormed : IsWellFormed new_session
unfolding new_session lookup
new_session-IsWellFormed = record {
  sound = λ i. record { closed = refl; once = refl; calm = refl; room = omega arith };
  routed = λ r i h. cc;
}

-- In every state that a new session reaches, whatever the order of its calls, no stream was sent
-- to after its close or closed twice, at most 16 chunks of a stream are unread, and a request id
-- leads to an open stream of that request.
pub new_session-Reach-IsWellFormed : {s : Session} → Reach new_session s → IsWellFormed s
new_session-Reach-IsWellFormed here = new_session-IsWellFormed
new_session-Reach-IsWellFormed (step r st) = Step-IsWellFormed (new_session-Reach-IsWellFormed r) st

-- ===== src/Cocoon/Streams/Routing.antt =====
-- Where a chunk ends up.
use gocoon.Common.{
  ℕ, ◌≤◌, ◌<◌, ◌≡◌, ap, ◌∙◌, true, false, Bytes, List, [], ◌∷◌, ◌++◌, none, some, ltb, ◌==◌,
  if◌then◌else◌, ◌&&◌, length, le→ltb, lt→ltb, Bool-cases, inl, inr, arith,
}
use gocoon.Common.Assoc.{lookup, delete, bytes_eq, bytes_beq, lookup-delete}
use native.Mathlib.Decide.{dec_lt}
use gocoon.Cocoon.Inference.{Chunk}
use gocoon.Cocoon.Streams.{StreamChannel, Session, update, send, close, send_to, route}
use gocoon.Cocoon.Streams.Calls.{IsSound, IsWellFormed, send_full, send_room, close_first, shut}
use gocoon.Cocoon.Streams.Invariant.{route_part, route_last}

-- What the buffer holds once a chunk was sent.
abbrev pub accepted : List Chunk → Chunk → List Chunk
accepted queue chunk = if ltb (length queue) 16 then queue ++ (chunk ∷ []) else queue

send-accepted :
    (chunk : Chunk) (c : StreamChannel)
    → IsSound c
    → c.done ≡ false
    → (send chunk c).0 ≡ record c { queue = accepted c.queue chunk }
send-accepted chunk c w d = elim (dec_lt (length c.queue) 16) [
  | yes room ↦ rw (send_room chunk c w d room, lt→ltb _ _ room)
  | no full ↦ rw (send_full chunk c (omega arith), le→ltb _ _ (not_lt full))
]
  where
    not_lt : (length c.queue < 16 → ⊥) → 16 ≤ length c.queue
    not_lt h = omega arith

abbrev holding : StreamChannel → Chunk → StreamChannel
holding c chunk = record c { queue = accepted c.queue chunk }

abbrev filled : ℕ → Chunk → Session → Session
filled slot chunk s = record s {
  channels = update s.channels slot (holding (s.channels slot) chunk);
}

-- The state after a part, and after the last one, of a stream that is in the map.
module _ (chunk : Chunk) (s : Session) (slot : ℕ) (w : IsWellFormed s)
    (h : lookup chunk.request_id s.streams ≡ some slot) where
  alive : (s.channels slot).done ≡ false
  alive = (w.routed chunk.request_id slot h).1

  sent : send_to slot chunk s ≡ filled slot chunk s
  sent =
      ap (λ (c : StreamChannel). record s { channels = update s.channels slot c })
        (send-accepted chunk (s.channels slot) (w.sound slot) alive)

  filled_at : (filled slot chunk s).channels slot ≡ holding (s.channels slot) chunk
  filled_at = ground arith

  part_result : chunk.is_final ≡ false → route chunk s ≡ filled slot chunk s
  part_result f = route_part chunk s slot h f ∙ sent

  last_result :
      chunk.is_final ≡ true
      → route chunk s ≡ record s {
        streams = delete (s.channels slot).request_id s.streams;
        channels =
            update
              (update s.channels slot (holding (s.channels slot) chunk))
              slot
              (shut (holding (s.channels slot) chunk));
      }
  last_result f =
      let t = filled slot chunk s in
      route_last chunk s slot h f
      ∙ ap (close slot) sent
      ∙ close_first slot t
          (ap (λ (c : StreamChannel). c.closed_once) filled_at ∙ (w.sound slot).once ∙ alive)
          (ap (λ (c : StreamChannel). c.done) filled_at ∙ alive)
      ∙ ap
          (λ (c : StreamChannel). record s {
            streams = delete c.request_id s.streams;
            channels = update t.channels slot (shut c);
          })
          filled_at

-- In a well-formed session a chunk whose request has a stream goes to the end of that stream's
-- buffer, or is lost where 16 chunks are unread, also the last one; a final chunk closes the
-- stream and takes its request out of the map, and no other stream and no other request changes.
pub route_delivers :
    (chunk : Chunk) (s : Session) (slot : ℕ)
    → IsWellFormed s
    → lookup chunk.request_id s.streams ≡ some slot
    → let t = route chunk s in
      ((t.channels slot).queue ≡ accepted (s.channels slot).queue chunk)
      × ((t.channels slot).done ≡ chunk.is_final)
      × ((i : ℕ) → t.channels i ≡ (if i == slot then t.channels slot else s.channels i))
      × ((r : Bytes)
          → lookup r t.streams
            ≡ (if chunk.is_final && bytes_beq chunk.request_id r then none else lookup r s.streams))
route_delivers chunk s slot w h =
    let req = (w.routed chunk.request_id slot h).2 in
    elim (Bool-cases chunk.is_final) [
      | inr f ↦
          let still = alive chunk s slot w h in
          rw (part_result chunk s slot w h f)
            (ground arith, ground arith, λ i. ground arith, λ r. rw f)
      | inl f ↦ rw (last_result chunk s slot w h f) (
        ground arith,
        ground arith,
        λ i. ground arith,
        λ r. rw (f, req) (lookup-delete chunk.request_id r s.streams),
      )
    ]

-- ===== src/Cocoon/Streams/Calls.antt =====
-- The calls on a session's streams, one by one: each keeps the session well formed.
use gocoon.Common.{
  ℕ, ◌≤◌, ◌<◌, ◌≡◌, refl, sym, ap, ◌∙◌, true, false, Bytes, List, [], ◌∷◌, ◌++◌, none, some, ◌==◌,
  if◌then◌else◌, length, length-append, le→ltb, lt→ltb, Bool-cases, inl, inr, arith,
}
use gocoon.Common.Assoc.{
  lookup, delete, bytes_eq, bytes_beq, bytes_beq_iff, lookup-delete, lookup-put,
}
use native.Mathlib.Decide.{dec_lt}
use gocoon.Cocoon.Inference.{Chunk}
use gocoon.Cocoon.Streams.{
  StreamChannel, Session, update, channel_send, send, close_channels, close, open_stream, send_to,
  receive, behind,
}

-- A channel that was never misused, with at most 16 chunks unread.
pub record IsSound (c : StreamChannel) : Type 0 where
  pub closed : c.ch_closed ≡ c.done
  pub once : c.closed_once ≡ c.done
  pub calm : c.panicked ≡ false
  pub room : length c.queue ≤ 16

pub record IsWellFormed (s : Session) : Type 0 where
  pub sound : (i : ℕ) → IsSound (s.channels i)
  pub routed :
      (r : Bytes) (i : ℕ)
      → lookup r s.streams ≡ some i
      → (i < s.next_slot) × ((s.channels i).done ≡ false) × ((s.channels i).request_id ≡ r)

-- A slot is replaced by a sound channel with the same request id that is still open if it was.
module _ (s : Session) (w : IsWellFormed s) (slot : ℕ) (c : StreamChannel) where
  replace-IsWellFormed :
      IsSound c
      → c.done ≡ (s.channels slot).done
      → c.request_id ≡ (s.channels slot).request_id
      → IsWellFormed (record s { channels = update s.channels slot c })
  replace-IsWellFormed ok same id = record {
    sound = λ i. elim (Bool-cases (i == slot)) [ inl e ↦ rw e ok | inr e ↦ rw e (w.sound i) ];
    routed = λ r i h.
        let (lt, open_, req) = w.routed r i h in
        elim (Bool-cases (i == slot)) [
          | inl e ↦ ground (arith, lt, open_, req, same, id)
          | inr e ↦ ground (arith, lt, open_, req)
        ];
  }

send_done : (chunk : Chunk) (c : StreamChannel) → c.done ≡ true → send chunk c ≡ (c, false)
unfolding send
send_done chunk c h = rw h

pub send_full :
    (chunk : Chunk) (c : StreamChannel) → 16 ≤ length c.queue → send chunk c ≡ (c, false)
unfolding send
send_full chunk c h = elim (Bool-cases c.done) [ inl d ↦ rw d | inr d ↦ rw (d, le→ltb _ _ h) ]

pub send_room :
    (chunk : Chunk) (c : StreamChannel)
    → IsSound c
    → c.done ≡ false
    → length c.queue < 16
    → send chunk c ≡ (record c { queue = c.queue ++ (chunk ∷ []) }, true)
unfolding send channel_send
send_room chunk c w h lt = rw (h, lt→ltb _ _ lt, w.closed, h)

send-IsSound : (chunk : Chunk) (c : StreamChannel) → IsSound c → IsSound (send chunk c).0
send-IsSound chunk c w = elim (Bool-cases c.done) [
  | inl d ↦ rw (send_done chunk c d) w
  | inr d ↦ elim (dec_lt (length c.queue) 16) [
    | no full ↦ rw (send_full chunk c (omega arith)) w
    | yes room ↦ rw (send_room chunk c w d room) (record {
      closed = w.closed;
      once = w.once;
      calm = w.calm;
      room = omega (arith, length-append c.queue (chunk ∷ []));
    })
  ]
]

send_same :
    (chunk : Chunk) (c : StreamChannel)
    → ((send chunk c).0.done ≡ c.done) × ((send chunk c).0.request_id ≡ c.request_id)
unfolding send channel_send
send_same chunk c = ground arith

pub send_to-IsWellFormed :
    (slot : ℕ) (chunk : Chunk) (s : Session) → IsWellFormed s → IsWellFormed (send_to slot chunk s)
send_to-IsWellFormed slot chunk s w =
    let c = s.channels slot in
    replace-IsWellFormed s w slot (send chunk c).0 (send-IsSound chunk c (w.sound slot))
      (send_same chunk c).0 (send_same chunk c).1

close_again : (slot : ℕ) (s : Session) → (s.channels slot).closed_once ≡ true → close slot s ≡ s
unfolding close
close_again slot s h = rw h

abbrev pub shut : StreamChannel → StreamChannel
shut c = record c { done = true; ch_closed = true; closed_once = true }

pub close_first :
    (slot : ℕ) (s : Session)
    → (s.channels slot).closed_once ≡ false
    → (s.channels slot).done ≡ false
    → close slot s ≡ record s {
      streams = delete (s.channels slot).request_id s.streams;
      channels = update s.channels slot (shut (s.channels slot));
    }
unfolding close close_channels
close_first slot s h d = rw (h, d)

pub close-IsWellFormed : (slot : ℕ) (s : Session) → IsWellFormed s → IsWellFormed (close slot s)
close-IsWellFormed slot s w = elim (Bool-cases (s.channels slot).closed_once) [
  | inl h ↦ rw (close_again slot s h) w
  | inr h ↦
      let c = s.channels slot in
      let ok = w.sound slot in
      rw (close_first slot s h (sym ok.once ∙ h)) (record {
        sound = λ i. elim (Bool-cases (i == slot)) [
          | inl e ↦ rw e (record { closed = refl; once = refl; calm = ok.calm; room = ok.room })
          | inr e ↦ rw e (w.sound i)
        ];
        routed = λ r i found.
            let there = kept r i found in
            let (lt, alive, req) = w.routed r i there.1 in
            (lt, ground (arith, there.0, alive, req), ground (arith, there.0, alive, req));
      })
]
  where
    kept :
        (r : Bytes) (i : ℕ)
        → lookup r (delete (s.channels slot).request_id s.streams) ≡ some i
        → ((i == slot) ≡ false) × (lookup r s.streams ≡ some i)
    kept r i found =
        let req = (s.channels slot).request_id in
        let gone = lookup-delete req r s.streams in
        elim (Bool-cases (bytes_beq req r)) [
          | inl e ↦ cc (sym found ∙ gone ∙ ap (λ b. if b then none else lookup r s.streams) e)
          | inr e ↦
              let there : lookup r s.streams ≡ some i =
                sym (sym found ∙ gone ∙ ap (λ b. if b then none else lookup r s.streams) e) in
              (
                elim (Bool-cases (i == slot)) [
                  | inl same ↦ ground (arith, same, (w.routed r i there).2, bytes_beq_iff req r, e)
                  | inr other ↦ other
                ],
                there,
              )
        ]

pub receive-IsWellFormed : (slot : ℕ) (s : Session) → IsWellFormed s → IsWellFormed (receive slot s)
unfolding receive
receive-IsWellFormed slot s w =
    let c = s.channels slot in
    let ok = w.sound slot in
    replace-IsWellFormed s w slot _
      (record {
        closed = ok.closed;
        once = ok.once;
        calm = ok.calm;
        room = shorter c.queue ok.room;
      })
      refl refl
  where
    shorter : (q : List Chunk) → length q ≤ 16 → length (behind q) ≤ 16
    shorter [] h = h
    shorter (x ∷ xs) h = omega arith

pub open_stream-IsWellFormed :
    (req : Bytes) (s : Session) → IsWellFormed s → IsWellFormed (open_stream req s).0
unfolding open_stream
open_stream-IsWellFormed req s w = record {
  sound = λ i. elim (Bool-cases (i == s.next_slot)) [
    | inl e ↦ rw e (record { closed = refl; once = refl; calm = refl; room = omega arith })
    | inr e ↦ rw e (w.sound i)
  ];
  routed = λ r i found. elim (Bool-cases (bytes_beq req r)) [
    | inl e ↦
        ground (arith, found, lookup-put req r s.next_slot s.streams, (bytes_beq_iff req r).0 e)
    | inr e ↦ ground (arith, found, lookup-put req r s.next_slot s.streams, w.routed r i)
  ];
}

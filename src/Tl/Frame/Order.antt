-- ===== src/Tl/Frame/Order.antt =====
-- A frame that arrives out of its turn: lost, repeated or overtaken ones before it.
use gocoon.Common.{
  ℕ, ◌^◌, ◌≤◌, ◌<◌, ◌≡◌, sym, ap, ◌∙◌, inl, inr, true, false, Bytes, [], ◌++◌, append_assoc, length,
  take, drop, length-append, take-append, drop-append, ◌==◌, if◌then◌else◌, Bool-cases, arith,
}
use gocoon.Common.Endian.{le_bytes, of_le, length-le_bytes, of_le-le_bytes}
use gocoon.Common.State.{Result, ok, err}
use gocoon.Tl.Frame.{FramedConn, FrameError, seqno_mismatch, int32_add, write_frame, read_frame}
use gocoon.Tl.Frame.Link.{
  FrameFits, frame_bytes, write_frame_sends, read_frame_receives, take-le_bytes, drop-le_bytes,
}
use gocoon.Tl.Frame.Checks.{header_len, header_seqno, read_frame_refuses}

-- What a strict reader makes of a frame with a sequence number, and of what is behind it.
abbrev pub arrival : ℕ → Bytes → Bytes → FramedConn → Result FramedConn FrameError Bytes
arrival m p rest r =
    if m == r.in_seqno
    then ok p (record r { incoming = rest; in_seqno = int32_add r.in_seqno 1 })
    else err (seqno_mismatch m r.in_seqno)
        (record r { incoming = p ++ rest; in_seqno = int32_add r.in_seqno 1 })

module _ (m : ℕ) (p rest : Bytes) (r : FramedConn) (fit : FrameFits p) (small : m < 2 ^ 32) where
  abbrev hdr : Bytes
  hdr = le_bytes 4 (length p) ++ le_bytes 4 m

  abbrev arrived : FramedConn
  arrived = record r { incoming = frame_bytes m p ++ rest }

  hdr-length : length hdr ≡ 8
  hdr-length = omega (
    arith,
    length-append (le_bytes 4 (length p)) (le_bytes 4 m),
    length-le_bytes 4 (length p),
    length-le_bytes 4 m,
  )

  front : take 8 (frame_bytes m p ++ rest) ≡ hdr
  front =
      ap (take 8) (append_assoc hdr p rest)
      ∙ ap (λ n. take n (hdr ++ (p ++ rest))) (sym hdr-length)
      ∙ take-append hdr (p ++ rest)

  behind : drop 8 (frame_bytes m p ++ rest) ≡ p ++ rest
  behind =
      ap (drop 8) (append_assoc hdr p rest)
      ∙ ap (λ n. drop n (hdr ++ (p ++ rest))) (sym hdr-length)
      ∙ drop-append hdr (p ++ rest)

  len_read : header_len arrived ≡ length p
  len_read =
      ap (λ x. of_le (take 4 x)) front
      ∙ ap of_le (take-le_bytes (length p) (le_bytes 4 m))
      ∙ of_le-le_bytes 4 (length p) (omega (arith, fit.1))

  seqno_read : header_seqno arrived ≡ m
  seqno_read =
      ap (λ x. of_le (drop 4 x)) front
      ∙ ap of_le (drop-le_bytes (length p) (le_bytes 4 m))
      ∙ of_le-le_bytes 4 m small

  room : 8 ≤ length (frame_bytes m p ++ rest)
  room = omega (arith, hdr-length, length-append hdr p, length-append (frame_bytes m p) rest)

  read_other :
      r.strict ≡ true
      → (m == r.in_seqno) ≡ false
      → read_frame arrived
        ≡ err
            (seqno_mismatch m r.in_seqno)
            (record r { incoming = p ++ rest; in_seqno = int32_add r.in_seqno 1 })
  read_other strict e =
      read_frame_refuses arrived strict room (omega (arith, len_read, fit.0))
        (omega (arith, len_read, fit.1)) (λ h. ground (arith, e, h, seqno_read))
      ∙ ap
          (λ q. err (seqno_mismatch q r.in_seqno) (record r {
            incoming = drop 8 (frame_bytes m p ++ rest);
            in_seqno = int32_add r.in_seqno 1;
          }))
          seqno_read
      ∙ ap
          (λ x.
            err (seqno_mismatch m r.in_seqno)
              (record r { incoming = x; in_seqno = int32_add r.in_seqno 1 }))
          behind

  read_next :
      r.strict ≡ true
      → (m == r.in_seqno) ≡ true
      → read_frame arrived ≡ ok p (record r { incoming = rest; in_seqno = int32_add r.in_seqno 1 })
  read_next strict e =
      read_frame_receives p rest arrived fit strict (ground (arith, e, small))
        (ap (λ q. frame_bytes q p ++ rest) (ground (arith, e)))

  read_arrival : r.strict ≡ true → read_frame arrived ≡ arrival m p rest r
  read_arrival strict = elim (Bool-cases (m == r.in_seqno)) [
    | inl e ↦ rw e (read_next strict e)
    | inr e ↦ rw e (read_other strict e)
  ]

-- A frame of 4 bytes to 16 MiB that one side writes without a fault is returned by a strict
-- reader that is at its sequence number, and at no other: a reader that waits for another frame,
-- as when one was lost, repeated or overtaken, refuses it with both numbers, counts it all the
-- same, and leaves its payload in the stream.
pub read_frame-write_frame :
    (p rest : Bytes) (sender receiver : FramedConn)
    → FrameFits p
    → sender.write_faults ≡ []
    → sender.outgoing ≡ []
    → sender.out_seqno < 2 ^ 32
    → receiver.strict ≡ true
    → (s : FramedConn) × (write_frame p sender ≡ ok tt s)
      × (read_frame (record receiver { incoming = s.outgoing ++ rest })
          ≡ arrival sender.out_seqno p rest receiver)
read_frame-write_frame p rest sender receiver fit quiet fresh small strict = (
  record sender {
    outgoing = sender.outgoing ++ frame_bytes sender.out_seqno p;
    out_seqno = int32_add sender.out_seqno 1;
  },
  write_frame_sends p sender fit quiet,
  ap
        (λ t.
          read_frame (record receiver { incoming = (t ++ frame_bytes sender.out_seqno p) ++ rest }))
        fresh
      ∙ read_arrival sender.out_seqno p rest receiver fit small strict,
)

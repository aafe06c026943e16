-- ===== src/Tl/Frame/Checks.antt =====
-- What a frame must satisfy to be accepted, on any input.
use gocoon.Common.{
  ℕ, ◌≤◌, ◌<◌, ◌≡◌, sym, ap, ◌∙◌, true, Bytes, [], ◌++◌, length, take, drop, length-take,
  take-append-drop, lt→ltb, le→ltb, arith,
}
use gocoon.Common.Endian.{of_le}
use gocoon.Common.State.{ok, err}
use mathlib.Core.Logic.{◌≢◌}
use native.Mathlib.Decide.{dec_lt}
use gocoon.Tl.Frame.{
  seqno_mismatch, FramedConn, FrameError, max_frame_size, int32_add, read_frame, stream_read,
  read_frame_body, read_header, check_seqno,
}

stream_read_enough :
    (e : FrameError) (n : ℕ) (c : FramedConn)
    → n ≤ length c.incoming
    → stream_read e n c ≡ ok (take n c.incoming) (record c { incoming = drop n c.incoming })
unfolding stream_read
stream_read_enough e n c h = rw (le→ltb _ _ h)

stream_read_short :
    (e : FrameError) (n : ℕ) (c : FramedConn)
    → length c.incoming < n
    → stream_read e n c ≡ err e (record c { incoming = [] })
unfolding stream_read
stream_read_short e n c h = rw (lt→ltb _ _ h)

-- The header of what is unread.
abbrev pub header_len : FramedConn → ℕ
header_len c = of_le (take 4 (take 8 c.incoming))

abbrev pub header_seqno : FramedConn → ℕ
header_seqno c = of_le (drop 4 (take 8 c.incoming))

read_frame_body-eq-ok :
    (plen q : ℕ) (c c' : FramedConn) (p : Bytes)
    → c.strict ≡ true
    → read_frame_body plen q c ≡ ok p c'
    → (4 ≤ plen)
      × (plen ≤ max_frame_size)
      × (q ≡ c.in_seqno)
      × (plen ≤ length c.incoming)
      × (p ≡ take plen c.incoming)
      × (c' ≡ record c { incoming = drop plen c.incoming; in_seqno = int32_add c.in_seqno 1 })
unfolding read_frame_body check_seqno stream_read
read_frame_body-eq-ok plen q c c' p s h = ground arith

-- The parts of an accepted frame, from the outcome of its body.
accepted :
    (c c' : FramedConn) (p : Bytes)
    → c.strict ≡ true
    → read_frame_body (header_len c) (header_seqno c) (record c { incoming = drop 8 c.incoming })
      ≡ ok p c'
    → (4 ≤ length p)
      × (length p ≤ max_frame_size)
      × (header_len c ≡ length p)
      × (header_seqno c ≡ c.in_seqno)
      × (c.incoming ≡ take 8 c.incoming ++ (p ++ c'.incoming))
      × (c'.in_seqno ≡ int32_add c.in_seqno 1)
accepted c c' p s h =
    let n : ℕ = header_len c in
    let front : Bytes = drop 8 c.incoming in
    let (lo, hi, q, room, p_is, c'_is) =
      read_frame_body-eq-ok n (header_seqno c) (record c { incoming = front }) c' p s h in
    let left : c'.incoming ≡ drop n front = ap (λ (d : FramedConn). d.incoming) c'_is in
    let size : length p ≡ n = ap length p_is ∙ length-take n front ∙ omega arith in
    (
      omega arith,
      omega arith,
      sym size,
      q,
      sym (rw (p_is, left, take-append-drop n front) (take-append-drop 8 c.incoming)),
      ap (λ (d : FramedConn). d.in_seqno) c'_is,
    )

-- A frame that a strict connection returns has a length in range that its header announces and
-- the next sequence number; the header and that payload are taken from the stream, and the
-- counter moves on by one.
pub read_frame_accepts :
    (c c' : FramedConn) (p : Bytes)
    → c.strict ≡ true
    → read_frame c ≡ ok p c'
    → (4 ≤ length p)
      × (length p ≤ max_frame_size)
      × (header_len c ≡ length p)
      × (header_seqno c ≡ c.in_seqno)
      × (c.incoming ≡ take 8 c.incoming ++ (p ++ c'.incoming))
      × (c'.in_seqno ≡ int32_add c.in_seqno 1)
unfolding read_frame
read_frame_accepts c c' p s h = elim (dec_lt (length c.incoming) 8) [
  | yes short ↦ cc (rw (stream_read_short read_header 8 c short) at h)
  | no long ↦ accepted c c' p s (rw (stream_read_enough read_header 8 c (omega arith)) at h)
]

-- A strict connection that is handed a header with a length in range and another sequence number
-- refuses the frame, counts it all the same and leaves its payload in the stream.
pub read_frame_refuses :
    (c : FramedConn)
    → c.strict ≡ true
    → 8 ≤ length c.incoming
    → 4 ≤ header_len c
    → header_len c ≤ max_frame_size
    → header_seqno c ≢ c.in_seqno
    → read_frame c
      ≡ err
          (seqno_mismatch (header_seqno c) c.in_seqno)
          (record c { incoming = drop 8 c.incoming; in_seqno = int32_add c.in_seqno 1 })
unfolding read_frame read_frame_body check_seqno
read_frame_refuses c s room lo hi other =
    rw (stream_read_enough read_header 8 c room) (rw (le→ltb _ _ lo, le→ltb _ _ hi) (ground arith))

-- ===== src/Tests/Frames.antt =====
-- Frames on concrete streams.
use gocoon.Common.{◌≤◌, ◌≡◌, refl, arith, true, Bytes, List, [], ◌∷◌, ◌++◌, take, length}
use gocoon.Common.Endian.{of_le}
use gocoon.Common.State.{ok}
use gocoon.Tl.Frame.{
  FramedConn, max_frame_size, int32_add, new_framed_conn, write_frame, read_frame, stream_read,
  read_frame_body, check_seqno,
}
use gocoon.Tl.Frame.Link.{write_frames, read_frames, read_frames-write_frames}
use gocoon.Tl.Frame.Checks.{header_len, header_seqno, read_frame_accepts}
use gocoon.Tl.Frame.Order.{arrival, read_frame-write_frame}

-- A sender whose counter wraps between the two frames.
abbrev sender : FramedConn
sender = record {
  incoming = [];
  outgoing = [];
  write_faults = [];
  out_seqno = 0xffff_ffff;
  in_seqno = 0;
  strict = true;
}

abbrev receiver : FramedConn
receiver = record sender { in_seqno = 0xffff_ffff; out_seqno = 3 }

abbrev two_payloads : List Bytes
two_payloads = (1 ∷ 2 ∷ 3 ∷ 4 ∷ []) ∷ (5 ∷ 6 ∷ 7 ∷ 8 ∷ 9 ∷ []) ∷ []

read_frames-write_frames_example :
    (s : FramedConn) × (write_frames two_payloads sender ≡ ok tt s)
    × (read_frames 2 (record receiver { incoming = s.outgoing })
        ≡ ok two_payloads (record receiver { incoming = []; in_seqno = s.out_seqno }))
read_frames-write_frames_example =
    read_frames-write_frames two_payloads sender receiver
      ((omega arith, omega arith), ((omega arith, omega arith), tt)) refl refl refl refl
      (omega arith)

-- A frame of four bytes at sequence number 0, and a byte of the next.
abbrev one_frame : Bytes
one_frame = 4 ∷ 0 ∷ 0 ∷ 0 ∷ 0 ∷ 0 ∷ 0 ∷ 0 ∷ 1 ∷ 2 ∷ 3 ∷ 4 ∷ 9 ∷ []

one_frame_read :
    read_frame (new_framed_conn one_frame [])
    ≡ ok (1 ∷ 2 ∷ 3 ∷ 4 ∷ []) (record (new_framed_conn (9 ∷ []) []) { in_seqno = 1 })
unfolding read_frame read_frame_body stream_read check_seqno new_framed_conn of_le
one_frame_read = refl

read_frame_accepts_example :
    let c = new_framed_conn one_frame [] in
    let p : Bytes = 1 ∷ 2 ∷ 3 ∷ 4 ∷ [] in
    (4 ≤ length p)
    × (length p ≤ max_frame_size)
    × (header_len c ≡ length p)
    × (header_seqno c ≡ c.in_seqno)
    × (c.incoming ≡ take 8 c.incoming ++ (p ++ (9 ∷ [])))
    × (1 ≡ int32_add c.in_seqno 1)
unfolding new_framed_conn
read_frame_accepts_example =
    read_frame_accepts (new_framed_conn one_frame [])
      (record (new_framed_conn (9 ∷ []) []) { in_seqno = 1 }) (1 ∷ 2 ∷ 3 ∷ 4 ∷ []) refl
      one_frame_read

-- The frame before this one was lost: the reader still waits for it.
abbrev behind : FramedConn
behind = record receiver { in_seqno = 0xffff_fffe }

read_frame-write_frame_example :
    (s : FramedConn) × (write_frame (1 ∷ 2 ∷ 3 ∷ 4 ∷ []) sender ≡ ok tt s)
    × (read_frame (record behind { incoming = s.outgoing ++ (9 ∷ []) })
        ≡ arrival 0xffff_ffff (1 ∷ 2 ∷ 3 ∷ 4 ∷ []) (9 ∷ []) behind)
read_frame-write_frame_example =
    read_frame-write_frame (1 ∷ 2 ∷ 3 ∷ 4 ∷ []) (9 ∷ []) sender behind (omega arith, omega arith)
      refl refl (omega arith) refl

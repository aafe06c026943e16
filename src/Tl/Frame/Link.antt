-- ===== src/Tl/Frame/Link.antt =====
-- Two framed connections over a link: what one side writes, the other reads, in order.
use gocoon.Common.{
  ℕ, zero, suc, ◌^◌, ◌≤◌, ◌<◌, ◌≡◌, refl, sym, ap, ◌∙◌, true, Bytes, List, [], ◌∷◌, ◌++◌,
  append_assoc, append-nil, length, take, drop, All, length-append, take-append, drop-append,
  le→ltb, arith,
}
use gocoon.Common.Endian.{le_bytes, of_le, length-le_bytes, of_le-le_bytes}
use gocoon.Common.State.{Method, ok, ◌>>=◌, ◌>>◌, pure}
use gocoon.Tl.Frame.{
  FramedConn, FrameError, max_frame_size, int32_add, write_frame, read_frame, stream_read,
  read_frame_body, read_header, read_payload, check_seqno,
}

-- The sizes that a frame may carry, and its bytes at a sequence number.
abbrev pub FrameFits : Bytes → Type 0
FrameFits p = (4 ≤ length p) × (length p ≤ max_frame_size)

abbrev pub frame_bytes : ℕ → Bytes → Bytes
frame_bytes seqno p = (le_bytes 4 (length p) ++ le_bytes 4 seqno) ++ p

abbrev pub frames : ℕ → List Bytes → Bytes
frames seqno [] = []
frames seqno (p ∷ ps) = frame_bytes seqno p ++ frames (int32_add seqno 1) ps

pub write_frame_sends :
    (p : Bytes) (c : FramedConn)
    → FrameFits p
    → c.write_faults ≡ []
    → write_frame p c
      ≡ ok tt (record c {
        outgoing = c.outgoing ++ frame_bytes c.out_seqno p;
        out_seqno = int32_add c.out_seqno 1;
      })
unfolding write_frame
write_frame_sends p c fit quiet =
    rw (le→ltb _ _ fit.0, le→ltb _ _ fit.1) (rw quiet (rw append_assoc))

pub take-le_bytes : (v : ℕ) (b : Bytes) → take 4 (le_bytes 4 v ++ b) ≡ le_bytes 4 v
unfolding le_bytes
take-le_bytes v b = refl

pub drop-le_bytes : (v : ℕ) (b : Bytes) → drop 4 (le_bytes 4 v ++ b) ≡ b
unfolding le_bytes
drop-le_bytes v b = refl

stream_read_front :
    (e : FrameError) (b rest : Bytes) (n : ℕ) (c : FramedConn)
    → length b ≡ n
    → c.incoming ≡ b ++ rest
    → stream_read e n c ≡ ok b (record c { incoming = rest })
unfolding stream_read
stream_read_front e b rest n c hn h =
    rw (h, ← hn) (rw (le→ltb _ _ enough, take-append, drop-append))
  where
    enough : length b ≤ length (b ++ rest)
    enough = omega (arith, length-append b rest)

check_seqno_expected :
    (c : FramedConn)
    → c.strict ≡ true
    → check_seqno c.in_seqno c ≡ ok tt (record c { in_seqno = int32_add c.in_seqno 1 })
unfolding check_seqno
check_seqno_expected c strict = ground arith

read_frame_body_front :
    (p rest : Bytes) (c : FramedConn)
    → FrameFits p
    → c.strict ≡ true
    → c.incoming ≡ p ++ rest
    → read_frame_body (length p) c.in_seqno c
      ≡ ok p (record c { incoming = rest; in_seqno = int32_add c.in_seqno 1 })
unfolding read_frame_body
read_frame_body_front p rest c fit strict h =
    rw (le→ltb _ _ fit.0, le→ltb _ _ fit.1)
      (rw (check_seqno_expected c strict) (
        stream_read_front read_payload p rest (length p)
          (record c { in_seqno = int32_add c.in_seqno 1 }) refl h))

pub read_frame_receives :
    (p rest : Bytes) (c : FramedConn)
    → FrameFits p
    → c.strict ≡ true
    → c.in_seqno < 2 ^ 32
    → c.incoming ≡ frame_bytes c.in_seqno p ++ rest
    → read_frame c ≡ ok p (record c { incoming = rest; in_seqno = int32_add c.in_seqno 1 })
unfolding read_frame
read_frame_receives p rest c fit strict small h =
    rw (stream_read_front read_header hdr (p ++ rest) 8 c hdr_length (h ∙ append_assoc hdr p rest))
      (rw (plen, seqno)
        (read_frame_body_front p rest (record c { incoming = p ++ rest }) fit strict refl))
  where
    hdr : Bytes
    hdr = le_bytes 4 (length p) ++ le_bytes 4 c.in_seqno

    hdr_length : length hdr ≡ 8
    hdr_length = omega (
      arith,
      length-append (le_bytes 4 (length p)) (le_bytes 4 c.in_seqno),
      length-le_bytes 4 (length p),
      length-le_bytes 4 c.in_seqno,
    )

    plen : of_le (take 4 hdr) ≡ length p
    plen =
        ap of_le (take-le_bytes (length p) (le_bytes 4 c.in_seqno))
        ∙ of_le-le_bytes 4 (length p) (omega arith)

    seqno : of_le (drop 4 hdr) ≡ c.in_seqno
    seqno =
        ap of_le (drop-le_bytes (length p) (le_bytes 4 c.in_seqno))
        ∙ of_le-le_bytes 4 c.in_seqno small

-- A loop of writes, and a loop of as many reads.
pub write_frames : List Bytes → Method FramedConn FrameError (Unit {0})
write_frames [] = pure tt
write_frames (p ∷ ps) = do write_frame p; write_frames ps

pub read_frames : ℕ → Method FramedConn FrameError (List Bytes)
read_frames zero = pure []
read_frames (suc n) = do p ← read_frame; ps ← read_frames n; pure (p ∷ ps)

seqno_after : ℕ → List Bytes → ℕ
seqno_after q [] = q
seqno_after q (p ∷ ps) = seqno_after (int32_add q 1) ps

write_frames_send :
    (ps : List Bytes) (c : FramedConn)
    → All FrameFits ps
    → c.write_faults ≡ []
    → write_frames ps c
      ≡ ok tt (record c {
        outgoing = c.outgoing ++ frames c.out_seqno ps;
        out_seqno = seqno_after c.out_seqno ps;
      })
unfolding write_frames seqno_after
write_frames_send [] c fit quiet =
    ap (λ (t : Bytes). ok tt (record c { outgoing = t })) (sym (append-nil c.outgoing))
write_frames_send (p ∷ ps) c fit quiet = rw (write_frame_sends p c fit.0 quiet) (
    write_frames_send ps
      (record c {
        outgoing = c.outgoing ++ frame_bytes c.out_seqno p;
        out_seqno = int32_add c.out_seqno 1;
      })
      fit.1 quiet
    ∙ ap
        (λ (t : Bytes).
          ok tt (record c { outgoing = t; out_seqno = seqno_after (int32_add c.out_seqno 1) ps }))
        (append_assoc c.outgoing (frame_bytes c.out_seqno p) (frames (int32_add c.out_seqno 1) ps)))

read_frames_receive :
    (ps : List Bytes) (rest : Bytes) (c : FramedConn)
    → All FrameFits ps
    → c.strict ≡ true
    → c.in_seqno < 2 ^ 32
    → c.incoming ≡ frames c.in_seqno ps ++ rest
    → read_frames (length ps) c
      ≡ ok ps (record c { incoming = rest; in_seqno = seqno_after c.in_seqno ps })
unfolding read_frames seqno_after
read_frames_receive [] rest c fit strict small h =
    ap (λ (t : Bytes). ok [] (record c { incoming = t })) h
read_frames_receive (p ∷ ps) rest c fit strict small h =
    rw
      (read_frame_receives p (frames (int32_add c.in_seqno 1) ps ++ rest) c fit.0 strict small
        (h ∙ append_assoc (frame_bytes c.in_seqno p) (frames (int32_add c.in_seqno 1) ps) rest))
      (rw (
        read_frames_receive ps rest
          (record c {
            incoming = frames (int32_add c.in_seqno 1) ps ++ rest;
            in_seqno = int32_add c.in_seqno 1;
          })
          fit.1 strict (omega arith) refl))

-- The frames that one side writes without a fault, each of 4 bytes to 16 MiB, reach a strict
-- reader that is at the same sequence number, whole, in order and with nothing left, also past
-- the wrap of the int32 counters.
pub read_frames-write_frames :
    (ps : List Bytes) (sender receiver : FramedConn)
    → All FrameFits ps
    → sender.write_faults ≡ []
    → sender.outgoing ≡ []
    → receiver.strict ≡ true
    → receiver.in_seqno ≡ sender.out_seqno
    → sender.out_seqno < 2 ^ 32
    → (s : FramedConn) × (write_frames ps sender ≡ ok tt s)
      × (read_frames (length ps) (record receiver { incoming = s.outgoing })
          ≡ ok ps (record receiver { incoming = []; in_seqno = s.out_seqno }))
read_frames-write_frames ps sender receiver fit quiet fresh strict same small = (
  record sender {
    outgoing = sender.outgoing ++ frames sender.out_seqno ps;
    out_seqno = seqno_after sender.out_seqno ps;
  },
  write_frames_send ps sender fit quiet,
  received,
)
  where
    c : FramedConn
    c = record receiver { incoming = sender.outgoing ++ frames sender.out_seqno ps }

    wire : sender.outgoing ++ frames sender.out_seqno ps ≡ frames receiver.in_seqno ps ++ []
    wire = rw (fresh, same, append-nil)

    received :
        read_frames (length ps) c
        ≡ ok ps (record c { incoming = []; in_seqno = seqno_after sender.out_seqno ps })
    received =
        read_frames_receive ps [] c fit strict (omega arith) wire
        ∙ ap (λ (q : ℕ). ok ps (record c { incoming = []; in_seqno = seqno_after q ps })) same

-- ===== src/Tl/Frame/Progress.antt =====
-- What a call on a framed connection leaves of the bytes to come.
use gocoon.Common.{
  ℕ, ◌<◌, ◌≤◌, ◌+◌, ◌≡◌, refl, ap, ◌∙◌, Bool, true, false, Bytes, List, [], ◌∷◌, ltb, length,
  length-drop, drop, take, Bool-cases, inl, inr, lt→ltb, le→ltb, ◌++◌, arith,
}
use native.Mathlib.Decide.{dec_lt}
use gocoon.Common.Endian.{le_bytes, of_le}
use gocoon.Common.State.{Result, ok, err, next, next-eq-ok}
use gocoon.Tl.Frame.{
  FramedConn, FrameError, stream_write, write_at, write_frame, stream_read, check_seqno,
  read_frame_body, read_frame, read_header, read_payload, write_header, write_payload,
  max_frame_size, int32_add,
}

abbrev pub state_of {ℓ} : {A : Type ℓ} → Result FramedConn FrameError A → FramedConn
state_of (ok a c) = c
state_of (err e c) = c

write_at-incoming :
    (e : FrameError) (b : Bytes) (c : FramedConn) (fs : List Bool)
    → (state_of (write_at e b c fs)).incoming ≡ c.incoming
unfolding write_at
write_at-incoming e b c [] = refl
write_at-incoming e b c (true ∷ fs) = refl
write_at-incoming e b c (false ∷ fs) = refl

next-incoming {ℓ κ} :
    {A : Type ℓ} {B : Type κ} (r : Result FramedConn FrameError A)
    (f : A → FramedConn → Result FramedConn FrameError B) (c : FramedConn)
    → (state_of r).incoming ≡ c.incoming
    → ((a : A) (d : FramedConn) → (state_of (f a d)).incoming ≡ d.incoming)
    → (state_of (next r f)).incoming ≡ c.incoming
next-incoming (ok a d) f c h g = g a d ∙ h
next-incoming (err e d) f c h g = h

written-incoming :
    (hdr p : Bytes) (c : FramedConn)
    → (state_of (
        next
          (write_at write_header hdr c c.write_faults)
          (λ u d. write_at write_payload p d d.write_faults))).incoming
      ≡ c.incoming
written-incoming hdr p c =
    next-incoming (write_at write_header hdr c c.write_faults)
      (λ u d. write_at write_payload p d d.write_faults) c
      (write_at-incoming write_header hdr c c.write_faults)
      (λ u d. write_at-incoming write_payload p d d.write_faults)

pub write_frame-incoming :
    (p : Bytes) (c : FramedConn) → (state_of (write_frame p c)).incoming ≡ c.incoming
unfolding write_frame stream_write
write_frame-incoming p c = elim (Bool-cases (ltb (length p) 4)) [
  | inl e ↦ rw e refl
  | inr e ↦ elim (Bool-cases (ltb max_frame_size (length p))) [
    | inl g ↦ rw (e, g) refl
    | inr g ↦
        rw (e, g)
          (written-incoming (le_bytes 4 (length p) ++ le_bytes 4 c.out_seqno) p
            (record c { out_seqno = int32_add c.out_seqno 1 }))
  ]
]

stream_read-shrinks :
    (e : FrameError) (n : ℕ) (c c' : FramedConn) (b : Bytes)
    → stream_read e n c ≡ ok b c'
    → (n ≤ length c.incoming) × (length c'.incoming + n ≡ length c.incoming)
unfolding stream_read
stream_read-shrinks e n c c' b h = elim (dec_lt (length c.incoming) n) [
  | yes short ↦ ground (arith, lt→ltb (length c.incoming) n short, h)
  | no long ↦
      ground (arith, le→ltb (length c.incoming) n (omega arith), h, length-drop n c.incoming)
]

check_seqno-incoming :
    (seqno : ℕ) (c c' : FramedConn) (u : Unit {0})
    → check_seqno seqno c ≡ ok u c'
    → c'.incoming ≡ c.incoming
unfolding check_seqno
check_seqno-incoming seqno c c' u h = ground arith

read_frame_body-shrinks :
    (plen seqno : ℕ) (c c' : FramedConn) (p : Bytes)
    → read_frame_body plen seqno c ≡ ok p c'
    → length c'.incoming ≤ length c.incoming
unfolding read_frame_body
read_frame_body-shrinks plen seqno c c' p h = elim (Bool-cases (ltb plen 4)) [
  | inl e ↦ cc (rw e at h)
  | inr e ↦ elim (Bool-cases (ltb max_frame_size plen)) [
    | inl g ↦ cc (rw (e, g) at h)
    | inr g ↦
        let (u, d, hd, hr) =
          next-eq-ok (check_seqno seqno c) (λ _. stream_read read_payload plen) (rw (e, g) at h) in
        let same = check_seqno-incoming seqno c d u hd in
        omega (arith, (stream_read-shrinks read_payload plen d c' p hr).1, ap length same)
  ]
]

pub read_frame-shrinks :
    (c c' : FramedConn) (p : Bytes)
    → read_frame c ≡ ok p c'
    → length c'.incoming < length c.incoming
unfolding read_frame
read_frame-shrinks c c' p h =
    let (hdr, c1, e1, h1) = next-eq-ok (stream_read read_header 8 c) _ h in
    let first = stream_read-shrinks read_header 8 c c1 hdr e1 in
    omega
      (arith, first.1, read_frame_body-shrinks (of_le (take 4 hdr)) (of_le (drop 4 hdr)) c1 c' p h1)

-- ===== src/Tl/Codec/Overlong.antt =====
-- WriteBytes on a payload whose length does not fit the three bytes of the prefix.
use gocoon.Common.{
  ℕ, zero, suc, ◌+◌, ◌/◌, ◌%◌, ◌^◌, ◌≤◌, ◌<◌, ◌≡◌, refl, ap, sym, ◌∙◌, Bytes, [], ◌∷◌, ◌++◌, length,
  take, drop, replicate, append_assoc, length-append, length-replicate, ltb, Bool-cases, inl, inr,
  arith,
}
use gocoon.Tl.Reader.{
  Reader, ok, new_reader, advance, read_bytes, read_length_prefix, read_padding, padding,
}
use gocoon.Tl.Writer.{Writer, new_writer, write_bytes, write_raw, write_zeros}
use gocoon.Tl.Codec.Fixed.{need_ok}
use gocoon.Tl.Codec.Blob.{long_head, long_prefix, write_bytes_long, payload}

long_head_wraps : (k : ℕ) → k < 2 ^ 24 → long_head (2 ^ 24 + k) ≡ long_head k
long_head_wraps k h = ap₃ (low k) (middle k) (high k h)
  where
    low : (k : ℕ) → (2 ^ 24 + k) % 256 ≡ k % 256
    low k = omega arith

    middle : (k : ℕ) → (2 ^ 24 + k) / 2 ^ 8 % 256 ≡ k / 2 ^ 8 % 256
    middle k = omega arith

    high : (k : ℕ) → k < 2 ^ 24 → (2 ^ 24 + k) / 2 ^ 16 % 256 ≡ k / 2 ^ 16 % 256
    high k h = omega arith

    ap₃ :
        {x x' y y' z z' : ℕ}
        → x ≡ x'
        → y ≡ y'
        → z ≡ z'
        → ◌≡◌ {A = Bytes} (0xfe ∷ x ∷ y ∷ z ∷ []) (0xfe ∷ x' ∷ y' ∷ z' ∷ [])
    ap₃ p q r = cc

take_front : (k : ℕ) (b c : Bytes) → k ≤ length b → take k (b ++ c) ≡ take k b
take_front zero b c h = refl
take_front (suc k) [] c h = absurd (omega arith)
take_front (suc k) (x ∷ b) c h = ap (λ (t : Bytes). x ∷ t) (take_front k b c (omega arith))

written_long :
    (b : Bytes)
    → 254 ≤ length b
    → (write_bytes b new_writer).buf
      ≡ long_head (length b) ++ (b ++ replicate (padding (4 + length b)) 0)
unfolding write_raw write_zeros new_writer
written_long b h =
    ap (λ w. (w new_writer).buf) (write_bytes_long b h) ∙ append_assoc (long_head (length b)) b _

read_padding_room :
    (n : ℕ) (r : Reader) → r.pos + n ≤ length r.buf → (r' : Reader) × (read_padding n r ≡ ok tt r')
unfolding read_padding
read_padding_room n r h = elim (Bool-cases (ltb 0 n)) [
  | inl p ↦ (record r { pos = r.pos + n }, rw p (rw (need_ok n r h)))
  | inr z ↦ (r, rw z)
]

-- What is read behind a prefix that announces k bytes.
payload_front :
    (k : ℕ) (b pad : Bytes) (r : Reader)
    → k ≤ length b
    → padding (4 + k) ≤ length pad
    → drop r.pos r.buf ≡ b ++ pad
    → r.pos + length (b ++ pad) ≡ length r.buf
    → (r' : Reader) × (payload k 4 r ≡ ok (take k b) r')
payload_front k b pad r hk hp front size =
    let (r', done) =
      read_padding_room (padding (4 + k)) (advance k r)
        (omega (arith, length-append b pad, size)) in
    (
      r',
      rw (need_ok k r (omega (arith, length-append b pad, size)))
          (rw (front, take_front k b pad hk) (rw done)),
    )

long_prefix_reads :
    (k : ℕ) (rest : Bytes)
    → k < 2 ^ 24
    → read_length_prefix (record { buf = long_head k ++ rest; pos = 0 })
      ≡ ok (k, 4) (record { buf = long_head k ++ rest; pos = 4 })
unfolding write_raw new_writer
long_prefix_reads k rest h =
    (long_prefix k h).reads start rest (omega arith) (ap (λ (t : Bytes). t ++ rest) enc_is)
    ∙ ap (λ (t : Bytes). ok (k, 4) (advance (length t) start)) (sym enc_is)
  where
    start : Reader
    start = record { buf = long_head k ++ rest; pos = 0 }

    enc_is : long_head k ≡ (long_prefix k h).enc
    enc_is = ap (λ (w : Writer). w.buf) ((long_prefix k h).emits new_writer)

-- A payload of 2^24 + k bytes, for k below 2^24, is written with the length k: reading it back
-- succeeds, with only the first k bytes.
pub read_bytes-write_bytes_overlong :
    (b : Bytes) (k : ℕ)
    → length b ≡ 2 ^ 24 + k
    → k < 2 ^ 24
    → (r : Reader) × (read_bytes (new_reader (write_bytes b new_writer).buf) ≡ ok (take k b) r)
unfolding read_bytes new_reader
read_bytes-write_bytes_overlong b k n small =
    let pad : Bytes = replicate (padding (4 + length b)) 0 in
    let r : Reader = record { buf = long_head k ++ (b ++ pad); pos = 4 } in
    let (r', done) =
      payload_front k b pad r (omega arith)
        (omega (arith, length-replicate {A = ℕ} (padding (4 + length b)) 0)) refl
        (sym (length-append (long_head k) (b ++ pad))) in
    let written =
      written_long b (omega arith)
      ∙ ap (λ (t : Bytes). t ++ (b ++ pad)) (ap long_head n ∙ long_head_wraps k small) in
    (r', rw written (rw (long_prefix_reads k (b ++ pad) small) done))

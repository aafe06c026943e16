-- ===== src/Tl/Codec/Blob.antt =====
-- ReadBytes and WriteBytes: the two forms of the length prefix, the payload and the padding.
use gocoon.Common.{
  ℕ, ◌+◌, ◌/◌, ◌%◌, ◌^◌, ◌≤◌, ◌<◌, ◌≡◌, refl, sym, ap, subst, ◌∙◌, [], ◌∷◌, ◌++◌, Bytes, length,
  drop, replicate, ltb, Bool-cases, inl, inr, length-append, length-drop, length-replicate, lt→ltb,
  le→ltb, arith,
}
use gocoon.Common.Endian.{of_le}
use gocoon.Tl.Reader.{
  Reader, TlError, Outcome, Parser, ok, err, ◌>>=◌, ◌>>◌, next, pure, move, window, need, read_raw,
  read_length_prefix, read_padding, padding, read_bytes, read_string,
}
use gocoon.Tl.Writer.{Writer, write_raw, write_zeros, write_bytes, write_string}
use gocoon.Tl.Reader.{Fails}
use gocoon.Tl.Codec.{Codec, Reads, Cuts, Codec-bind, Codec-pure, Fails-next}
use gocoon.Tl.Codec.Fixed.{need_ok, need-Fails, cut_length, raw-Codec}
use mathlib.Core.Path.{fun_ext}
use native.Mathlib.Decide.{dec_lt}

-- What is unread in front of an encoding.
enough :
    (r : Reader) (enc rest : Bytes)
    → r.pos ≤ length r.buf
    → drop r.pos r.buf ≡ enc ++ rest
    → r.pos + length enc ≤ length r.buf
enough r enc rest b h = omega (arith, ap length h, length-append enc rest, length-drop r.pos r.buf)

short-Reads : (n : ℕ) → n < 254 → Reads read_length_prefix (n ∷ []) (n, 1)
unfolding read_length_prefix
short-Reads n hn r rest b h = rw (need_ok 1 r (enough r (n ∷ []) rest b h)) (rw h (ground arith))

short-Cuts : (n : ℕ) → Cuts read_length_prefix (n ∷ [])
unfolding read_length_prefix
short-Cuts n r x back b h =
    Fails-next (need 1 r) _ (need-Fails 1 r (cut_length r x back (n ∷ []) b h))

long-Reads :
    (x y z : ℕ) → Reads read_length_prefix (0xfe ∷ x ∷ y ∷ z ∷ []) (of_le (x ∷ y ∷ z ∷ []), 4)
unfolding read_length_prefix
long-Reads x y z r rest b h =
    let whole = enough r (0xfe ∷ x ∷ y ∷ z ∷ []) rest b h in
    rw (need_ok 1 r (omega arith)) (rw h (rw (need_ok 4 r whole) (rw h)))

-- With the marker read, the three bytes of the length may still be missing.
long_cuts_front :
    (r : Reader) (front : Bytes) (u x y z : ℕ) (back : Bytes)
    → r.pos ≤ length r.buf
    → drop r.pos r.buf ≡ front
    → front ++ (u ∷ back) ≡ 0xfe ∷ x ∷ y ∷ z ∷ []
    → Fails (read_length_prefix r)
unfolding read_length_prefix
long_cuts_front r [] u x y z back b h e =
    Fails-next (need 1 r) _ (need-Fails 1 r (omega (arith, ap length h, length-drop r.pos r.buf)))
long_cuts_front r (f ∷ fs) u x y z back b h e =
    rw (need_ok 1 r (omega (arith, ap length h, length-drop r.pos r.buf))) (
      rw (h, first)
        (Fails-next (need 4 r) _
          (need-Fails 4 r (cut_length r u back _ b (ap (λ (t : Bytes). t ++ (u ∷ back)) h ∙ e)))))
  where
    first : f ≡ 0xfe
    first = cc e

long-Cuts : (x y z : ℕ) → Cuts read_length_prefix (0xfe ∷ x ∷ y ∷ z ∷ [])
long-Cuts x y z r u back b h = long_cuts_front r _ u x y z back b refl h

short-Codec : (n : ℕ) → n < 254 → Codec (write_raw (n ∷ [])) read_length_prefix (n, 1)
unfolding write_raw
short-Codec n h = record {
  enc = n ∷ [];
  emits = λ x. refl;
  reads = short-Reads n h;
  cuts = short-Cuts n;
}

long-Codec :
    (x y z : ℕ)
    → Codec (write_raw (0xfe ∷ x ∷ y ∷ z ∷ [])) read_length_prefix (of_le (x ∷ y ∷ z ∷ []), 4)
unfolding write_raw
long-Codec x y z = record {
  enc = 0xfe ∷ x ∷ y ∷ z ∷ [];
  emits = λ x. refl;
  reads = long-Reads x y z;
  cuts = long-Cuts x y z;
}

length-zeros : (n : ℕ) → length {A = ℕ} (replicate n 0) ≡ n
length-zeros n = length-replicate n 0

padding-Reads : (n : ℕ) → Reads (read_padding n) (replicate n 0) tt
unfolding read_padding
padding-Reads n r rest b h = elim (Bool-cases (ltb 0 n)) [
  | inl p ↦ rw p (
      rw (need_ok n r (omega (arith, enough r (replicate n 0) rest b h, length-zeros n)))
        (rw (length-zeros n)))
  | inr z ↦ ground (arith, length-zeros n)
]

padding-Cuts : (n : ℕ) → Cuts (read_padding n) (replicate n 0)
unfolding read_padding
padding-Cuts n r x back b h =
    rw (lt→ltb 0 n (omega (arith, short, length-zeros n)))
      (Fails-next (need n r) _ (need-Fails n r (omega (arith, short, length-zeros n))))
  where
    short : length r.buf < r.pos + length {A = ℕ} (replicate n 0)
    short = cut_length r x back _ b h

padding-Codec : (n : ℕ) → Codec (write_zeros n) (read_padding n) tt
unfolding write_zeros
padding-Codec n = record {
  enc = replicate n 0;
  emits = λ x. refl;
  reads = padding-Reads n;
  cuts = padding-Cuts n;
}

-- What ReadBytes does behind the length prefix, and the same by ReadRaw.
abbrev pub payload : ℕ → ℕ → Parser TlError Bytes
payload n header_len = do
  need n
  out ← window n
  move n
  read_padding (padding (header_len + n))
  pure out

abbrev raw_payload : ℕ → ℕ → Parser TlError Bytes
raw_payload n header_len = do out ← read_raw n; read_padding (padding (header_len + n)); pure out

payload-eq-raw_payload : (n h : ℕ) → payload n h ≡ raw_payload n h
unfolding read_raw
payload-eq-raw_payload n h = fun_ext λ r. go (need n r)
  where
    go :
        (o : Outcome TlError (Unit {0}))
        → next o (λ _. window n >>= λ out. move n >> (read_padding (padding (h + n)) >> pure out))
          ≡ next
              (next o (λ _. window n >>= λ out. move n >> pure out))
              (λ out. read_padding (padding (h + n)) >> pure out)
    go (ok u s) = refl
    go (err e s) = refl

payload-Codec :
    (b : Bytes) (h : ℕ)
    → Codec (λ w. write_zeros (padding (h + length b)) (write_raw b w)) (payload (length b) h) b
payload-Codec b h =
    subst (λ p. Codec (λ w. write_zeros (padding (h + length b)) (write_raw b w)) p b)
      (sym (payload-eq-raw_payload (length b) h))
      (Codec-bind (λ out. read_padding (padding (h + length b)) >> pure out) (raw-Codec b)
        (Codec-bind (λ _. pure b) (padding-Codec (padding (h + length b))) (Codec-pure b)))

length_bytes :
    (n : ℕ) → n < 2 ^ 24 → of_le ((n % 256) ∷ (n / 2 ^ 8 % 256) ∷ (n / 2 ^ 16 % 256) ∷ []) ≡ n
unfolding of_le
length_bytes n h = omega arith

short_prefix : (n : ℕ) → n < 254 → Codec (write_raw ((n % 256) ∷ [])) read_length_prefix (n, 1)
short_prefix n h = rw (small n h) (short-Codec n h)
  where
    small : (n : ℕ) → n < 254 → n % 256 ≡ n
    small n h = omega arith

abbrev pub long_head : ℕ → Bytes
long_head n = 0xfe ∷ (n % 256) ∷ (n / 2 ^ 8 % 256) ∷ (n / 2 ^ 16 % 256) ∷ []

pub long_prefix : (n : ℕ) → n < 2 ^ 24 → Codec (write_raw (long_head n)) read_length_prefix (n, 4)
long_prefix n h =
    subst (λ k. Codec (write_raw (long_head n)) read_length_prefix (k, 4)) (length_bytes n h)
      (long-Codec (n % 256) (n / 2 ^ 8 % 256) (n / 2 ^ 16 % 256))

abbrev framed : Bytes → ℕ → Bytes → Writer → Writer
framed head k b w = write_zeros (padding (k + length b)) (write_raw b (write_raw head w))

pub write_bytes_short :
    (b : Bytes) → length b < 254 → write_bytes b ≡ framed ((length b % 256) ∷ []) 1 b
unfolding write_bytes
write_bytes_short b h = fun_ext λ w. rw (lt→ltb _ _ h)

pub write_bytes_long :
    (b : Bytes) → 254 ≤ length b → write_bytes b ≡ framed (long_head (length b)) 4 b
unfolding write_bytes
write_bytes_long b h = fun_ext λ w. rw (le→ltb _ _ h)

-- The two forms, for a payload shorter than 2^24 bytes.
pub bytes-Codec : (b : Bytes) → length b < 2 ^ 24 → Codec (write_bytes b) read_bytes b
unfolding read_bytes
bytes-Codec b h = elim (dec_lt (length b) 254) [
  | yes s ↦
      rw (write_bytes_short b s)
        (Codec-bind (λ (n, k). payload n k) (short_prefix (length b) s) (payload-Codec b 1))
  | no l ↦
      rw (write_bytes_long b (omega arith))
        (Codec-bind (λ (n, k). payload n k) (long_prefix (length b) h) (payload-Codec b 4))
]

pub string-Codec : (b : Bytes) → length b < 2 ^ 24 → Codec (write_string b) read_string b
unfolding write_string read_string
string-Codec b h = bytes-Codec b h

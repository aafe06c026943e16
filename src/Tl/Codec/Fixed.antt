-- ===== src/Tl/Codec/Fixed.antt =====
-- The primitives of a fixed width: raw bytes, integers, floats and bools.
use gocoon.Common.{
  ℕ, ◌+◌, ◌^◌, ◌≤◌, ◌<◌, ◌≡◌, refl, ap, Bool, true, false, ◌∷◌, ◌++◌, Bytes, length, drop,
  length-append, length-drop, take-append, lt→ltb, le→ltb, arith,
}
use gocoon.Common.Endian.{le_bytes, of_le, length-le_bytes, of_le-le_bytes}
use gocoon.Common.Int.{
  ℤ, IsInt32, IsInt64, to_uint32, to_uint64, to_int32, to_int64, to_uint32-lt, to_uint64-lt,
  to_int32-to_uint32, to_int64-to_uint64,
}
use gocoon.Tl.Reader.{
  Reader, TlError, Parser, ok, ◌>>=◌, ◌>>◌, pure, move, window, need, read_raw, read_uint32,
  read_int32, read_uint64, read_int64, Float64, read_double, read_int128, read_int256, read_bool,
  read_flags, bool_true_id, bool_false_id,
}
use gocoon.Tl.Writer.{
  write_raw, write_uint32, write_int32, write_uint64, write_int64, write_double, write_int128,
  write_int256, write_bool, write_flags,
}
use gocoon.Tl.Reader.{Fails}
use gocoon.Tl.Codec.{Codec, Reads, Cuts, Codec-bind, Codec-map, Codec-pure, Fails-next}

pub need_ok : (n : ℕ) (r : Reader) → r.pos + n ≤ length r.buf → need n r ≡ ok tt r
unfolding need
need_ok n r h = rw (le→ltb _ _ h)

pub need-Fails : (n : ℕ) (r : Reader) → length r.buf < r.pos + n → Fails (need n r)
unfolding need
need-Fails n r h = rw (lt→ltb _ _ h) tt

-- The unread part of a cut input is shorter than the encoding.
pub cut_length :
    (r : Reader) (x : ℕ) (back enc : Bytes)
    → r.pos ≤ length r.buf
    → drop r.pos r.buf ++ (x ∷ back) ≡ enc
    → length r.buf < r.pos + length enc
cut_length r x back enc h e =
    omega (arith, ap length e, length-append (drop r.pos r.buf) (x ∷ back), length-drop r.pos r.buf)

module _ {ℓ} {A : Type ℓ} where
  abbrev fixed : ℕ → (Bytes → A) → Parser TlError A
  fixed n k = do need n; b ← window n; move n; pure (k b)

  fixed-Reads :
      (n : ℕ) (k : Bytes → A) (enc : Bytes) → length enc ≡ n → Reads (fixed n k) enc (k enc)
  fixed-Reads n k enc e r rest bound h =
      rw (need_ok n r (omega (arith, ap length h, length-append enc rest, length-drop r.pos r.buf)))
        (rw (h, ← e, take-append))

  fixed-Cuts : (n : ℕ) (k : Bytes → A) (enc : Bytes) → length enc ≡ n → Cuts (fixed n k) enc
  fixed-Cuts n k enc e r x back bound h =
      Fails-next (need n r) _ (need-Fails n r (omega (arith, cut_length r x back enc bound h)))

  fixed-Codec :
      (n : ℕ) (k : Bytes → A) (enc : Bytes)
      → length enc ≡ n
      → Codec (λ w. record { buf = w.buf ++ enc }) (fixed n k) (k enc)
  fixed-Codec n k enc e = record {
    enc = enc;
    emits = λ x. refl;
    reads = fixed-Reads n k enc e;
    cuts = fixed-Cuts n k enc e;
  }

pub raw-Codec : (b : Bytes) → Codec (write_raw b) (read_raw (length b)) b
unfolding write_raw read_raw
raw-Codec b = fixed-Codec (length b) (λ t. t) b refl

module _ {A : Type 0} where
  -- A number put at a width of `n` bytes, behind the conversion `k` of the reader.
  le-Codec :
      (n : ℕ) (k : ℕ → A) (v : ℕ)
      → v < 256 ^ n
      → Codec (λ w. record { buf = w.buf ++ le_bytes n v }) (fixed n (λ b. k (of_le b))) (k v)
  le-Codec n k v h =
      rw (of_le-le_bytes n v h) at
        (fixed-Codec n (λ b. k (of_le b)) (le_bytes n v) (length-le_bytes n v))

pub uint32-Codec : (v : ℕ) → v < 2 ^ 32 → Codec (write_uint32 v) read_uint32 v
unfolding write_uint32 read_uint32
uint32-Codec v h = le-Codec 4 (λ t. t) v h

pub uint64-Codec : (v : ℕ) → v < 2 ^ 64 → Codec (write_uint64 v) read_uint64 v
unfolding write_uint64 read_uint64
uint64-Codec v h = le-Codec 8 (λ t. t) v h

pub int32-Codec : (v : ℤ) → IsInt32 v → Codec (write_int32 v) read_int32 v
unfolding write_int32 read_int32
int32-Codec v h =
    Codec-map to_int32 (to_int32-to_uint32 v h) (uint32-Codec (to_uint32 v) (to_uint32-lt v))

pub int64-Codec : (v : ℤ) → IsInt64 v → Codec (write_int64 v) read_int64 v
unfolding write_int64 read_int64
int64-Codec v h =
    Codec-map to_int64 (to_int64-to_uint64 v h) (uint64-Codec (to_uint64 v) (to_uint64-lt v))

pub flags-Codec : (v : ℕ) → v < 2 ^ 32 → Codec (write_flags v) read_flags v
unfolding write_flags read_flags
flags-Codec v h = uint32-Codec v h

pub double-Codec : (v : Float64) → v.bits < 2 ^ 64 → Codec (write_double v) read_double v
unfolding write_double read_double
double-Codec v h = le-Codec 8 (λ t. record { bits = t }) v.bits h

pub int128-Codec : (v : Bytes) → length v ≡ 16 → Codec (write_int128 v) read_int128 v
unfolding write_int128 read_int128
int128-Codec v h = fixed-Codec 16 (λ t. t) v h

pub int256-Codec : (v : Bytes) → length v ≡ 32 → Codec (write_int256 v) read_int256 v
unfolding write_int256 read_int256
int256-Codec v h = fixed-Codec 32 (λ t. t) v h

pub bool-Codec : (v : Bool) → Codec (write_bool v) read_bool v
unfolding write_bool read_bool
bool-Codec true = Codec-bind _ (uint32-Codec bool_true_id (omega arith)) (Codec-pure true)
bool-Codec false = Codec-bind _ (uint32-Codec bool_false_id (omega arith)) (Codec-pure false)

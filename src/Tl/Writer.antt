-- ===== src/Tl/Writer.antt =====
-- pkg/tl/primitives.go, the Writer: each method appends to the buffer.
use gocoon.Common.{
  ℕ, ◌+◌, ◌/◌, ◌%◌, ◌^◌, Bool, Bytes, [], ◌∷◌, ◌++◌, ltb, if◌then◌else◌, length, replicate,
}
use gocoon.Common.Endian.{le_bytes}
use gocoon.Common.Int.{ℤ, to_uint32, to_uint64}
use gocoon.Tl.Reader.{Float64, bool_false_id, bool_true_id, padding}

pub record Writer : Type 0 where
  pub buf : Bytes

-- `w ▹ f ▹ g` for `w.F(); w.G()`.
infixl 10 ◌▹◌
abbrev pub ◌▹◌ : Writer → (Writer → Writer) → Writer
w ▹ f = f w

unfoldable pub new_writer : Writer
new_writer = record { buf = [] }

abbrev pub bytes : Writer → Bytes
bytes w = w.buf

pub len : Writer → ℕ
len w = length w.buf

unfoldable pub reset : Writer → Writer
reset w = record { buf = [] }

unfoldable pub write_raw : Bytes → Writer → Writer
write_raw b w = record { buf = w.buf ++ b }

unfoldable pub write_uint32 : ℕ → Writer → Writer
write_uint32 v w = record { buf = w.buf ++ le_bytes 4 v }

unfoldable pub write_int32 : ℤ → Writer → Writer
write_int32 v = write_uint32 (to_uint32 v)

unfoldable pub write_uint64 : ℕ → Writer → Writer
write_uint64 v w = record { buf = w.buf ++ le_bytes 8 v }

unfoldable pub write_int64 : ℤ → Writer → Writer
write_int64 v = write_uint64 (to_uint64 v)

unfoldable pub write_double : Float64 → Writer → Writer
write_double v w = record { buf = w.buf ++ le_bytes 8 v.bits }

unfoldable pub write_int128 : Bytes → Writer → Writer
write_int128 v w = record { buf = w.buf ++ v }

unfoldable pub write_int256 : Bytes → Writer → Writer
write_int256 v w = record { buf = w.buf ++ v }

unfoldable pub write_bool : Bool → Writer → Writer
write_bool v = if v then write_uint32 bool_true_id else write_uint32 bool_false_id

-- `for i := 0; i < pad; i++ { append(buf, 0) }`
unfoldable pub write_zeros : ℕ → Writer → Writer
write_zeros n w = record { buf = w.buf ++ replicate n 0 }

unfoldable pub write_bytes : Bytes → Writer → Writer
write_bytes b w =
    let n = length b in
    if ltb n 0xfe
    then w ▹ write_raw ((n % 256) ∷ []) ▹ write_raw b ▹ write_zeros (padding (1 + n))
    else w
      ▹ write_raw (0xfe ∷ (n % 256) ∷ (n / 2 ^ 8 % 256) ∷ (n / 2 ^ 16 % 256) ∷ [])
      ▹ write_raw b
      ▹ write_zeros (padding (4 + n))

unfoldable pub write_string : Bytes → Writer → Writer
write_string = write_bytes

unfoldable pub write_flags : ℕ → Writer → Writer
write_flags = write_uint32

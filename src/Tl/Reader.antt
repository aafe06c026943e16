-- ===== src/Tl/Reader.antt =====
-- pkg/tl/primitives.go, the Reader: a buffer with a cursor. A read method is a function from the
-- reader to its outcome, and an error leaves the cursor where the failed read found it.
use gocoon.Common.{
  ℕ, ◌+◌, ◌-◌, ◌%◌, Bool, true, false, Bytes, [], ◌∷◌, ltb, leb, ◌==◌, if◌then◌else◌, length, take,
  drop,
}
use gocoon.Common.Endian.{of_le}
use gocoon.Common.Int.{ℤ, to_int32, to_int64}
use gocoon.Common.State.{Result, Method}
pub use gocoon.Common.State.{ok, err, next, ◌>>=◌, ◌>>◌, pure, fail, Fails}

-- The sentinel errors of errors.go, with the values that the messages show.
pub data TlError : Type 0 where
  short_buffer : ℕ → ℕ → ℕ → TlError
  invalid_bool : ℕ → TlError
  invalid_length : TlError
  unknown_constructor : TlError

pub record Reader : Type 0 where
  pub buf : Bytes
  pub pos : ℕ

abbrev pub Outcome {ℓ} : Type 0 → Type ℓ → Type ℓ
Outcome E A = Result Reader E A

abbrev pub Parser {ℓ} : Type 0 → Type ℓ → Type ℓ
Parser E A = Method Reader E A

unfoldable pub new_reader : Bytes → Reader
new_reader b = record { buf = b; pos = 0 }

pub remaining : Reader → ℕ
remaining r = length r.buf - r.pos

unfoldable pub eof : Reader → Bool
eof r = leb (length r.buf) r.pos

abbrev pub advance : ℕ → Reader → Reader
advance n r = record r { pos = r.pos + n }

-- `r.pos += n`
abbrev pub move : {E : Type 0} → ℕ → Parser E (Unit {0})
move n r = ok tt (advance n r)

-- `r.buf[r.pos : r.pos+n]`, copied.
abbrev pub window : {E : Type 0} → ℕ → Parser E Bytes
window n r = ok (take n (drop r.pos r.buf)) r

unfoldable pub need : ℕ → Parser TlError (Unit {0})
need n r =
    if ltb (length r.buf) (r.pos + n) then err (short_buffer n r.pos (length r.buf)) r else ok tt r

unfoldable pub read_raw : ℕ → Parser TlError Bytes
read_raw n = do need n; out ← window n; move n; pure out

unfoldable pub read_uint32 : Parser TlError ℕ
read_uint32 = do need 4; b ← window 4; move 4; pure (of_le b)

unfoldable pub read_int32 : Parser TlError ℤ
read_int32 = do v ← read_uint32; pure (to_int32 v)

unfoldable pub read_uint64 : Parser TlError ℕ
read_uint64 = do need 8; b ← window 8; move 8; pure (of_le b)

unfoldable pub read_int64 : Parser TlError ℤ
read_int64 = do v ← read_uint64; pure (to_int64 v)

-- A float64 is its IEEE-754 bit pattern: `Float64frombits` and `Float64bits` convert nothing.
pub record Float64 : Type 0 where
  pub bits : ℕ

unfoldable pub read_double : Parser TlError Float64
read_double = do need 8; b ← window 8; move 8; pure (record { bits = of_le b })

unfoldable pub read_int128 : Parser TlError Bytes
read_int128 = do need 16; out ← window 16; move 16; pure out

unfoldable pub read_int256 : Parser TlError Bytes
read_int256 = do need 32; out ← window 32; move 32; pure out

abbrev pub bool_false_id : ℕ
bool_false_id = 0xbc79_9737

abbrev pub bool_true_id : ℕ
bool_true_id = 0x9972_75b5

-- `switch id`
bool_of_id : ℕ → Parser TlError Bool
bool_of_id id =
    if id == bool_true_id
    then pure true
    else if id == bool_false_id
    then pure false
    else fail (invalid_bool id)

unfoldable pub read_bool : Parser TlError Bool
unfolding bool_of_id
read_bool = do id ← read_uint32; bool_of_id id

-- The byte at the cursor, read behind a `need`.
abbrev pub head_byte : Bytes → ℕ
head_byte [] = 0
head_byte (b ∷ bs) = b

-- A first byte below 0xfe is the length; 0xfe has three bytes of length behind it.
short_length : ℕ → Parser TlError (ℕ × ℕ)
short_length first = do move 1; pure (first, 1)

long_length : Parser TlError (ℕ × ℕ)
long_length = do need 4; b ← window 4; move 4; pure (of_le (drop 1 b), 4)

length_of_first : ℕ → Parser TlError (ℕ × ℕ)
unfolding short_length long_length
length_of_first first =
    if first == 0xff
    then fail invalid_length
    else if ltb first 0xfe
    then short_length first
    else long_length

-- The payload's length and the number of header bytes.
unfoldable pub read_length_prefix : Parser TlError (ℕ × ℕ)
unfolding length_of_first
read_length_prefix = do need 1; b ← window 1; length_of_first (head_byte b)

-- The zero bytes behind a header and payload of `total` bytes.
abbrev pub padding : ℕ → ℕ
padding total = (4 - total % 4) % 4

unfoldable pub read_padding : ℕ → Parser TlError (Unit {0})
read_padding pad = if ltb 0 pad then (do need pad; move pad) else pure tt

unfoldable pub read_bytes : Parser TlError Bytes
read_bytes = do
  (length, header_len) ← read_length_prefix
  need length
  out ← window length
  move length
  read_padding (padding (header_len + length))
  pure out

-- A string is its bytes.
unfoldable pub read_string : Parser TlError Bytes
read_string = read_bytes

unfoldable pub read_flags : Parser TlError ℕ
read_flags = read_uint32

-- ===== src/Tl/Vector.antt =====
-- pkg/tl/vector.go: a count and that many items.
pub mod RoundTrip
use gocoon.Common.{ℕ, zero, suc, Bytes, List, [], ◌∷◌, length}
use gocoon.Tl.Reader.{
  TlError, Parser, ◌>>=◌, pure, read_uint32, read_bytes, read_string, read_int256,
}
use gocoon.Tl.Writer.{Writer, ◌▹◌, write_uint32, write_bytes, write_string, write_int256}

unfoldable pub read_vector_len : Parser TlError ℕ
read_vector_len = read_uint32

-- `for i := 0; i < n; i++ { v, err := read(); …; out[i] = v }`
unfoldable pub read_items {ℓ} : {E : Type 0} {A : Type ℓ} → Parser E A → ℕ → Parser E (List A)
read_items p zero = pure []
read_items p (suc n) = do x ← p; xs ← read_items p n; pure (x ∷ xs)

-- `for _, v := range items { write(v) }`
unfoldable pub write_items {ℓ} : {A : Type ℓ} → (A → Writer → Writer) → List A → Writer → Writer
write_items write [] w = w
write_items write (x ∷ xs) w = write_items write xs (write x w)

pub write_vector_len : ℕ → Writer → Writer
write_vector_len n = write_uint32 n

pub read_vector_bytes : Parser TlError (List Bytes)
unfolding read_vector_len
read_vector_bytes = do n ← read_vector_len; read_items read_bytes n

pub write_vector_bytes : List Bytes → Writer → Writer
unfolding write_vector_len
write_vector_bytes items w = w ▹ write_vector_len (length items) ▹ write_items write_bytes items

pub read_vector_string : Parser TlError (List Bytes)
unfolding read_vector_len
read_vector_string = do n ← read_vector_len; read_items read_string n

pub write_vector_string : List Bytes → Writer → Writer
unfolding write_vector_len
write_vector_string items w = w ▹ write_vector_len (length items) ▹ write_items write_string items

pub read_vector_int256 : Parser TlError (List Bytes)
unfolding read_vector_len
read_vector_int256 = do n ← read_vector_len; read_items read_int256 n

pub write_vector_int256 : List Bytes → Writer → Writer
unfolding write_vector_len
write_vector_int256 items w = w ▹ write_vector_len (length items) ▹ write_items write_int256 items

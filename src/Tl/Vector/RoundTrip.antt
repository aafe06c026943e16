-- ===== src/Tl/Vector/RoundTrip.antt =====
-- Vectors as codecs: what was written is read back, item by item.
use gocoon.Common.{◌^◌, ◌<◌, ◌≡◌, List, [], ◌∷◌, Bytes, length, All}
use gocoon.Tl.Reader.{Parser, read_bytes, read_string, read_int256, pure, ◌>>=◌}
use gocoon.Tl.Writer.{Writer}
use gocoon.Tl.Codec.{Codec, Codec-bind, Codec-pure}
use gocoon.Tl.Codec.Fixed.{uint32-Codec, int256-Codec}
use gocoon.Tl.Codec.Blob.{bytes-Codec, string-Codec}
use gocoon.Tl.Vector.{
  read_items, write_items, read_vector_bytes, write_vector_bytes, read_vector_string,
  write_vector_string, read_vector_int256, write_vector_int256,
}

pub items-Codec {ℓ κ} :
    {E : Type 0} {A : Type ℓ} {P : A → Type κ} {write : A → Writer → Writer} {p : Parser E A}
    → ((a : A) → P a → Codec (write a) p a)
    → (xs : List A) → All P xs
    → Codec (write_items write xs) (read_items p (length xs)) xs
unfolding read_items write_items
items-Codec item [] h = Codec-pure []
items-Codec {p = p} item (x ∷ xs) h =
    Codec-bind (λ y. read_items p (length xs) >>= λ ys. pure (y ∷ ys)) (item x h.0)
      (Codec-bind (λ ys. pure (x ∷ ys)) (items-Codec item xs h.1) (Codec-pure (x ∷ xs)))

pub vector_bytes-Codec :
    (xs : List Bytes)
    → length xs < 2 ^ 32
    → All (λ b. length b < 2 ^ 24) xs
    → Codec (write_vector_bytes xs) read_vector_bytes xs
unfolding write_vector_bytes read_vector_bytes
vector_bytes-Codec xs n h =
    Codec-bind (read_items read_bytes) (uint32-Codec (length xs) n) (items-Codec bytes-Codec xs h)

pub vector_string-Codec :
    (xs : List Bytes)
    → length xs < 2 ^ 32
    → All (λ b. length b < 2 ^ 24) xs
    → Codec (write_vector_string xs) read_vector_string xs
unfolding write_vector_string read_vector_string
vector_string-Codec xs n h =
    Codec-bind (read_items read_string) (uint32-Codec (length xs) n) (items-Codec string-Codec xs h)

pub vector_int256-Codec :
    (xs : List Bytes)
    → length xs < 2 ^ 32
    → All (λ b. length b ≡ 32) xs
    → Codec (write_vector_int256 xs) read_vector_int256 xs
unfolding write_vector_int256 read_vector_int256
vector_int256-Codec xs n h =
    Codec-bind (read_items read_int256) (uint32-Codec (length xs) n) (items-Codec int256-Codec xs h)

-- ===== src/Router/Pow/Threshold.antt =====
-- What a difficulty means: the value of the hash lies below a power of two.
use gocoon.Common.{
  ℕ, zero, suc, ◌-◌, ◌/◌, ◌^◌, ◌≤◌, ◌<◌, ◌≡◌, ◌↔◌, ◌∙◌, subst, true, Bytes, ◌++◌, not, length, take,
  All, All-take, length-take, arith,
}
use native.Mathlib.Nat.{pow-suc}
use gocoon.Common.Int.{pos, int_ltb}
use gocoon.Common.Endian.{IsByte, of_le, of_le-lt, le_bytes}
use gocoon.Router.Pow.{bit_len, leading_zeros64, hash_value, verify_pow_response}

pow_pos : (k : ℕ) → 0 < 2 ^ k
pow_pos zero = omega arith
pow_pos (suc k) = omega (arith, pow-suc 2 k, pow_pos k)

-- A number below 2^n has at most k bits if and only if it is below 2^k.
bit_len-le_iff : (n v k : ℕ) → v < 2 ^ n → (bit_len n v ≤ k) ↔ (v < 2 ^ k)
unfolding bit_len
bit_len-le_iff zero v k h = (λ _. omega (arith, pow_pos k), λ _. omega arith)
bit_len-le_iff (suc n) v zero h = (λ g. ground arith, λ g. ground arith)
bit_len-le_iff (suc n) v (suc k) h =
    let (there, back) = bit_len-le_iff n (v / 2) k (omega (arith, pow-suc 2 n)) in
    (λ g. ground (arith, there, pow-suc 2 k, pow_pos k), λ g. ground (arith, back, pow-suc 2 k))

-- What the hash function promises: at least 8 bytes, each below 256.
pub record IsHash (sha256 : Bytes → Bytes) : Type 0 where
  pub size : (b : Bytes) → 8 ≤ length (sha256 b)
  pub bytes : (b : Bytes) → All IsByte (sha256 b)

hash_value-lt :
    (sha256 : Bytes → Bytes) (salt : Bytes) (n : ℕ)
    → IsHash sha256
    → hash_value sha256 salt n < 2 ^ 64
unfolding hash_value
hash_value-lt sha256 salt n hash =
    let h = sha256 (salt ++ le_bytes 8 n) in
    let size : length (take 8 h) ≡ 8 =
      length-take 8 h ∙ omega (arith, hash.size (salt ++ le_bytes 8 n)) in
    subst (λ (k : ℕ). of_le (take 8 h) < 256 ^ k) size
      (of_le-lt (take 8 h) (All-take IsByte 8 h (hash.bytes (salt ++ le_bytes 8 n))))

verify_bits :
    (v d : ℕ)
    → bit_len 64 v ≤ 64
    → d ≤ 64
    → not (int_ltb (pos (64 - bit_len 64 v)) (pos d)) ≡ true
    → bit_len 64 v ≤ 64 - d
verify_bits v d fits small h = ground arith

bits_verify :
    (v d : ℕ)
    → d ≤ 64
    → bit_len 64 v ≤ 64 - d
    → not (int_ltb (pos (64 - bit_len 64 v)) (pos d)) ≡ true
bits_verify v d small h = ground arith

-- For a hash function that gives at least 8 bytes, a nonce verifies at a difficulty d of 0 to 64
-- if and only if the first 8 bytes of the hash, read as a little-endian number, are below 2^(64 -
-- d).
pub verify_pow_response_iff :
    (sha256 : Bytes → Bytes) (salt : Bytes) (d n : ℕ)
    → IsHash sha256
    → d ≤ 64
    → (verify_pow_response sha256 salt (pos d) n ≡ true) ↔ (hash_value sha256 salt n < 2 ^ (64 - d))
unfolding verify_pow_response leading_zeros64
verify_pow_response_iff sha256 salt d n hash small =
    let v = hash_value sha256 salt n in
    let wide = hash_value-lt sha256 salt n hash in
    let (there, back) = bit_len-le_iff 64 v (64 - d) wide in
    let fits = (bit_len-le_iff 64 v 64 wide).1 wide in
    (λ h. there (verify_bits v d fits small h), λ h. bits_verify v d small (back h))

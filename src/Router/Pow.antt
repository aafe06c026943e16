-- ===== src/Router/Pow.antt =====
-- pkg/router/pow.go: the proof of work before TLS. SHA-256 is a parameter.
pub mod Search
pub mod Threshold
pub mod Solve
use gocoon.Common.{
  ℕ, zero, suc, ◌+◌, ◌-◌, ◌/◌, ◌%◌, ◌^◌, Bool, true, false, Bytes, [], ◌∷◌, ◌++◌, Option, none,
  some, ltb, ◌==◌, ◌||◌, not, if◌then◌else◌, length, take, drop,
}
use gocoon.Common.Int.{ℤ, pos, negsuc, int_ltb, to_int32}
use gocoon.Common.Endian.{le_bytes, of_le}
use gocoon.Common.State.{Result, Method, ok, err, next, ◌>>=◌, ◌>>◌, pure, fail}

abbrev pub pow_magic_challenge : ℕ
pow_magic_challenge = 0x418e_1291

abbrev pub pow_magic_response : ℕ
pow_magic_response = 0x0182_7319

abbrev pub max_difficulty : ℤ
max_difficulty = pos 32

pub data PowError : Type 0 where
  read_challenge write_response nonce_overflow : PowError
  magic_mismatch : ℕ → PowError
  difficulty_too_high : ℤ → ℤ → PowError

-- What the server will have sent, what was written to it, and whether the next Write fails.
pub record Stream : Type 0 where
  pub incoming : Bytes
  pub outgoing : Bytes
  pub write_fault : Bool

-- `io.ReadFull` of `n` bytes.
unfoldable pub read_full : ℕ → Method Stream PowError Bytes
read_full n s =
    if ltb (length s.incoming) n
    then err read_challenge (record s { incoming = [] })
    else ok (take n s.incoming) (record s { incoming = drop n s.incoming })

unfoldable pub write_all : Bytes → Method Stream PowError (Unit {0})
write_all b s =
    if s.write_fault then err write_response s else ok tt (record s { outgoing = s.outgoing ++ b })

-- `bits.LeadingZeros64`: 64 less the number of bits up to the highest one.
unfoldable pub bit_len : ℕ → ℕ → ℕ
bit_len zero v = 0
bit_len (suc n) v = let rest = bit_len n (v / 2) in if v == 0 then 0 else suc rest

unfoldable pub leading_zeros64 : ℕ → ℕ
leading_zeros64 v = 64 - bit_len 64 v

-- `difficulty == 0`
abbrev pub is_zero : ℤ → Bool
is_zero (pos n) = n == 0
is_zero (negsuc n) = false

-- `if maxDifficulty <= 0 { maxDifficulty = MaxDifficulty }`
abbrev pub effective_limit : ℤ → ℤ
effective_limit limit = if int_ltb (pos 0) limit then limit else max_difficulty

module _ (sha256 : Bytes → Bytes) where
  -- The first 8 bytes of the hash of salt and nonce. A nonce is from 0 to 2^63 - 1.
  unfoldable pub hash_value : Bytes → ℕ → ℕ
  hash_value salt nonce = of_le (take 8 (sha256 (salt ++ le_bytes 8 nonce)))

  unfoldable pub verify_pow_response : Bytes → ℤ → ℕ → Bool
  verify_pow_response salt difficulty nonce =
      not (int_ltb (pos (leading_zeros64 (hash_value salt nonce))) difficulty)

  -- `for nonce := int64(0); nonce >= 0; nonce++`: the fuel is the number of nonces left before the
  -- counter overflows, and `none` is the error that follows.
  unfoldable pub find_loop : ℕ → Bytes → ℤ → ℕ → Option ℕ
  find_loop zero salt difficulty nonce = none
  find_loop (suc k) salt difficulty nonce = elim (verify_pow_response salt difficulty nonce) [
    | true ↦ some nonce
    | false ↦ find_loop k salt difficulty (suc nonce)
  ]

  unfoldable pub find_nonce : Bytes → ℤ → Option ℕ
  find_nonce salt difficulty =
      if is_zero difficulty then some 0 else find_loop (2 ^ 63) salt difficulty 0

  -- The answer to a challenge whose header is accepted.
  unfoldable pub respond : Bytes → ℤ → Method Stream PowError (Unit {0})
  respond salt difficulty = elim (find_nonce salt difficulty) [
    | none ↦ fail nonce_overflow
    | some nonce ↦ write_all (le_bytes 4 pow_magic_response ++ le_bytes 8 nonce)
  ]

  -- What is done with the 24 bytes of the challenge.
  unfoldable pub answer_challenge : ℤ → Bytes → Method Stream PowError (Unit {0})
  answer_challenge limit challenge =
      let magic = of_le (take 4 challenge) in
      let difficulty = to_int32 (of_le (take 4 (drop 4 challenge))) in
      let salt = take 16 (drop 8 challenge) in
      if not (magic == pow_magic_challenge)
      then fail (magic_mismatch magic)
      else if int_ltb difficulty (pos 0) || int_ltb limit difficulty
      then fail (difficulty_too_high difficulty limit)
      else respond salt difficulty

  unfoldable pub solve_pow : ℤ → Method Stream PowError (Unit {0})
  solve_pow limit = do challenge ← read_full 24; answer_challenge (effective_limit limit) challenge

-- ===== src/Tests/Work.antt =====
-- The proof of work with a toy hash.
use gocoon.Common.{
  ◌==◌, if◌then◌else◌, ℕ, ◌^◌, ◌≤◌, ◌<◌, ◌≡◌, ◌↔◌, refl, arith, true, false, Bytes, [], ◌∷◌, ◌++◌,
  some, replicate, drop, All, All-replicate,
}
use gocoon.Common.Int.{pos, to_int32}
use gocoon.Common.Endian.{of_le, le_bytes}
use gocoon.Common.State.{ok}
use gocoon.Router.Pow.{
  Stream, verify_pow_response, find_nonce, find_loop, hash_value, leading_zeros64, bit_len,
  solve_pow, respond, answer_challenge, write_all, read_full,
}
use gocoon.Router.Pow.Search.{find_nonce_finds}
use gocoon.Router.Pow.Threshold.{IsHash, verify_pow_response_iff}
use gocoon.Router.Pow.Solve.{
  IsOffered, salt, difficulty, response, solve_pow_answers, solve_pow_finds,
}

-- The eighth of 32 bytes is 0 where the lowest byte of the nonce is 3, and 200 otherwise.
abbrev top_byte : Bytes → ℕ
top_byte [] = 200
top_byte (b ∷ bs) = if b == 3 then 0 else 200

abbrev toy : Bytes → Bytes
toy b = replicate 7 255 ++ (top_byte (drop 16 b) ∷ replicate 24 0)

abbrev toy_salt : Bytes
toy_salt = replicate 16 1

toy_finds_three : find_nonce toy toy_salt (pos 8) ≡ some 3
unfolding find_nonce find_loop verify_pow_response hash_value leading_zeros64 bit_len le_bytes of_le
toy_finds_three = refl

three_verifies : verify_pow_response toy toy_salt (pos 8) 3 ≡ true
unfolding verify_pow_response hash_value leading_zeros64 bit_len le_bytes of_le
three_verifies = refl

find_nonce_finds_example :
    (m : ℕ) × (find_nonce toy toy_salt (pos 8) ≡ some m)
    × (m ≤ 3)
    × (verify_pow_response toy toy_salt (pos 8) m ≡ true)
find_nonce_finds_example = find_nonce_finds toy toy_salt (pos 8) 3 (omega arith) three_verifies

toy-IsHash : IsHash toy
toy-IsHash = record {
  size = λ b. omega arith;
  bytes = λ b. (
    omega arith,
    (
      omega arith,
      (
        omega arith,
        (omega arith, (omega arith, (omega arith, (omega arith, (top (drop 16 b), zeros 24))))),
      ),
    ),
  );
}
  where
    top : (b : Bytes) → top_byte b < 256
    top [] = omega arith
    top (x ∷ bs) = ground arith

    zeros : (n : ℕ) → All (λ b. b < 256) (replicate n 0)
    zeros n = All-replicate (λ b. b < 256) n 0 (omega arith)

verify_pow_response_iff_example :
    (verify_pow_response toy toy_salt (pos 8) 3 ≡ true) ↔ (hash_value toy toy_salt 3 < 2 ^ 56)
verify_pow_response_iff_example = verify_pow_response_iff toy toy_salt 8 3 toy-IsHash (omega arith)

-- A challenge of 8 bits.
abbrev server : Stream
server = record {
  incoming = 0x91 ∷ 0x12 ∷ 0x8e ∷ 0x41 ∷ 8 ∷ 0 ∷ 0 ∷ 0 ∷ toy_salt;
  outgoing = [];
  write_fault = false;
}

server_offers : IsOffered (pos 0) server
unfolding of_le to_int32
server_offers = record { whole = omega arith; speaks = refl; low = refl; high = refl }

three_answers : verify_pow_response toy (salt server) (difficulty server) 3 ≡ true
unfolding to_int32 of_le
three_answers = three_verifies

solve_pow_finds_example :
    (nonce : ℕ) × (solve_pow toy (pos 0) server
      ≡ ok tt (record server { incoming = drop 24 server.incoming; outgoing = response nonce }))
    × (nonce ≤ 3)
    × (verify_pow_response toy (salt server) (difficulty server) nonce ≡ true)
solve_pow_finds_example =
    solve_pow_finds toy (pos 0) server 3 server_offers refl (omega arith) three_answers

solved :
    solve_pow toy (pos 0) server ≡ ok tt (record server { incoming = []; outgoing = response 3 })
unfolding solve_pow read_full answer_challenge respond write_all find_nonce find_loop
    verify_pow_response hash_value leading_zeros64 bit_len le_bytes of_le to_int32
solved = refl

solve_pow_answers_example :
    IsOffered (pos 0) server
    × (nonce : ℕ) × (record server { incoming = []; outgoing = response 3 }
        ≡ record server { incoming = drop 24 server.incoming; outgoing = response nonce })
    × (verify_pow_response toy (salt server) (difficulty server) nonce ≡ true)
solve_pow_answers_example =
    solve_pow_answers toy (pos 0) server (record server { incoming = []; outgoing = response 3 })
      solved

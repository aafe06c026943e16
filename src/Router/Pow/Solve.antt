-- ===== src/Router/Pow/Solve.antt =====
-- SolvePoW: what an answered challenge was, and that a challenge that can be solved is answered.
use gocoon.Common.{
  ℕ, ◌^◌, ◌≤◌, ◌<◌, ◌≡◌, sym, ◌∙◌, true, false, Bytes, ◌++◌, none, some, length, take, drop,
  Option-cases, inl, inr, le→ltb, lt→ltb, [], arith,
}
use native.Mathlib.Decide.{dec_lt}
use gocoon.Common.Int.{ℤ, pos, int_ltb, to_int32}
use gocoon.Common.Endian.{le_bytes, of_le}
use gocoon.Common.State.{ok, err}
use gocoon.Router.Pow.{
  pow_magic_challenge, pow_magic_response, read_challenge, nonce_overflow, Stream, read_full,
  write_all, verify_pow_response, find_nonce, effective_limit, respond, answer_challenge, solve_pow,
}
use gocoon.Router.Pow.Search.{find_nonce-verifies, find_nonce_finds}

-- The parts of the challenge that a stream starts with.
abbrev pub magic : Stream → ℕ
magic s = of_le (take 4 (take 24 s.incoming))

abbrev pub difficulty : Stream → ℤ
difficulty s = to_int32 (of_le (take 4 (drop 4 (take 24 s.incoming))))

abbrev pub salt : Stream → Bytes
salt s = take 16 (drop 8 (take 24 s.incoming))

abbrev pub response : ℕ → Bytes
response nonce = le_bytes 4 pow_magic_response ++ le_bytes 8 nonce

-- A challenge that is not refused: a difficulty from 0 to the limit.
pub record IsOffered (limit : ℤ) (s : Stream) : Type 0 where
  pub whole : 24 ≤ length s.incoming
  pub speaks : magic s ≡ pow_magic_challenge
  pub low : int_ltb (difficulty s) (pos 0) ≡ false
  pub high : int_ltb (effective_limit limit) (difficulty s) ≡ false

read_full_short :
    (s : Stream) (n : ℕ)
    → length s.incoming < n
    → read_full n s ≡ err read_challenge (record s { incoming = [] })
unfolding read_full
read_full_short s n h = rw (lt→ltb _ _ h)

read_full_whole :
    (s : Stream) (n : ℕ)
    → n ≤ length s.incoming
    → read_full n s ≡ ok (take n s.incoming) (record s { incoming = drop n s.incoming })
unfolding read_full
read_full_whole s n h = rw (le→ltb _ _ h)

write_all-eq-ok :
    (b : Bytes) (s s' : Stream)
    → write_all b s ≡ ok tt s'
    → s' ≡ record s { outgoing = s.outgoing ++ b }
unfolding write_all
write_all-eq-ok b s s' h = ground arith

write_all_quiet :
    (b : Bytes) (s : Stream)
    → s.write_fault ≡ false
    → write_all b s ≡ ok tt (record s { outgoing = s.outgoing ++ b })
unfolding write_all
write_all_quiet b s h = rw h

module _ (sha256 : Bytes → Bytes) where
  respond_fails :
      (b : Bytes) (d : ℤ) (s : Stream)
      → find_nonce sha256 b d ≡ none
      → respond sha256 b d s ≡ err nonce_overflow s
  unfolding respond
  respond_fails b d s h = rw (h, respond)

  respond_found :
      (b : Bytes) (d : ℤ) (s : Stream) (nonce : ℕ)
      → find_nonce sha256 b d ≡ some nonce
      → respond sha256 b d s ≡ write_all (response nonce) s
  unfolding respond
  respond_found b d s nonce h = rw (h, respond)

  respond-eq-ok :
      (b : Bytes) (d : ℤ) (s s' : Stream)
      → respond sha256 b d s ≡ ok tt s'
      → (nonce : ℕ) × (s' ≡ record s { outgoing = s.outgoing ++ response nonce })
        × (verify_pow_response sha256 b d nonce ≡ true)
  respond-eq-ok b d s s' h = elim (Option-cases (find_nonce sha256 b d)) [
    | inl e ↦ cc (respond_fails b d s e)
    | inr (n, e) ↦ (
      n,
      write_all-eq-ok (response n) s s' (sym (respond_found b d s n e) ∙ h),
      find_nonce-verifies sha256 b d n e,
    )
  ]

  answer_challenge-eq-ok :
      (limit : ℤ) (c : Bytes) (s s' : Stream)
      → answer_challenge sha256 limit c s ≡ ok tt s'
      → (of_le (take 4 c) ≡ pow_magic_challenge)
        × (int_ltb (to_int32 (of_le (take 4 (drop 4 c)))) (pos 0) ≡ false)
        × (int_ltb limit (to_int32 (of_le (take 4 (drop 4 c)))) ≡ false)
        × (respond sha256 (take 16 (drop 8 c)) (to_int32 (of_le (take 4 (drop 4 c)))) s ≡ ok tt s')
  unfolding answer_challenge
  answer_challenge-eq-ok limit c s s' h = ground arith

  answer_challenge_responds :
      (limit : ℤ) (c : Bytes) (s : Stream)
      → of_le (take 4 c) ≡ pow_magic_challenge
      → int_ltb (to_int32 (of_le (take 4 (drop 4 c)))) (pos 0) ≡ false
      → int_ltb limit (to_int32 (of_le (take 4 (drop 4 c)))) ≡ false
      → answer_challenge sha256 limit c s
        ≡ respond sha256 (take 16 (drop 8 c)) (to_int32 (of_le (take 4 (drop 4 c)))) s
  unfolding answer_challenge
  answer_challenge_responds limit c s m lo hi = ground (arith, m)

  answered :
      (limit : ℤ) (s s' : Stream)
      → 24 ≤ length s.incoming
      → answer_challenge sha256
          (effective_limit limit)
          (take 24 s.incoming)
          (record s { incoming = drop 24 s.incoming })
        ≡ ok tt s'
      → IsOffered limit s
        × (nonce : ℕ) × (s'
            ≡ record s { incoming = drop 24 s.incoming; outgoing = s.outgoing ++ response nonce })
        × (verify_pow_response sha256 (salt s) (difficulty s) nonce ≡ true)
  answered limit s s' whole h =
      let front : Stream = record s { incoming = drop 24 s.incoming } in
      let (speaks, low, high, rest) =
        answer_challenge-eq-ok (effective_limit limit) (take 24 s.incoming) front s' h in
      let (nonce, s'_is, good) = respond-eq-ok (salt s) (difficulty s) front s' rest in
      (record { whole = whole; speaks = speaks; low = low; high = high }, nonce, s'_is, good)

  -- A challenge that SolvePoW answers was whole, with the magic number and a difficulty from 0 to
  -- the limit, and what was written is the magic number of a response and a nonce that verifies;
  -- the challenge alone was taken from the stream.
  pub solve_pow_answers :
      (limit : ℤ) (s s' : Stream)
      → solve_pow sha256 limit s ≡ ok tt s'
      → IsOffered limit s
        × (nonce : ℕ) × (s'
            ≡ record s { incoming = drop 24 s.incoming; outgoing = s.outgoing ++ response nonce })
        × (verify_pow_response sha256 (salt s) (difficulty s) nonce ≡ true)
  unfolding solve_pow
  solve_pow_answers limit s s' h = elim (dec_lt (length s.incoming) 24) [
    | yes short ↦ cc (rw (read_full_short s 24 short) at h)
    | no long ↦
        let whole : 24 ≤ length s.incoming = omega arith in
        answered limit s s' whole (rw (read_full_whole s 24 whole) at h)
  ]

  -- A whole challenge with the magic number and a difficulty in range, for which a nonce below
  -- 2^63 verifies, is answered with such a nonce, which is no larger, where the write does not
  -- fail.
  pub solve_pow_finds :
      (limit : ℤ) (s : Stream) (n : ℕ)
      → IsOffered limit s
      → s.write_fault ≡ false
      → n < 2 ^ 63
      → verify_pow_response sha256 (salt s) (difficulty s) n ≡ true
      → (nonce : ℕ) × (solve_pow sha256 limit s
          ≡ ok tt
              (record s { incoming = drop 24 s.incoming; outgoing = s.outgoing ++ response nonce }))
        × (nonce ≤ n)
        × (verify_pow_response sha256 (salt s) (difficulty s) nonce ≡ true)
  unfolding solve_pow
  solve_pow_finds limit s n o quiet small v =
      let (nonce, found, le, good) = find_nonce_finds sha256 (salt s) (difficulty s) n small v in
      (
        nonce,
        rw (read_full_whole s 24 o.whole) (
            answer_challenge_responds (effective_limit limit) (take 24 s.incoming)
              (record s { incoming = drop 24 s.incoming }) o.speaks o.low o.high
            ∙ respond_found (salt s) (difficulty s) (record s { incoming = drop 24 s.incoming })
                nonce found
            ∙ write_all_quiet (response nonce) (record s { incoming = drop 24 s.incoming }) quiet),
        le,
        good,
      )

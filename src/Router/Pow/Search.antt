-- ===== src/Router/Pow/Search.antt =====
-- findNonce: the nonce that it returns is the least that verifies, and it returns one if any does.
use gocoon.Common.{
  ℕ, zero, suc, ◌+◌, ◌^◌, ◌≤◌, ◌<◌, ◌≡◌, refl, ap, Bool, true, false, Bytes, none, some, Bool-cases,
  inl, inr, sym, subst, ◌∙◌, ◌⊎◌, arith,
}
use gocoon.Common.Int.{ℤ, pos, negsuc}
use gocoon.Router.Pow.{verify_pow_response, find_loop, find_nonce, is_zero}

-- Any nonce verifies at difficulty 0.
verify_zero :
    (sha256 : Bytes → Bytes) (salt : Bytes) (d : ℤ) (n : ℕ)
    → is_zero d ≡ true
    → verify_pow_response sha256 salt d n ≡ true
unfolding verify_pow_response
verify_zero sha256 salt (pos d) n h = ground arith
verify_zero sha256 salt (negsuc d) n h = cc

lt_or_eq : (a b : ℕ) → a ≤ b → (suc a ≤ b) ⊎ (a ≡ b)
lt_or_eq a b h = omega arith

module _ (sha256 : Bytes → Bytes) (salt : Bytes) (d : ℤ) where
  abbrev verifies : ℕ → Bool
  verifies n = verify_pow_response sha256 salt d n

  find_loop_hit :
      (k start : ℕ) → verifies start ≡ true → find_loop sha256 (suc k) salt d start ≡ some start
  unfolding find_loop
  find_loop_hit k start v = rw (find_loop, v)

  find_loop_miss :
      (k start : ℕ)
      → verifies start ≡ false
      → find_loop sha256 (suc k) salt d start ≡ find_loop sha256 k salt d (suc start)
  unfolding find_loop
  find_loop_miss k start v = rw (find_loop, v)

  find_loop-none : (start : ℕ) → find_loop sha256 0 salt d start ≡ none
  unfolding find_loop
  find_loop-none start = refl

  -- The first nonce from `start` on that verifies.
  abbrev IsFirst : ℕ → ℕ → Type 0
  IsFirst start n = (verifies n ≡ true) × ((m : ℕ) → start ≤ m → m < n → verifies m ≡ false)

  find_loop-IsFirst : (k start n : ℕ) → find_loop sha256 k salt d start ≡ some n → IsFirst start n
  find_loop-IsFirst zero start n h = cc (find_loop-none start)
  find_loop-IsFirst (suc k) start n h = elim (Bool-cases (verifies start)) [
    | inl v ↦
        let e : some start ≡ some n = sym (find_loop_hit k start v) ∙ h in
        (cc, λ m lo hi. ground arith)
    | inr v ↦
        let (here, before) =
          find_loop-IsFirst k (suc start) n (sym (find_loop_miss k start v) ∙ h) in
        (
          here,
          λ m lo hi. elim (lt_or_eq start m lo) [
            | inl above ↦ before m above hi
            | inr same ↦ subst (λ i. verifies i ≡ false) same v
          ],
        )
  ]

  find_loop_finds :
      (k start n : ℕ)
      → start ≤ n
      → n < start + k
      → verifies n ≡ true
      → (m : ℕ) × (find_loop sha256 k salt d start ≡ some m) × (m ≤ n)
  find_loop_finds zero start n lo hi v = absurd (omega arith)
  find_loop_finds (suc k) start n lo hi v = elim (Bool-cases (verifies start)) [
    | inl w ↦ (start, find_loop_hit k start w, lo)
    | inr w ↦ elim (lt_or_eq start n lo) [
      | inl above ↦
          let (m, found, le) = find_loop_finds k (suc start) n above (omega arith) v in
          (m, find_loop_miss k start w ∙ found, le)
      | inr same ↦ cc (ap verifies same)
    ]
  ]

  find_nonce_zero : is_zero d ≡ true → find_nonce sha256 salt d ≡ some 0
  unfolding find_nonce
  find_nonce_zero z = rw z

  find_nonce_loop :
      is_zero d ≡ false → find_nonce sha256 salt d ≡ find_loop sha256 (2 ^ 63) salt d 0
  unfolding find_nonce
  find_nonce_loop z = rw z

  -- A nonce that findNonce returns verifies, and no smaller one does.
  pub find_nonce_least :
      (n m : ℕ)
      → find_nonce sha256 salt d ≡ some n
      → m < n
      → (verifies n ≡ true) × (verifies m ≡ false)
  find_nonce_least n m h hi = elim (Bool-cases (is_zero d)) [
    | inl z ↦ let e : some 0 ≡ some n = sym (find_nonce_zero z) ∙ h in absurd (ground arith)
    | inr z ↦
        let (here, before) = find_loop-IsFirst (2 ^ 63) 0 n (sym (find_nonce_loop z) ∙ h) in
        (here, before m (omega arith) hi)
  ]

  pub find_nonce-verifies : (n : ℕ) → find_nonce sha256 salt d ≡ some n → verifies n ≡ true
  find_nonce-verifies n h = elim (Bool-cases (is_zero d)) [
    | inl z ↦ verify_zero sha256 salt d n z
    | inr z ↦ (find_loop-IsFirst (2 ^ 63) 0 n (sym (find_nonce_loop z) ∙ h)).0
  ]

  -- If a nonce below 2^63 verifies, findNonce returns one that verifies and is no larger.
  pub find_nonce_finds :
      (n : ℕ)
      → n < 2 ^ 63
      → verifies n ≡ true
      → (m : ℕ) × (find_nonce sha256 salt d ≡ some m) × (m ≤ n) × (verifies m ≡ true)
  find_nonce_finds n small v = elim (Bool-cases (is_zero d)) [
    | inl z ↦ (0, find_nonce_zero z, omega arith, verify_zero sha256 salt d 0 z)
    | inr z ↦
        let (m, found, le) = find_loop_finds (2 ^ 63) 0 n (omega arith) (omega arith) v in
        let h = find_nonce_loop z ∙ found in (m, h, le, find_nonce-verifies m h)
  ]

-- ===== src/Common/Bits.antt =====
-- The lowest bit of a mask.
use Prim.Native.Nat.{bit_and, digits, bit_and-bitwise, min}
use gocoon.Common.{ℕ, zero, suc, ◌%◌, ◌/◌, ◌≡◌, refl, arith}

-- No digit of zero is set.
digits_none : (n a : ℕ) → digits (λ b. zero) min n a 0 ≡ 0
digits_none zero a = refl
digits_none (suc n) zero = refl
digits_none (suc n) (suc a) = omega (arith, digits_none n (suc a / 2))

pub bit_and_one : (a : ℕ) → bit_and a 1 ≡ a % 2
bit_and_one zero = bit_and-bitwise 0 1
bit_and_one (suc a) = omega (arith, bit_and-bitwise (suc a) 1, digits_none a (suc a / 2))

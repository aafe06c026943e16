-- ===== src/Common/Assoc.antt =====
-- Go maps as association lists over a key with a Boolean equality.
use Prim.Native.Nat.{ℕ}
use mathlib.Core.Path.{◌≡◌, refl}
use mathlib.Core.Logic.{◌↔◌, inl, inr}
use mathlib.Core.Bool.{Bool, true, false, ◌&&◌}
use mathlib.Core.Option.{Option, none, some}
use mathlib.Core.List.{List, [], ◌∷◌}
use native.Mathlib.Omega.{arith}
use gocoon.Common.Tests.{if◌then◌else◌, Bool-cases, ◌==◌}
use gocoon.Common.Int.{ℤ, pos, negsuc}
use gocoon.Common.Lists.{All}

pub record Eq {ℓ} (A : Type ℓ) : Type ℓ where
  pub beq : A → A → Bool
  pub beq_iff : (a b : A) → (beq a b ≡ true) ↔ (a ≡ b)

module _ {ℓ κ} {K : Type ℓ} ⦃e : Eq K⦄ {V : Type κ} where
  unfoldable pub lookup : K → List (K × V) → Option V
  lookup k [] = none
  lookup k ((j, v) ∷ m) = if e.beq j k then some v else lookup k m

  -- `delete(m, k)`
  unfoldable pub delete : K → List (K × V) → List (K × V)
  delete k [] = []
  delete k ((j, v) ∷ m) = let rest = delete k m in if e.beq j k then rest else (j, v) ∷ rest

  -- `m[k] = v`
  unfoldable pub put : K → V → List (K × V) → List (K × V)
  put k v m = (k, v) ∷ delete k m

  -- No key stands twice.
  abbrev pub UniqueKeys : List (K × V) → Type κ
  UniqueKeys [] = Unit {κ}
  UniqueKeys ((k, v) ∷ m) = (lookup k m ≡ none) × UniqueKeys m

module _ {ℓ} {K : Type ℓ} ⦃e : Eq K⦄ where
  pub beq_refl : (k : K) → e.beq k k ≡ true
  beq_refl k = (e.beq_iff k k).1 refl

module _ {ℓ κ} {K : Type ℓ} ⦃e : Eq K⦄ {V : Type κ} where
  pub lookup-delete :
      (k j : K) (m : List (K × V))
      → lookup j (delete k m) ≡ (if e.beq k j then none else lookup j m)
  unfolding lookup delete
  lookup-delete k j [] = ground arith
  lookup-delete k j ((i, v) ∷ m) =
      ground (arith, e.beq_iff i k, e.beq_iff i j, e.beq_iff k j, lookup-delete k j m)

  pub lookup-put :
      (k j : K) (v : V) (m : List (K × V))
      → lookup j (put k v m) ≡ (if e.beq k j then some v else lookup j m)
  unfolding lookup put
  lookup-put k j v m = ground (arith, lookup-delete k j m)

  pub delete-UniqueKeys : (k : K) (m : List (K × V)) → UniqueKeys m → UniqueKeys (delete k m)
  unfolding delete
  delete-UniqueKeys k [] u = tt
  delete-UniqueKeys k ((j, v) ∷ m) u = elim (Bool-cases (e.beq j k)) [
    | inl h ↦ rw h (delete-UniqueKeys k m u.1)
    | inr h ↦ rw h (ground (arith, lookup-delete k j m), delete-UniqueKeys k m u.1)
  ]

  pub put-UniqueKeys : (k : K) (v : V) (m : List (K × V)) → UniqueKeys m → UniqueKeys (put k v m)
  unfolding put
  put-UniqueKeys k v m u =
      (ground (arith, lookup-delete k k m, beq_refl k), delete-UniqueKeys k m u)

  -- What holds of entries still holds below a new key.
  lookup_weaken :
      (k : K) (v : V) (m es : List (K × V))
      → lookup k m ≡ none
      → All (λ (j, w). lookup j m ≡ some w) es
      → All (λ (j, w). lookup j ((k, v) ∷ m) ≡ some w) es
  unfolding lookup
  lookup_weaken k v m [] h all = tt
  lookup_weaken k v m ((j, w) ∷ es) h all =
      (ground (arith, e.beq_iff k j, all.0), lookup_weaken k v m es h all.1)

  -- Each entry of such a list is what its key looks up.
  pub UniqueKeys-lookup : (m : List (K × V)) → UniqueKeys m → All (λ (k, v). lookup k m ≡ some v) m
  unfolding lookup
  UniqueKeys-lookup [] u = tt
  UniqueKeys-lookup ((k, v) ∷ m) u =
      (rw (beq_refl k), lookup_weaken k v m m u.0 (UniqueKeys-lookup m u.1))

-- Keys that the program compares.
abbrev pub int_beq : ℤ → ℤ → Bool
int_beq (pos a) (pos b) = a == b
int_beq (negsuc a) (negsuc b) = a == b
int_beq _ _ = false

pub int_beq_iff : (a b : ℤ) → (int_beq a b ≡ true) ↔ (a ≡ b)
int_beq_iff (pos a) (pos b) = ground arith
int_beq_iff (pos a) (negsuc b) = ground arith
int_beq_iff (negsuc a) (pos b) = ground arith
int_beq_iff (negsuc a) (negsuc b) = ground arith

instance abbrev pub int_eq : Eq ℤ
int_eq = record { beq = int_beq; beq_iff = int_beq_iff }

abbrev pub bytes_beq : List ℕ → List ℕ → Bool
bytes_beq [] [] = true
bytes_beq (x ∷ xs) (y ∷ ys) = x == y && bytes_beq xs ys
bytes_beq _ _ = false

pub bytes_beq_iff : (a b : List ℕ) → (bytes_beq a b ≡ true) ↔ (a ≡ b)
bytes_beq_iff [] [] = ground arith
bytes_beq_iff [] (y ∷ ys) = ground arith
bytes_beq_iff (x ∷ xs) [] = ground arith
bytes_beq_iff (x ∷ xs) (y ∷ ys) = ground (arith, bytes_beq_iff xs ys)

instance abbrev pub bytes_eq : Eq (List ℕ)
bytes_eq = record { beq = bytes_beq; beq_iff = bytes_beq_iff }

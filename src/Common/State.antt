-- ===== src/Common/State.antt =====
-- Go methods on a mutable receiver: a value or an error, and the receiver afterwards.
use mathlib.Core.Path.{◌≡◌, refl, subst, fun_ext}

pub data Result {ℓ} (S E : Type 0) (A : Type ℓ) : Type ℓ where
  ok : A → S → Result S E A
  err : E → S → Result S E A

abbrev pub Method {ℓ} : Type 0 → Type 0 → Type ℓ → Type ℓ
Method S E A = S → Result S E A

module _ {S E : Type 0} where
  abbrev pub next {ℓ κ} :
      {A : Type ℓ} {B : Type κ} → Result S E A → (A → Method S E B) → Result S E B
  next (ok a s) f = f a s
  next (err e s) f = err e s

  infixl 5 ◌>>=◌ ◌>>◌
  abbrev pub ◌>>=◌ {ℓ κ} :
      {A : Type ℓ} {B : Type κ} → Method S E A → (A → Method S E B) → Method S E B
  ◌>>=◌ m f s = next (m s) f

  abbrev pub ◌>>◌ {ℓ} : {B : Type ℓ} → Method S E (Unit {0}) → Method S E B → Method S E B
  m >> k = m >>= λ _. k

  abbrev pub pure {ℓ} : {A : Type ℓ} → A → Method S E A
  pure a s = ok a s

  abbrev pub fail {ℓ} : {A : Type ℓ} → E → Method S E A
  fail e s = err e s

  -- The error and the receiver of a failed call are both forgotten.
  abbrev pub Fails {ℓ} : {A : Type ℓ} → Result S E A → Type 0
  Fails (ok a s) = ⊥
  Fails (err e s) = Unit

  -- What holds of a value that is returned.
  pub data Ensures {ℓ κ} {A : Type ℓ} (P : A → Type κ) : Result S E A → Type (ℓ ⊔ κ) where
    returns : {a : A} {s : S} → P a → Ensures P (ok a s)
    refuses : {e : E} {s : S} → Ensures P (err e s)

  pub Ensures-next {ℓ κ μ} :
      {A : Type ℓ} {B : Type κ} {P : B → Type μ} (r : Result S E A) (f : A → Method S E B)
      → ((a : A) (s : S) → Ensures P (f a s))
      → Ensures P (next r f)
  Ensures-next (ok a s) f h = h a s
  Ensures-next (err e s) f h = refuses

  pub Ensures-ok {ℓ κ} :
      {A : Type ℓ} {P : A → Type κ} {r : Result S E A} {a : A} {s : S}
      → Ensures P r
      → r ≡ ok a s
      → P a
  Ensures-ok {P = P} (returns h) e = subst P (cc) h
  Ensures-ok refuses e = cc

  -- Inversion of a successful bind.
  pub next-eq-ok {ℓ κ} :
      {A : Type ℓ} {B : Type κ} (r : Result S E A) (f : A → Method S E B) {b : B} {s' : S}
      → next r f ≡ ok b s'
      → (a : A) × (s : S) × (r ≡ ok a s) × (f a s ≡ ok b s')
  next-eq-ok (ok a s) f h = (a, s, refl, h)
  next-eq-ok (err e s) f h = cc

module _ {ℓ κ μ} {S E : Type 0} {A : Type ℓ} {B : Type κ} {C : Type μ} where
  next_assoc :
      (r : Result S E A) (f : A → Method S E B) (g : B → Method S E C)
      → next (next r f) g ≡ next r (λ a. f a >>= g)
  next_assoc (ok a s) f g = refl
  next_assoc (err e s) f g = refl

  pub bind_assoc :
      (m : Method S E A) (f : A → Method S E B) (g : B → Method S E C)
      → ((m >>= f) >>= g) ≡ (m >>= λ a. f a >>= g)
  bind_assoc m f g = fun_ext λ s. next_assoc (m s) f g

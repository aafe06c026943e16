-- ===== src/Runner/Text/Search.antt =====
-- Where the first occurrence of a tag is: a tag begins with a byte that it holds nowhere else.
use gocoon.Common.{
  ℕ, zero, suc, true, false, ◌&&◌, Bytes, [], ◌∷◌, ◌++◌, none, some, ◌≡◌, refl, sym, ap, ◌∙◌,
  append-nil, ◌==◌, length, take, drop, All, Bool-cases, Option-cases, inl, inr, arith,
}
use gocoon.Runner.Text.{has_prefix, shift, index}

-- No byte of the text is `b`.
abbrev pub Lacks : ℕ → Bytes → Type 0
Lacks b = All λ c. (c == b) ≡ false

pub has_prefix-append : (p s : Bytes) → has_prefix p (p ++ s) ≡ true
has_prefix-append [] s = refl
has_prefix-append (b ∷ p) s = ground (arith, has_prefix-append p s)

-- A text that lacks the first byte of a tag begins no further with a tag behind it.
has_prefix-tag : (b : ℕ) (p v r : Bytes) → Lacks b p → has_prefix p (v ++ b ∷ r) ≡ has_prefix p v
has_prefix-tag b [] v r h = refl
has_prefix-tag b (a ∷ p) [] r h = ground (arith, h.0)
has_prefix-tag b (a ∷ p) (c ∷ v) r h = ap (λ t. c == a && t) (has_prefix-tag b p v r h.1)

-- The first tag behind a text without one.
pub index-tag :
    (b : ℕ) (p v r : Bytes)
    → Lacks b p
    → index (b ∷ p) v ≡ none
    → index (b ∷ p) (v ++ b ∷ (p ++ r)) ≡ some (length v)
index-tag b p [] r h g = ground (arith, has_prefix-append p r)
index-tag b p (c ∷ v) r h g = ground (arith, has_prefix-tag b p v (p ++ r) h, index-tag b p v r h)

-- Bytes that do not begin a tag are passed over.
pub index_pass :
    (b : ℕ) (p t s : Bytes)
    → Lacks b t
    → index (b ∷ p) (t ++ s) ≡ shift (length t) (index (b ∷ p) s)
index_pass b p [] s h = elim (Option-cases (index (b ∷ p) s)) [
  | inl e ↦ ground (arith, e)
  | inr (i, e) ↦ ground (arith, e)
]
index_pass b p (c ∷ t) s h = elim (Option-cases (index (b ∷ p) s)) [
  | inl e ↦ ground (arith, index_pass b p t s h.1, h.0, e)
  | inr (i, e) ↦ ground (arith, index_pass b p t s h.1, h.0, e)
]

has_prefix-take :
    (p : Bytes) (n : ℕ) (s : Bytes) → has_prefix p s ≡ false → has_prefix p (take n s) ≡ false
has_prefix-take [] n s h = h
has_prefix-take (b ∷ p) zero s h = refl
has_prefix-take (b ∷ p) (suc n) [] h = refl
has_prefix-take (b ∷ p) (suc n) (c ∷ s) h = ground (arith, has_prefix-take p n s)

-- No occurrence stands before the first one.
pub index-take :
    (b : ℕ) (p s : Bytes) (i : ℕ) → index (b ∷ p) s ≡ some i → index (b ∷ p) (take i s) ≡ none
index-take b p [] i h = cc
index-take b p (c ∷ s) zero h = refl
index-take b p (c ∷ s) (suc i) h = elim (Bool-cases (has_prefix (b ∷ p) (c ∷ s))) [
  | inl e ↦ ground (arith, h, e)
  | inr e ↦ elim (Option-cases (index (b ∷ p) s)) [
    | inl g ↦ ground (arith, h, e, g)
    | inr (j, g) ↦
        ground (arith, h, e, g, has_prefix-take (b ∷ p) (suc i) (c ∷ s) e, index-take b p s i)
  ]
]

pub has_prefix-drop : (p s : Bytes) → has_prefix p s ≡ true → s ≡ p ++ drop (length p) s
has_prefix-drop [] s h = refl
has_prefix-drop (b ∷ p) [] h = cc
has_prefix-drop (b ∷ p) (c ∷ s) h = ground (arith, has_prefix-drop p s)

-- The first occurrence is one.
pub index-drop :
    (b : ℕ) (p s : Bytes) (i : ℕ)
    → index (b ∷ p) s ≡ some i
    → drop i s ≡ (b ∷ p) ++ drop (length (b ∷ p)) (drop i s)
index-drop b p [] i h = cc
index-drop b p (c ∷ s) zero h = elim (Bool-cases (has_prefix (b ∷ p) (c ∷ s))) [
  | inl e ↦ has_prefix-drop (b ∷ p) (c ∷ s) e
  | inr e ↦ elim (Option-cases (index (b ∷ p) s)) [
    | inl g ↦ ground (arith, h, e, g)
    | inr (j, g) ↦ ground (arith, h, e, g)
  ]
]
index-drop b p (c ∷ s) (suc i) h = elim (Bool-cases (has_prefix (b ∷ p) (c ∷ s))) [
  | inl e ↦ ground (arith, h, e)
  | inr e ↦ elim (Option-cases (index (b ∷ p) s)) [
    | inl g ↦ ground (arith, h, e, g)
    | inr (j, g) ↦ index-drop b p s i (ground (arith, h, e, g))
  ]
]

-- The same for a text behind a byte that the rest of a tag does not hold.
pub index_behind :
    (c b : ℕ) (p v r : Bytes)
    → Lacks c p
    → index (b ∷ p) v ≡ none
    → index (b ∷ p) (v ++ c ∷ r) ≡ shift (length v) (index (b ∷ p) (c ∷ r))
index_behind c b p [] r h g = elim (Option-cases (index (b ∷ p) (c ∷ r))) [
  | inl e ↦ ground (arith, e)
  | inr (i, e) ↦ ground (arith, e)
]
index_behind c b p (a ∷ v) r h g = elim (Option-cases (index (b ∷ p) (c ∷ r))) [
  | inl e ↦ ground (arith, has_prefix-tag c p v r h, index_behind c b p v r h, e)
  | inr (i, e) ↦ ground (arith, has_prefix-tag c p v r h, index_behind c b p v r h, e)
]

pub index-Lacks : (b : ℕ) (p v : Bytes) → Lacks b v → index (b ∷ p) v ≡ none
index-Lacks b p v h = sym (ap (index (b ∷ p)) (append-nil v)) ∙ index_pass b p v [] h

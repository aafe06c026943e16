-- ===== src/Runner/Extract/Balanced.antt =====
-- Objects that are balanced outside of their strings, and the loop of extractJSONObject on one.
use gocoon.Common.{
  ℕ, zero, suc, true, false, Bytes, [], ◌∷◌, ◌++◌, Option, none, some, ◌≡◌, refl, sym, ap, ◌∙◌,
  ◌==◌, append_assoc, Option-cases, inl, inr, arith,
}
use gocoon.Runner.Extract.{Scan, scan_byte, scan}

-- The rest of a string, its closing quote included.
pub data Chars : Bytes → Type 0 where
  quote : Chars (b'"' ∷ [])
  escape : (c : ℕ) {s : Bytes} → Chars s → Chars (b'\\' ∷ c ∷ s)
  char : (c : ℕ) {s : Bytes} → (c == b'"') ≡ false → (c == b'\\') ≡ false → Chars s → Chars (c ∷ s)

-- The rest of an object, its closing brace included.
pub data Body : Bytes → Type 0 where
  close : Body (b'}' ∷ [])
  string : {s t : Bytes} → Chars s → Body t → Body (b'"' ∷ (s ++ t))
  nest : {s t : Bytes} → Body s → Body t → Body (b'{' ∷ (s ++ t))
  plain :
      (c : ℕ) {t : Bytes}
      → (c == b'"') ≡ false
      → (c == b'{') ≡ false
      → (c == b'}') ≡ false
      → Body t
      → Body (c ∷ t)

pub data IsObject : Bytes → Type 0 where
  braces : {b : Bytes} → Body b → IsObject (b'{' ∷ b)

-- The states of the loop.
abbrev pub outside : ℕ → Scan
outside n = record { depth = n; in_string = false; escaped = false }

abbrev pub inside : ℕ → Scan
inside n = record { depth = n; in_string = true; escaped = false }

abbrev pub behind_backslash : ℕ → Scan
behind_backslash n = record { depth = n; in_string = true; escaped = true }

abbrev pub prepend : Bytes → Option Bytes → Option Bytes
prepend s none = none
prepend s (some t) = some (s ++ t)

prepend-prepend : (s t : Bytes) (o : Option Bytes) → prepend s (prepend t o) ≡ prepend (s ++ t) o
prepend-prepend s t none = refl
prepend-prepend s t (some u) = ap some (sym (append_assoc s t u))

module _ (s : Scan) (ch : ℕ) (rest : Bytes) where
  pub scan_last : scan_byte s ch ≡ none → scan s (ch ∷ rest) ≡ some (ch ∷ [])
  unfolding scan
  scan_last h = rw (h, scan) refl

  pub scan_next :
      (s' : Scan) → scan_byte s ch ≡ some s' → scan s (ch ∷ rest) ≡ prepend (ch ∷ []) (scan s' rest)
  unfolding scan
  scan_next s' h = elim (Option-cases (scan s' rest)) [
    | inl e ↦ rw (h, scan) (rw e refl)
    | inr (raw, e) ↦ rw (h, scan) (rw e refl)
  ]

-- Behind a closing brace at depth n + 1.
abbrev after : ℕ → Bytes → Option Bytes
after zero u = some []
after (suc n) u = scan (outside (suc n)) u

scan_close :
    (n : ℕ) (u : Bytes) → scan (outside (suc n)) (b'}' ∷ u) ≡ prepend (b'}' ∷ []) (after n u)
scan_close zero u = scan_last (outside 1) b'}' u (unfold scan_byte in refl)
scan_close (suc n) u =
    scan_next (outside (suc (suc n))) b'}' u (outside (suc n)) (unfold scan_byte in ground arith)

scan_chars :
    (n : ℕ) {s : Bytes} (u : Bytes)
    → Chars s
    → scan (inside n) (s ++ u) ≡ prepend s (scan (outside n) u)
unfolding scan_byte
scan_chars n u quote = scan_next (inside n) b'"' u (outside n) refl
scan_chars n u (escape c {s} h) =
    scan_next (inside n) b'\\' (c ∷ (s ++ u)) (behind_backslash n) refl
    ∙ ap (prepend (b'\\' ∷ [])) (scan_next (behind_backslash n) c (s ++ u) (inside n) refl)
    ∙ ap (λ o. prepend (b'\\' ∷ []) (prepend (c ∷ []) o)) (scan_chars n u h)
    ∙ ap (prepend (b'\\' ∷ [])) (prepend-prepend (c ∷ []) s (scan (outside n) u))
    ∙ prepend-prepend (b'\\' ∷ []) (c ∷ s) (scan (outside n) u)
scan_chars n u (char c {s} hq hb h) =
    scan_next (inside n) c (s ++ u) (inside n) (ground arith)
    ∙ ap (prepend (c ∷ [])) (scan_chars n u h)
    ∙ prepend-prepend (c ∷ []) s (scan (outside n) u)

pub scan_body :
    (n : ℕ) {b : Bytes} (u : Bytes)
    → Body b
    → scan (outside (suc n)) (b ++ u) ≡ prepend b (after n u)
unfolding scan_byte
scan_body n u close = scan_close n u
scan_body n u (string {s} {t} hs ht) =
    scan_next (outside (suc n)) b'"' ((s ++ t) ++ u) (inside (suc n)) refl
    ∙ ap (λ x. prepend (b'"' ∷ []) (scan (inside (suc n)) x)) (append_assoc s t u)
    ∙ ap (prepend (b'"' ∷ [])) (
        scan_chars (suc n) (t ++ u) hs
        ∙ ap (prepend s) (scan_body n u ht)
        ∙ prepend-prepend s t (after n u))
    ∙ prepend-prepend (b'"' ∷ []) (s ++ t) (after n u)
scan_body n u (nest {s} {t} hs ht) =
    scan_next (outside (suc n)) b'{' ((s ++ t) ++ u) (outside (suc (suc n))) refl
    ∙ ap (λ x. prepend (b'{' ∷ []) (scan (outside (suc (suc n))) x)) (append_assoc s t u)
    ∙ ap (prepend (b'{' ∷ [])) (
        scan_body (suc n) (t ++ u) hs
        ∙ ap (prepend s) (scan_body n u ht)
        ∙ prepend-prepend s t (after n u))
    ∙ prepend-prepend (b'{' ∷ []) (s ++ t) (after n u)
scan_body n u (plain c {t} hq ho hc h) =
    scan_next (outside (suc n)) c (t ++ u) (outside (suc n)) (ground arith)
    ∙ ap (prepend (c ∷ [])) (scan_body n u h)
    ∙ prepend-prepend (c ∷ []) t (after n u)

-- ===== src/Runner/Extract/Taken.antt =====
-- What extractJSONObject takes from a text: such an object and nothing else.
use gocoon.Common.{
  ℕ, zero, suc, false, Bytes, [], ◌∷◌, ◌++◌, Option, none, some, ◌≡◌, ◌↔◌, refl, sym, ap, subst,
  ◌∙◌, ◌==◌, if◌then◌else◌, drop, append_assoc, append-nil, ◌≢◌, Option-cases, Bool-cases, inl, inr,
  arith,
}
use gocoon.Runner.Extract.{Scan, scan_byte, scan, opens, extract_json_object}
use gocoon.Runner.Extract.Balanced.{
  Chars, quote, escape, char, Body, close, string, nest, plain, IsObject, braces, outside, inside,
  behind_backslash, prepend, scan_last, scan_next, scan_body,
}

-- The other way: what the loop passes over is the rest of n + 1 objects, one inside the other.
data Bodies : ℕ → Bytes → Type 0 where
  done : Bodies 0 []
  more : {n : ℕ} {s t : Bytes} → Body s → Bodies n t → Bodies (suc n) (s ++ t)

module _ {n : ℕ} where
  more_string : {s r : Bytes} → Chars s → Bodies (suc n) r → Bodies (suc n) (b'"' ∷ (s ++ r))
  more_string {s} hs (more {s = t} {t = u} ht rest) =
      subst (λ x. Bodies (suc n) (b'"' ∷ x)) (append_assoc s t u) (more (string hs ht) rest)

  more_nest : {r : Bytes} → Bodies (suc (suc n)) r → Bodies (suc n) (b'{' ∷ r)
  more_nest (more {s = s} hs (more {s = t} {t = u} ht rest)) =
      subst (λ x. Bodies (suc n) (b'{' ∷ x)) (append_assoc s t u) (more (nest hs ht) rest)

  more_plain :
      (c : ℕ) {r : Bytes}
      → (c == b'"') ≡ false
      → (c == b'{') ≡ false
      → (c == b'}') ≡ false
      → Bodies (suc n) r
      → Bodies (suc n) (c ∷ r)
  more_plain c hq ho hc (more ht rest) = more (plain c hq ho hc ht) rest

-- What is left of a string and the objects around it, and the same behind a backslash.
data InString (n : ℕ) : Bytes → Type 0 where
  in_string : {s t : Bytes} → Chars s → Bodies (suc n) t → InString n (s ++ t)

data Escaped (n : ℕ) : Bytes → Type 0 where
  escaped : (c : ℕ) {r : Bytes} → InString n r → Escaped n (c ∷ r)

module _ {n : ℕ} where
  string_more : {r : Bytes} → InString n r → Bodies (suc n) (b'"' ∷ r)
  string_more (in_string hs ht) = more_string hs ht

  escape_more : {r : Bytes} → Escaped n r → InString n (b'\\' ∷ r)
  escape_more (escaped c (in_string hs ht)) = in_string (escape c hs) ht

  char_more :
      (c : ℕ) {r : Bytes}
      → (c == b'"') ≡ false
      → (c == b'\\') ≡ false
      → InString n r
      → InString n (c ∷ r)
  char_more c hq hb (in_string hs ht) = in_string (char c hq hb hs) ht

scan_end : (s : Scan) (raw : Bytes) → scan s [] ≢ some raw
unfolding scan
scan_end s raw h = cc

-- A round that goes on, read backwards.
rest_of :
    (A B : Bytes → Type 0) (s s' : Scan) (ch : ℕ) (rest raw : Bytes)
    → scan_byte s ch ≡ some s'
    → ((r : Bytes) → scan s' rest ≡ some r → A r)
    → ((r : Bytes) → A r → B (ch ∷ r))
    → scan s (ch ∷ rest) ≡ some raw
    → B raw
rest_of A B s s' ch rest raw e f g h = elim (Option-cases (scan s' rest)) [
  | inl q ↦ cc (sym h ∙ scan_next s ch rest s' e ∙ ap (prepend (ch ∷ [])) q)
  | inr (r, q) ↦
      subst B (ground (arith, sym h ∙ scan_next s ch rest s' e ∙ ap (prepend (ch ∷ [])) q))
        (g r (f r q))
]

-- A closing brace that ends the text or not.
brace_more :
    (n : ℕ) (rest raw : Bytes)
    → ((m : ℕ) (r : Bytes) → scan (outside (suc m)) rest ≡ some r → Bodies (suc m) r)
    → scan (outside (suc n)) (b'}' ∷ rest) ≡ some raw
    → Bodies (suc n) raw
unfolding scan_byte
brace_more zero rest raw f h =
    subst (Bodies 1) (ground (arith, sym (scan_last (outside 1) b'}' rest refl) ∙ h))
      (more close done)
brace_more (suc n) rest raw f h =
    rest_of (Bodies (suc n)) (Bodies (suc (suc n))) (outside (suc (suc n))) (outside (suc n)) b'}'
      rest raw (ground arith) (f n) (λ r. more close) h

mutual
  unfolding scan_byte

  outside-Bodies :
      (n : ℕ) (text raw : Bytes) → scan (outside (suc n)) text ≡ some raw → Bodies (suc n) raw
  outside-Bodies n [] raw h = absurd (scan_end (outside (suc n)) raw h)
  outside-Bodies n (ch ∷ rest) raw h = elim (Bool-cases (ch == b'"')) [
    | inl e ↦
        rest_of (InString n) (Bodies (suc n)) (outside (suc n)) (inside (suc n)) ch rest raw
          (ground arith) (inside-InString n rest)
          (λ r q. subst (λ c. Bodies (suc n) (c ∷ r)) (ground arith) (string_more q)) h
    | inr hq ↦ elim (Bool-cases (ch == b'{')) [
      | inl e ↦
          rest_of (Bodies (suc (suc n))) (Bodies (suc n)) (outside (suc n)) (outside (suc (suc n)))
            ch rest raw (ground arith) (outside-Bodies (suc n) rest)
            (λ r q. subst (λ c. Bodies (suc n) (c ∷ r)) (ground arith) (more_nest q)) h
      | inr ho ↦ elim (Bool-cases (ch == b'}')) [
        | inl e ↦
            brace_more n rest raw (λ m. outside-Bodies m rest)
              (subst (λ c. scan (outside (suc n)) (c ∷ rest) ≡ some raw) (ground arith) h)
        | inr hc ↦
            rest_of (Bodies (suc n)) (Bodies (suc n)) (outside (suc n)) (outside (suc n)) ch rest
              raw (ground arith) (outside-Bodies n rest) (λ r. more_plain ch hq ho hc) h
      ]
    ]
  ]

  inside-InString :
      (n : ℕ) (text raw : Bytes) → scan (inside (suc n)) text ≡ some raw → InString n raw
  inside-InString n [] raw h = absurd (scan_end (inside (suc n)) raw h)
  inside-InString n (ch ∷ rest) raw h = elim (Bool-cases (ch == b'\\')) [
    | inl e ↦
        rest_of (Escaped n) (InString n) (inside (suc n)) (behind_backslash (suc n)) ch rest raw
          (ground arith) (behind_backslash-Escaped n rest)
          (λ r q. subst (λ c. InString n (c ∷ r)) (ground arith) (escape_more q)) h
    | inr e ↦ elim (Bool-cases (ch == b'"')) [
      | inl q ↦
          rest_of (Bodies (suc n)) (InString n) (inside (suc n)) (outside (suc n)) ch rest raw
            (ground arith) (outside-Bodies n rest)
            (λ r b. subst (λ c. InString n (c ∷ r)) (ground arith) (in_string quote b)) h
      | inr q ↦
          rest_of (InString n) (InString n) (inside (suc n)) (inside (suc n)) ch rest raw
            (ground arith) (inside-InString n rest) (λ r. char_more ch q e) h
    ]
  ]

  behind_backslash-Escaped :
      (n : ℕ) (text raw : Bytes) → scan (behind_backslash (suc n)) text ≡ some raw → Escaped n raw
  behind_backslash-Escaped n [] raw h = absurd (scan_end (behind_backslash (suc n)) raw h)
  behind_backslash-Escaped n (ch ∷ rest) raw h =
      rest_of (InString n) (Escaped n) (behind_backslash (suc n)) (inside (suc n)) ch rest raw refl
        (inside-InString n rest) (λ r. escaped ch) h

-- What the loop passes over is the front of the text.
scan_front :
    (s : Scan) (text raw : Bytes) → scan s text ≡ some raw → (rest : Bytes) × (text ≡ raw ++ rest)
scan_front s [] raw h = absurd (scan_end s raw h)
scan_front s (ch ∷ text) raw h = elim (Option-cases (scan_byte s ch)) [
  | inl e ↦ (text, ground (arith, sym h ∙ scan_last s ch text e))
  | inr (s', e) ↦ elim (Option-cases (scan s' text)) [
    | inl q ↦ cc (sym h ∙ scan_next s ch text s' e ∙ ap (prepend (ch ∷ [])) q)
    | inr (r, q) ↦
        let (rest, front) = scan_front s' text r q in
        (rest, ground (arith, front, sym h ∙ scan_next s ch text s' e ∙ ap (prepend (ch ∷ [])) q))
  ]
]

one_body : {b : Bytes} → Bodies 1 b → Body b
one_body (more {s = s} h done) = subst Body (sym (append-nil s)) h

opened :
    (text : Bytes) → scan (outside 0) (b'{' ∷ text) ≡ prepend (b'{' ∷ []) (scan (outside 1) text)
unfolding scan_byte
opened text = scan_next (outside 0) b'{' text (outside 1) refl

-- The function on the text from the start index on.
abbrev from_start : Bytes → Option Bytes
from_start text = if opens text then scan (outside 0) text else none

abbrev Begins : Bytes → Bytes → Type 0
Begins text raw = (rest : Bytes) × (text ≡ raw ++ rest) × IsObject raw

from_start-Begins : (text raw : Bytes) → from_start text ≡ some raw → Begins text raw
from_start-Begins [] raw h = cc
from_start-Begins (c ∷ text) raw h = elim (Bool-cases (c == b'{')) [
  | inr e ↦ ground (arith, h, e)
  | inl e ↦
      let whole : scan (outside 0) (b'{' ∷ text) ≡ some raw = ground (arith, h, e) in
      elim (Option-cases (scan (outside 1) text)) [
        | inl q ↦ cc (sym whole ∙ opened text ∙ ap (prepend (b'{' ∷ [])) q)
        | inr (r, q) ↦
            let (rest, front) = scan_front (outside 1) text r q in
            let same : raw ≡ b'{' ∷ r =
              ground (arith, sym whole ∙ opened text ∙ ap (prepend (b'{' ∷ [])) q) in
            (
              rest,
              ground (arith, e, front, same),
              subst IsObject (sym same) (braces (one_body (outside-Bodies 0 text r q))),
            )
      ]
]

from_start_object :
    (rest : Bytes) {raw : Bytes} → IsObject raw → from_start (raw ++ rest) ≡ some raw
from_start_object rest (braces {b} h) =
    opened (b ++ rest)
    ∙ ap (prepend (b'{' ∷ [])) (scan_body 0 rest h)
    ∙ ap some (ap (λ x. b'{' ∷ x) (append-nil b))

-- ExtractJSONObject returns a text if and only if what stands at the start index begins with that
-- text and it is an object: braces that are balanced outside of its strings, where a backslash
-- hides a quote.
pub extract_json_object_iff :
    (s : Bytes) (start : ℕ) (raw : Bytes)
    → (extract_json_object s start ≡ some raw)
      ↔ ((rest : Bytes) × (drop start s ≡ raw ++ rest) × IsObject raw)
unfolding extract_json_object
extract_json_object_iff s start raw = (
  from_start-Begins (drop start s) raw,
  λ (rest, front, object). ap from_start front ∙ from_start_object rest object,
)

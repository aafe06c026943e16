-- ===== src/Runner/Tools/Cdata.antt =====
-- The CDATA sections that rewriteToolMessage writes, read the way an XML reader does.
use gocoon.Common.{
  ℕ, zero, suc, false, ◌&&◌, Bytes, [], ◌∷◌, ◌++◌, Option, none, some, ◌≡◌, refl, length, drop,
  length-drop, ◌≤◌, sym, ap, ◌∙◌, ◌==◌, if◌then◌else◌, append_assoc, Bool-cases, inl, inr, arith,
}
use gocoon.Tl.Ids.{codes}
use gocoon.Common.Assoc.{lookup, bytes_eq, bytes_beq}
use gocoon.Runner.Json.{Object, string_or_empty}
use gocoon.Runner.Tools.{rewrite_tool_message, message_content_as_string}
use gocoon.Runner.Text.{has_prefix, replace_all}
use gocoon.Runner.Text.Search.{has_prefix-drop}

abbrev pub prepend : ℕ → Option (Bytes × Bytes) → Option (Bytes × Bytes)
prepend c none = none
prepend c (some (s, rest)) = some (c ∷ s, rest)

abbrev behind : ℕ → Bytes → Bytes
behind zero s = s
behind (suc n) [] = []
behind (suc n) (c ∷ s) = behind n s

-- The text of sections that stand side by side, from inside the first one on, and what follows them.
-- A section ends at the first `]]>`. The first argument counts the bytes of a border between two
-- sections that are still to be passed over.
unfoldable pub sections : ℕ → Bytes → Option (Bytes × Bytes)
sections n [] = none
sections (suc n) (c ∷ s) = sections n s
sections zero (c ∷ s) =
    let border = sections 11 s in
    let more = prepend c (sections zero s) in
    if has_prefix (codes "]]><![CDATA[") (c ∷ s)
    then border
    else if has_prefix (codes "]]>") (c ∷ s)
    then some ([], behind 2 s)
    else more

abbrev escape : Bytes → Bytes
escape s = replace_all s (codes "]]>") (codes "]]]]><![CDATA[>")

abbrev ended : Bytes → Bytes → Bytes
ended s rest = escape s ++ (codes "]]>" ++ rest)

-- A text that begins with `]]>`, byte by byte.
escape_close : (s : Bytes) → escape (b']' ∷ b']' ∷ b'>' ∷ s) ≡ codes "]]]]><![CDATA[>" ++ escape s
escape_close s = refl

sections_close :
    (s rest : Bytes)
    → sections zero (ended (b']' ∷ b']' ∷ b'>' ∷ s) rest)
      ≡ prepend b']' (prepend b']' (prepend b'>' (sections zero (ended s rest))))
unfolding sections
sections_close s rest = refl

longer_prefix : (p q s : Bytes) → has_prefix p s ≡ false → has_prefix (p ++ q) s ≡ false
longer_prefix [] q s h = cc
longer_prefix (b ∷ p) q [] h = refl
longer_prefix (b ∷ p) q (c ∷ s) h = ground (arith, longer_prefix p q s)

-- What stands at the front of an escaped text stood there before.
module _ (rest : Bytes) where
  ended_other :
      (c : ℕ) (s : Bytes)
      → has_prefix (codes "]]>") (c ∷ s) ≡ false
      → ended (c ∷ s) rest ≡ c ∷ ended s rest
  ended_other c s h = rw h refl

  ended_gt : (s : Bytes) → has_prefix (codes ">") (ended s rest) ≡ has_prefix (codes ">") s
  ended_gt [] = refl
  ended_gt (c ∷ s) = elim (Bool-cases (has_prefix (codes "]]>") (c ∷ s))) [
    | inl e ↦ rw e (ground (arith, e))
    | inr e ↦ rw e refl
  ]

  ended_bracket : (s : Bytes) → has_prefix (codes "]>") (ended s rest) ≡ has_prefix (codes "]>") s
  ended_bracket [] = refl
  ended_bracket (c ∷ []) = ground arith
  ended_bracket (c ∷ d ∷ s) = elim (Bool-cases (has_prefix (codes "]]>") (c ∷ d ∷ s))) [
    | inl e ↦ rw e (ground (arith, e))
    | inr e ↦ rw e (ap (λ t. c == b']' && t) (ended_gt (d ∷ s)))
  ]

  ended-prefix :
      (c : ℕ) (s : Bytes)
      → has_prefix (codes "]]>") (c ∷ s) ≡ false
      → has_prefix (codes "]]>") (c ∷ ended s rest) ≡ false
  ended-prefix c s h = ap (λ t. c == b']' && t) (ended_bracket s) ∙ h

  sections_other :
      (c : ℕ) (s : Bytes)
      → has_prefix (codes "]]>") (c ∷ s) ≡ false
      → sections zero (ended (c ∷ s) rest) ≡ prepend c (sections zero (ended s rest))
  unfolding sections
  sections_other c s h = ap (sections zero) (ended_other c s h) ∙ passed (ended-prefix c s h)
    where
      passed :
          has_prefix (codes "]]>") (c ∷ ended s rest) ≡ false
          → sections zero (c ∷ ended s rest) ≡ prepend c (sections zero (ended s rest))
      passed g =
          rw (longer_prefix (codes "]]>") (codes "<![CDATA[") (c ∷ ended s rest) g, sections)
            (rw g refl)

  closing :
      has_prefix (codes "<![CDATA[") rest ≡ false
      → sections zero (codes "]]>" ++ rest) ≡ some ([], rest)
  unfolding sections
  closing h = rw (h, sections) refl

  sections-ended :
      (n : ℕ) (s : Bytes)
      → length s ≤ n
      → has_prefix (codes "<![CDATA[") rest ≡ false
      → sections zero (ended s rest) ≡ some (s, rest)
  sections-ended n [] le h = closing h
  sections-ended zero (c ∷ s) le h = absurd (omega arith)
  sections-ended (suc n) (c ∷ s) le h = elim (Bool-cases (has_prefix (codes "]]>") (c ∷ s))) [
    | inr e ↦ sections_other c s e ∙ ap (prepend c) (sections-ended n s (omega arith) h)
    | inl e ↦
        let t = drop 2 s in
        let same = has_prefix-drop (codes "]]>") (c ∷ s) e in
        ap (λ x. sections zero (ended x rest)) same
        ∙ sections_close t rest
        ∙ ap (λ o. prepend b']' (prepend b']' (prepend b'>' o)))
            (sections-ended n t (omega (arith, length-drop 2 s)) h)
        ∙ ap (λ x. some (x, rest)) (sym same)
  ]

-- The text of a tool response: behind its tag the sections, and behind them its closing tag.
abbrev closed_by_tag : Option (Bytes × Bytes) → Option Bytes
closed_by_tag none = none
closed_by_tag (some (content, rest)) =
    if bytes_beq rest (codes "\n</tool_response>") then some content else none

unfoldable pub read_tool_response : Bytes → Option Bytes
read_tool_response s =
    let front = codes "<tool_response>\n<![CDATA[" in
    if has_prefix front s then closed_by_tag (sections zero (drop (length front) s)) else none

-- A tool's message becomes a user's message, whose text an XML reader of CDATA sections reads as
-- the content of the tool's message, whatever bytes that has.
pub read_tool_response-rewrite_tool_message :
    (msg : Object)
    → (string_or_empty (lookup (codes "role") (rewrite_tool_message msg)) ≡ codes "user")
      × (read_tool_response (string_or_empty (lookup (codes "content") (rewrite_tool_message msg)))
          ≡ some (message_content_as_string (lookup (codes "content") msg)))
unfolding read_tool_response rewrite_tool_message lookup
read_tool_response-rewrite_tool_message msg =
    let content = message_content_as_string (lookup (codes "content") msg) in
    (
      refl,
      ap (λ x. closed_by_tag (sections zero x))
            (append_assoc (escape content) (codes "]]>\n") (codes "</tool_response>"))
          ∙ ap closed_by_tag (
              sections-ended (codes "\n</tool_response>") (length content) content (omega arith)
                refl),
    )

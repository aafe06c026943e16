-- ===== src/Runner/Extract.antt =====
-- cmd/gocoon-runner/tools_translate.go: extractJSONObject.
pub mod Balanced
pub mod Taken
use gocoon.Common.{
  ℕ, suc, ◌-◌, Bool, true, false, Bytes, List, [], ◌∷◌, ◌++◌, Option, none, some, ◌==◌,
  if◌then◌else◌, drop, take, length, ltb,
}

-- The variables of the loop.
pub record Scan : Type 0 where
  pub depth : ℕ
  pub in_string : Bool
  pub escaped : Bool

-- One round: the variables afterwards, or none where the object is complete.
unfoldable pub scan_byte : Scan → ℕ → Option Scan
scan_byte s ch =
    if s.escaped
    then some (record s { escaped = false })
    else if s.in_string
    then some (
        if ch == b'\\'
        then record s { escaped = true }
        else if ch == b'"'
        then record s { in_string = false }
        else s)
    else if ch == b'"'
    then some (record s { in_string = true })
    else if ch == b'{'
    then some (record s { depth = suc s.depth })
    else if ch == b'}'
    then (if s.depth == 1 then none else some (record s { depth = s.depth - 1 }))
    else some s

-- The rounds from a byte on, and what they pass over.
unfoldable pub scan : Scan → Bytes → Option Bytes
scan s [] = none
scan s (ch ∷ rest) = elim (scan_byte s ch) [
  | none ↦ some (ch ∷ [])
  | some s' ↦ elim (scan s' rest) [ none ↦ none | some raw ↦ some (ch ∷ raw) ]
]

-- `s[startIdx] != '{'`, behind the end of the text too.
abbrev pub opens : Bytes → Bool
opens [] = false
opens (c ∷ cs) = c == b'{'

unfoldable pub extract_json_object : Bytes → ℕ → Option Bytes
extract_json_object s start =
    if opens (drop start s)
    then scan (record { depth = 0; in_string = false; escaped = false }) (drop start s)
    else none

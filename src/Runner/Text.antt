-- ===== src/Runner/Text.antt =====
-- What the runner uses of Go's strings: Index, ReplaceAll, TrimLeft.
pub mod Search
use gocoon.Common.{
  ℕ, zero, suc, ◌+◌, ◌-◌, Bool, true, false, ◌&&◌, Bytes, List, [], ◌∷◌, ◌++◌, Option, none, some,
  ◌==◌, if◌then◌else◌, length,
}

abbrev pub has_prefix : Bytes → Bytes → Bool
has_prefix [] s = true
has_prefix (b ∷ p) [] = false
has_prefix (b ∷ p) (c ∷ s) = c == b && has_prefix p s

abbrev pub shift : ℕ → Option ℕ → Option ℕ
shift k none = none
shift k (some i) = some (k + i)

-- `strings.Index(s, sub)`, where -1 is none.
abbrev pub index : Bytes → Bytes → Option ℕ
index sub [] = if has_prefix sub [] then some 0 else none
index sub (c ∷ s) =
    let later = shift 1 (index sub s) in if has_prefix sub (c ∷ s) then some 0 else later

-- `strings.ReplaceAll(s, old, new)` for a non-empty old; the first argument counts the bytes of an
-- old that are still to be passed over.
abbrev pub replace_from : ℕ → Bytes → Bytes → Bytes → Bytes
replace_from n old new [] = []
replace_from (suc n) old new (c ∷ s) = replace_from n old new s
replace_from zero old new (c ∷ s) =
    let hit = new ++ replace_from (length old - 1) old new s in
    let miss = c ∷ replace_from zero old new s in if has_prefix old (c ∷ s) then hit else miss

abbrev pub replace_all : Bytes → Bytes → Bytes → Bytes
replace_all s old new = replace_from zero old new s

-- `strings.TrimLeft(s, string(b))`
abbrev pub trim_left : ℕ → Bytes → Bytes
trim_left b [] = []
trim_left b (c ∷ s) = let rest = trim_left b s in if c == b then rest else c ∷ s

-- ===== src/Cocoon/Request/Headers.antt =====
-- The headers and the defaults of a query, described by what is sent for each.
use gocoon.Common.{
  zero, suc, not, ◌&&◌, ◌≡◌, refl, sym, ap, ◌∙◌, Bytes, List, [], ◌∷◌, Option, none, some, length,
  if◌then◌else◌, Bool-cases, inl, inr, arith,
}
use gocoon.Common.Int.{ℤ, pos, negsuc}
use gocoon.Common.Assoc.{lookup, put, bytes_eq, bytes_beq, bytes_beq_iff, UniqueKeys, lookup-put}
use gocoon.Tl.Ids.{codes}
use gocoon.Runner.Prompt.{is_empty}
use gocoon.Cocoon.Request.{
  Go, Query, copy_headers, value_or_empty, with_content_type, path_or_default, or_if_zero,
  timeout_or_default, request_headers,
}

abbrev pub path_sent : Bytes → Bytes
path_sent [] = codes "/v1/chat/completions"
path_sent (c ∷ path) = c ∷ path

abbrev pub limit_sent : ℤ → ℤ → ℤ
limit_sent (pos zero) d = d
limit_sent (pos (suc n)) d = pos (suc n)
limit_sent (negsuc n) d = negsuc n

-- In nanoseconds.
abbrev pub timeout_sent : ℤ → ℤ
timeout_sent (pos zero) = pos 300000000000
timeout_sent (pos (suc n)) = pos (suc n)
timeout_sent (negsuc n) = pos 300000000000

pub path_same : (path : Bytes) → path_or_default path ≡ path_sent path
path_same [] = refl
path_same (c ∷ path) = refl

pub limit_same : (v d : ℤ) → or_if_zero v d ≡ limit_sent v d
limit_same (pos zero) d = refl
limit_same (pos (suc n)) d = ground arith
limit_same (negsuc n) d = refl

pub timeout_same : (t : ℤ) → timeout_or_default t ≡ timeout_sent t
timeout_same (pos zero) = refl
timeout_same (pos (suc n)) = ground arith
timeout_same (negsuc n) = refl

-- A header of the caller, which has a name and a value.
abbrev pub given : Bytes → Option Bytes → Option Bytes
given [] o = none
given (c ∷ k) none = none
given (c ∷ k) (some []) = none
given (c ∷ k) (some (d ∷ v)) = some (d ∷ v)

abbrev pub type_sent : Option Bytes → Bytes
type_sent none = codes "application/json"
type_sent (some v) = v

-- The value under a name: the length of the body, the type that the caller gave or that of JSON, and
-- for every other name what the caller gave.
abbrev pub header_sent : Go → Query → Bytes → Option Bytes
header_sent go q k =
    if bytes_beq (codes "Content-Length") k
    then some (go.itoa (length q.body))
    else if bytes_beq (codes "Content-Type") k
    then some (type_sent (given (codes "Content-Type") (lookup (codes "Content-Type") q.headers)))
    else given k (lookup k q.headers)

abbrev first : Option Bytes → Option Bytes → Option Bytes
first none o = o
first (some v) o = some v

first-none : (o : Option Bytes) → first o none ≡ o
first-none none = refl
first-none (some v) = refl

lookup_next :
    (k j v : Bytes) (acc : List (Bytes × Bytes))
    → lookup k (if not (is_empty j) && not (is_empty v) then put j v acc else acc)
      ≡ (if bytes_beq j k then first (given j (some v)) (lookup k acc) else lookup k acc)
lookup_next k [] v acc = ground arith
lookup_next k (c ∷ j) [] acc = ground arith
lookup_next k (c ∷ j) (d ∷ v) acc = lookup-put (c ∷ j) k (d ∷ v) acc

given-none : (k : Bytes) → given k none ≡ none
given-none [] = refl
given-none (c ∷ k) = refl

lookup-copy_headers :
    (k : Bytes) (hs acc : List (Bytes × Bytes))
    → UniqueKeys hs
    → lookup k (copy_headers hs acc) ≡ first (given k (lookup k hs)) (lookup k acc)
unfolding lookup
lookup-copy_headers k [] acc u = sym (ap (λ o. first o (lookup k acc)) (given-none k))
lookup-copy_headers k ((j, v) ∷ hs) acc u =
    let next = if not (is_empty j) && not (is_empty v) then put j v acc else acc in
    let old = lookup k acc in
    elim (Bool-cases (bytes_beq j k)) [
      | inl e ↦
          let same = (bytes_beq_iff j k).0 e in
          let gone = ap (λ x. lookup x hs) (sym same) ∙ u.0 in
          lookup-copy_headers k hs next u.1
          ∙ ap (λ o. first (given k o) (lookup k next)) gone
          ∙ ap (λ o. first o (lookup k next)) (given-none k)
          ∙ lookup_next k j v acc
          ∙ ap (λ b. if b then first (given j (some v)) old else old) e
          ∙ ap (λ x. first (given x (some v)) old) same
          ∙ sym (ap (λ b. first (given k (if b then some v else lookup k hs)) old) e)
      | inr e ↦
          lookup-copy_headers k hs next u.1
          ∙ ap (first (given k (lookup k hs)))
              (lookup_next k j v acc ∙ ap (λ b. if b then first (given j (some v)) old else old) e)
          ∙ sym (ap (λ b. first (given k (if b then some v else lookup k hs)) old) e)
    ]

abbrev type_name : Bytes
type_name = codes "Content-Type"

abbrev typed : List (Bytes × Bytes) → Option Bytes → List (Bytes × Bytes)
typed h o = if is_empty (value_or_empty o) then put type_name (codes "application/json") h else h

-- A type that is given is kept, and another one is put where none is.
lookup-typed :
    (k : Bytes) (h : List (Bytes × Bytes)) (o : Option Bytes)
    → lookup type_name h ≡ given type_name o
    → lookup k (typed h (given type_name o))
      ≡ (if bytes_beq type_name k then some (type_sent (given type_name o)) else lookup k h)
lookup-typed k h none e = lookup-put type_name k (codes "application/json") h
lookup-typed k h (some []) e = lookup-put type_name k (codes "application/json") h
lookup-typed k h (some (d ∷ v)) e = elim (Bool-cases (bytes_beq type_name k)) [
  | inl g ↦
      ap (λ x. lookup x h) (sym ((bytes_beq_iff type_name k).0 g))
      ∙ e
      ∙ sym (ap (λ b. if b then some (d ∷ v) else lookup k h) g)
  | inr g ↦ sym (ap (λ b. if b then some (d ∷ v) else lookup k h) g)
]

lookup-with_content_type :
    (k : Bytes) (h : List (Bytes × Bytes)) (o : Option Bytes)
    → lookup type_name h ≡ given type_name o
    → lookup k (with_content_type h)
      ≡ (if bytes_beq type_name k then some (type_sent (given type_name o)) else lookup k h)
lookup-with_content_type k h o e = ap (λ x. lookup k (typed h x)) e ∙ lookup-typed k h o e

pub headers_sent :
    (go : Go) (q : Query) (k : Bytes)
    → UniqueKeys q.headers
    → lookup k (request_headers go q) ≡ header_sent go q k
unfolding lookup
headers_sent go q k u =
    let copied = copy_headers q.headers [] in
    let at = λ (x : Bytes).
      lookup-copy_headers x q.headers [] u ∙ first-none (given x (lookup x q.headers)) in
    lookup-put (codes "Content-Length") k (go.itoa (length q.body)) (with_content_type copied)
    ∙ ap (λ o. if bytes_beq (codes "Content-Length") k then some (go.itoa (length q.body)) else o)
        (lookup-with_content_type k copied (lookup type_name q.headers) (at type_name)
          ∙ ap
              (λ o.
                if bytes_beq type_name k
                then some (type_sent (given type_name (lookup type_name q.headers)))
                else o)
              (at k))

-- ===== src/Store/Memory/Buckets.antt =====
-- Single buckets, and lists of them: what is found after each operation of the source.
use gocoon.Common.{
  ℕ, ◌≡◌, refl, ap, ◌∙◌, false, Bytes, List, [], ◌∷◌, Option, none, some, if◌then◌else◌, All,
  Bool-cases, inl, inr, arith,
}
use gocoon.Common.Assoc.{
  lookup, delete, bytes_eq, bytes_beq, bytes_beq_iff, UniqueKeys, lookup-delete, lookup-put,
}
use gocoon.Store.{SignedPayment}
use gocoon.Store.Memory.{
  Bucket, bucket_or_new, find_payment, store_bucket, is_old, gc_bucket, keep_bucket, gc_buckets,
}

abbrev pub expire : ℕ → Option SignedPayment → Option SignedPayment
expire older_than none = none
expire older_than (some p) = if is_old older_than p then none else some p

-- A bucket has each request once, and something in it.
abbrev pub NonEmpty : Bucket → Type 0
NonEmpty [] = ⊥
NonEmpty (e ∷ es) = Unit

abbrev pub IsBucket : Bucket → Type 0
IsBucket b = UniqueKeys b × NonEmpty b

pub all_delete :
    (k : Bytes) (m : List (Bytes × Bucket))
    → All (λ (p, b). IsBucket b) m
    → All (λ (p, b). IsBucket b) (delete k m)
unfolding delete
all_delete k [] h = tt
all_delete k ((j, b) ∷ m) h = elim (Bool-cases (bytes_beq j k)) [
  | inl e ↦ rw e (all_delete k m h.1)
  | inr e ↦ rw e (h.0, all_delete k m h.1)
]

pub bucket_unique :
    (k : Bytes) (m : List (Bytes × Bucket))
    → All (λ (p, b). IsBucket b) m
    → UniqueKeys (bucket_or_new (lookup k m))
unfolding lookup
bucket_unique k [] h = tt
bucket_unique k ((j, b) ∷ m) h = elim (Bool-cases (bytes_beq j k)) [
  | inl e ↦ rw e h.0.0
  | inr e ↦ rw e (bucket_unique k m h.1)
]

-- What is found after a bucket was stored.
pub find-store_bucket :
    (k : Bytes) (b : Bucket) (m : List (Bytes × Bucket)) (p r : Bytes)
    → find_payment r (lookup p (store_bucket k b m))
      ≡ (if bytes_beq k p then lookup r b else find_payment r (lookup p m))
unfolding lookup
find-store_bucket k [] m p r = ground (arith, lookup-delete k p m)
find-store_bucket k (e ∷ es) m p r = ground (arith, lookup-put k p (e ∷ es) m)

pub find-bucket_or_new :
    (r : Bytes) (o : Option Bucket) → lookup r (bucket_or_new o) ≡ find_payment r o
unfolding lookup
find-bucket_or_new r none = refl
find-bucket_or_new r (some b) = refl

gc_bucket-lookup :
    (t : ℕ) (b : Bucket) (r : Bytes)
    → UniqueKeys b
    → lookup r (gc_bucket t b).0 ≡ expire t (lookup r b)
unfolding gc_bucket lookup
gc_bucket-lookup t [] r u = refl
gc_bucket-lookup t ((k, v) ∷ es) r u =
    ground (arith, gc_bucket-lookup t es r u.1, bytes_beq_iff k r, u.0)

gc_bucket-UniqueKeys : (t : ℕ) (b : Bucket) → UniqueKeys b → UniqueKeys (gc_bucket t b).0
unfolding gc_bucket
gc_bucket-UniqueKeys t [] u = tt
gc_bucket-UniqueKeys t ((k, v) ∷ es) u = elim (Bool-cases (is_old t v)) [
  | inl e ↦ rw e (gc_bucket-UniqueKeys t es u.1)
  | inr e ↦ rw e (gc_bucket-lookup t es k u.1 ∙ ap (expire t) u.0, gc_bucket-UniqueKeys t es u.1)
]

lookup-keep_bucket :
    (q p : Bytes) (b : Bucket) (m : List (Bytes × Bucket))
    → bytes_beq q p ≡ false
    → lookup p (keep_bucket q b m) ≡ lookup p m
unfolding lookup
lookup-keep_bucket q p [] m h = refl
lookup-keep_bucket q p (e ∷ es) m h = rw h

find-keep_bucket :
    (q p r : Bytes) (b : Bucket) (m : List (Bytes × Bucket))
    → lookup q m ≡ none
    → find_payment r (lookup p (keep_bucket q b m))
      ≡ (if bytes_beq q p then lookup r b else find_payment r (lookup p m))
unfolding lookup
find-keep_bucket q p r [] m h = ground (arith, bytes_beq_iff q p)
find-keep_bucket q p r (e ∷ es) m h = ground arith

gc_buckets_absent :
    (t : ℕ) (m : List (Bytes × Bucket)) (p : Bytes)
    → lookup p m ≡ none
    → lookup p (gc_buckets t m).0 ≡ none
unfolding gc_buckets lookup
gc_buckets_absent t [] p h = refl
gc_buckets_absent t ((q, b) ∷ m) p h = elim (Bool-cases (bytes_beq q p)) [
  | inl e ↦ ground (arith, e)
  | inr e ↦
      lookup-keep_bucket q p (gc_bucket t b).0 (gc_buckets t m).0 e
      ∙ gc_buckets_absent t m p (ground (arith, e))
]

pub gc_buckets-find :
    (t : ℕ) (m : List (Bytes × Bucket)) (p r : Bytes)
    → UniqueKeys m
    → All (λ (k, b). IsBucket b) m
    → find_payment r (lookup p (gc_buckets t m).0) ≡ expire t (find_payment r (lookup p m))
unfolding gc_buckets lookup
gc_buckets-find t [] p r u h = refl
gc_buckets-find t ((q, b) ∷ m) p r u h =
    find-keep_bucket q p r (gc_bucket t b).0 (gc_buckets t m).0 (gc_buckets_absent t m q u.0)
    ∙ ground (arith, gc_bucket-lookup t b r h.0.0, gc_buckets-find t m p r u.1 h.1)

keep_bucket-UniqueKeys :
    (q : Bytes) (b : Bucket) (m : List (Bytes × Bucket))
    → lookup q m ≡ none
    → UniqueKeys m
    → UniqueKeys (keep_bucket q b m)
keep_bucket-UniqueKeys q [] m h u = u
keep_bucket-UniqueKeys q (e ∷ es) m h u = (h, u)

keep_bucket_all :
    (q : Bytes) (b : Bucket) (m : List (Bytes × Bucket))
    → UniqueKeys b
    → All (λ (k, c). IsBucket c) m
    → All (λ (k, c). IsBucket c) (keep_bucket q b m)
keep_bucket_all q [] m u h = h
keep_bucket_all q (e ∷ es) m u h = ((u, tt), h)

pub gc_buckets-UniqueKeys :
    (t : ℕ) (m : List (Bytes × Bucket)) → UniqueKeys m → UniqueKeys (gc_buckets t m).0
unfolding gc_buckets
gc_buckets-UniqueKeys t [] u = tt
gc_buckets-UniqueKeys t ((q, b) ∷ m) u =
    keep_bucket-UniqueKeys q (gc_bucket t b).0 (gc_buckets t m).0 (gc_buckets_absent t m q u.0)
      (gc_buckets-UniqueKeys t m u.1)

pub gc_buckets_all :
    (t : ℕ) (m : List (Bytes × Bucket))
    → All (λ (k, b). IsBucket b) m
    → All (λ (k, b). IsBucket b) (gc_buckets t m).0
unfolding gc_buckets
gc_buckets_all t [] h = tt
gc_buckets_all t ((q, b) ∷ m) h =
    keep_bucket_all q (gc_bucket t b).0 (gc_buckets t m).0 (gc_bucket-UniqueKeys t b h.0.0)
      (gc_buckets_all t m h.1)

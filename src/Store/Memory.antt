-- ===== src/Store/Memory.antt =====
-- pkg/store/memory/memory.go: the store in memory. The copies that the source makes of every value
-- are the values themselves; `none` is ErrNotFound, and a nil argument that changes nothing.
pub mod Buckets
pub mod Ledger
use gocoon.Common.{
  ℕ, suc, ◌+◌, Bool, true, false, Bytes, List, [], ◌∷◌, Option, none, some, ltb, if◌then◌else◌,
}
use gocoon.Common.Assoc.{lookup, delete, put, bytes_eq}
use gocoon.Store.{RootSnapshot, ClientScSnapshot, SignedPayment}

abbrev pub Bucket : Type 0
Bucket = List (Bytes × SignedPayment)

pub record Store : Type 0 where
  pub root : Option RootSnapshot
  pub clients : List (Bytes × ClientScSnapshot)
  pub payments : List (Bytes × Bucket)

unfoldable pub new : Store
new = record { root = none; clients = []; payments = [] }

unfoldable pub get_root : Store → Option RootSnapshot
get_root s = s.root

unfoldable pub put_root : Option RootSnapshot → Store → Store
put_root none s = s
put_root (some snap) s = record s { root = some snap }

unfoldable pub get_client_sc : Bytes → Store → Option ClientScSnapshot
get_client_sc proxy s = lookup proxy s.clients

unfoldable pub put_client_sc : Bytes → Option ClientScSnapshot → Store → Store
put_client_sc proxy none s = s
put_client_sc proxy (some snap) s = record s { clients = put proxy snap s.clients }

unfoldable pub delete_client_sc : Bytes → Store → Store
delete_client_sc proxy s = record s { clients = delete proxy s.clients }

abbrev pub bucket_or_new : Option Bucket → Bucket
bucket_or_new none = []
bucket_or_new (some bucket) = bucket

unfoldable pub put_signed_payment : Bytes → Bytes → Option SignedPayment → Store → Store
put_signed_payment proxy req_id none s = s
put_signed_payment proxy req_id (some p) s = record s {
  payments = put proxy (put req_id p (bucket_or_new (lookup proxy s.payments))) s.payments;
}

abbrev pub find_payment : Bytes → Option Bucket → Option SignedPayment
find_payment req_id none = none
find_payment req_id (some bucket) = lookup req_id bucket

unfoldable pub get_signed_payment : Bytes → Bytes → Store → Option SignedPayment
get_signed_payment proxy req_id s = find_payment req_id (lookup proxy s.payments)

-- A bucket that is left empty is removed.
abbrev pub store_bucket : Bytes → Bucket → List (Bytes × Bucket) → List (Bytes × Bucket)
store_bucket proxy [] m = delete proxy m
store_bucket proxy (e ∷ es) m = put proxy (e ∷ es) m

unfoldable pub delete_signed_payment : Bytes → Bytes → Store → Store
delete_signed_payment proxy req_id s = elim (lookup proxy s.payments) [
  | none ↦ s
  | some bucket ↦ record s { payments = store_bucket proxy (delete req_id bucket) s.payments }
]

unfoldable pub list_signed_payments : Bytes → Store → Bucket
list_signed_payments proxy s = bucket_or_new (lookup proxy s.payments)

-- `v.StoredAt.Before(olderThan)`
abbrev pub is_old : ℕ → SignedPayment → Bool
is_old older_than p = ltb p.stored_at older_than

-- The inner loop: what is left of a bucket, and how many were removed.
unfoldable pub gc_bucket : ℕ → Bucket → Bucket × ℕ
gc_bucket older_than [] = ([], 0)
gc_bucket older_than ((k, p) ∷ es) =
    let (kept, removed) = gc_bucket older_than es in
    if is_old older_than p then (kept, suc removed) else ((k, p) ∷ kept, removed)

-- `if len(bucket) == 0 { delete(s.payments, proxy) }`
abbrev pub keep_bucket : Bytes → Bucket → List (Bytes × Bucket) → List (Bytes × Bucket)
keep_bucket proxy [] rest = rest
keep_bucket proxy (e ∷ es) rest = (proxy, e ∷ es) ∷ rest

unfoldable pub gc_buckets : ℕ → List (Bytes × Bucket) → List (Bytes × Bucket) × ℕ
gc_buckets older_than [] = ([], 0)
gc_buckets older_than ((proxy, bucket) ∷ rest) =
    let (kept, removed) = gc_bucket older_than bucket in
    let (others, more) = gc_buckets older_than rest in
    (keep_bucket proxy kept others, removed + more)

unfoldable pub gc_signed_payments : ℕ → Store → Store × ℕ
gc_signed_payments older_than s =
    let (payments, removed) = gc_buckets older_than s.payments in
    (record s { payments = payments }, removed)

-- ===== src/Store/Memory/Ledger.antt =====
-- The payments of the store as one map from a proxy and a request id, which every operation changes
-- as its name says.
use gocoon.Common.{
  ℕ, ◌≡◌, refl, ap, ◌∙◌, Bool, Bytes, [], ◌∷◌, Option, none, some, ◌&&◌, if◌then◌else◌, All,
  Option-cases, inl, inr, subst, arith,
}
use gocoon.Common.Assoc.{
  lookup, delete, put, bytes_eq, bytes_beq, bytes_beq_iff, UniqueKeys, lookup-delete, lookup-put,
  delete-UniqueKeys, put-UniqueKeys,
}
use gocoon.Store.{SignedPayment}
use gocoon.Store.Memory.{
  Bucket, Store, new, bucket_or_new, put_signed_payment, find_payment, get_signed_payment,
  store_bucket, delete_signed_payment, gc_signed_payments,
}
use gocoon.Store.Memory.Buckets.{
  expire, IsBucket, all_delete, bucket_unique, find-store_bucket, find-bucket_or_new,
  gc_buckets-find, gc_buckets-UniqueKeys, gc_buckets_all,
}

-- What a payment store is to its clients.
abbrev pub Ledger : Type 0
Ledger = Bytes → Bytes → Option SignedPayment

-- The calls that change payments.
pub data Change : Type 0 where
  put_payment : Bytes → Bytes → Option SignedPayment → Change
  delete_payment : Bytes → Bytes → Change
  gc : ℕ → Change

unfoldable pub apply : Change → Store → Store
apply (put_payment proxy req p) s = put_signed_payment proxy req p s
apply (delete_payment proxy req) s = delete_signed_payment proxy req s
apply (gc older_than) s = (gc_signed_payments older_than s).0

abbrev pub is_at : Bytes → Bytes → Bytes → Bytes → Bool
is_at proxy req p r = bytes_beq proxy p && bytes_beq req r

-- The same calls on the ledger.
abbrev pub apply_ledger : Change → Ledger → Ledger
apply_ledger (put_payment proxy req none) l = l
apply_ledger (put_payment proxy req (some v)) l =
    λ p r. if is_at proxy req p r then some v else l p r
apply_ledger (delete_payment proxy req) l = λ p r. if is_at proxy req p r then none else l p r
apply_ledger (gc older_than) l = λ p r. expire older_than (l p r)

abbrev pub ledger : Store → Ledger
ledger s = λ proxy req. get_signed_payment proxy req s

pub record IsWellFormed (s : Store) : Type 0 where
  pub unique : UniqueKeys s.payments
  pub buckets : All (λ (p, b). IsBucket b) s.payments

store_bucket-IsWellFormed :
    (k : Bytes) (b : Bucket) (s : Store)
    → IsWellFormed s
    → UniqueKeys b
    → IsWellFormed (record s { payments = store_bucket k b s.payments })
unfolding put
store_bucket-IsWellFormed k [] s w u = record {
  unique = delete-UniqueKeys k s.payments w.unique;
  buckets = all_delete k s.payments w.buckets;
}
store_bucket-IsWellFormed k (e ∷ es) s w u = record {
  unique = put-UniqueKeys k (e ∷ es) s.payments w.unique;
  buckets = ((u, tt), all_delete k s.payments w.buckets);
}

pub new-IsWellFormed : IsWellFormed new
unfolding new
new-IsWellFormed = record { unique = tt; buckets = tt }

-- The store after each call, in the terms above.
put_stores :
    (proxy req : Bytes) (v : SignedPayment) (s : Store)
    → put_signed_payment proxy req (some v) s ≡ record s {
      payments =
          store_bucket proxy (put req v (bucket_or_new (lookup proxy s.payments))) s.payments;
    }
unfolding put_signed_payment put
put_stores proxy req v s = refl

delete_nothing :
    (proxy req : Bytes) (s : Store)
    → lookup proxy s.payments ≡ none
    → delete_signed_payment proxy req s ≡ s
unfolding delete_signed_payment
delete_nothing proxy req s h = rw (h, delete_signed_payment)

delete_stores :
    (proxy req : Bytes) (s : Store) (b : Bucket)
    → lookup proxy s.payments ≡ some b
    → delete_signed_payment proxy req s
      ≡ record s { payments = store_bucket proxy (delete req b) s.payments }
unfolding delete_signed_payment
delete_stores proxy req s b h = rw (h, delete_signed_payment)

-- Putting, deleting and collecting payments keep a store in memory well formed: no proxy and no
-- request id stands twice, and no bucket is empty.
pub apply-IsWellFormed : (c : Change) (s : Store) → IsWellFormed s → IsWellFormed (apply c s)
unfolding apply put_signed_payment gc_signed_payments
apply-IsWellFormed (put_payment proxy req none) s w = w
apply-IsWellFormed (put_payment proxy req (some v)) s w =
    let b = bucket_or_new (lookup proxy s.payments) in
    rw (put_stores proxy req v s) (
      store_bucket-IsWellFormed proxy (put req v b) s w
        (put-UniqueKeys req v b (bucket_unique proxy s.payments w.buckets)))
apply-IsWellFormed (delete_payment proxy req) s w = elim (Option-cases (lookup proxy s.payments)) [
  | inl h ↦ rw (delete_nothing proxy req s h) w
  | inr (b, h) ↦ rw (delete_stores proxy req s b h) (
      store_bucket-IsWellFormed proxy (delete req b) s w (
        delete-UniqueKeys req b
          (subst (λ o. UniqueKeys (bucket_or_new o)) h (bucket_unique proxy s.payments w.buckets))))
]
apply-IsWellFormed (gc t) s w = record {
  unique = gc_buckets-UniqueKeys t s.payments w.unique;
  buckets = gc_buckets_all t s.payments w.buckets;
}

-- Seen as a map from a proxy and a request id, a well-formed store in memory changes as the call
-- says: putting a payment changes that entry alone, deleting removes it alone, and the collection
-- removes the payments from before the given time and no other.
pub ledger-apply :
    (c : Change) (s : Store) (p r : Bytes)
    → IsWellFormed s
    → ledger (apply c s) p r ≡ apply_ledger c (ledger s) p r
unfolding apply get_signed_payment gc_signed_payments put_signed_payment
ledger-apply (put_payment proxy req none) s p r w = refl
ledger-apply (put_payment proxy req (some v)) s p r w =
    let b = bucket_or_new (lookup proxy s.payments) in
    ap (λ (t : Store). find_payment r (lookup p t.payments)) (put_stores proxy req v s)
    ∙ find-store_bucket proxy (put req v b) s.payments p r
    ∙ ground (
      arith,
      lookup-put req r v b,
      find-bucket_or_new r (lookup proxy s.payments),
      bytes_beq_iff proxy p,
    )
ledger-apply (delete_payment proxy req) s p r w = elim (Option-cases (lookup proxy s.payments)) [
  | inl h ↦ rw (delete_nothing proxy req s h) (ground (arith, h, bytes_beq_iff proxy p))
  | inr (b, h) ↦
      ap (λ (t : Store). find_payment r (lookup p t.payments)) (delete_stores proxy req s b h)
      ∙ find-store_bucket proxy (delete req b) s.payments p r
      ∙ ground (arith, lookup-delete req r b, h, bytes_beq_iff proxy p)
]
ledger-apply (gc t) s p r w = gc_buckets-find t s.payments p r w.unique w.buckets

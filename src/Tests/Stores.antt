-- ===== src/Tests/Stores.antt =====
-- The store in memory with two payments of one proxy.
use gocoon.Common.{◌≡◌, refl, Bytes, [], ◌∷◌, some}
use gocoon.Common.Assoc.{bytes_eq, put, delete, lookup}
use gocoon.Store.{SignedPayment}
use gocoon.Store.Memory.{Store, new, put_signed_payment, gc_signed_payments, gc_buckets, gc_bucket}
use gocoon.Store.Memory.Ledger.{
  put_payment, gc, apply, apply_ledger, ledger, IsWellFormed, new-IsWellFormed, apply-IsWellFormed,
  ledger-apply,
}

abbrev proxy : Bytes
proxy = 69 ∷ 81 ∷ []

abbrev old : SignedPayment
old = record { blob = 1 ∷ []; stored_at = 10 }

abbrev recent : SignedPayment
recent = record { blob = 2 ∷ []; stored_at = 20 }

abbrev two : Store
two =
    apply (put_payment proxy (8 ∷ []) (some recent))
      (apply (put_payment proxy (7 ∷ []) (some old)) new)

two-IsWellFormed : IsWellFormed two
two-IsWellFormed =
    apply-IsWellFormed (put_payment proxy (8 ∷ []) (some recent))
      (apply (put_payment proxy (7 ∷ []) (some old)) new)
      (apply-IsWellFormed (put_payment proxy (7 ∷ []) (some old)) new new-IsWellFormed)

apply-IsWellFormed_example : IsWellFormed (apply (gc 15) two)
apply-IsWellFormed_example = apply-IsWellFormed (gc 15) two two-IsWellFormed

ledger-apply_example :
    ledger (apply (gc 15) two) proxy (7 ∷ []) ≡ apply_ledger (gc 15) (ledger two) proxy (7 ∷ [])
ledger-apply_example = ledger-apply (gc 15) two proxy (7 ∷ []) two-IsWellFormed

one_removed : (gc_signed_payments 15 two).1 ≡ 1
unfolding gc_signed_payments gc_buckets gc_bucket apply put_signed_payment new put delete lookup
one_removed = refl

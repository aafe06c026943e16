-- ===== src/Cocoon/Models.antt =====
-- decodeWorkerTypesV2 of pkg/cocoon/models.go and decodePaymentStatus of pkg/cocoon/session.go.
pub mod RoundTrip
use gocoon.Common.{ℕ, Bool, true, false, not, Bytes, List, [], ◌∷◌, ◌==◌, if◌then◌else◌}
use gocoon.Common.Int.{ℤ, pos}
use gocoon.Tl.Reader.{
  Outcome, Parser, new_reader, ◌>>=◌, pure, fail, read_uint32, read_int32, read_int64, read_flags,
  read_string,
}
use gocoon.Tl.Vector.{read_vector_len, read_items}
use gocoon.Tl.Constants.{id_client_worker_types_v2, id_client_payment_status}
use gocoon.Cocoon.Errors.{Error, unexpected_constructor, no_worker_models}
use gocoon.Cocoon.Handshake.{lift, read_signed_payment}

pub record WorkerInstance : Type 0 where
  pub coefficient : ℤ
  pub active_requests : ℤ
  pub max_active_requests : ℤ

pub record WorkerType : Type 0 where
  pub name : Bytes
  pub workers : List WorkerInstance

unfoldable pub read_worker : Parser Error WorkerInstance
read_worker = do
  _ ← lift read_flags
  coefficient ← lift read_int32
  active ← lift read_int32
  max_active ← lift read_int32
  pure (record {
    coefficient = coefficient;
    active_requests = active;
    max_active_requests = max_active;
  })

unfoldable pub read_worker_type : Parser Error WorkerType
read_worker_type = do
  name ← lift read_string
  worker_count ← lift read_vector_len
  workers ← read_items read_worker worker_count
  pure (record { name = name; workers = workers })

abbrev pub advertised : List WorkerType → Parser Error (List WorkerType)
advertised [] = fail no_worker_models
advertised (t ∷ ts) = pure (t ∷ ts)

-- What follows the constructor id.
unfoldable pub worker_types_body : ℕ → Parser Error (List WorkerType)
worker_types_body id =
    if not (id == id_client_worker_types_v2)
    then fail (unexpected_constructor id)
    else (do n ← lift read_vector_len; out ← read_items read_worker_type n; advertised out)

abbrev pub worker_types_parser : Parser Error (List WorkerType)
worker_types_parser = lift read_uint32 >>= worker_types_body

unfoldable pub decode_worker_types_v2 : Bytes → Outcome Error (List WorkerType)
decode_worker_types_v2 payload = worker_types_parser (new_reader payload)

pub record PaymentStatus : Type 0 where
  pub tokens_committed_to_blockchain : ℤ
  pub tokens_committed_to_db : ℤ
  pub tokens_max : ℤ
  pub tokens_charged : ℤ
  pub tokens_payed : ℤ

abbrev pub payment_status : ℤ → ℤ → PaymentStatus
payment_status db_tokens max_tokens = record {
  tokens_committed_to_blockchain = pos 0;
  tokens_committed_to_db = db_tokens;
  tokens_max = max_tokens;
  tokens_charged = pos 0;
  tokens_payed = pos 0;
}

unfoldable pub payment_status_body : ℕ → Parser Error PaymentStatus
payment_status_body id =
    if not (id == id_client_payment_status) then fail (unexpected_constructor id) else (do
      sp_id ← lift read_uint32
      _ ← read_signed_payment sp_id
      db_tokens ← lift read_int64
      max_tokens ← lift read_int64
      pure (payment_status db_tokens max_tokens))

abbrev pub payment_status_parser : Parser Error PaymentStatus
payment_status_parser = lift read_uint32 >>= payment_status_body

unfoldable pub decode_payment_status : Bytes → Outcome Error PaymentStatus
decode_payment_status answer = payment_status_parser (new_reader answer)

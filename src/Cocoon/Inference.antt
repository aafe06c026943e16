-- ===== src/Cocoon/Inference.antt =====
-- pkg/cocoon/inference.go: the parts of a streamed answer.
pub mod Parts
pub mod RoundTrip
use gocoon.Common.{
  ℕ, zero, suc, Bool, true, false, Bytes, [], ◌∷◌, Option, none, some, ◌==◌, ◌||◌, not,
  if◌then◌else◌, replicate,
}
use gocoon.Common.Int.{ℤ, pos}
use gocoon.Tl.Reader.{
  TlError, unknown_constructor, Reader, Parser, Outcome, ok, err, next, ◌>>=◌, ◌>>◌, pure, fail,
  new_reader, read_uint32, read_int32, read_int256, read_bytes, read_string, read_bool, read_flags,
  read_double,
}
use gocoon.Tl.Vector.{read_vector_len}
use gocoon.Tl.Types.{TokensUsed, decode_tokens_used, flag_set}
use gocoon.Tl.Constants.{
  id_client_query_answer, id_client_query_answer_part, id_client_query_answer_ex,
  id_client_query_answer_part_ex, id_client_query_answer_error, id_client_query_answer_part_error,
  id_client_query_answer_error_ex, id_http_response,
}
use gocoon.Cocoon.Errors.{Error, ProxyError, proxy}

pub record Chunk : Type 0 where
  pub bytes : Bytes
  pub is_final : Bool
  pub request_id : Bytes
  pub tokens_used : TokensUsed
  pub error : Option Error

abbrev pub no_tokens : TokensUsed
no_tokens = record {
  prompt_tokens = pos 0;
  cached_tokens = pos 0;
  completion_tokens = pos 0;
  reasoning_tokens = pos 0;
  total_tokens = pos 0;
}

-- `Chunk{IsFinal: true, RequestID: rid, Err: &ProxyError{…}}`
abbrev pub error_chunk : Bytes → ℤ → Bytes → Chunk
error_chunk rid code msg = record {
  bytes = [];
  is_final = true;
  request_id = rid;
  tokens_used = no_tokens;
  error = some (proxy (record { code = code; message = msg; phase = "query"; request_id = none }));
}

-- A call whose result and error are ignored.
abbrev pub ignore {ℓ} : {A : Type ℓ} → Parser TlError A → Parser TlError (Unit {0})
ignore p r = elim (p r) [ ok _ s ↦ ok tt s | err _ s ↦ ok tt s ]

-- `for i := 0; i < n; i++ { … }` over a body that only reads.
unfoldable pub repeat {ℓ} : {A : Type ℓ} → Parser TlError A → ℕ → Parser TlError (Unit {0})
repeat p zero = pure tt
repeat p (suc n) = p >>= λ _. repeat p n

abbrev pub two_strings : Parser TlError (Unit {0})
two_strings = do a ← read_string; b ← read_string; pure tt

-- `if flags&mask != 0 { … }`
abbrev pub where_set : ℕ → ℕ → Parser TlError (Unit {0}) → Parser TlError (Unit {0})
where_set flags mask p = if flag_set flags mask then p else pure tt

unfoldable pub skip_client_query_final_info : Parser TlError (Unit {0})
skip_client_query_final_info = do
  flags ← read_flags
  tokens ← decode_tokens_used
  where_set flags 0x1 two_strings
  where_set flags 0x2 (repeat read_double 4)

unfoldable pub http_response_body : Parser TlError Bytes
unfolding read_vector_len
http_response_body = do
  version ← read_string
  status ← read_int32
  reason ← read_string
  n ← read_vector_len
  repeat two_strings n
  read_bytes

abbrev http_response_parser : Parser TlError Bytes
http_response_parser = do
  id ← read_uint32
  if not (id == id_http_response) then fail unknown_constructor else http_response_body

-- `(value, true)`, or `(…, false)` where a read fails.
abbrev pub succeeded {ℓ} : {A : Type ℓ} → Outcome TlError A → Option A
succeeded (ok a r) = some a
succeeded (err e r) = none

unfoldable pub decode_http_response_payload : Bytes → Option Bytes
decode_http_response_payload body = succeeded (http_response_parser (new_reader body))

-- `if payload, ok := decodeHTTPResponsePayload(body); ok { body = payload }`
unfoldable pub unwrap_http : Bytes → Bytes
unwrap_http body = elim (decode_http_response_payload body) [ none ↦ body | some payload ↦ payload ]

-- The cases of the switch.
unfoldable pub read_answer : Parser TlError Chunk
read_answer = do
  body ← read_bytes
  is_completed ← read_bool
  rid ← read_int256
  tokens ← decode_tokens_used
  pure (record {
    bytes = body;
    is_final = is_completed;
    request_id = rid;
    tokens_used = tokens;
    error = none;
  })

unfoldable pub read_answer_ex : ℕ → Parser TlError Chunk
read_answer_ex id = do
  rid ← read_int256
  body ← read_bytes
  flags ← read_flags
  where_set flags 0x1 (ignore skip_client_query_final_info)
  pure (record {
    bytes = if id == id_client_query_answer_ex then unwrap_http body else body;
    is_final = flag_set flags 0x1;
    request_id = rid;
    tokens_used = no_tokens;
    error = none;
  })

unfoldable pub read_answer_error : Parser TlError Chunk
read_answer_error = do
  code ← read_int32
  msg ← read_string
  rid ← read_int256
  ignore decode_tokens_used
  pure (error_chunk rid code msg)

unfoldable pub read_answer_error_ex : Parser TlError Chunk
read_answer_error_ex = do
  rid ← read_int256
  code ← read_int32
  msg ← read_string
  flags ← read_flags
  where_set flags 0x1 (ignore skip_client_query_final_info)
  pure (error_chunk rid code msg)

-- `switch id`
unfoldable pub query_part_body : ℕ → Parser TlError Chunk
query_part_body id =
    if (id == id_client_query_answer) || (id == id_client_query_answer_part)
    then read_answer
    else if (id == id_client_query_answer_ex) || (id == id_client_query_answer_part_ex)
    then read_answer_ex id
    else if (id == id_client_query_answer_error) || (id == id_client_query_answer_part_error)
    then read_answer_error
    else if id == id_client_query_answer_error_ex
    then read_answer_error_ex
    else fail unknown_constructor

abbrev pub query_part_parser : Parser TlError Chunk
query_part_parser = do id ← read_uint32; query_part_body id

unfoldable pub try_decode_query_part : Bytes → Option Chunk
try_decode_query_part payload = succeeded (query_part_parser (new_reader payload))

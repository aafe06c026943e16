-- ===== src/Cocoon/Request/Schema.antt =====
-- What a proxy reads of a query, by the schema of client.runQueryEx and http.request.
use gocoon.Common.{ℕ, ◌%◌, Bool, true, false, not, Bytes, List, ◌==◌, if◌then◌else◌}
use gocoon.Common.Int.{ℤ}
use gocoon.Tl.Reader.{
  Float64, Parser, ◌>>=◌, pure, fail, read_uint32, read_int32, read_double, read_int256, read_bool,
  read_bytes, read_string, read_flags,
}
use gocoon.Tl.Vector.{read_items}
use gocoon.Tl.Constants.{id_client_run_query_ex, id_http_request}
use gocoon.Cocoon.Errors.{Error, unexpected_constructor}
use gocoon.Cocoon.Handshake.{lift}
use gocoon.Common.Assoc.{bytes_eq}

pub record HttpRequest : Type 0 where
  pub method : Bytes
  pub path : Bytes
  pub version : Bytes
  pub headers : List (Bytes × Bytes)
  pub body : Bytes

abbrev pub read_header : Parser Error (Bytes × Bytes)
read_header = do k ← lift read_string; v ← lift read_string; pure (k, v)

abbrev pub http_request_body : ℕ → Parser Error HttpRequest
http_request_body id = if not (id == id_http_request) then fail (unexpected_constructor id) else (do
  method ← lift read_string
  path ← lift read_string
  version ← lift read_string
  n ← lift read_uint32
  headers ← read_items read_header n
  body ← lift read_bytes
  pure (record { method = method; path = path; version = version; headers = headers; body = body }))

abbrev pub read_http_request : Parser Error HttpRequest
read_http_request = lift read_uint32 >>= http_request_body

pub record RunQuery : Type 0 where
  pub model : Bytes
  pub http : Bytes
  pub max_coefficient : ℤ
  pub max_tokens : ℤ
  pub seconds : Float64
  pub req_id : Bytes
  pub min_cfg_ver : ℤ
  pub debug : Bool

abbrev pub debug_of : Bool → Parser Error Bool
debug_of true = lift read_bool
debug_of false = pure false

abbrev pub read_debug : Parser Error Bool
read_debug = lift read_flags >>= λ flags. debug_of (flags % 2 == 1)

abbrev pub run_query_body : ℕ → Parser Error RunQuery
run_query_body id =
    if not (id == id_client_run_query_ex) then fail (unexpected_constructor id) else (do
      model ← lift read_string
      http ← lift read_bytes
      max_coefficient ← lift read_int32
      max_tokens ← lift read_int32
      seconds ← lift read_double
      req_id ← lift read_int256
      min_cfg_ver ← lift read_int32
      debug ← read_debug
      pure (record {
        model = model;
        http = http;
        max_coefficient = max_coefficient;
        max_tokens = max_tokens;
        seconds = seconds;
        req_id = req_id;
        min_cfg_ver = min_cfg_ver;
        debug = debug;
      }))

abbrev pub read_run_query : Parser Error RunQuery
read_run_query = lift read_uint32 >>= run_query_body

-- ===== src/Cocoon/Request.antt =====
-- encodeRunQueryEx and encodeHTTPRequest of pkg/cocoon/inference.go.
pub mod Headers
pub mod Schema
pub mod RoundTrip
use gocoon.Common.{
  ℕ, Bool, true, false, not, ◌&&◌, Bytes, List, [], ◌∷◌, Option, none, some, length, if◌then◌else◌,
}
use gocoon.Common.Int.{ℤ, pos, int_ltb}
use gocoon.Common.Assoc.{lookup, put, bytes_eq, int_beq}
use gocoon.Tl.Ids.{codes}
use gocoon.Tl.Reader.{Float64}
use gocoon.Tl.Writer.{
  Writer, new_writer, bytes, ◌▹◌, write_uint32, write_int32, write_double, write_int256, write_bool,
  write_bytes, write_string, write_flags,
}
use gocoon.Tl.Vector.{write_items}
use gocoon.Tl.Constants.{id_client_run_query_ex, id_http_request}
use gocoon.Runner.Prompt.{is_empty}

-- What Go gives: strconv.Itoa, the order in which a map is walked through, and
-- `timeout.Seconds() * 0.95` of a duration in nanoseconds.
pub record Go : Type 0 where
  pub itoa : ℕ → Bytes
  pub order : List (Bytes × Bytes) → List (Bytes × Bytes)
  pub reduced_seconds : ℤ → Float64

pub record Query : Type 0 where
  pub model : Bytes
  pub body : Bytes
  pub path : Bytes
  pub headers : List (Bytes × Bytes)
  pub max_coefficient : ℤ
  pub max_tokens : ℤ
  pub timeout : ℤ
  pub enable_debug : Bool

-- The headers with a name and a value.
abbrev pub copy_headers : List (Bytes × Bytes) → List (Bytes × Bytes) → List (Bytes × Bytes)
copy_headers [] headers = headers
copy_headers ((k, v) ∷ hs) headers =
    let kept = put k v headers in
    let next = if not (is_empty k) && not (is_empty v) then kept else headers in
    copy_headers hs next

-- `headers[k]`, which is "" for a missing key.
abbrev pub value_or_empty : Option Bytes → Bytes
value_or_empty none = []
value_or_empty (some v) = v

abbrev pub with_content_type : List (Bytes × Bytes) → List (Bytes × Bytes)
with_content_type headers =
    if is_empty (value_or_empty (lookup (codes "Content-Type") headers))
    then put (codes "Content-Type") (codes "application/json") headers
    else headers

abbrev pub path_or_default : Bytes → Bytes
path_or_default path = if is_empty path then codes "/v1/chat/completions" else path

abbrev pub or_if_zero : ℤ → ℤ → ℤ
or_if_zero v d = if int_beq v (pos 0) then d else v

-- Five minutes in nanoseconds, where no timeout is given.
abbrev pub timeout_or_default : ℤ → ℤ
timeout_or_default t = if int_ltb t (pos 1) then pos 300000000000 else t

abbrev pub write_header : Bytes × Bytes → Writer → Writer
write_header (k, v) w = w ▹ write_string k ▹ write_string v

-- The flags, and the value that they announce.
abbrev pub write_debug : Bool → Writer → Writer
write_debug true w = w ▹ write_flags 1 ▹ write_bool true
write_debug false w = w ▹ write_flags 0

module _ (go : Go) where
  abbrev pub request_headers : Query → List (Bytes × Bytes)
  request_headers q =
      put (codes "Content-Length") (go.itoa (length q.body))
        (with_content_type (copy_headers q.headers []))

  abbrev pub write_http_request : Query → Writer → Writer
  write_http_request q w =
      w
      ▹ write_uint32 id_http_request
      ▹ write_string (codes "POST")
      ▹ write_string (path_or_default q.path)
      ▹ write_string (codes "HTTP/1.0")
      ▹ write_uint32 (length (request_headers q))
      ▹ write_items write_header (go.order (request_headers q))
      ▹ write_bytes q.body

  unfoldable pub encode_http_request : Query → Bytes
  unfolding new_writer
  encode_http_request q = bytes (write_http_request q new_writer)

  abbrev pub write_run_query_ex : Query → Bytes → ℤ → Writer → Writer
  write_run_query_ex q req_id min_cfg_ver w =
      w
      ▹ write_uint32 id_client_run_query_ex
      ▹ write_string q.model
      ▹ write_bytes (encode_http_request q)
      ▹ write_int32 (or_if_zero q.max_coefficient (pos 4000))
      ▹ write_int32 (or_if_zero q.max_tokens (pos 10000))
      ▹ write_double (go.reduced_seconds (timeout_or_default q.timeout))
      ▹ write_int256 req_id
      ▹ write_int32 min_cfg_ver
      ▹ write_debug q.enable_debug

  unfoldable pub encode_run_query_ex : Query → Bytes → ℤ → Bytes
  unfolding new_writer
  encode_run_query_ex q req_id min_cfg_ver =
      bytes (write_run_query_ex q req_id min_cfg_ver new_writer)

-- ===== src/Cocoon/Request/RoundTrip.antt =====
-- A query as it is sent is what the schema reads.
use gocoon.Common.{
  ◌<◌, ◌^◌, ◌%◌, ◌≡◌, ◌∙◌, sym, subst, Bool, true, false, Bytes, List, ◌==◌, length, All, arith,
}
use gocoon.Common.Int.{ℤ, pos, IsInt32}
use gocoon.Tl.Ids.{codes}
use gocoon.Tl.Reader.{Float64, ok, new_reader, read_int32, read_double, read_string}
use gocoon.Tl.Writer.{write_string, write_int32, write_double}
use gocoon.Tl.Codec.{Codec, Codec-bind, Codec-pure, Codec-whole}
use gocoon.Tl.Codec.Fixed.{
  uint32-Codec, int32-Codec, int256-Codec, double-Codec, bool-Codec, flags-Codec,
}
use gocoon.Tl.Codec.Blob.{bytes-Codec, string-Codec}
use gocoon.Tl.Vector.{read_items, write_items}
use gocoon.Tl.Vector.RoundTrip.{items-Codec}
use gocoon.Tl.Constants.{id_client_run_query_ex, id_http_request}
use gocoon.Cocoon.Handshake.Decode.{lift-Codec}
use gocoon.Common.Assoc.{lookup, bytes_eq, UniqueKeys}
use gocoon.Cocoon.Request.Headers.{
  path_sent, limit_sent, timeout_sent, path_same, limit_same, timeout_same, header_sent,
  headers_sent,
}
use gocoon.Cocoon.Request.{
  Go, Query, path_or_default, or_if_zero, timeout_or_default, write_header, write_debug,
  request_headers, write_http_request, encode_http_request, write_run_query_ex, encode_run_query_ex,
}
use gocoon.Cocoon.Request.Schema.{
  HttpRequest, RunQuery, read_header, http_request_body, read_http_request, debug_of, read_debug,
  run_query_body, read_run_query,
}

abbrev pub HeaderFits : Bytes × Bytes → Type 0
HeaderFits (k, v) = (length k < 2 ^ 24) × (length v < 2 ^ 24)

-- A Go map has no key twice, and Go walks through every entry of it once, in some order.
pub record QueryFits (go : Go) (q : Query) (req_id : Bytes) (min_cfg_ver : ℤ) : Type 0 where
  pub model : length q.model < 2 ^ 24
  pub body : length q.body < 2 ^ 24
  pub path : length (path_sent q.path) < 2 ^ 24
  pub once : UniqueKeys q.headers
  pub count : length (request_headers go q) < 2 ^ 32
  pub walked : length (go.order (request_headers go q)) ≡ length (request_headers go q)
  pub entries :
      (k : Bytes) → lookup k (go.order (request_headers go q)) ≡ lookup k (request_headers go q)
  pub headers : All HeaderFits (go.order (request_headers go q))
  pub http : length (encode_http_request go q) < 2 ^ 24
  pub coefficient : IsInt32 (limit_sent q.max_coefficient (pos 4000))
  pub tokens : IsInt32 (limit_sent q.max_tokens (pos 10000))
  pub seconds : (go.reduced_seconds (timeout_sent q.timeout)).bits < 2 ^ 64
  pub req : length req_id ≡ 32
  pub version : IsInt32 min_cfg_ver

abbrev pub post : Bytes → List (Bytes × Bytes) → Bytes → HttpRequest
post path headers body = record {
  method = codes "POST";
  path = path;
  version = codes "HTTP/1.0";
  headers = headers;
  body = body;
}

abbrev http_of : Go → Query → HttpRequest
http_of go q = post (path_sent q.path) (go.order (request_headers go q)) q.body

abbrev pub query_of : Go → Query → Bytes → ℤ → RunQuery
query_of go q req_id min_cfg_ver = record {
  model = q.model;
  http = encode_http_request go q;
  max_coefficient = limit_sent q.max_coefficient (pos 4000);
  max_tokens = limit_sent q.max_tokens (pos 10000);
  seconds = go.reduced_seconds (timeout_sent q.timeout);
  req_id = req_id;
  min_cfg_ver = min_cfg_ver;
  debug = q.enable_debug;
}

header-Codec : (h : Bytes × Bytes) → HeaderFits h → Codec (write_header h) read_header h
header-Codec (k, v) f =
    Codec-bind _ (lift-Codec (string-Codec k f.0))
      (Codec-bind _ (lift-Codec (string-Codec v f.1)) (Codec-pure (k, v)))

debug-Codec : (b : Bool) → Codec (write_debug b) read_debug b
debug-Codec true =
    Codec-bind (λ flags. debug_of (flags % 2 == 1)) (lift-Codec (flags-Codec 1 (omega arith)))
      (lift-Codec (bool-Codec true))
debug-Codec false =
    Codec-bind (λ flags. debug_of (flags % 2 == 1)) (lift-Codec (flags-Codec 0 (omega arith)))
      (Codec-pure false)

module _ (go : Go) (q : Query) (req_id : Bytes) (min_cfg_ver : ℤ)
    (f : QueryFits go q req_id min_cfg_ver) where
  headers-Codec :
      Codec
        (write_items write_header (go.order (request_headers go q)))
        (read_items read_header (length (request_headers go q)))
        (go.order (request_headers go q))
  headers-Codec =
      subst
        (λ n.
          Codec (write_items write_header (go.order (request_headers go q)))
            (read_items read_header n) (go.order (request_headers go q)))
        f.walked (items-Codec header-Codec (go.order (request_headers go q)) f.headers)

  path-Codec : Codec (write_string (path_or_default q.path)) read_string (path_sent q.path)
  path-Codec =
      subst (λ p. Codec (write_string p) read_string (path_sent q.path)) (sym (path_same q.path))
        (string-Codec (path_sent q.path) f.path)

  limit-Codec :
      (v d : ℤ)
      → IsInt32 (limit_sent v d)
      → Codec (write_int32 (or_if_zero v d)) read_int32 (limit_sent v d)
  limit-Codec v d h =
      subst (λ x. Codec (write_int32 x) read_int32 (limit_sent v d)) (sym (limit_same v d))
        (int32-Codec (limit_sent v d) h)

  abbrev seconds_sent : Float64
  seconds_sent = go.reduced_seconds (timeout_sent q.timeout)

  seconds-Codec :
      Codec
        (write_double (go.reduced_seconds (timeout_or_default q.timeout)))
        read_double
        seconds_sent
  seconds-Codec =
      subst (λ t. Codec (write_double (go.reduced_seconds t)) read_double seconds_sent)
        (sym (timeout_same q.timeout)) (double-Codec seconds_sent f.seconds)

  http_request-Codec : Codec (write_http_request go q) read_http_request (http_of go q)
  http_request-Codec =
      Codec-bind http_request_body (lift-Codec (uint32-Codec id_http_request (omega arith))) (
        Codec-bind _ (lift-Codec (string-Codec (codes "POST") (omega arith))) (
          Codec-bind _ (lift-Codec path-Codec) (
            Codec-bind _ (lift-Codec (string-Codec (codes "HTTP/1.0") (omega arith))) (
              Codec-bind _ (lift-Codec (uint32-Codec (length (request_headers go q)) f.count)) (
                Codec-bind _ headers-Codec (
                  Codec-bind _ (lift-Codec (bytes-Codec q.body f.body))
                    (Codec-pure (http_of go q))))))))

  run_query-Codec :
      Codec
        (write_run_query_ex go q req_id min_cfg_ver)
        read_run_query
        (query_of go q req_id min_cfg_ver)
  run_query-Codec =
      Codec-bind run_query_body (lift-Codec (uint32-Codec id_client_run_query_ex (omega arith))) (
        Codec-bind _ (lift-Codec (string-Codec q.model f.model)) (
          Codec-bind _ (lift-Codec (bytes-Codec (encode_http_request go q) f.http)) (
            Codec-bind _ (lift-Codec (limit-Codec q.max_coefficient (pos 4000) f.coefficient)) (
              Codec-bind _ (lift-Codec (limit-Codec q.max_tokens (pos 10000) f.tokens)) (
                Codec-bind _ (lift-Codec seconds-Codec) (
                  Codec-bind _ (lift-Codec (int256-Codec req_id f.req)) (
                    Codec-bind _ (lift-Codec (int32-Codec min_cfg_ver f.version)) (
                      Codec-bind _ (debug-Codec q.enable_debug)
                        (Codec-pure (query_of go q req_id min_cfg_ver))))))))))

-- What encodeRunQueryEx writes for a query whose parts fit is read by the schema of
-- client.runQueryEx, to the last byte, as the model, the encoded HTTP request, the limits, 4000
-- and 10000 where they are zero, the timeout, five minutes where it is not positive, the request
-- id, the version and the debug flag. That HTTP request is read, to the last byte, as a POST of
-- the path, /v1/chat/completions where it is empty, with the body and headers: Content-Length is
-- that of the body whatever the caller gave, Content-Type is application/json unless the caller
-- gave one, and the others are those that the caller gave with a name and a value. It is taken
-- that Go walks through each entry of a map once.
pub read_run_query-encode_run_query_ex :
    (go : Go) (q : Query) (req_id : Bytes) (min_cfg_ver : ℤ)
    → QueryFits go q req_id min_cfg_ver
    → let sent = encode_run_query_ex go q req_id min_cfg_ver in
      let http = encode_http_request go q in
      (read_run_query (new_reader sent)
        ≡ ok (query_of go q req_id min_cfg_ver) (record { buf = sent; pos = length sent }))
      × ((hs : List (Bytes × Bytes)) × (read_http_request (new_reader http)
            ≡ ok (post (path_sent q.path) hs q.body) (record { buf = http; pos = length http }))
          × ((k : Bytes) → lookup k hs ≡ header_sent go q k))
unfolding encode_run_query_ex encode_http_request
read_run_query-encode_run_query_ex go q req_id min_cfg_ver f = (
  Codec-whole (run_query-Codec go q req_id min_cfg_ver f),
  (
    go.order (request_headers go q),
    Codec-whole (http_request-Codec go q req_id min_cfg_ver f),
    λ k. f.entries k ∙ headers_sent go q k f.once,
  ),
)

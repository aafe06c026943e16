-- ===== src/Tests/Requests.antt =====
-- A query as it is sent.
use gocoon.Common.{◌≡◌, refl, Bytes, List, arith, true, [], ◌∷◌, length, replicate}
use gocoon.Common.Int.{pos}
use gocoon.Common.Assoc.{put, delete, lookup, bytes_eq}
use gocoon.Common.Endian.{le_bytes}
use gocoon.Tl.Ids.{codes}
use gocoon.Tl.Reader.{ok, new_reader}
use gocoon.Tl.Writer.{new_writer, write_uint32, write_bytes, write_string, write_raw, write_zeros}
use gocoon.Tl.Vector.{write_items}
use gocoon.Cocoon.Request.{Go, Query, request_headers, encode_http_request, encode_run_query_ex}
use gocoon.Cocoon.Request.Headers.{path_sent, header_sent}
use gocoon.Cocoon.Request.Schema.{read_run_query, read_http_request}
use gocoon.Cocoon.Request.RoundTrip.{QueryFits, query_of, post, read_run_query-encode_run_query_ex}

abbrev go : Go
go = record {
  itoa = λ n. codes "2";
  order = λ m. m;
  reduced_seconds = λ t. record { bits = 0x4071d00000000000 };
}

abbrev hello : Query
hello = record {
  model = codes "m";
  body = codes "{}";
  path = [];
  headers = (codes "X-A", codes "b") ∷ (codes "X-B", []) ∷ [];
  max_coefficient = pos 0;
  max_tokens = pos 100;
  timeout = pos 0;
  enable_debug = true;
}

hello_headers :
    request_headers go hello
    ≡ (codes "Content-Length", codes "2")
      ∷ (codes "Content-Type", codes "application/json")
      ∷ (codes "X-A", codes "b")
      ∷ []
unfolding put delete lookup
hello_headers = refl

hello_fits : QueryFits go hello (replicate 32 1) (pos 7)
unfolding put delete lookup encode_http_request new_writer write_uint32 write_bytes write_string
    write_raw write_zeros write_items le_bytes
hello_fits = record {
  model = omega arith;
  body = omega arith;
  path = omega arith;
  once = (refl, (refl, tt));
  count = omega arith;
  walked = refl;
  entries = λ k. refl;
  headers =
      ((omega arith, omega arith), ((omega arith, omega arith), ((omega arith, omega arith), tt)));
  http = omega arith;
  coefficient = omega arith;
  tokens = omega arith;
  seconds = omega arith;
  req = refl;
  version = omega arith;
}

read_run_query-encode_run_query_ex_example :
    let sent = encode_run_query_ex go hello (replicate 32 1) (pos 7) in
    let http = encode_http_request go hello in
    (read_run_query (new_reader sent)
      ≡ ok (query_of go hello (replicate 32 1) (pos 7)) (record { buf = sent; pos = length sent }))
    × ((hs : List (Bytes × Bytes)) × (read_http_request (new_reader http)
          ≡ ok (post (path_sent []) hs (codes "{}")) (record { buf = http; pos = length http }))
        × ((k : Bytes) → lookup k hs ≡ header_sent go hello k))
read_run_query-encode_run_query_ex_example =
    read_run_query-encode_run_query_ex go hello (replicate 32 1) (pos 7) hello_fits

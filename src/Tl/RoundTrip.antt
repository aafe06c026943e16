-- ===== src/Tl/RoundTrip.antt =====
-- Round trips of the primitives, vectors and constructors, at any place of a buffer.
use gocoon.Common.{◌^◌, ◌<◌, ◌≡◌, Bytes, List, false, ◌++◌, length, All}
use gocoon.Tl.Reader.{Reader, ok, read_bytes}
use gocoon.Tl.Writer.{Writer, write_bytes}
use gocoon.Tl.Codec.{Codec-anywhere}
use gocoon.Tl.Codec.Blob.{bytes-Codec}
use gocoon.Tl.Vector.{read_vector_bytes, write_vector_bytes}
use gocoon.Tl.Vector.RoundTrip.{vector_bytes-Codec}
use gocoon.Tl.Types.{
  ClientParams, ProxyParams, encode_client_params, decode_client_params_body, encode_proxy_params,
  decode_proxy_params_body,
}
use gocoon.Tl.Types.RoundTrip.{
  ClientParamsFit, ProxyParamsFit, client_params-Codec, proxy_params-Codec,
}

-- The reader at the end of what was appended to `pre`, and the one at its start.
abbrev pub at_start : Bytes → Writer → Bytes → Reader
at_start pre w rest = record { buf = w.buf ++ rest; pos = length pre }

abbrev pub at_end : Writer → Bytes → Reader
at_end w rest = record { buf = w.buf ++ rest; pos = length w.buf }

-- A payload below 2^24 bytes, in either form of the length, is read back whole with its padding,
-- whatever stands before and behind it.
pub read_bytes-write_bytes :
    (b pre rest : Bytes)
    → length b < 2 ^ 24
    → let w = write_bytes b (record { buf = pre }) in
      read_bytes (at_start pre w rest) ≡ ok b (at_end w rest)
read_bytes-write_bytes b pre rest h = Codec-anywhere (bytes-Codec b h) pre rest

-- A vector of fewer than 2^32 byte strings, each below 2^24 bytes, is read back item by item,
-- whatever stands before and behind it.
pub read_vector_bytes-write_vector_bytes :
    (items : List Bytes) (pre rest : Bytes)
    → length items < 2 ^ 32
    → All (λ b. length b < 2 ^ 24) items
    → let w = write_vector_bytes items (record { buf = pre }) in
      read_vector_bytes (at_start pre w rest) ≡ ok items (at_end w rest)
read_vector_bytes-write_vector_bytes items pre rest n h =
    Codec-anywhere (vector_bytes-Codec items n h) pre rest

-- A bare client.params whose fields fit, and are zero where the flags leave them out, is decoded
-- to the same fields, whatever stands before and behind it.
pub decode_client_params-encode :
    (p : ClientParams) (pre rest : Bytes)
    → ClientParamsFit p
    → let w = encode_client_params false p (record { buf = pre }) in
      decode_client_params_body (at_start pre w rest) ≡ ok p (at_end w rest)
decode_client_params-encode p pre rest f = Codec-anywhere (client_params-Codec p f) pre rest

-- A bare proxy.params whose fields fit, and are zero where the flags leave them out, is decoded
-- to the same fields, whatever stands before and behind it.
pub decode_proxy_params-encode :
    (p : ProxyParams) (pre rest : Bytes)
    → ProxyParamsFit p
    → let w = encode_proxy_params false p (record { buf = pre }) in
      decode_proxy_params_body (at_start pre w rest) ≡ ok p (at_end w rest)
decode_proxy_params-encode p pre rest f = Codec-anywhere (proxy_params-Codec p f) pre rest

-- ===== src/Tests/Tl.antt =====
-- The wire format at concrete values.
use gocoon.Common.{
  ℕ, ◌+◌, ◌^◌, ◌≡◌, refl, sym, arith, Bytes, List, [], ◌∷◌, ◌++◌, true, false, take, length,
  replicate, length-replicate, if◌then◌else◌,
}
use gocoon.Common.Int.{ℤ, pos, negsuc}
use gocoon.Common.Endian.{le_bytes}
use gocoon.Tl.Reader.{Reader, ok, Fails, new_reader, read_bytes}
use gocoon.Tl.Writer.{new_writer, write_bytes, write_raw, write_zeros}
use gocoon.Tl.Types.{ProxyParams, encode_proxy_params, decode_proxy_params_body}
use gocoon.Tl.Types.RoundTrip.{ProxyParamsFit}
use gocoon.Tl.Tcp.{decode_tcp_packet}
use gocoon.Tl.Tcp.RoundTrip.{
  Message, encode, decoded, decode_tcp_packet-encode, decode_tcp_packet_truncated,
}
use gocoon.Tl.RoundTrip.{at_start, at_end, read_bytes-write_bytes, decode_proxy_params-encode}
use gocoon.Tl.Codec.Overlong.{read_bytes-write_bytes_overlong}

-- Three bytes behind their length need no padding.
write_bytes_abc :
    write_bytes (97 ∷ 98 ∷ 99 ∷ []) new_writer ≡ record { buf = 3 ∷ 97 ∷ 98 ∷ 99 ∷ [] }
unfolding write_bytes write_raw write_zeros new_writer
write_bytes_abc = refl

read_bytes-write_bytes_example :
    let w = write_bytes (7 ∷ 8 ∷ []) (record { buf = 1 ∷ [] }) in
    read_bytes (at_start (1 ∷ []) w (9 ∷ [])) ≡ ok (7 ∷ 8 ∷ []) (at_end w (9 ∷ []))
read_bytes-write_bytes_example = read_bytes-write_bytes (7 ∷ 8 ∷ []) (1 ∷ []) (9 ∷ []) (omega arith)

-- Without the bit of the version: the field is zero and is not written.
abbrev proxy : ProxyParams
proxy = record {
  flags = 1;
  public_key = replicate 32 5;
  owner_address = 69 ∷ [];
  sc_address = 81 ∷ [];
  is_test = true;
  proto_version = pos 0;
}

proxy_fits : ProxyParamsFit proxy
proxy_fits = record {
  flags = omega arith;
  key = refl;
  owner = omega arith;
  sc = omega arith;
  test = λ h. cc;
  range = omega arith;
  version = λ h. refl;
}

decode_proxy_params-encode_example :
    let w = encode_proxy_params false proxy (record { buf = [] }) in
    decode_proxy_params_body (at_start [] w []) ≡ ok proxy (at_end w [])
decode_proxy_params-encode_example = decode_proxy_params-encode proxy [] [] proxy_fits

abbrev a_query : Message
a_query = Message.query (negsuc 4) (1 ∷ 2 ∷ 3 ∷ [])

decode_tcp_packet-encode_example :
    decode_tcp_packet (encode a_query)
    ≡ ok (decoded a_query) (record { buf = encode a_query; pos = length (encode a_query) })
decode_tcp_packet-encode_example = decode_tcp_packet-encode a_query (omega arith, omega arith)

-- A ping without its last byte.
ping_bytes :
    encode (Message.ping (pos 1)) ≡ 0x7c ∷ 0x62 ∷ 0xe9 ∷ 0xbb ∷ 1 ∷ 0 ∷ 0 ∷ 0 ∷ 0 ∷ 0 ∷ 0 ∷ 0 ∷ []
unfolding encode gocoon.Tl.Tcp.encode_tcp_ping new_writer gocoon.Tl.Writer.write_uint32
    gocoon.Tl.Writer.write_int64 gocoon.Tl.Ids.id_tcp_ping gocoon.Tl.Ids.constructor_id le_bytes
    gocoon.Tl.Writer.write_uint64 gocoon.Common.Int.to_uint64
ping_bytes = refl

decode_tcp_packet_truncated_example :
    Fails (decode_tcp_packet (0x7c ∷ 0x62 ∷ 0xe9 ∷ 0xbb ∷ 1 ∷ 0 ∷ 0 ∷ 0 ∷ 0 ∷ 0 ∷ 0 ∷ []))
decode_tcp_packet_truncated_example =
    decode_tcp_packet_truncated (Message.ping (pos 1))
      (0x7c ∷ 0x62 ∷ 0xe9 ∷ 0xbb ∷ 1 ∷ 0 ∷ 0 ∷ 0 ∷ 0 ∷ 0 ∷ 0 ∷ []) 0 [] (omega arith)
      (sym ping_bytes)

-- One byte more than the length can say.
unfoldable overlong : Bytes
overlong = replicate (2 ^ 24 + 1) 7

overlong-length : length overlong ≡ 2 ^ 24 + 1
unfolding overlong
overlong-length = length-replicate {0} {A = ℕ} (2 ^ 24 + 1) 7

read_bytes-write_bytes_overlong_example :
    (r : Reader) × (read_bytes (new_reader (write_bytes overlong new_writer).buf)
      ≡ ok (take 1 overlong) r)
read_bytes-write_bytes_overlong_example =
    read_bytes-write_bytes_overlong overlong 1 overlong-length (omega arith)

-- ===== src/Tl/Tcp/RoundTrip.antt =====
-- Every packet that is written is decoded to what it was made of.
use gocoon.Common.{ℕ, ◌^◌, ◌<◌, ◌≡◌, refl, ◌∙◌, Bytes, ◌∷◌, ◌++◌, length, subst, sym, arith}
use gocoon.Common.Int.{ℤ, pos, IsInt32, IsInt64}
use gocoon.Tl.Ids.{
  id_tcp_ping, id_tcp_pong, id_tcp_packet, id_tcp_query_answer, id_tcp_query_error, id_tcp_query,
  id_tcp_connected, id_tcp_connect, tcp_values,
}
use gocoon.Tl.Reader.{TlError, Parser, ok, ◌>>=◌, pure, read_bytes}
use gocoon.Tl.Writer.{
  Writer, new_writer, write_uint32, write_int64, write_int32, write_bytes, write_string,
}
use gocoon.Tl.Codec.{Codec, Codec-bind, Codec-map, Codec-whole, Codec-truncated}
use gocoon.Tl.Reader.{Fails}
use gocoon.Tl.Codec.Fixed.{uint32-Codec, int32-Codec, int64-Codec}
use gocoon.Tl.Codec.Blob.{bytes-Codec, string-Codec}
use gocoon.Tl.Tcp.{
  TcpPacketKind, DecodedTcpPacket, id_packet, data_packet, error_packet, encode_tcp_connect,
  encode_tcp_connected, encode_tcp_query, encode_tcp_packet, encode_tcp_ping, encode_tcp_pong,
  encode_query_answer, encode_query_error, decode_tcp_body, tcp_packet_parser, decode_tcp_packet,
  read_id, read_data, read_id_data, read_error, with_id, with_id_data,
}

-- The packets that either side writes.
pub data Message : Type 0 where
  ping pong connect connected : ℤ → Message
  packet : Bytes → Message
  query query_answer : ℤ → Bytes → Message
  query_error : ℤ → ℤ → Bytes → Message

unfoldable pub encode : Message → Bytes
encode (Message.ping i) = encode_tcp_ping i
encode (Message.pong i) = encode_tcp_pong i
encode (Message.connect i) = encode_tcp_connect i
encode (Message.connected i) = encode_tcp_connected i
encode (Message.packet d) = encode_tcp_packet d
encode (Message.query i d) = encode_tcp_query i d
encode (Message.query_answer i d) = encode_query_answer i d
encode (Message.query_error i c m) = encode_query_error i c m

abbrev pub decoded : Message → DecodedTcpPacket
decoded (Message.ping i) = id_packet TcpPacketKind.ping i
decoded (Message.pong i) = id_packet TcpPacketKind.pong i
decoded (Message.connect i) = id_packet TcpPacketKind.connect i
decoded (Message.connected i) = id_packet TcpPacketKind.connected i
decoded (Message.packet d) = data_packet TcpPacketKind.packet (pos 0) d
decoded (Message.query i d) = data_packet TcpPacketKind.query i d
decoded (Message.query_answer i d) = data_packet TcpPacketKind.query_answer i d
decoded (Message.query_error i c m) = error_packet i c m

-- Ids are int64, codes int32, and a payload is below 2^24 bytes.
abbrev pub Fits : Message → Type 0
Fits (Message.ping i) = IsInt64 i
Fits (Message.pong i) = IsInt64 i
Fits (Message.connect i) = IsInt64 i
Fits (Message.connected i) = IsInt64 i
Fits (Message.packet d) = length d < 2 ^ 24
Fits (Message.query i d) = IsInt64 i × (length d < 2 ^ 24)
Fits (Message.query_answer i d) = IsInt64 i × (length d < 2 ^ 24)
Fits (Message.query_error i c m) = IsInt64 i × IsInt32 c × (length m < 2 ^ 24)

-- The case that the switch takes at each id.
at_ping : decode_tcp_body id_tcp_ping ≡ read_id TcpPacketKind.ping
unfolding decode_tcp_body
at_ping = simp tcp_values

at_pong : decode_tcp_body id_tcp_pong ≡ read_id TcpPacketKind.pong
unfolding decode_tcp_body
at_pong = simp tcp_values

at_connect : decode_tcp_body id_tcp_connect ≡ read_id TcpPacketKind.connect
unfolding decode_tcp_body
at_connect = simp tcp_values

at_connected : decode_tcp_body id_tcp_connected ≡ read_id TcpPacketKind.connected
unfolding decode_tcp_body
at_connected = simp tcp_values

at_packet : decode_tcp_body id_tcp_packet ≡ read_data
unfolding decode_tcp_body
at_packet = simp tcp_values

at_query : decode_tcp_body id_tcp_query ≡ read_id_data TcpPacketKind.query
unfolding decode_tcp_body
at_query = simp tcp_values

at_query_answer : decode_tcp_body id_tcp_query_answer ≡ read_id_data TcpPacketKind.query_answer
unfolding decode_tcp_body
at_query_answer = simp tcp_values

at_query_error : decode_tcp_body id_tcp_query_error ≡ read_error
unfolding decode_tcp_body
at_query_error = simp tcp_values

-- A constructor id in front of the body of its case.
tagged :
    (id : ℕ) {w : Writer → Writer} {body : Parser TlError DecodedTcpPacket} {a : DecodedTcpPacket}
    → id < 2 ^ 32
    → decode_tcp_body id ≡ body
    → Codec w body a
    → Codec (λ x. w (write_uint32 id x)) tcp_packet_parser a
tagged id {w} {a = a} h e c =
    Codec-bind decode_tcp_body (uint32-Codec id h) (subst (λ p. Codec w p a) (sym e) c)

id_body :
    (k : TcpPacketKind) (i : ℤ) → IsInt64 i → Codec (write_int64 i) (read_id k) (id_packet k i)
id_body k i h = Codec-map (id_packet k) refl (int64-Codec i h)

id_data_body :
    (k : TcpPacketKind) (i : ℤ) (d : Bytes)
    → IsInt64 i
    → length d < 2 ^ 24
    → Codec (λ w. write_bytes d (write_int64 i w)) (read_id_data k) (data_packet k i d)
id_data_body k i d hi hd =
    Codec-bind (λ j. read_bytes >>= λ t. pure (data_packet k j t)) (int64-Codec i hi)
      (Codec-map (data_packet k i) refl (bytes-Codec d hd))

error_body :
    (i c : ℤ) (m : Bytes)
    → IsInt64 i
    → IsInt32 c
    → length m < 2 ^ 24
    → Codec (λ w. write_string m (write_int32 c (write_int64 i w))) read_error (error_packet i c m)
error_body i c m hi hc hm =
    Codec-bind _ (int64-Codec i hi)
      (Codec-bind _ (int32-Codec c hc) (Codec-map (error_packet i c) refl (string-Codec m hm)))

-- The method calls that write a message.
abbrev write_message : Message → Writer → Writer
write_message (Message.ping i) = with_id id_tcp_ping i
write_message (Message.pong i) = with_id id_tcp_pong i
write_message (Message.connect i) = with_id id_tcp_connect i
write_message (Message.connected i) = with_id id_tcp_connected i
write_message (Message.packet d) = λ w. write_bytes d (write_uint32 id_tcp_packet w)
write_message (Message.query i d) = with_id_data id_tcp_query i d
write_message (Message.query_answer i d) = with_id_data id_tcp_query_answer i d
write_message (Message.query_error i c m) =
    λ w. write_string m (write_int32 c (write_int64 i (write_uint32 id_tcp_query_error w)))

encode-write_message : (m : Message) → encode m ≡ (write_message m new_writer).buf
unfolding encode encode_tcp_connect encode_tcp_connected encode_tcp_query encode_tcp_packet
    encode_tcp_ping encode_tcp_pong encode_query_answer encode_query_error
encode-write_message (Message.ping i) = refl
encode-write_message (Message.pong i) = refl
encode-write_message (Message.connect i) = refl
encode-write_message (Message.connected i) = refl
encode-write_message (Message.packet d) = refl
encode-write_message (Message.query i d) = refl
encode-write_message (Message.query_answer i d) = refl
encode-write_message (Message.query_error i c m) = refl

message-Codec : (m : Message) → Fits m → Codec (write_message m) tcp_packet_parser (decoded m)
message-Codec (Message.ping i) h = tagged _ (omega (tcp_values, arith)) at_ping (id_body _ i h)
message-Codec (Message.pong i) h = tagged _ (omega (tcp_values, arith)) at_pong (id_body _ i h)
message-Codec (Message.connect i) h =
    tagged _ (omega (tcp_values, arith)) at_connect (id_body _ i h)
message-Codec (Message.connected i) h =
    tagged _ (omega (tcp_values, arith)) at_connected (id_body _ i h)
message-Codec (Message.packet d) h =
    tagged _ (omega (tcp_values, arith)) at_packet
      (Codec-map (data_packet TcpPacketKind.packet (pos 0)) refl (bytes-Codec d h))
message-Codec (Message.query i d) h =
    tagged _ (omega (tcp_values, arith)) at_query (id_data_body _ i d h.0 h.1)
message-Codec (Message.query_answer i d) h =
    tagged _ (omega (tcp_values, arith)) at_query_answer (id_data_body _ i d h.0 h.1)
message-Codec (Message.query_error i c m) h =
    tagged _ (omega (tcp_values, arith)) at_query_error (error_body i c m h.0 h.1 h.2)

-- Decoding what an encoder of the eight packets wrote gives the kind and the fields, and uses up
-- every byte, where ids are int64, codes int32 and payloads below 2^24 bytes.
pub decode_tcp_packet-encode :
    (m : Message)
    → Fits m
    → decode_tcp_packet (encode m)
      ≡ ok (decoded m) (record { buf = encode m; pos = length (encode m) })
unfolding decode_tcp_packet
decode_tcp_packet-encode m h = rw (encode-write_message m) (Codec-whole (message-Codec m h))

-- A packet whose fields fit and that is cut short anywhere is refused.
pub decode_tcp_packet_truncated :
    (m : Message) (front : Bytes) (x : ℕ) (back : Bytes)
    → Fits m
    → front ++ (x ∷ back) ≡ encode m
    → Fails (decode_tcp_packet front)
unfolding decode_tcp_packet
decode_tcp_packet_truncated m front x back h e =
    Codec-truncated (message-Codec m h) front x back (e ∙ encode-write_message m)

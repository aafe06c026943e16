-- ===== src/Tl/Tcp.antt =====
-- pkg/tl/tcp.go: the tcp.* packets that wrap every payload.
pub mod RoundTrip
use gocoon.Common.{ℕ, Bool, true, false, Bytes, [], ◌==◌, if◌then◌else◌}
use gocoon.Common.Int.{ℤ, pos}
use gocoon.Tl.Ids.{
  id_tcp_ping, id_tcp_pong, id_tcp_packet, id_tcp_query_answer, id_tcp_query_error, id_tcp_query,
  id_tcp_connected, id_tcp_connect,
}
use gocoon.Tl.Reader.{
  TlError, unknown_constructor, Parser, Outcome, new_reader, ◌>>=◌, pure, fail, read_uint32,
  read_int64, read_int32, read_bytes, read_string,
}
use gocoon.Tl.Writer.{
  Writer, new_writer, bytes, ◌▹◌, write_uint32, write_int64, write_int32, write_bytes, write_string,
}

pub data TcpPacketKind : Type 0 where
  unknown ping pong connect connected packet query query_answer query_error : TcpPacketKind

pub record DecodedTcpPacket : Type 0 where
  pub kind : TcpPacketKind
  pub id : ℤ
  pub payload : Bytes
  pub err_code : ℤ
  pub err_msg : Bytes

-- `&DecodedTCPPacket{}` with the fields that the case sets.
abbrev pub zero_packet : TcpPacketKind → DecodedTcpPacket
zero_packet k = record { kind = k; id = pos 0; payload = []; err_code = pos 0; err_msg = [] }

abbrev pub id_packet : TcpPacketKind → ℤ → DecodedTcpPacket
id_packet k i = record (zero_packet k) { id = i }

abbrev pub data_packet : TcpPacketKind → ℤ → Bytes → DecodedTcpPacket
data_packet k i d = record (zero_packet k) { id = i; payload = d }

abbrev pub error_packet : ℤ → ℤ → Bytes → DecodedTcpPacket
error_packet i c m = record (zero_packet query_error) { id = i; err_code = c; err_msg = m }

-- The packets that are an id and nothing else.
abbrev with_id : ℕ → ℤ → Writer → Writer
with_id constructor id w = w ▹ write_uint32 constructor ▹ write_int64 id

abbrev with_id_data : ℕ → ℤ → Bytes → Writer → Writer
with_id_data constructor id payload w =
    w ▹ write_uint32 constructor ▹ write_int64 id ▹ write_bytes payload

unfoldable pub encode_tcp_connect : ℤ → Bytes
unfolding new_writer
encode_tcp_connect id = bytes (new_writer ▹ with_id id_tcp_connect id)

unfoldable pub encode_tcp_connected : ℤ → Bytes
unfolding new_writer
encode_tcp_connected id = bytes (new_writer ▹ with_id id_tcp_connected id)

unfoldable pub encode_tcp_query : ℤ → Bytes → Bytes
unfolding new_writer
encode_tcp_query query_id payload = bytes (new_writer ▹ with_id_data id_tcp_query query_id payload)

unfoldable pub encode_tcp_packet : Bytes → Bytes
unfolding new_writer
encode_tcp_packet payload = bytes (new_writer ▹ write_uint32 id_tcp_packet ▹ write_bytes payload)

unfoldable pub encode_tcp_ping : ℤ → Bytes
unfolding new_writer
encode_tcp_ping id = bytes (new_writer ▹ with_id id_tcp_ping id)

unfoldable pub encode_tcp_pong : ℤ → Bytes
unfolding new_writer
encode_tcp_pong id = bytes (new_writer ▹ with_id id_tcp_pong id)

-- What the proxy side writes for an answer and for an error (handleQuery of the fake proxy).
unfoldable pub encode_query_answer : ℤ → Bytes → Bytes
unfolding new_writer
encode_query_answer query_id answer =
    bytes (new_writer ▹ with_id_data id_tcp_query_answer query_id answer)

unfoldable pub encode_query_error : ℤ → ℤ → Bytes → Bytes
unfolding new_writer
encode_query_error query_id code message = bytes (
    new_writer
    ▹ write_uint32 id_tcp_query_error
    ▹ write_int64 query_id
    ▹ write_int32 code
    ▹ write_string message)

-- The bodies of the cases.
abbrev read_id : TcpPacketKind → Parser TlError DecodedTcpPacket
read_id k = do i ← read_int64; pure (id_packet k i)

abbrev read_data : Parser TlError DecodedTcpPacket
read_data = do d ← read_bytes; pure (data_packet packet (pos 0) d)

abbrev read_id_data : TcpPacketKind → Parser TlError DecodedTcpPacket
read_id_data k = do i ← read_int64; d ← read_bytes; pure (data_packet k i d)

abbrev read_error : Parser TlError DecodedTcpPacket
read_error = do i ← read_int64; c ← read_int32; m ← read_string; pure (error_packet i c m)

-- `switch id`
unfoldable pub decode_tcp_body : ℕ → Parser TlError DecodedTcpPacket
decode_tcp_body id =
    if id == id_tcp_ping
    then read_id ping
    else if id == id_tcp_pong
    then read_id pong
    else if id == id_tcp_connect
    then read_id connect
    else if id == id_tcp_connected
    then read_id connected
    else if id == id_tcp_packet
    then read_data
    else if id == id_tcp_query
    then read_id_data query
    else if id == id_tcp_query_answer
    then read_id_data query_answer
    else if id == id_tcp_query_error
    then read_error
    else fail unknown_constructor

abbrev pub tcp_packet_parser : Parser TlError DecodedTcpPacket
tcp_packet_parser = do id ← read_uint32; decode_tcp_body id

-- Bytes behind the packet are left unread, and are no error.
unfoldable pub decode_tcp_packet : Bytes → Outcome TlError DecodedTcpPacket
decode_tcp_packet payload = tcp_packet_parser (new_reader payload)

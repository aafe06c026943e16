-- ===== src/Tl/Ids.antt =====
-- Constructor ids: the constants of pkg/tl/types.go, and the checksums of pkg/tl/tcp.go.
use gocoon.Common.{ℕ, zero, suc, ◌/◌, ◌%◌, ◌≡◌, refl, [], ◌∷◌, Bytes, ◌==◌, if◌then◌else◌}
use Prim.Native.Nat.{bit_xor}
use Prim.Native.Char.{code}
use Prim.Native.String.{String}
use mathlib.Core.List.{foldl}

-- The bytes of an ASCII text.
abbrev pub codes : String → Bytes
codes String.[] = []
codes (String.◌∷◌ c s) = code c ∷ codes s

-- hash/crc32.ChecksumIEEE: the reflected polynomial, one bit at a time.
abbrev crc_bits : ℕ → ℕ → ℕ
crc_bits zero c = c
crc_bits (suc n) c = crc_bits n (if c % 2 == 1 then bit_xor (c / 2) 0xedb8_8320 else c / 2)

abbrev crc_byte : ℕ → ℕ → ℕ
crc_byte c b = crc_bits 8 (bit_xor c b)

unfoldable pub constructor_id : String → ℕ
constructor_id s = bit_xor (foldl crc_byte 0xffff_ffff (codes s)) 0xffff_ffff

-- The ids that tcp.go computes at start, one checksum each.
unfoldable pub id_tcp_ping : ℕ
id_tcp_ping = constructor_id "tcp.ping id:long = tcp.Packet"

unfoldable pub id_tcp_pong : ℕ
id_tcp_pong = constructor_id "tcp.pong id:long = tcp.Packet"

unfoldable pub id_tcp_packet : ℕ
id_tcp_packet = constructor_id "tcp.packet data:bytes = tcp.Packet"

unfoldable pub id_tcp_query_answer : ℕ
id_tcp_query_answer = constructor_id "tcp.queryAnswer id:long data:bytes = tcp.Packet"

unfoldable pub id_tcp_query_error : ℕ
id_tcp_query_error = constructor_id "tcp.queryError id:long code:int message:string = tcp.Packet"

unfoldable pub id_tcp_query : ℕ
id_tcp_query = constructor_id "tcp.query id:long data:bytes = tcp.Packet"

unfoldable pub id_tcp_connected : ℕ
id_tcp_connected = constructor_id "tcp.connected id:long = tcp.Packet"

unfoldable pub id_tcp_connect : ℕ
id_tcp_connect = constructor_id "tcp.connect id:long = tcp.Packet"

-- Their values.
pub tcp_ping_value : id_tcp_ping ≡ 0xbbe9_627c
unfolding id_tcp_ping constructor_id
tcp_ping_value = refl

pub tcp_pong_value : id_tcp_pong ≡ 0x0bd4_302c
unfolding id_tcp_pong constructor_id
tcp_pong_value = refl

pub tcp_packet_value : id_tcp_packet ≡ 0x9c17_baf8
unfolding id_tcp_packet constructor_id
tcp_packet_value = refl

pub tcp_query_answer_value : id_tcp_query_answer ≡ 0xc048_c311
unfolding id_tcp_query_answer constructor_id
tcp_query_answer_value = refl

pub tcp_query_error_value : id_tcp_query_error ≡ 0x4cd2_f602
unfolding id_tcp_query_error constructor_id
tcp_query_error_value = refl

pub tcp_query_value : id_tcp_query ≡ 0x3af5_1908
unfolding id_tcp_query constructor_id
tcp_query_value = refl

pub tcp_connected_value : id_tcp_connected ≡ 0x636d_41d6
unfolding id_tcp_connected constructor_id
tcp_connected_value = refl

pub tcp_connect_value : id_tcp_connect ≡ 0xa57c_4261
unfolding id_tcp_connect constructor_id
tcp_connect_value = refl

pub ruleset tcp_values = (
  tcp_ping_value, tcp_pong_value, tcp_packet_value, tcp_query_answer_value, tcp_query_error_value,
  tcp_query_value, tcp_connected_value, tcp_connect_value,
)

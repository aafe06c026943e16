-- ===== src/Tl/Frame.antt =====
-- pkg/tl/frame.go: payloads behind a length and a sequence number, over a byte stream.
pub mod Link
pub mod Checks
pub mod Progress
pub mod Order
use gocoon.Common.{
  ℕ, ◌+◌, ◌-◌, ◌*◌, ◌%◌, ◌^◌, Bool, true, false, Bytes, List, [], ◌∷◌, ◌++◌, ltb, leb, ◌==◌, not,
  if◌then◌else◌, length, take, drop,
}
use gocoon.Common.Int.{ℤ, to_int32}
use gocoon.Common.Endian.{le_bytes, of_le}
use gocoon.Common.State.{Result, Method, ok, err, next, ◌>>=◌, ◌>>◌, pure, fail}

abbrev pub max_frame_size : ℕ
max_frame_size = 16 * 1024 * 1024

abbrev pub min_frame_size : ℕ
min_frame_size = 4

pub data FrameError : Type 0 where
  too_small exceeds_max : ℕ → FrameError
  write_header write_payload read_header read_payload : FrameError
  seqno_mismatch : ℕ → ℕ → FrameError

-- The stream is what the peer will have sent before it ends, and what was written to it; the n-th
-- Write of the connection fails where `write_faults` says so, and all later ones succeed.
-- A counter (an atomic.Int32) is its bit pattern, so that int32 addition is addition modulo 2^32.
pub record FramedConn : Type 0 where
  pub incoming : Bytes
  pub outgoing : Bytes
  pub write_faults : List Bool
  pub out_seqno : ℕ
  pub in_seqno : ℕ
  pub strict : Bool

abbrev pub int32_add : ℕ → ℕ → ℕ
int32_add a b = (a + b) % 2 ^ 32

unfoldable pub new_framed_conn : Bytes → List Bool → FramedConn
new_framed_conn incoming faults = record {
  incoming = incoming;
  outgoing = [];
  write_faults = faults;
  out_seqno = 0;
  in_seqno = 0;
  strict = true;
}

-- `rw.Write(b)` of the stream; a Write that fails is taken to send nothing.
write_at : FrameError → Bytes → FramedConn → List Bool → Result FramedConn FrameError (Unit {0})
write_at e b c [] = ok tt (record c { outgoing = c.outgoing ++ b })
write_at e b c (true ∷ fs) = err e (record c { write_faults = fs })
write_at e b c (false ∷ fs) = ok tt (record c { outgoing = c.outgoing ++ b; write_faults = fs })

stream_write : FrameError → Bytes → Method FramedConn FrameError (Unit {0})
unfolding write_at
stream_write e b c = write_at e b c c.write_faults

-- `io.ReadFull(rw, buf[:n])` of the stream: what is left is lost where it is too short.
unfoldable pub stream_read : FrameError → ℕ → Method FramedConn FrameError Bytes
stream_read e n c =
    if ltb (length c.incoming) n
    then err e (record c { incoming = [] })
    else ok (take n c.incoming) (record c { incoming = drop n c.incoming })

-- `c.outSeqno.Add(1) - 1`
take_out_seqno : Method FramedConn FrameError ℕ
take_out_seqno c = ok c.out_seqno (record c { out_seqno = int32_add c.out_seqno 1 })

unfoldable pub write_frame : Bytes → Method FramedConn FrameError (Unit {0})
unfolding stream_write take_out_seqno
write_frame payload =
    let n = length payload in
    if ltb n min_frame_size
    then fail (too_small n)
    else if ltb max_frame_size n
    then fail (exceeds_max n)
    else (do
      seqno ← take_out_seqno
      stream_write write_header (le_bytes 4 n ++ le_bytes 4 seqno)
      stream_write write_payload payload)

-- The seqno check: a strict connection counts also where it refuses the frame.
unfoldable pub check_seqno : ℕ → Method FramedConn FrameError (Unit {0})
check_seqno seqno c =
    if c.strict
    then if not (seqno == c.in_seqno)
      then err (seqno_mismatch seqno c.in_seqno) (record c { in_seqno = int32_add c.in_seqno 1 })
      else ok tt (record c { in_seqno = int32_add c.in_seqno 1 })
    else ok tt (record c { in_seqno = int32_add seqno 1 })

-- What is done behind the header.
unfoldable pub read_frame_body : ℕ → ℕ → Method FramedConn FrameError Bytes
read_frame_body plen seqno =
    if ltb plen min_frame_size
    then fail (too_small plen)
    else if ltb max_frame_size plen
    then fail (exceeds_max plen)
    else (do check_seqno seqno; stream_read read_payload plen)

unfoldable pub read_frame : Method FramedConn FrameError Bytes
read_frame = do
  hdr ← stream_read read_header 8
  let plen = of_le (take 4 hdr)
  let seqno = of_le (drop 4 hdr)
  read_frame_body plen seqno

-- OutSeqno and InSeqno.
pub out_seqno : FramedConn → ℤ
out_seqno c = to_int32 c.out_seqno

pub in_seqno : FramedConn → ℤ
in_seqno c = to_int32 c.in_seqno

unfoldable pub read_simple_frame : Method FramedConn FrameError Bytes
read_simple_frame = do
  hdr ← stream_read read_header 4
  let plen = of_le hdr
  if ltb max_frame_size plen then fail (exceeds_max plen) else stream_read read_payload plen

unfoldable pub write_simple_frame : Bytes → Method FramedConn FrameError (Unit {0})
unfolding stream_write
write_simple_frame payload =
    if ltb max_frame_size (length payload) then fail (exceeds_max (length payload)) else (do
      stream_write write_header (le_bytes 4 (length payload))
      stream_write write_payload payload)

-- ===== src/Cocoon/Transport.antt =====
-- pkg/cocoon/transport.go: the frames of a connection, the correlator behind it, and the session that
-- gets its packets.
pub mod Moves
pub mod Invariant
pub mod Settles
pub mod Queries
use gocoon.Common.{
  ℕ, zero, suc, Bool, true, false, not, Bytes, List, [], ◌∷◌, Option, none, some, if◌then◌else◌,
  length,
}
use gocoon.Common.Int.{ℤ}
use gocoon.Common.State.{Result, Method, ok, err, ◌>>=◌, ◌>>◌}
use gocoon.Tl.Reader.{TlError, Outcome}
use gocoon.Tl.Frame.{FramedConn, FrameError, new_framed_conn}
use gocoon.Tl.Frame
use gocoon.Tl.Tcp.{
  TcpPacketKind, DecodedTcpPacket, encode_tcp_connect, encode_tcp_query, encode_tcp_packet,
  encode_tcp_ping, encode_tcp_pong, decode_tcp_packet,
}
use gocoon.Cocoon.Errors.{Error, ProxyError, proxy, tl, frame, eof, closed_by_caller, unknown_id}
use gocoon.Cocoon.Correlator.{Correlator, new_correlator, register, deliver, fail_all, gc_expired}
use gocoon.Cocoon.Correlator
use gocoon.Cocoon.Streams.{Session, dispatch_packet}

-- `closed` is that the channel of Closed is closed, which is also that the sync.Once has run.
-- `onPacket` is the session's dispatchPacket, as Session.connect sets it.
pub record Transport : Type 0 where
  pub frames : FramedConn
  pub corr : Correlator
  pub session : Session
  pub inited : Bool
  pub closed : Bool
  pub close_err : Option Error

unfoldable pub new_transport : FramedConn → Session → Transport
new_transport conn session = record {
  frames = conn;
  corr = new_correlator;
  session = session;
  inited = false;
  closed = false;
  close_err = none;
}

-- `conn.Close()`: nothing more is read, and every Write fails.
abbrev pub close_conn : FramedConn → FramedConn
close_conn f = record f { incoming = [] }

abbrev pub writable : Transport → FramedConn
writable t = if t.closed then record t.frames { write_faults = true ∷ [] } else t.frames

-- A call of the FramedConn.
abbrev pub on_frames {ℓ} : {A : Type ℓ} → Result FramedConn FrameError A → Method Transport Error A
on_frames (ok a f) t = ok a (record t { frames = f })
on_frames (err e f) t = err (frame e) (record t { frames = f })

unfoldable pub write_frame : Bytes → Method Transport Error (Unit {0})
write_frame payload t = on_frames (Frame.write_frame payload (writable t)) t

unfoldable pub close_with_err : Error → Transport → Transport
close_with_err e t = if t.closed then t else record t {
  close_err = some e;
  frames = close_conn t.frames;
  corr = fail_all e t.corr;
  closed = true;
}

-- Close.
unfoldable pub close : Transport → Transport
close t = close_with_err closed_by_caller t

-- What is left of a call whose result is not looked at.
abbrev pub state_of {ℓ} : {A : Type ℓ} → Result Transport Error A → Transport
state_of (ok a t) = t
state_of (err e t) = t

unfoldable pub query_error_of : DecodedTcpPacket → Error
query_error_of pkt =
    proxy
      (record { code = pkt.err_code; message = pkt.err_msg; phase = "query"; request_id = none })

-- The switch of dispatch. Unknown kinds do not come out of the decoder.
unfoldable pub dispatch_kind : TcpPacketKind → DecodedTcpPacket → Method Transport Error (Unit {0})
dispatch_kind TcpPacketKind.connected pkt t = ok tt (record t { inited = true })
dispatch_kind TcpPacketKind.connect pkt t = ok tt t
dispatch_kind TcpPacketKind.ping pkt t = ok tt (state_of (write_frame (encode_tcp_pong pkt.id) t))
dispatch_kind TcpPacketKind.pong pkt t = ok tt t
dispatch_kind TcpPacketKind.query_answer pkt t =
    ok tt (record t { corr = (deliver pkt.id pkt.payload t.corr).0 })
dispatch_kind TcpPacketKind.query_error pkt t =
    ok tt (record t { corr = (Correlator.fail pkt.id (query_error_of pkt) t.corr).0 })
dispatch_kind TcpPacketKind.packet pkt t =
    ok tt (record t { session = dispatch_packet pkt.payload t.session })
dispatch_kind TcpPacketKind.query pkt t = ok tt t
dispatch_kind TcpPacketKind.unknown pkt t = err (unknown_id 0) t

abbrev pub dispatched : Outcome TlError DecodedTcpPacket → Method Transport Error (Unit {0})
dispatched (err e r) t = err (tl e) t
dispatched (ok pkt r) t = dispatch_kind pkt.kind pkt t

unfoldable pub dispatch : Bytes → Method Transport Error (Unit {0})
dispatch payload t = dispatched (decode_tcp_packet payload) t

-- What Run does with a frame, or without one; the deferred close finds the transport closed.
abbrev pub round_read : Result FramedConn FrameError Bytes → Transport → Transport × Bool
round_read (err e f) t =
    (close_with_err eof (close_with_err (frame e) (record t { frames = f })), false)
round_read (ok payload f) t = (state_of (dispatch payload (record t { frames = f })), true)

-- One round of the loop of Run, and whether there is a next one; `ctx` is the error of a context that
-- is done.
unfoldable pub run_round : Option Error → Transport → Transport × Bool
run_round (some e) t = (close_with_err eof (close_with_err e t), false)
run_round none t =
    if t.closed then (close_with_err eof t, false) else round_read (Frame.read_frame t.frames) t

abbrev pub continue : (Transport → Transport) → Transport × Bool → Transport
continue k (t, true) = k t
continue k (t, false) = t

-- Run, with the number of rounds that it may take.
unfoldable pub run : ℕ → Transport → Transport
run zero t = t
run (suc n) t = continue (run n) (run_round none t)

-- Behind the frame of a query.
abbrev pub query_sent : ℤ → ℕ → Result Transport Error (Unit {0}) → Result Transport Error ℕ
query_sent id slot (ok u t) = ok slot t
query_sent id slot (err e t) = err e (record t { corr = (Correlator.fail id e t.corr).0 })

-- Behind the registration of a query.
abbrev pub query_registered : ℤ → Bytes → Result Correlator Error ℕ → Method Transport Error ℕ
query_registered id body (err e c) t = err e (record t { corr = c })
query_registered id body (ok slot c) t =
    query_sent id slot (write_frame (encode_tcp_query id body) (record t { corr = c }))

-- The id is the random one of newQueryID; what is returned is the slot of the answer's channels.
unfoldable pub send_query : ℤ → Bytes → ℕ → ℕ → Method Transport Error ℕ
send_query id body timeout now t = query_registered id body (register id timeout now t.corr) t

unfoldable pub send_packet : Bytes → Method Transport Error (Unit {0})
send_packet body = write_frame (encode_tcp_packet body)

unfoldable pub send_connect : ℤ → Method Transport Error (Unit {0})
send_connect id = write_frame (encode_tcp_connect id)

-- A tick of StartKeepalive.
unfoldable pub keepalive : ℤ → Transport → Transport
keepalive id t = if t.inited then state_of (write_frame (encode_tcp_ping id) t) else t

-- A tick of the correlator's runGC.
unfoldable pub collect : ℕ → Transport → Transport
collect now t = record t { corr = (gc_expired now t.corr).0 }

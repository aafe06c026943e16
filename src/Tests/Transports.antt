-- ===== src/Tests/Transports.antt =====
-- A transport with a query and its answer on the way.
use gocoon.Common.{
  suc, ◌+◌, ◌≡◌, ◌≢◌, refl, sym, append-nil, arith, true, [], ◌∷◌, none, some, length,
}
use gocoon.Common.Int.{pos}
use gocoon.Common.Assoc.{lookup, put, int_eq}
use gocoon.Common.Endian.{le_bytes}
use gocoon.Tl.Frame.{new_framed_conn}
use gocoon.Tl.Frame
use gocoon.Tl.Writer.{write_bytes, write_zeros, write_raw, write_int64, write_uint64, write_uint32}
use gocoon.Tl.Tcp.{encode_tcp_query, encode_query_answer}
use gocoon.Tl.Frame.Link.{frame_bytes, FrameFits}
use gocoon.Tl.Tcp.RoundTrip.{Message, encode}
use gocoon.Cocoon.Correlator.{empty, new_correlator, register}
use gocoon.Cocoon.Streams.Invariant.{new_session}
use gocoon.Cocoon.Transport.{
  Transport, write_frame, new_transport, state_of, send_query, run_round, run,
}
use gocoon.Cocoon.Transport.Invariant.{
  Reach, here, step, query_step, IsWellFormed, new_transport-Reach-IsWellFormed,
}
use gocoon.Cocoon.Transport.Settles.{run-settles}
use gocoon.Cocoon.Transport.Queries.{Leaves, handled, received, send_query-Leaves, run_round-encode}

abbrev answer : Message
answer = Message.query_answer (pos 5) (1 ∷ 2 ∷ [])

-- The answer is in the stream before the query is sent.
abbrev connected : Transport
connected = new_transport (new_framed_conn (frame_bytes 0 (encode answer)) []) new_session

abbrev asked : Transport
asked = state_of (send_query (pos 5) (7 ∷ []) 30 100 connected)

Reach-asked : Reach connected asked
Reach-asked = step here (query_step (pos 5) (7 ∷ []) 30 100)

new_transport-Reach-IsWellFormed_example : IsWellFormed asked
new_transport-Reach-IsWellFormed_example =
    new_transport-Reach-IsWellFormed (new_framed_conn (frame_bytes 0 (encode answer)) [])
      Reach-asked

send_query-Leaves_example :
    Leaves (pos 5) (100 + 30) connected (send_query (pos 5) (7 ∷ []) 30 100 connected)
send_query-Leaves_example = send_query-Leaves (pos 5) (7 ∷ []) 30 100 connected

asked_pending : lookup (pos 5) asked.corr.pending ≡ some (record { slot = 0; deadline = 130 })
unfolding send_query lookup put register write_frame new_transport new_correlator new_framed_conn
    Frame.write_frame encode_tcp_query write_bytes write_zeros write_raw write_int64 write_uint64
    write_uint32 le_bytes
asked_pending = refl

run-settles_example :
    let u = run (suc (length asked.frames.incoming)) asked in
    (u.closed ≡ true) × (u.corr.pending ≡ []) × (u.corr.channels 0 ≢ empty)
run-settles_example =
    run-settles asked (pos 5) (record { slot = 0; deadline = 130 })
      new_transport-Reach-IsWellFormed_example asked_pending

answer_fits : FrameFits (encode answer)
unfolding encode encode_query_answer write_bytes write_zeros write_raw write_int64 write_uint64
    write_uint32 le_bytes
answer_fits = (omega arith, omega arith)

run_round-encode_example : run_round none connected ≡ (handled answer (received [] connected), true)
unfolding new_transport new_framed_conn
run_round-encode_example =
    run_round-encode answer [] connected (omega arith, omega arith) answer_fits refl refl
      (omega arith) (sym (append-nil (frame_bytes 0 (encode answer))))

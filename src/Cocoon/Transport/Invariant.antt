-- ===== src/Cocoon/Transport/Invariant.antt =====
-- Runs of a transport, and what holds of every state they reach.
use gocoon.Common.{ℕ, true, false, Bytes, [], Option, ◌≡◌, refl, sym, ◌∙◌, if◌then◌else◌}
use gocoon.Common.Int.{ℤ}
use gocoon.Common.Assoc.{int_eq}
use gocoon.Tl.Frame.{FramedConn}
use gocoon.Tl.Tcp.{encode_tcp_ping, encode_tcp_packet, encode_tcp_connect}
use gocoon.Cocoon.Errors.{Error, closed_by_caller}
use gocoon.Cocoon.Correlator.{new_correlator, register}
use gocoon.Cocoon.Correlator.Delivery.{
  gc_step, here as corr_here, new_correlator-Reach-IsWellFormed,
}
use gocoon.Cocoon.Correlator.Shutdown.{gc_expired_same, Reach-IsQuiet, new_correlator-IsQuiet}
use gocoon.Cocoon.Correlator.Invariant.{IsWellFormed as CorrIsWellFormed}
use gocoon.Cocoon.Streams.{Session}
use gocoon.Cocoon.Streams.Calls.{IsWellFormed as StreamIsWellFormed}
use gocoon.Cocoon.Streams.Invariant.{
  new_session, new_session-Reach-IsWellFormed, Step as StreamStep, Reach as StreamReach,
  here as stream_here, step as stream_step,
}
use gocoon.Cocoon.Transport.{
  Transport, new_transport, state_of, write_frame, close, run_round, send_query, send_packet,
  send_connect, keepalive, collect,
}
use gocoon.Cocoon.Transport.Moves.{
  Moves, Moves-refl, Moves-trans, corr-Moves, write_frame-Moves, close_with_err-Moves,
  run_round-Moves, query_registered-Moves,
}

-- One call on the transport, whichever goroutine makes it: of a sender, the reading loop, the ticks
-- of the keepalive and of the collector, a close, and the calls on the session's streams.
pub data Step (t : Transport) : Transport → Type 0 where
  query_step :
      (id : ℤ) (body : Bytes) (timeout now : ℕ)
      → Step t (state_of (send_query id body timeout now t))
  packet_step : (body : Bytes) → Step t (state_of (send_packet body t))
  connect_step : (id : ℤ) → Step t (state_of (send_connect id t))
  keepalive_step : (id : ℤ) → Step t (keepalive id t)
  round_step : (ctx : Option Error) → Step t (run_round ctx t).0
  collect_step : (now : ℕ) → Step t (collect now t)
  close_step : Step t (close t)
  streams_step : {s : Session} → StreamStep t.session s → Step t (record t { session = s })

pub data Reach (t : Transport) : Transport → Type 0 where
  here : Reach t t
  step : {u v : Transport} → Reach t u → Step u v → Reach t v

Step-Moves : {t u : Transport} → Step t u → Moves t u
unfolding send_query send_packet send_connect keepalive collect close
Step-Moves {t} (query_step id body timeout now) =
    query_registered-Moves id body timeout now t (register id timeout now t.corr) refl
Step-Moves {t} (packet_step body) = write_frame-Moves (encode_tcp_packet body) t
Step-Moves {t} (connect_step id) = write_frame-Moves (encode_tcp_connect id) t
Step-Moves {t} (keepalive_step id) =
    elim t.inited
      as (λ b. Moves t (if b then state_of (write_frame (encode_tcp_ping id) t) else t)) [
        | true ↦ write_frame-Moves (encode_tcp_ping id) t
        | false ↦ Moves-refl t
      ]
Step-Moves {t} (round_step ctx) = run_round-Moves ctx t
Step-Moves {t} (collect_step now) = corr-Moves t _ (gc_step now) (gc_expired_same now t.corr)
Step-Moves {t} close_step = close_with_err-Moves closed_by_caller t
Step-Moves (streams_step st) = record {
  corr = corr_here;
  session = stream_step stream_here st;
  agrees = λ h. h;
}

pub Reach-Moves : {t u : Transport} → Reach t u → Moves t u
Reach-Moves here = Moves-refl _
Reach-Moves (step r st) = Moves-trans (Reach-Moves r) (Step-Moves st)

-- A transport whose parts are well formed, and which has no query left where it is closed.
pub record IsWellFormed (t : Transport) : Type 0 where
  pub corr : CorrIsWellFormed t.corr
  pub session : StreamIsWellFormed t.session
  pub agrees : t.closed ≡ t.corr.closed
  pub quiet : t.closed ≡ true → t.corr.pending ≡ []

stream-IsWellFormed : {s : Session} → StreamReach new_session s → StreamIsWellFormed s
stream-IsWellFormed r = new_session-Reach-IsWellFormed r

-- In every state that a new transport reaches, whatever the order of its calls, its correlator
-- and its session are well formed, the correlator is closed if and only if the transport is, and
-- a closed transport has no pending query.
pub new_transport-Reach-IsWellFormed :
    (conn : FramedConn) {t : Transport} → Reach (new_transport conn new_session) t → IsWellFormed t
unfolding new_transport
new_transport-Reach-IsWellFormed conn r =
    let m = Reach-Moves r in
    let same = m.agrees (unfold new_correlator in refl) in
    record {
      corr = new_correlator-Reach-IsWellFormed m.corr;
      session = stream-IsWellFormed m.session;
      agrees = same;
      quiet = λ h. Reach-IsQuiet new_correlator-IsQuiet m.corr (sym same ∙ h);
    }

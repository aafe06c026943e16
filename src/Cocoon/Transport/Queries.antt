-- ===== src/Cocoon/Transport/Queries.antt =====
-- Queries and packets on a transport: what SendQuery leaves in the correlator, and where the packets
-- of the peer go.
use gocoon.Common.{
  ℕ, ◌+◌, ◌<◌, ◌^◌, ◌≡◌, refl, sym, ap, subst, ◌∙◌, Bool, true, false, Bytes, ◌++◌, none, some,
  if◌then◌else◌, arith,
}
use gocoon.Common.Int.{ℤ}
use gocoon.Common.Assoc.{
  lookup, put, int_eq, int_beq, int_beq_iff, lookup-put, lookup-delete, beq_refl,
}
use gocoon.Common.State.{Result, ok, err}
use gocoon.Tl.Frame.{FramedConn, FrameError, int32_add}
use gocoon.Tl.Frame
use gocoon.Tl.Frame.Link.{FrameFits, frame_bytes, read_frame_receives}
use gocoon.Tl.Tcp.{encode_tcp_query, encode_tcp_pong}
use gocoon.Tl.Tcp.RoundTrip.{Message, Fits, encode, decoded, decode_tcp_packet-encode}
use gocoon.Cocoon.Errors.{Error, proxy, frame, eof}
use gocoon.Cocoon.Correlator.{Correlator, PendingQuery, Channels, empty, register, deliver, update}
use gocoon.Cocoon.Correlator
use gocoon.Cocoon.Correlator.Invariant.{register-eq-ok, added, fail_found}
use gocoon.Cocoon.Correlator.Shutdown.{register-eq-err}
use gocoon.Cocoon.Streams.{dispatch_packet}
use gocoon.Cocoon.Transport.{
  Transport, on_frames, state_of, write_frame, writable, dispatch_kind, dispatch, dispatched,
  round_read, run_round, send_query, query_registered, query_sent, query_error_of, close_with_err,
}

-- What a packet of the peer does.
abbrev pub handled : Message → Transport → Transport
handled (Message.ping i) t = state_of (write_frame (encode_tcp_pong i) t)
handled (Message.pong i) t = t
handled (Message.connect i) t = t
handled (Message.connected i) t = record t { inited = true }
handled (Message.packet d) t = record t { session = dispatch_packet d t.session }
handled (Message.query i d) t = t
handled (Message.query_answer i d) t = record t { corr = (deliver i d t.corr).0 }
handled (Message.query_error i c m) t = record t {
  corr =
      (Correlator.fail i
        (proxy (record { code = c; message = m; phase = "query"; request_id = none })) t.corr).0;
}

dispatch-encode :
    (m : Message) (t : Transport) → Fits m → dispatch (encode m) t ≡ ok tt (handled m t)
unfolding dispatch
dispatch-encode m t h = ap (λ r. dispatched r t) (decode_tcp_packet-encode m h) ∙ sent m
  where
    sent : (m : Message) → dispatch_kind (decoded m).kind (decoded m) t ≡ ok tt (handled m t)
    sent (Message.ping i) = unfold dispatch_kind in refl
    sent (Message.pong i) = unfold dispatch_kind in refl
    sent (Message.connect i) = unfold dispatch_kind in refl
    sent (Message.connected i) = unfold dispatch_kind in refl
    sent (Message.packet d) = unfold dispatch_kind in refl
    sent (Message.query i d) = unfold dispatch_kind in refl
    sent (Message.query_answer i d) = unfold dispatch_kind in refl
    sent (Message.query_error i c m) = unfold dispatch_kind query_error_of in refl

abbrev pub received : Bytes → Transport → Transport
received rest t = record t {
  frames = record t.frames { incoming = rest; in_seqno = int32_add t.frames.in_seqno 1 };
}

-- An open transport whose input begins with a frame that carries the next sequence number and one
-- of the eight packets, whose fields fit, takes that frame off and does what the packet asks: an
-- answer or an error is handed to its query, a payload to the session, a ping is answered with
-- its id, and all others change the readiness alone, or nothing.
pub run_round-encode :
    (m : Message) (rest : Bytes) (t : Transport)
    → Fits m
    → FrameFits (encode m)
    → t.closed ≡ false
    → t.frames.strict ≡ true
    → t.frames.in_seqno < 2 ^ 32
    → t.frames.incoming ≡ frame_bytes t.frames.in_seqno (encode m) ++ rest
    → run_round none t ≡ (handled m (received rest t), true)
unfolding run_round
run_round-encode m rest t h fit alive strict small e =
    ap (λ b. if b then (close_with_err eof t, false) else round_read (Frame.read_frame t.frames) t)
      alive
    ∙ ap (λ r. round_read r t) (read_frame_receives (encode m) rest t.frames fit strict small e)
    ∙ ap (λ r. (state_of r, true)) (dispatch-encode m (received rest t) h)

-- What SendQuery leaves pending: its query where it returns a slot, and else nothing new.
abbrev pub Leaves : ℤ → ℕ → Transport → Result Transport Error ℕ → Type 0
Leaves id deadline t (ok s u) =
    (lookup id t.corr.pending ≡ none)
    × ((k : ℤ)
        → lookup k u.corr.pending ≡ (
            if int_beq id k
            then some (record { slot = s; deadline = deadline })
            else lookup k t.corr.pending))
    × (u.corr.channels s ≡ empty)
Leaves id deadline t (err e u) = (k : ℤ) → lookup k u.corr.pending ≡ lookup k t.corr.pending

module _ (id : ℤ) (deadline : ℕ) (t : Transport) (new : lookup id t.corr.pending ≡ none) where
  abbrev pq : PendingQuery
  pq = record { slot = t.corr.next_slot; deadline = deadline }

  -- The query that was put in is taken out again.
  undone :
      (e : Error) (k : ℤ)
      → lookup k (Correlator.fail id e (added t.corr id deadline)).0.pending
        ≡ lookup k t.corr.pending
  undone e k =
      ap (λ (r : Correlator × Bool). lookup k r.0.pending)
        (fail_found id e (added t.corr id deadline) pq (
          lookup-put id id pq t.corr.pending
          ∙ ap (λ b. if b then some pq else lookup id t.corr.pending) (beq_refl id)))
      ∙ ground (
        arith,
        lookup-delete id k (put id pq t.corr.pending),
        lookup-put id k pq t.corr.pending,
        int_beq_iff id k,
        new,
      )

  sent-Leaves :
      (r : Result FramedConn FrameError (Unit {0})) (u : Transport)
      → u.corr ≡ added t.corr id deadline
      → Leaves id deadline t (query_sent id t.corr.next_slot (on_frames r u))
  sent-Leaves (ok _ f) u h = (
    new,
    λ k. ap (λ (c : Correlator). lookup k c.pending) h ∙ lookup-put id k pq t.corr.pending,
    ap (λ (c : Correlator). c.channels t.corr.next_slot) h ∙ ground arith,
  )
  sent-Leaves (err e f) u h = λ k.
      ap (λ (c : Correlator). lookup k (Correlator.fail id (frame e) c).0.pending) h
      ∙ undone (frame e) k

registered-Leaves :
    (id : ℤ) (body : Bytes) (timeout now : ℕ) (t : Transport) (r : Result Correlator Error ℕ)
    → register id timeout now t.corr ≡ r
    → Leaves id (now + timeout) t (query_registered id body r t)
unfolding write_frame
registered-Leaves id body timeout now t (err e c) h =
    λ k. ap (λ (d : Correlator). lookup k d.pending) (register-eq-err id timeout now t.corr c e h)
registered-Leaves id body timeout now t (ok slot c) h =
    let (new, first, same) = register-eq-ok id timeout now t.corr c slot h in
    subst
      (λ s.
        Leaves id (now + timeout) t
          (query_sent id s (write_frame (encode_tcp_query id body) (record t { corr = c }))))
      (sym first)
      (sent-Leaves id (now + timeout) t new
        (Frame.write_frame (encode_tcp_query id body) (writable (record t { corr = c })))
        (record t { corr = c }) same)

-- Where SendQuery returns a slot, its id was not pending and is now, with that slot, whose
-- channels are empty, and its deadline; where it returns an error, also where the frame is not
-- written, the pending queries are as before.
pub send_query-Leaves :
    (id : ℤ) (body : Bytes) (timeout now : ℕ) (t : Transport)
    → Leaves id (now + timeout) t (send_query id body timeout now t)
unfolding send_query
send_query-Leaves id body timeout now t =
    registered-Leaves id body timeout now t (register id timeout now t.corr) refl

-- ===== src/Cocoon/Transport/Moves.antt =====
-- What a call on a transport is to its correlator and to its session: calls of their own.
use gocoon.Common.{
  ℕ, true, false, Bytes, Option, none, some, ◌≡◌, refl, sym, ap, subst, ◌∙◌, if◌then◌else◌,
  Bool-cases, inl, inr,
}
use gocoon.Common.Int.{ℤ}
use gocoon.Common.Assoc.{int_eq}
use gocoon.Common.State.{Result, ok, err}
use gocoon.Tl.Frame.{FramedConn, FrameError}
use gocoon.Tl.Frame
use gocoon.Tl.Tcp.{
  TcpPacketKind, DecodedTcpPacket, encode_tcp_query, encode_tcp_pong, decode_tcp_packet,
}
use gocoon.Cocoon.Errors.{Error, frame, eof}
use gocoon.Cocoon.Correlator.{Correlator, register, fail_all}
use gocoon.Cocoon.Correlator.Delivery.{
  Step as CorrStep, Reach as CorrReach, register_step, deliver_step, fail_step, fail_all_step,
  here as corr_here, step as corr_step,
}
use gocoon.Cocoon.Correlator.Shutdown.{deliver_same, fail_same, register-eq-err}
use gocoon.Cocoon.Correlator.Invariant.{register-eq-ok}
use gocoon.Cocoon.Streams.{Session}
use gocoon.Cocoon.Streams.Invariant.{
  Reach as StreamReach, dispatch_step, here as stream_here, step as stream_step,
}
use gocoon.Cocoon.Transport.{
  Transport, on_frames, state_of, write_frame, writable, close_conn, close_with_err, query_error_of,
  dispatch_kind, dispatch, dispatched, round_read, query_sent, query_registered, run_round,
}

corr_trans : {c d e : Correlator} → CorrReach c d → CorrReach d e → CorrReach c e
corr_trans r corr_here = r
corr_trans r (corr_step q st) = corr_step (corr_trans r q) st

stream_trans : {s t u : Session} → StreamReach s t → StreamReach t u → StreamReach s u
stream_trans r stream_here = r
stream_trans r (stream_step q st) = stream_step (stream_trans r q) st

-- The correlator is closed with the transport.
abbrev pub Agrees : Transport → Type 0
Agrees t = t.closed ≡ t.corr.closed

-- What a call on the transport is to the correlator and to the session: calls of their own.
pub record Moves (t u : Transport) : Type 0 where
  pub corr : CorrReach t.corr u.corr
  pub session : StreamReach t.session u.session
  pub agrees : Agrees t → Agrees u

pub Moves-refl : (t : Transport) → Moves t t
Moves-refl t = record { corr = corr_here; session = stream_here; agrees = λ h. h }

pub Moves-trans : {t u v : Transport} → Moves t u → Moves u v → Moves t v
Moves-trans m n = record {
  corr = corr_trans m.corr n.corr;
  session = stream_trans m.session n.session;
  agrees = λ h. n.agrees (m.agrees h);
}

frames-Moves : (t : Transport) (f : FramedConn) → Moves t (record t { frames = f })
frames-Moves t f = record { corr = corr_here; session = stream_here; agrees = λ h. h }

pub corr-Moves :
    (t : Transport) (c : Correlator)
    → CorrStep t.corr c
    → c.closed ≡ t.corr.closed
    → Moves t (record t { corr = c })
corr-Moves t c st same = record {
  corr = corr_step corr_here st;
  session = stream_here;
  agrees = λ h. h ∙ sym same;
}

on_frames-Moves {ℓ} :
    {A : Type ℓ} (r : Result FramedConn FrameError A) (t : Transport)
    → Moves t (state_of (on_frames r t))
on_frames-Moves (ok a f) t = frames-Moves t f
on_frames-Moves (err e f) t = frames-Moves t f

pub write_frame-Moves :
    (payload : Bytes) (t : Transport) → Moves t (state_of (write_frame payload t))
unfolding write_frame
write_frame-Moves payload t = on_frames-Moves (Frame.write_frame payload (writable t)) t

abbrev pub shut : Error → Transport → Transport
shut e t = record t {
  close_err = some e;
  frames = close_conn t.frames;
  corr = fail_all e t.corr;
  closed = true;
}

pub close_again : (e : Error) (t : Transport) → t.closed ≡ true → close_with_err e t ≡ t
unfolding close_with_err
close_again e t h = ap (λ b. if b then t else shut e t) h

pub close_first : (e : Error) (t : Transport) → t.closed ≡ false → close_with_err e t ≡ shut e t
unfolding close_with_err
close_first e t h = ap (λ b. if b then t else shut e t) h

pub close_with_err-Moves : (e : Error) (t : Transport) → Moves t (close_with_err e t)
close_with_err-Moves e t = elim (Bool-cases t.closed) [
  | inl h ↦ subst (Moves t) (sym (close_again e t h)) (Moves-refl t)
  | inr h ↦ subst (Moves t) (sym (close_first e t h)) (record {
    corr = corr_step corr_here (fail_all_step e);
    session = stream_here;
    agrees = λ _. unfold fail_all in refl;
  })
]

dispatch_kind-Moves :
    (k : TcpPacketKind) (pkt : DecodedTcpPacket) (t : Transport)
    → Moves t (state_of (dispatch_kind k pkt t))
unfolding dispatch_kind
dispatch_kind-Moves TcpPacketKind.connected pkt t = record {
  corr = corr_here;
  session = stream_here;
  agrees = λ h. h;
}
dispatch_kind-Moves TcpPacketKind.connect pkt t = Moves-refl t
dispatch_kind-Moves TcpPacketKind.ping pkt t = write_frame-Moves (encode_tcp_pong pkt.id) t
dispatch_kind-Moves TcpPacketKind.pong pkt t = Moves-refl t
dispatch_kind-Moves TcpPacketKind.query_answer pkt t =
    corr-Moves t _ (deliver_step pkt.id pkt.payload) (deliver_same pkt.id pkt.payload t.corr)
dispatch_kind-Moves TcpPacketKind.query_error pkt t =
    corr-Moves t _ (fail_step pkt.id (query_error_of pkt))
      (fail_same pkt.id (query_error_of pkt) t.corr)
dispatch_kind-Moves TcpPacketKind.packet pkt t = record {
  corr = corr_here;
  session = stream_step stream_here (dispatch_step pkt.payload);
  agrees = λ h. h;
}
dispatch_kind-Moves TcpPacketKind.query pkt t = Moves-refl t
dispatch_kind-Moves TcpPacketKind.unknown pkt t = Moves-refl t

dispatch-Moves : (payload : Bytes) (t : Transport) → Moves t (state_of (dispatch payload t))
unfolding dispatch
dispatch-Moves payload t =
    elim (decode_tcp_packet payload) as (λ r. Moves t (state_of (dispatched r t))) [
      | err e r ↦ Moves-refl t
      | ok pkt r ↦ dispatch_kind-Moves pkt.kind pkt t
    ]

round_read-Moves :
    (r : Result FramedConn FrameError Bytes) (t : Transport) → Moves t (round_read r t).0
round_read-Moves (ok payload f) t =
    Moves-trans (frames-Moves t f) (dispatch-Moves payload (record t { frames = f }))
round_read-Moves (err e f) t = Moves-trans (frames-Moves t f) (
    Moves-trans (close_with_err-Moves (frame e) (record t { frames = f }))
      (close_with_err-Moves eof (close_with_err (frame e) (record t { frames = f }))))

pub run_round-Moves : (ctx : Option Error) (t : Transport) → Moves t (run_round ctx t).0
unfolding run_round
run_round-Moves (some e) t =
    Moves-trans (close_with_err-Moves e t) (close_with_err-Moves eof (close_with_err e t))
run_round-Moves none t = elim (Bool-cases t.closed) [
  | inl h ↦
      subst
        (λ b.
          Moves t
            (if b
              then (close_with_err eof t, false)
              else round_read (Frame.read_frame t.frames) t).0)
        (sym h) (close_with_err-Moves eof t)
  | inr h ↦
      subst
        (λ b.
          Moves t
            (if b
              then (close_with_err eof t, false)
              else round_read (Frame.read_frame t.frames) t).0)
        (sym h) (round_read-Moves (Frame.read_frame t.frames) t)
]

-- The query is registered, and taken out again where the frame is not written.
query_sent-Moves :
    (id : ℤ) (slot : ℕ) (r : Result Transport Error (Unit {0})) (t : Transport)
    → Moves t (state_of r)
    → Moves t (state_of (query_sent id slot r))
query_sent-Moves id slot (ok u t') t m = m
query_sent-Moves id slot (err e t') t m =
    Moves-trans m (corr-Moves t' _ (fail_step id e) (fail_same id e t'.corr))

pub query_registered-Moves :
    (id : ℤ) (body : Bytes) (timeout now : ℕ) (t : Transport) (r : Result Correlator Error ℕ)
    → register id timeout now t.corr ≡ r
    → Moves t (state_of (query_registered id body r t))
query_registered-Moves id body timeout now t (err e c) h =
    subst (λ d. Moves t (record t { corr = d })) (sym (register-eq-err id timeout now t.corr c e h))
      (Moves-refl t)
query_registered-Moves id body timeout now t (ok slot c) h =
    let (_, _, same) = register-eq-ok id timeout now t.corr c slot h in
    Moves-trans
      (corr-Moves t c (register_step id timeout now slot h)
        (ap (λ (d : Correlator). d.closed) same))
      (query_sent-Moves id slot (write_frame (encode_tcp_query id body) (record t { corr = c }))
        (record t { corr = c })
        (write_frame-Moves (encode_tcp_query id body) (record t { corr = c })))

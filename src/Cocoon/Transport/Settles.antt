-- ===== src/Cocoon/Transport/Settles.antt =====
-- The loop of Run ends with its input, and leaves no query without an answer or an error.
use gocoon.Common.{
  ℕ, zero, suc, ◌<◌, ◌≡◌, ◌≢◌, ◌⊎◌, inl, inr, refl, sym, ap, subst, ◌∙◌, Bool, true, false, Bytes,
  [], ◌∷◌, none, some, if◌then◌else◌, length, Bool-cases, arith,
}
use gocoon.Common.Int.{ℤ}
use gocoon.Common.Assoc.{lookup, int_eq}
use gocoon.Common.State.{Result, ok, err}
use gocoon.Tl.Frame.{FramedConn, FrameError}
use gocoon.Tl.Frame
use gocoon.Tl.Frame.Progress.{write_frame-incoming, read_frame-shrinks}
use gocoon.Tl.Frame.Progress
use gocoon.Tl.Tcp.{TcpPacketKind, DecodedTcpPacket, encode_tcp_pong, decode_tcp_packet}
use gocoon.Cocoon.Errors.{Error, frame, eof}
use gocoon.Cocoon.Correlator.{PendingQuery, empty}
use gocoon.Cocoon.Correlator.Shutdown.{Reach-Tracked, Reach-IsQuiet}
use gocoon.Cocoon.Transport.{
  Transport, on_frames, state_of, write_frame, writable, close_with_err, dispatch_kind, dispatch,
  dispatched, round_read, run_round, continue, run,
}
use gocoon.Cocoon.Transport.Invariant.{IsWellFormed}
use gocoon.Cocoon.Transport.Moves.{
  Moves, Moves-refl, Moves-trans, run_round-Moves, close_again, close_first,
}

on_frames-incoming {ℓ} :
    {A : Type ℓ} (r : Result FramedConn FrameError A) (t : Transport)
    → (state_of (on_frames r t)).frames ≡ Progress.state_of r
on_frames-incoming (ok a f) t = refl
on_frames-incoming (err e f) t = refl

writable-incoming : (t : Transport) → (writable t).incoming ≡ t.frames.incoming
writable-incoming t = elim (Bool-cases t.closed) [
  | inl h ↦
      ap (λ b. (if b then record t.frames { write_faults = true ∷ [] } else t.frames).incoming) h
  | inr h ↦
      ap (λ b. (if b then record t.frames { write_faults = true ∷ [] } else t.frames).incoming) h
]

write_frame-keeps :
    (p : Bytes) (t : Transport) → (state_of (write_frame p t)).frames.incoming ≡ t.frames.incoming
unfolding write_frame
write_frame-keeps p t =
    ap (λ (f : FramedConn). f.incoming) (on_frames-incoming (Frame.write_frame p (writable t)) t)
    ∙ write_frame-incoming p (writable t)
    ∙ writable-incoming t

dispatch_kind-keeps :
    (k : TcpPacketKind) (pkt : DecodedTcpPacket) (t : Transport)
    → (state_of (dispatch_kind k pkt t)).frames.incoming ≡ t.frames.incoming
unfolding dispatch_kind
dispatch_kind-keeps TcpPacketKind.ping pkt t = write_frame-keeps (encode_tcp_pong pkt.id) t
dispatch_kind-keeps TcpPacketKind.connected pkt t = refl
dispatch_kind-keeps TcpPacketKind.connect pkt t = refl
dispatch_kind-keeps TcpPacketKind.pong pkt t = refl
dispatch_kind-keeps TcpPacketKind.query_answer pkt t = refl
dispatch_kind-keeps TcpPacketKind.query_error pkt t = refl
dispatch_kind-keeps TcpPacketKind.packet pkt t = refl
dispatch_kind-keeps TcpPacketKind.query pkt t = refl
dispatch_kind-keeps TcpPacketKind.unknown pkt t = refl

dispatch-keeps :
    (payload : Bytes) (t : Transport)
    → (state_of (dispatch payload t)).frames.incoming ≡ t.frames.incoming
unfolding dispatch
dispatch-keeps payload t =
    elim (decode_tcp_packet payload)
      as (λ r. (state_of (dispatched r t)).frames.incoming ≡ t.frames.incoming) [
        | err e r ↦ refl
        | ok pkt r ↦ dispatch_kind-keeps pkt.kind pkt t
      ]

close_with_err-closes : (e : Error) (t : Transport) → (close_with_err e t).closed ≡ true
close_with_err-closes e t = elim (Bool-cases t.closed) [
  | inl h ↦ ap (λ (u : Transport). u.closed) (close_again e t h) ∙ h
  | inr h ↦ ap (λ (u : Transport). u.closed) (close_first e t h)
]

-- A round closes the transport and is the last, or takes something off the input.
abbrev Ends : Transport → Transport × Bool → Type 0
Ends t (u, more) =
    ((more ≡ false) × (u.closed ≡ true))
    ⊎ ((more ≡ true) × (length u.frames.incoming < length t.frames.incoming))

round_read-Ends :
    (r : Result FramedConn FrameError Bytes) (t : Transport)
    → Frame.read_frame t.frames ≡ r
    → Ends t (round_read r t)
round_read-Ends (err e f) t h =
    inl (refl, close_with_err-closes eof (close_with_err (frame e) (record t { frames = f })))
round_read-Ends (ok payload f) t h = inr (
  refl,
  omega (
    arith,
    ap length (dispatch-keeps payload (record t { frames = f })),
    read_frame-shrinks t.frames f payload h,
  ),
)

run_round-Ends : (t : Transport) → Ends t (run_round none t)
unfolding run_round
run_round-Ends t =
    let read = round_read (Frame.read_frame t.frames) t in
    elim (Bool-cases t.closed) [
      | inl h ↦
          subst (λ b. Ends t (if b then (close_with_err eof t, false) else read)) (sym h)
            (inl (refl, close_with_err-closes eof t))
      | inr h ↦
          subst (λ b. Ends t (if b then (close_with_err eof t, false) else read)) (sym h)
            (round_read-Ends (Frame.read_frame t.frames) t refl)
    ]

continue_last :
    (k : Transport → Transport) (r : Transport × Bool) → r.1 ≡ false → continue k r ≡ r.0
continue_last k r h = ap (λ b. continue k (r.0, b)) h

continue_more :
    (k : Transport → Transport) (r : Transport × Bool) → r.1 ≡ true → continue k r ≡ k r.0
continue_more k r h = ap (λ b. continue k (r.0, b)) h

run-closes : (n : ℕ) (t : Transport) → length t.frames.incoming < n → (run n t).closed ≡ true
unfolding run
run-closes zero t h = absurd (omega arith)
run-closes (suc n) t h =
    let r = run_round none t in
    elim (run_round-Ends t) [
      | inl (last, shut_) ↦ ap (λ (u : Transport). u.closed) (continue_last (run n) r last) ∙ shut_
      | inr (more, less) ↦
          ap (λ (u : Transport). u.closed) (continue_more (run n) r more)
          ∙ run-closes n r.0 (omega arith)
    ]

run-Moves : (n : ℕ) (t : Transport) → Moves t (run n t)
unfolding run
run-Moves zero t = Moves-refl t
run-Moves (suc n) t =
    let r = run_round none t in
    elim (Bool-cases r.1) [
      | inl more ↦
          subst (Moves t) (sym (continue_more (run n) r more))
            (Moves-trans (run_round-Moves none t) (run-Moves n r.0))
      | inr last ↦ subst (Moves t) (sym (continue_last (run n) r last)) (run_round-Moves none t)
    ]

-- Whatever the peer sends, the loop of Run on a well-formed transport comes to its end with the
-- input, in at most as many rounds as there are bytes and one more; then the transport is closed,
-- nothing is pending, and a query that was pending has an answer or an error.
pub run-settles :
    (t : Transport) (k : ℤ) (pq : PendingQuery)
    → IsWellFormed t
    → lookup k t.corr.pending ≡ some pq
    → let u = run (suc (length t.frames.incoming)) t in
      (u.closed ≡ true) × (u.corr.pending ≡ []) × (u.corr.channels pq.slot ≢ empty)
unfolding lookup
run-settles t k pq w at =
    let n = suc (length t.frames.incoming) in
    let m = run-Moves n t in
    let shut_ = run-closes n t (omega arith) in
    let none_left =
      Reach-IsQuiet (λ h. w.quiet (w.agrees ∙ h)) m.corr (sym (m.agrees w.agrees) ∙ shut_) in
    (
      shut_,
      none_left,
      elim (Reach-Tracked k pq w.corr m.corr at) [
        | inl there ↦ cc (sym there ∙ ap (lookup k) none_left)
        | inr full ↦ full
      ],
    )

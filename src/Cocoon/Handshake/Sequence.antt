-- ===== src/Cocoon/Handshake/Sequence.antt =====
-- The order of the handshake, and what a session may rely on once it is ready.
use gocoon.Common.{
  ◌≡◌, refl, sym, ap, ◌∙◌, true, Bytes, List, [], ◌∷◌, ◌++◌, Option, none, some, append-nil, subst,
  arith,
}
use gocoon.Common.Int.{ℤ}
use gocoon.Common.State.{
  Result, ok, err, next, ◌>>◌, next-eq-ok, Ensures, Ensures-ok, Ensures-next, returns, refuses,
}
use gocoon.Tl.Reader.{Reader, Outcome}
use gocoon.Cocoon.Errors.{Error}
use gocoon.Cocoon.Handshake.{
  ConnectedToProxyDecoded, ClientAuthorizationResult, decode_connected_to_proxy,
  decode_authorization_with_proxy, validate_connected_to_proxy, encode_client_connect_to_proxy,
}
use gocoon.Cocoon.Handshake.Decode.{NotOurs, decode_connected_to_proxy-NotOurs}
use gocoon.Cocoon.Handshake.Run.{
  Event, connect_sent, query_sent, registered, answer, Peer, HandshakeResult, Handshake, check,
  decoded, await, send_tcp_connect, send_connect_to_proxy, send_authorize_long, authorize_long_body,
  register_if_given, authorize, finish, run_handshake,
}
use gocoon.Cocoon.Handshake.Acceptable.{IsAcceptable, validate-eq-none_iff}

-- Two continuations that agree on what a call returns.
next-cong :
    {A B : Type 0} (r : Result (List Event) Error A) (f g : A → Handshake B)
    → ((a : A) (t : List Event) → r ≡ ok a t → f a t ≡ g a t)
    → next r f ≡ next r g
next-cong (ok a t) f g h = h a t refl
next-cong (err e t) f g h = refl

decoded-Ensures :
    {A : Type 0} (P : A → Type 0) (o : Outcome Error A) (t : List Event)
    → Ensures P o
    → Ensures P (decoded o t)
decoded-Ensures P (ok a r) t h = returns (Ensures-ok h refl)
decoded-Ensures P (err e r) t h = refuses

-- The trace of a run, from what each call added to it.
trace_order :
    (c q l : Event) (reg : List Event) {t₁ t₂ t₃ t₄ u t₅ trace : List Event}
    → t₁ ≡ c ∷ []
    → t₂ ≡ t₁
    → t₃ ≡ t₂ ++ (q ∷ [])
    → t₄ ≡ t₃
    → u ≡ t₄ ++ reg
    → t₅ ≡ u ++ (l ∷ [])
    → trace ≡ t₅
    → trace ≡ c ∷ q ∷ (reg ++ (l ∷ []))
trace_order c q l reg e₁ e₂ e₃ e₄ e₅ e₆ e₇ = rw (e₇, e₆, e₅, e₄, e₃, e₂, e₁)

module _ (peer : Peer) where
  -- The short path asks for a hash that the decoder never confirms.
  authorize_long :
      (secret : Bytes) (d : ConnectedToProxyDecoded) (trace : List Event)
      → NotOurs d
      → authorize peer secret d trace ≡ (register_if_given peer d >> send_authorize_long peer) trace
  unfolding authorize
  authorize_long secret d trace h = ground arith

  send_connect_to_proxy-NotOurs :
      (wallet : Bytes) (version : ℤ) (t : List Event)
      → Ensures NotOurs (send_connect_to_proxy peer wallet version t)
  unfolding send_connect_to_proxy
  send_connect_to_proxy-NotOurs wallet version t =
      Ensures-next (await peer (encode_client_connect_to_proxy wallet version) t) _ λ reply u.
        decoded-Ensures NotOurs (decode_connected_to_proxy reply) u
          (decode_connected_to_proxy-NotOurs reply)

  -- The configured secret has no effect: with any two secrets the handshake sends the same
  -- messages and ends in the same result or error.
  pub run_handshake_secret_unused :
      (id : ℤ) (wallet : Bytes) (version : ℤ) (s₁ s₂ : Bytes) (trace : List Event)
      → run_handshake peer id wallet version s₁ trace
        ≡ run_handshake peer id wallet version s₂ trace
  unfolding run_handshake
  run_handshake_secret_unused id wallet version s₁ s₂ trace =
      next-cong (send_tcp_connect peer id trace) _ _ λ _ t₁ _.
        next-cong (check peer.wait_inited t₁) _ _ λ _ t₂ _.
          next-cong (send_connect_to_proxy peer wallet version t₂) _ _ λ d t₃ e.
            next-cong (check (validate_connected_to_proxy d) t₃) _ _ λ _ t₄ _.
              let ours = Ensures-ok (send_connect_to_proxy-NotOurs wallet version t₂) e in
              ap (λ r. next r (finish peer d))
                (authorize_long s₁ d t₄ ours ∙ sym (authorize_long s₂ d t₄ ours))

  -- What registration adds to the trace, and that it went well where there is one.
  abbrev pub registration : ConnectedToProxyDecoded → List Event
  registration d = elim peer.register_on_chain [
    | none ↦ []
    | some _ ↦ registered d.client_sc_address d.auth_nonce d.proxy_params ∷ []
  ]

  abbrev pub Registered : ConnectedToProxyDecoded → Type 0
  Registered d = elim peer.register_on_chain [
    | none ↦ Unit {0}
    | some register ↦ register d.client_sc_address d.auth_nonce d.proxy_params ≡ none
  ]

  register_if_given-eq-ok :
      (d : ConnectedToProxyDecoded) (t t' : List Event)
      → register_if_given peer d t ≡ ok tt t'
      → (t' ≡ t ++ registration d) × Registered d
  unfolding register_if_given
  register_if_given-eq-ok d t t' h = (ground (arith, append-nil t), ground arith)

  await-eq-ok :
      (body b : Bytes) (t t' : List Event)
      → await peer body t ≡ ok b t'
      → (t' ≡ t ++ (query_sent body ∷ []))
        × (peer.await_query (t ++ (query_sent body ∷ [])) body ≡ answer b)
  unfolding await
  await-eq-ok body b t t' h = ground arith

  send_tcp_connect-eq-ok :
      (id : ℤ) (t t' : List Event)
      → send_tcp_connect peer id t ≡ ok tt t'
      → (t' ≡ t ++ (connect_sent id ∷ [])) × (peer.send_connect id ≡ none)
  unfolding send_tcp_connect
  send_tcp_connect-eq-ok id t t' h = ground arith

  check-eq-ok :
      (o : Option Error) (t t' : List Event) → check o t ≡ ok tt t' → (o ≡ none) × (t' ≡ t)
  check-eq-ok o t t' h = ground arith

  decoded-eq-ok :
      {A : Type 0} (o : Outcome Error A) (t t' : List Event) {a : A}
      → decoded o t ≡ ok a t'
      → ((r : Reader) × (o ≡ ok a r)) × (t' ≡ t)
  decoded-eq-ok (ok a r) t t' h = ((r, cc), cc)
  decoded-eq-ok (err e r) t t' h = cc

  send_connect_to_proxy-eq-ok :
      (wallet : Bytes) (version : ℤ) (d : ConnectedToProxyDecoded) (t t' : List Event)
      → send_connect_to_proxy peer wallet version t ≡ ok d t'
      → (t' ≡ t ++ (query_sent (encode_client_connect_to_proxy wallet version) ∷ []))
        × (reply : Bytes) × (peer.await_query t' (encode_client_connect_to_proxy wallet version)
            ≡ answer reply)
        × (r : Reader) × (decode_connected_to_proxy reply ≡ ok d r)
  unfolding send_connect_to_proxy
  send_connect_to_proxy-eq-ok wallet version d t t' h =
      let body = encode_client_connect_to_proxy wallet version in
      let (reply, u, e, g) = next-eq-ok (await peer body t) _ h in
      let (u_is, asked) = await-eq-ok body reply t u e in
      let ((r, k), t_is) = decoded-eq-ok (decode_connected_to_proxy reply) u t' g in
      (t_is ∙ u_is, reply, rw (t_is, u_is) asked, r, k)

  send_authorize_long-eq-ok :
      (a : ClientAuthorizationResult) (t t' : List Event)
      → send_authorize_long peer t ≡ ok a t'
      → (t' ≡ t ++ (query_sent authorize_long_body ∷ []))
        × (reply : Bytes) × (peer.await_query t' authorize_long_body ≡ answer reply)
        × (r : Reader) × (decode_authorization_with_proxy reply ≡ ok a r)
  unfolding send_authorize_long
  send_authorize_long-eq-ok a t t' h =
      let (reply, u, e, g) = next-eq-ok (await peer authorize_long_body t) _ h in
      let (u_is, asked) = await-eq-ok authorize_long_body reply t u e in
      let ((r, k), t_is) = decoded-eq-ok (decode_authorization_with_proxy reply) u t' g in
      (t_is ∙ u_is, reply, rw (t_is, u_is) asked, r, k)

  asked_after :
      {reply body : Bytes} {t t' : List Event}
      → t ≡ t'
      → peer.await_query t body ≡ answer reply
      → peer.await_query t' body ≡ answer reply
  asked_after {reply} {body} e h = subst (λ u. peer.await_query u body ≡ answer reply) e h

  -- What a finished handshake amounts to.
  pub record IsReady (id : ℤ) (wallet : Bytes) (version : ℤ) (res : HandshakeResult)
      (trace : List Event) : Type 0 where
    pub d : ConnectedToProxyDecoded
    pub a : ClientAuthorizationResult
    pub reply : Bytes
    pub rest : Reader
    pub connected : peer.send_connect id ≡ none
    pub inited : peer.wait_inited ≡ none
    pub asked :
        peer.await_query
          (connect_sent id ∷ query_sent (encode_client_connect_to_proxy wallet version) ∷ [])
          (encode_client_connect_to_proxy wallet version)
        ≡ answer reply
    pub told : decode_connected_to_proxy reply ≡ ok d rest
    pub acceptable : IsAcceptable d
    pub auth_reply : Bytes
    pub auth_rest : Reader
    pub auth_asked : peer.await_query trace authorize_long_body ≡ answer auth_reply
    pub auth_told : decode_authorization_with_proxy auth_reply ≡ ok a auth_rest
    pub on_chain : Registered d
    pub granted : a.success ≡ true
    pub order :
        trace
        ≡ connect_sent id
          ∷ query_sent (encode_client_connect_to_proxy wallet version)
          ∷ (registration d ++ (query_sent authorize_long_body ∷ []))
    pub params : res.proxy_params ≡ d.proxy_params
    pub address : res.client_sc_address ≡ d.client_sc_address
    pub tokens : res.max_tokens ≡ a.max_tokens
    pub committed : res.tokens_committed_db ≡ a.tokens_committed_db

  finish-eq-ok :
      (d : ConnectedToProxyDecoded) (a : ClientAuthorizationResult) (res : HandshakeResult)
      (t t' : List Event)
      → finish peer d a t ≡ ok res t'
      → (a.success ≡ true)
        × (t' ≡ t)
        × (res.proxy_params ≡ d.proxy_params)
        × (res.client_sc_address ≡ d.client_sc_address)
        × (res.max_tokens ≡ a.max_tokens)
        × (res.tokens_committed_db ≡ a.tokens_committed_db)
  unfolding finish
  finish-eq-ok d a res t t' h = ground arith

  -- A handshake that returns a result has sent connect without an error, passed the wait for the
  -- connection, got an answer to its connectToProxy that decodes and passes the checks,
  -- registered on chain without an error where a closure is given, asked for the long
  -- authorization and was granted it; its messages are these alone, in this order, and the result
  -- has the parameters and the address of the first answer and the token limits of the second.
  pub run_handshake-IsReady :
      (id : ℤ) (wallet : Bytes) (version : ℤ) (secret : Bytes) (res : HandshakeResult)
      (trace : List Event)
      → run_handshake peer id wallet version secret [] ≡ ok res trace
      → IsReady id wallet version res trace
  unfolding run_handshake
  run_handshake-IsReady id wallet version secret res trace h =
      let (_, t₁, e₁, h₁) = next-eq-ok (send_tcp_connect peer id []) _ h in
      let (_, t₂, e₂, h₂) = next-eq-ok (check peer.wait_inited t₁) _ h₁ in
      let (d, t₃, e₃, h₃) = next-eq-ok (send_connect_to_proxy peer wallet version t₂) _ h₂ in
      let (_, t₄, e₄, h₄) = next-eq-ok (check (validate_connected_to_proxy d) t₃) _ h₃ in
      let (a, t₅, e₅, h₅) = next-eq-ok (authorize peer secret d t₄) _ h₄ in
      let ours = Ensures-ok (send_connect_to_proxy-NotOurs wallet version t₂) e₃ in
      let (_, u, k₁, k₂) =
        next-eq-ok (register_if_given peer d t₄) _ (sym (authorize_long secret d t₄ ours) ∙ e₅) in
      let (t₁_is, connected) = send_tcp_connect-eq-ok id [] t₁ e₁ in
      let (inited, t₂_is) = check-eq-ok peer.wait_inited t₁ t₂ e₂ in
      let (t₃_is, reply, asked, rest, told) =
        send_connect_to_proxy-eq-ok wallet version d t₂ t₃ e₃ in
      let (valid, t₄_is) = check-eq-ok (validate_connected_to_proxy d) t₃ t₄ e₄ in
      let (u_is, on_chain) = register_if_given-eq-ok d t₄ u k₁ in
      let (t₅_is, auth_reply, auth_asked, auth_rest, auth_told) =
        send_authorize_long-eq-ok a u t₅ k₂ in
      let (granted, end, params, address, tokens, committed) = finish-eq-ok d a res t₅ trace h₅ in
      record {
        d = d;
        a = a;
        reply = reply;
        rest = rest;
        connected = connected;
        inited = inited;
        asked =
            asked_after
              (t₃_is
                ∙ ap
                    (λ (t : List Event).
                      t ++ (query_sent (encode_client_connect_to_proxy wallet version) ∷ []))
                    (t₂_is ∙ t₁_is))
              asked;
        told = told;
        acceptable = (validate-eq-none_iff d).0 valid;
        auth_reply = auth_reply;
        auth_rest = auth_rest;
        auth_asked = asked_after (sym end) auth_asked;
        auth_told = auth_told;
        on_chain = on_chain;
        granted = granted;
        order =
            trace_order (connect_sent id) _ _ (registration d) t₁_is t₂_is t₃_is t₄_is u_is t₅_is
              end;
        params = params;
        address = address;
        tokens = tokens;
        committed = committed;
      }

-- ===== src/Cocoon/Handshake/Run.antt =====
-- runHandshake of pkg/cocoon/handshake.go, over what the transport and the chain answer.
use gocoon.Common.{
  ℕ, Bytes, List, [], ◌∷◌, ◌++◌, Option, none, some, ◌&&◌, not, ltb, if◌then◌else◌, length,
}
use gocoon.Common.Int.{ℤ}
use gocoon.Common.State.{Method, ok, err, ◌>>=◌, ◌>>◌, pure, fail}
use gocoon.Tl.Reader.{Outcome}
use gocoon.Tl.Writer.{new_writer, bytes, ◌▹◌, write_uint32, write_bytes}
use gocoon.Tl.Types.{ProxyParams}
use gocoon.Tl.Constants.{id_client_authorize_with_proxy_short, id_client_authorize_with_proxy_long}
use gocoon.Cocoon.Errors.{Error, wrapped, proxy, on_chain_register, connection_failed}
use gocoon.Cocoon.Handshake.{
  ConnectedToProxyDecoded, ClientAuthorizationResult, decode_connected_to_proxy,
  decode_authorization_with_proxy, validate_connected_to_proxy, encode_client_connect_to_proxy,
}

-- What the handshake does to the outside, in order.
pub data Event : Type 0 where
  connect_sent : ℤ → Event
  query_sent : Bytes → Event
  registered : Bytes → ℕ → ProxyParams → Event

-- What awaitQuery returns.
pub data Reply : Type 0 where
  answer : Bytes → Reply
  failed : Error → Reply

-- The outside: SendConnect, waitForInited, awaitQuery (which may depend on all that was done
-- before), and the closure that registers on chain, if there is one.
pub record Peer : Type 0 where
  pub send_connect : ℤ → Option Error
  pub wait_inited : Option Error
  pub await_query : List Event → Bytes → Reply
  pub register_on_chain : Option (Bytes → ℕ → ProxyParams → Option Error)

pub record HandshakeResult : Type 0 where
  pub proxy_params : ProxyParams
  pub client_sc_address : Bytes
  pub proto_version : ℤ
  pub signed_payment_blob : Bytes
  pub tokens_committed_db : ℤ
  pub max_tokens : ℤ

abbrev pub Handshake : Type 0 → Type 0
Handshake A = Method (List Event) Error A

-- `if err != nil { return nil, err }`
abbrev pub check : Option Error → Handshake (Unit {0})
check none = pure tt
check (some e) = fail e

abbrev pub record_event : Event → Handshake (Unit {0})
record_event e trace = ok tt (trace ++ (e ∷ []))

abbrev pub decoded {ℓ} : {A : Type ℓ} → Outcome Error A → Method (List Event) Error A
decoded (ok a r) trace = ok a trace
decoded (err e r) trace = err e trace

abbrev pub reply_of : Reply → Handshake Bytes
reply_of (answer b) = pure b
reply_of (failed e) = fail e

-- The body of the long authorization: a constructor id alone.
abbrev pub authorize_long_body : Bytes
authorize_long_body = bytes (new_writer ▹ write_uint32 id_client_authorize_with_proxy_long)

module _ (peer : Peer) where
  unfoldable pub await : Bytes → Handshake Bytes
  await body = do
    record_event (query_sent body)
    λ trace. reply_of (peer.await_query trace body) trace

  unfoldable pub send_tcp_connect : ℤ → Handshake (Unit {0})
  send_tcp_connect id = do
    record_event (connect_sent id)
    elim (peer.send_connect id) [ none ↦ pure tt | some _ ↦ fail (wrapped connection_failed) ]

  unfoldable pub send_connect_to_proxy : Bytes → ℤ → Handshake ConnectedToProxyDecoded
  send_connect_to_proxy wallet root_cfg_version = do
    reply ← await (encode_client_connect_to_proxy wallet root_cfg_version)
    decoded (decode_connected_to_proxy reply)

  unfoldable pub send_authorize_short : Bytes → Handshake ClientAuthorizationResult
  send_authorize_short secret = do
    reply ← await (
        bytes (new_writer ▹ write_uint32 id_client_authorize_with_proxy_short ▹ write_bytes secret))
    decoded (decode_authorization_with_proxy reply)

  unfoldable pub send_authorize_long : Handshake ClientAuthorizationResult
  send_authorize_long = do
    reply ← await authorize_long_body
    decoded (decode_authorization_with_proxy reply)

  -- `if registerOnChain != nil { … }`
  unfoldable pub register_if_given : ConnectedToProxyDecoded → Handshake (Unit {0})
  register_if_given d = elim peer.register_on_chain [
    | none ↦ pure tt
    | some register ↦ do
      record_event (registered d.client_sc_address d.auth_nonce d.proxy_params)
      elim (register d.client_sc_address d.auth_nonce d.proxy_params) [
        | none ↦ pure tt
        | some e ↦ fail (on_chain_register e)
      ]
  ]

  unfoldable pub authorize : Bytes → ConnectedToProxyDecoded → Handshake ClientAuthorizationResult
  authorize secret d =
      if d.auth_secret_hash_ok && ltb 0 (length secret)
      then send_authorize_short secret
      else (do register_if_given d; send_authorize_long)

  unfoldable pub finish :
      ConnectedToProxyDecoded → ClientAuthorizationResult → Handshake HandshakeResult
  finish d a =
      if not a.success
      then fail (
          proxy (record {
            code = a.error_code;
            message = a.error_message;
            phase = "auth";
            request_id = none;
          }))
      else pure (record {
        proxy_params = d.proxy_params;
        client_sc_address = d.client_sc_address;
        proto_version = d.proxy_params.proto_version;
        signed_payment_blob = a.signed_payment_blob;
        tokens_committed_db = a.tokens_committed_db;
        max_tokens = a.max_tokens;
      })

  unfoldable pub run_handshake : ℤ → Bytes → ℤ → Bytes → Handshake HandshakeResult
  run_handshake connect_id wallet root_cfg_version secret = do
    send_tcp_connect connect_id
    check peer.wait_inited
    d ← send_connect_to_proxy wallet root_cfg_version
    check (validate_connected_to_proxy d)
    a ← authorize secret d
    finish d a

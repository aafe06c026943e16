-- ===== src/Cocoon/Handshake.antt =====
-- pkg/cocoon/handshake.go: the answers of the proxy, their checks, and the sequence of calls.
pub mod Wire
pub mod Run
pub mod Decode
pub mod Acceptable
pub mod Sequence
use gocoon.Common.{
  ℕ, Bool, true, false, Bytes, List, [], ◌∷◌, ◌++◌, Option, none, some, ◌==◌, ◌&&◌, ◌||◌, not, ltb,
  if◌then◌else◌, length, replicate,
}
use gocoon.Common.Int.{ℤ, pos, int_ltb}
use gocoon.Common.State.{Result, Method}
use gocoon.Tl.Reader.{
  TlError, Reader, Parser, Outcome, ok, err, next, ◌>>=◌, ◌>>◌, pure, fail, new_reader, read_uint32,
  read_int32, read_uint64, read_int64, read_bytes, read_string, read_int256,
}
use gocoon.Tl.Writer.{
  Writer, new_writer, bytes, ◌▹◌, write_uint32, write_flags, write_string, write_bytes, write_bool,
  write_int32,
}
use gocoon.Tl.Types.{
  ProxyParams, has_is_test, has_proto_version, flag_set, decode_proxy_params_body,
}
use gocoon.Tl.Constants.{
  id_client_connect_to_proxy, id_client_authorize_with_proxy_short,
  id_client_authorize_with_proxy_long, id_client_connected_to_proxy,
  id_client_authorization_with_proxy_success, id_client_authorization_with_proxy_failed,
  id_client_proxy_connection_auth_short, id_client_proxy_connection_auth_long,
  id_proxy_signed_payment, id_proxy_signed_payment_empty,
}
use gocoon.Cocoon.Errors.{
  Error, ProxyError, wrapped, proxy, tl, wrong_constructor, unknown_id, on_chain_register,
  connection_failed, protocol_mismatch, test_mode_mismatch,
}

-- `return nil, err` of an error of package tl.
abbrev pub lift_outcome {ℓ} : {A : Type ℓ} → Outcome TlError A → Outcome Error A
lift_outcome (ok a r) = ok a r
lift_outcome (err e r) = err (tl e) r

abbrev pub lift {ℓ} : {A : Type ℓ} → Parser TlError A → Parser Error A
lift p r = lift_outcome (p r)

pub record ConnectedToProxyDecoded : Type 0 where
  pub proxy_params : ProxyParams
  pub client_sc_address : Bytes
  pub auth_secret_hash_ok : Bool
  pub auth_secret_hash : Bytes
  pub auth_nonce : ℕ
  pub signed_payment_blob : Bytes

-- `switch authID`: the secret hash (zero on the long path) and the nonce.
unfoldable pub read_auth : ℕ → Parser Error (Bytes × ℕ)
read_auth auth_id =
    if auth_id == id_client_proxy_connection_auth_short
    then (do hash ← lift read_int256; nonce ← lift read_uint64; pure (hash, nonce))
    else if auth_id == id_client_proxy_connection_auth_long
    then (do nonce ← lift read_uint64; pure (replicate 32 0, nonce))
    else fail (unknown_id auth_id)

-- `switch spID`: the blob, nil where the payment is empty.
unfoldable pub read_signed_payment : ℕ → Parser Error Bytes
read_signed_payment sp_id =
    if sp_id == id_proxy_signed_payment
    then lift read_bytes
    else if sp_id == id_proxy_signed_payment_empty
    then pure []
    else fail (unknown_id sp_id)

-- What follows the constructor id.
unfoldable pub connected_body : Parser Error ConnectedToProxyDecoded
connected_body = do
  pp ← lift decode_proxy_params_body
  client_sc_addr ← lift read_string
  auth_id ← lift read_uint32
  (hash, nonce) ← read_auth auth_id
  sp_id ← lift read_uint32
  blob ← read_signed_payment sp_id
  pure (record {
    proxy_params = pp;
    client_sc_address = client_sc_addr;
    auth_secret_hash_ok = false;
    auth_secret_hash = hash;
    auth_nonce = nonce;
    signed_payment_blob = blob;
  })

abbrev pub connected_parser : Parser Error ConnectedToProxyDecoded
connected_parser = do
  id ← lift read_uint32
  if not (id == id_client_connected_to_proxy) then fail (wrong_constructor id) else connected_body

unfoldable pub decode_connected_to_proxy : Bytes → Outcome Error ConnectedToProxyDecoded
decode_connected_to_proxy answer = connected_parser (new_reader answer)

pub record ClientAuthorizationResult : Type 0 where
  pub success : Bool
  pub error_code : ℤ
  pub error_message : Bytes
  pub signed_payment_blob : Bytes
  pub tokens_committed_db : ℤ
  pub max_tokens : ℤ

unfoldable pub authorization_success : Parser Error ClientAuthorizationResult
authorization_success = do
  sp_id ← lift read_uint32
  blob ← read_signed_payment sp_id
  tokens_db ← lift read_int64
  max_t ← lift read_int64
  pure (record {
    success = true;
    error_code = pos 0;
    error_message = [];
    signed_payment_blob = blob;
    tokens_committed_db = tokens_db;
    max_tokens = max_t;
  })

unfoldable pub authorization_failed : Parser Error ClientAuthorizationResult
authorization_failed = do
  code ← lift read_int32
  msg ← lift read_string
  pure (record {
    success = false;
    error_code = code;
    error_message = msg;
    signed_payment_blob = [];
    tokens_committed_db = pos 0;
    max_tokens = pos 0;
  })

unfoldable pub authorization_body : ℕ → Parser Error ClientAuthorizationResult
authorization_body id =
    if id == id_client_authorization_with_proxy_success
    then authorization_success
    else if id == id_client_authorization_with_proxy_failed
    then authorization_failed
    else fail (wrong_constructor id)

abbrev pub authorization_parser : Parser Error ClientAuthorizationResult
authorization_parser = do id ← lift read_uint32; authorization_body id

unfoldable pub decode_authorization_with_proxy : Bytes → Outcome Error ClientAuthorizationResult
decode_authorization_with_proxy answer = authorization_parser (new_reader answer)

-- nil, or the error of the first check that fails.
unfoldable pub validate_connected_to_proxy : ConnectedToProxyDecoded → Option Error
validate_connected_to_proxy d =
    let p = d.proxy_params in
    if not (flag_set p.flags 0x3)
    then some (wrapped protocol_mismatch)
    else if has_is_test p.flags && p.is_test
    then some (wrapped test_mode_mismatch)
    else if has_proto_version p.flags
        && (int_ltb p.proto_version (pos 1) || int_ltb (pos 4) p.proto_version)
    then some (wrapped protocol_mismatch)
    else none

unfoldable pub encode_client_connect_to_proxy : Bytes → ℤ → Bytes
unfolding new_writer
encode_client_connect_to_proxy cocoon_wallet_addr root_cfg_version = bytes (
    new_writer
    ▹ write_uint32 id_client_connect_to_proxy
    ▹ write_flags 0x3
    ▹ write_string cocoon_wallet_addr
    ▹ write_bool false
    ▹ write_int32 (pos 1)
    ▹ write_int32 (pos 4)
    ▹ write_int32 root_cfg_version)

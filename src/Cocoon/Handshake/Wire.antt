-- ===== src/Cocoon/Handshake/Wire.antt =====
-- What a proxy writes in a handshake: the constructors as the schema and the fake proxy have them.
use gocoon.Common.{ℕ, ◌^◌, ◌<◌, ◌≡◌, true, false, Bytes, [], length, replicate}
use gocoon.Common.Int.{ℤ, pos, IsInt32, IsInt64}
use gocoon.Tl.Writer.{
  Writer, new_writer, write_uint32, write_uint64, write_int32, write_int64, write_int256,
  write_bytes, write_string,
}
use gocoon.Tl.Types.{ProxyParams, encode_proxy_params}
use gocoon.Tl.Types.RoundTrip.{ProxyParamsFit}
use gocoon.Tl.Constants.{
  id_client_connected_to_proxy, id_client_authorization_with_proxy_success,
  id_client_authorization_with_proxy_failed, id_client_proxy_connection_auth_short,
  id_client_proxy_connection_auth_long, id_proxy_signed_payment, id_proxy_signed_payment_empty,
}
use gocoon.Cocoon.Handshake.{ConnectedToProxyDecoded, ClientAuthorizationResult}

-- The parts of client.connectedToProxy that are unions, as the schema has them.
pub data ProxyConnectionAuth : Type 0 where
  short : Bytes → ℕ → ProxyConnectionAuth
  long : ℕ → ProxyConnectionAuth

pub data SignedPayment : Type 0 where
  signed : Bytes → SignedPayment
  unsigned : SignedPayment

unfoldable pub write_auth : ProxyConnectionAuth → Writer → Writer
write_auth (short hash nonce) w =
    write_uint64 nonce (write_int256 hash (write_uint32 id_client_proxy_connection_auth_short w))
write_auth (long nonce) w = write_uint64 nonce (write_uint32 id_client_proxy_connection_auth_long w)

unfoldable pub write_payment : SignedPayment → Writer → Writer
write_payment (signed b) w = write_bytes b (write_uint32 id_proxy_signed_payment w)
write_payment unsigned w = write_uint32 id_proxy_signed_payment_empty w

abbrev pub hash_of : ProxyConnectionAuth → Bytes
hash_of (short hash nonce) = hash
hash_of (long nonce) = replicate 32 0

abbrev pub nonce_of : ProxyConnectionAuth → ℕ
nonce_of (short hash nonce) = nonce
nonce_of (long nonce) = nonce

abbrev pub blob_of : SignedPayment → Bytes
blob_of (signed b) = b
blob_of unsigned = []

abbrev pub AuthFits : ProxyConnectionAuth → Type 0
AuthFits (short hash nonce) = (length hash ≡ 32) × (nonce < 2 ^ 64)
AuthFits (long nonce) = nonce < 2 ^ 64

abbrev pub PaymentFits : SignedPayment → Type 0
PaymentFits (signed b) = length b < 2 ^ 24
PaymentFits unsigned = Unit

-- client.connectedToProxy, with what the schema puts in it.
pub record Connected : Type 0 where
  pub params : ProxyParams
  pub address : Bytes
  pub auth : ProxyConnectionAuth
  pub payment : SignedPayment

pub record ConnectedFits (c : Connected) : Type 0 where
  pub params : ProxyParamsFit c.params
  pub address : length c.address < 2 ^ 24
  pub auth : AuthFits c.auth
  pub payment : PaymentFits c.payment

unfoldable pub write_connected : Connected → Writer → Writer
write_connected c w = write_payment c.payment (
    write_auth c.auth (
      write_string c.address
        (encode_proxy_params false c.params (write_uint32 id_client_connected_to_proxy w))))

abbrev pub connected_value : Connected → ConnectedToProxyDecoded
connected_value c = record {
  proxy_params = c.params;
  client_sc_address = c.address;
  auth_secret_hash_ok = false;
  auth_secret_hash = hash_of c.auth;
  auth_nonce = nonce_of c.auth;
  signed_payment_blob = blob_of c.payment;
}

-- client.authorizationWithProxySuccess and Failed.
pub data Authorization : Type 0 where
  granted : SignedPayment → ℤ → ℤ → Authorization
  denied : ℤ → Bytes → Authorization

abbrev pub AuthorizationFits : Authorization → Type 0
AuthorizationFits (granted p db max) = PaymentFits p × IsInt64 db × IsInt64 max
AuthorizationFits (denied code msg) = IsInt32 code × (length msg < 2 ^ 24)

unfoldable pub write_authorization : Authorization → Writer → Writer
write_authorization (granted p db max) w =
    write_int64 max
      (write_int64 db (write_payment p (write_uint32 id_client_authorization_with_proxy_success w)))
write_authorization (denied code msg) w =
    write_string msg (write_int32 code (write_uint32 id_client_authorization_with_proxy_failed w))

abbrev pub authorization_value : Authorization → ClientAuthorizationResult
authorization_value (granted p db max) = record {
  success = true;
  error_code = pos 0;
  error_message = [];
  signed_payment_blob = blob_of p;
  tokens_committed_db = db;
  max_tokens = max;
}
authorization_value (denied code msg) = record {
  success = false;
  error_code = code;
  error_message = msg;
  signed_payment_blob = [];
  tokens_committed_db = pos 0;
  max_tokens = pos 0;
}

abbrev pub written : (Writer → Writer) → Bytes
written w = (w new_writer).buf

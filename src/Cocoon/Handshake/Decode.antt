-- ===== src/Cocoon/Handshake/Decode.antt =====
-- What the decoders of the handshake return, on any bytes and on what a proxy writes.
use gocoon.Common.{
  ℕ, ◌≡◌, refl, ap, Bool, true, false, Bytes, [], length, ◌==◌, not, if◌then◌else◌, replicate,
  arith,
}
use gocoon.Common.State.{Ensures, Ensures-next, returns, refuses}
use gocoon.Tl.Reader.{
  TlError, Reader, Outcome, Parser, ok, err, ◌>>=◌, fail, Fails, new_reader, read_uint32,
  read_string,
}
use gocoon.Tl.Writer.{Writer}
use gocoon.Tl.Codec.{Codec, Codec-bind, Codec-bind_pair, Codec-map, Codec-pure, Codec-whole}
use gocoon.Tl.Codec.Fixed.{uint32-Codec, uint64-Codec, int32-Codec, int64-Codec, int256-Codec}
use gocoon.Tl.Codec.Blob.{bytes-Codec, string-Codec}
use gocoon.Tl.Types.{decode_proxy_params_body}
use gocoon.Tl.Types.RoundTrip.{proxy_params-Codec}
use gocoon.Tl.Constants.{id_client_connected_to_proxy}
use gocoon.Cocoon.Errors.{Error, wrong_constructor}
use gocoon.Cocoon.Handshake.{
  lift, lift_outcome, ConnectedToProxyDecoded, read_auth, read_signed_payment, connected_body,
  connected_parser, decode_connected_to_proxy, authorization_success, authorization_failed,
  authorization_body, authorization_parser, decode_authorization_with_proxy,
}
use gocoon.Cocoon.Handshake.Wire.{
  ProxyConnectionAuth, short, long, SignedPayment, signed, unsigned, write_auth, write_payment,
  hash_of, nonce_of, blob_of, AuthFits, PaymentFits, Connected, ConnectedFits, write_connected,
  connected_value, Authorization, granted, denied, AuthorizationFits, write_authorization,
  authorization_value, written,
}

abbrev pub NotOurs : ConnectedToProxyDecoded → Type 0
NotOurs d = d.auth_secret_hash_ok ≡ false

connected_body-NotOurs : (r : Reader) → Ensures NotOurs (connected_body r)
unfolding connected_body
connected_body-NotOurs r = Ensures-next (lift decode_proxy_params_body r) _ λ _ r₁.
    Ensures-next (lift read_string r₁) _ λ _ r₂. Ensures-next (lift read_uint32 r₂) _ λ a r₃.
      Ensures-next (read_auth a r₃) _ λ _ r₄.
        Ensures-next (lift read_uint32 r₄) _
          λ b r₅. Ensures-next (read_signed_payment b r₅) _ λ _ _. returns refl

-- Whatever a proxy answers, the decoded answer says that the secret hash is not the client's.
pub decode_connected_to_proxy-NotOurs :
    (answer : Bytes) → Ensures NotOurs (decode_connected_to_proxy answer)
unfolding decode_connected_to_proxy
decode_connected_to_proxy-NotOurs answer =
    Ensures-next (lift read_uint32 (new_reader answer)) _
      λ id r. at_id (id == id_client_connected_to_proxy) id r
  where
    at_id :
        (b : Bool) (id : ℕ) (r : Reader)
        → Ensures NotOurs ((if not b then fail (wrong_constructor id) else connected_body) r)
    at_id true id r = connected_body-NotOurs r
    at_id false id r = refuses

-- A codec of package tl, under the error type of this package.
module _ {ℓ} {A : Type ℓ} {w : Writer → Writer} {p : Parser TlError A} {a : A} where
  pub lift-Codec : Codec w p a → Codec w (lift p) a
  lift-Codec c = record {
    enc = c.enc;
    emits = c.emits;
    reads = λ r rest b h. ap lift_outcome (c.reads r rest b h);
    cuts = λ r x back b h. fails (p r) (c.cuts r x back b h);
  }
    where
      fails : (o : Outcome TlError A) → Fails o → Fails (lift_outcome o)
      fails (ok v s) f = f
      fails (err e s) f = tt

abbrev auth_parser : Parser Error (Bytes × ℕ)
auth_parser = lift read_uint32 >>= read_auth

abbrev payment_parser : Parser Error Bytes
payment_parser = lift read_uint32 >>= read_signed_payment

auth-Codec :
    (a : ProxyConnectionAuth)
    → AuthFits a
    → Codec (write_auth a) auth_parser (hash_of a, nonce_of a)
unfolding write_auth read_auth
auth-Codec (short hash nonce) h = Codec-bind read_auth (lift-Codec (uint32-Codec _ (omega arith))) (
    Codec-bind _ (lift-Codec (int256-Codec hash h.0))
      (Codec-map (λ n. (hash, n)) refl (lift-Codec (uint64-Codec nonce h.1))))
auth-Codec (long nonce) h =
    Codec-bind read_auth (lift-Codec (uint32-Codec _ (omega arith)))
      (Codec-map (λ n. (replicate 32 0, n)) refl (lift-Codec (uint64-Codec nonce h)))

pub payment-Codec :
    (p : SignedPayment) → PaymentFits p → Codec (write_payment p) payment_parser (blob_of p)
unfolding write_payment read_signed_payment
payment-Codec (signed b) h =
    Codec-bind read_signed_payment (lift-Codec (uint32-Codec _ (omega arith)))
      (lift-Codec (bytes-Codec b h))
payment-Codec unsigned h =
    Codec-bind read_signed_payment (lift-Codec (uint32-Codec _ (omega arith))) (Codec-pure [])

connected-Codec :
    (c : Connected)
    → ConnectedFits c
    → Codec (write_connected c) connected_parser (connected_value c)
unfolding write_connected connected_body
connected-Codec c f = Codec-bind _ (lift-Codec (uint32-Codec _ (omega arith))) (
    Codec-bind _ (lift-Codec (proxy_params-Codec c.params f.params)) (
      Codec-bind _ (lift-Codec (string-Codec c.address f.address)) (
        Codec-bind_pair (lift read_uint32) read_auth _ (auth-Codec c.auth f.auth) (
          Codec-bind_pair (lift read_uint32) read_signed_payment _
            (payment-Codec c.payment f.payment) (Codec-pure _)))))

authorization-Codec :
    (a : Authorization)
    → AuthorizationFits a
    → Codec (write_authorization a) authorization_parser (authorization_value a)
unfolding write_authorization authorization_body authorization_success authorization_failed
authorization-Codec (granted p db max) f =
    Codec-bind authorization_body (lift-Codec (uint32-Codec _ (omega arith))) (
      Codec-bind_pair (lift read_uint32) read_signed_payment _ (payment-Codec p f.0) (
        Codec-bind _ (lift-Codec (int64-Codec db f.1))
          (Codec-bind _ (lift-Codec (int64-Codec max f.2)) (Codec-pure _))))
authorization-Codec (denied code msg) f =
    Codec-bind authorization_body (lift-Codec (uint32-Codec _ (omega arith))) (
      Codec-bind _ (lift-Codec (int32-Codec code f.0))
        (Codec-bind _ (lift-Codec (string-Codec msg f.1)) (Codec-pure _)))

-- The client decodes a client.connectedToProxy that a proxy writes, for every kind of auth and
-- payment whose fields fit, to its parts, except that the secret hash is never marked as the
-- client's.
pub decode_connected_to_proxy-write_connected :
    (c : Connected)
    → ConnectedFits c
    → decode_connected_to_proxy (written (write_connected c))
      ≡ ok
          (connected_value c)
          (record { buf = written (write_connected c); pos = length (written (write_connected c)) })
unfolding decode_connected_to_proxy
decode_connected_to_proxy-write_connected c f = Codec-whole (connected-Codec c f)

-- The client decodes an authorization that a proxy writes, granted or denied, whose fields fit,
-- to the result that it states.
pub decode_authorization-write_authorization :
    (a : Authorization)
    → AuthorizationFits a
    → decode_authorization_with_proxy (written (write_authorization a))
      ≡ ok (authorization_value a) (record {
        buf = written (write_authorization a);
        pos = length (written (write_authorization a));
      })
unfolding decode_authorization_with_proxy
decode_authorization-write_authorization a f = Codec-whole (authorization-Codec a f)

-- ===== src/Tl/Types/RoundTrip.antt =====
-- The constructors as codecs: a value whose fields fit the wire is read back whole.
use gocoon.Common.{◌^◌, ◌<◌, ◌≡◌, refl, Bool, true, false, length, if◌then◌else◌, subst}
use gocoon.Common.Int.{ℤ, pos, IsInt32, IsInt64}
use gocoon.Tl.Reader.{Parser, pure}
use gocoon.Tl.Writer.{Writer}
use gocoon.Tl.Codec.{Codec, Codec-bind, Codec-pure}
use gocoon.Tl.Codec.Fixed.{int32-Codec, int64-Codec, flags-Codec, bool-Codec, int256-Codec}
use gocoon.Tl.Codec.Blob.{string-Codec}
use gocoon.Tl.Types.{
  has_is_test, has_proto_version, skip, ClientParams, ProxyParams, TokensUsed, encode_client_params,
  decode_client_params_body, encode_proxy_params, decode_proxy_params_body, encode_tokens_used,
  decode_tokens_used, read_versions, write_versions,
}

-- A field that a bit gates: where the bit is not set the value is the zero `d`.
pub gated-Codec {ℓ} :
    {E : Type 0} {A : Type ℓ} (b : Bool) {w : Writer → Writer} {p : Parser E A} {a : A} (d : A)
    → Codec w p a
    → (b ≡ false → d ≡ a)
    → Codec (if b then w else skip) (if b then p else pure d) a
gated-Codec {E = E} true d c z = c
gated-Codec {E = E} false d c z = subst (λ t. Codec {E = E} skip (pure d) t) (z refl) (Codec-pure d)

-- What the wire can carry: the ranges of the fields, and zero where a field is absent.
pub record ClientParamsFit (p : ClientParams) : Type 0 where
  pub flags : p.flags < 2 ^ 32
  pub addr : length p.client_owner_addr < 2 ^ 24
  pub test : has_is_test p.flags ≡ false → false ≡ p.is_test
  pub lo : IsInt32 p.min_proto_version
  pub hi : IsInt32 p.max_proto_version
  pub versions :
      has_proto_version p.flags ≡ false
      → ◌≡◌ {A = ℤ × ℤ} (pos 0, pos 0) (p.min_proto_version, p.max_proto_version)

pub client_params-Codec :
    (p : ClientParams)
    → ClientParamsFit p
    → Codec (encode_client_params false p) decode_client_params_body p
unfolding encode_client_params decode_client_params_body
client_params-Codec p f = Codec-bind _ (flags-Codec p.flags f.flags) (
    Codec-bind _ (string-Codec p.client_owner_addr f.addr) (
      Codec-bind _ (gated-Codec (has_is_test p.flags) false (bool-Codec p.is_test) f.test) (
        Codec-bind _ (gated-Codec (has_proto_version p.flags) (pos 0, pos 0) versions f.versions)
          (Codec-pure p))))
  where
    versions : Codec (write_versions p) read_versions (p.min_proto_version, p.max_proto_version)
    versions =
        Codec-bind _ (int32-Codec p.min_proto_version f.lo)
          (Codec-bind _ (int32-Codec p.max_proto_version f.hi) (Codec-pure _))

pub record ProxyParamsFit (p : ProxyParams) : Type 0 where
  pub flags : p.flags < 2 ^ 32
  pub key : length p.public_key ≡ 32
  pub owner : length p.owner_address < 2 ^ 24
  pub sc : length p.sc_address < 2 ^ 24
  pub test : has_is_test p.flags ≡ false → false ≡ p.is_test
  pub range : IsInt32 p.proto_version
  pub version : has_proto_version p.flags ≡ false → pos 0 ≡ p.proto_version

pub proxy_params-Codec :
    (p : ProxyParams)
    → ProxyParamsFit p
    → Codec (encode_proxy_params false p) decode_proxy_params_body p
unfolding encode_proxy_params decode_proxy_params_body
proxy_params-Codec p f = Codec-bind _ (flags-Codec p.flags f.flags) (
    Codec-bind _ (int256-Codec p.public_key f.key) (
      Codec-bind _ (string-Codec p.owner_address f.owner) (
        Codec-bind _ (string-Codec p.sc_address f.sc) (
          Codec-bind _ (gated-Codec (has_is_test p.flags) false (bool-Codec p.is_test) f.test) (
            Codec-bind _
              (gated-Codec (has_proto_version p.flags) (pos 0) (int32-Codec p.proto_version f.range)
                f.version)
              (Codec-pure p))))))

pub record TokensUsedFit (t : TokensUsed) : Type 0 where
  pub prompt : IsInt64 t.prompt_tokens
  pub cached : IsInt64 t.cached_tokens
  pub completion : IsInt64 t.completion_tokens
  pub reasoning : IsInt64 t.reasoning_tokens
  pub total : IsInt64 t.total_tokens

pub tokens_used-Codec :
    (t : TokensUsed) → TokensUsedFit t → Codec (encode_tokens_used t) decode_tokens_used t
unfolding encode_tokens_used decode_tokens_used
tokens_used-Codec t f = Codec-bind _ (int64-Codec t.prompt_tokens f.prompt) (
    Codec-bind _ (int64-Codec t.cached_tokens f.cached) (
      Codec-bind _ (int64-Codec t.completion_tokens f.completion) (
        Codec-bind _ (int64-Codec t.reasoning_tokens f.reasoning)
          (Codec-bind _ (int64-Codec t.total_tokens f.total) (Codec-pure t)))))

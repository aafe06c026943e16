-- ===== src/Tl/Types.antt =====
-- pkg/tl/types.go: client.params, proxy.params, tokensUsed, and the calls of the handshake.
pub mod RoundTrip
use Prim.Native.Nat.{bit_and}
use gocoon.Common.{ℕ, Bool, true, false, Bytes, not, ◌==◌, if◌then◌else◌, replicate}
use gocoon.Common.Int.{ℤ, pos}
use gocoon.Tl.Constants.{
  id_client_params, id_proxy_params, id_client_connect_to_proxy,
  id_client_authorize_with_proxy_short, id_client_authorize_with_proxy_long,
}
use gocoon.Tl.Reader.{
  TlError, Parser, ◌>>=◌, pure, read_flags, read_string, read_bool, read_int32, read_int64,
  read_int256,
}
use gocoon.Tl.Writer.{
  Writer, ◌▹◌, write_uint32, write_flags, write_string, write_bool, write_int32, write_int64,
  write_int256, write_bytes,
}

-- `flags & mask != 0`
abbrev pub flag_set : ℕ → ℕ → Bool
flag_set flags mask = not (bit_and flags mask == 0)

-- The branch of an `if` that writes nothing.
abbrev pub skip : Writer → Writer
skip w = w

-- Bits 0 and 1 of the flags of both parameter types.
abbrev pub has_is_test : ℕ → Bool
has_is_test flags = flag_set flags 0x1

abbrev pub has_proto_version : ℕ → Bool
has_proto_version flags = flag_set flags 0x2

pub record ClientParams : Type 0 where
  pub flags : ℕ
  pub client_owner_addr : Bytes
  pub is_test : Bool
  pub min_proto_version : ℤ
  pub max_proto_version : ℤ

-- The two versions, where bit 1 says that they are there.
abbrev write_versions : ClientParams → Writer → Writer
write_versions p w = w ▹ write_int32 p.min_proto_version ▹ write_int32 p.max_proto_version

abbrev read_versions : Parser TlError (ℤ × ℤ)
read_versions = do lo ← read_int32; hi ← read_int32; pure (lo, hi)

unfoldable pub encode_client_params : Bool → ClientParams → Writer → Writer
encode_client_params boxed p w =
    w
    ▹ (if boxed then write_uint32 id_client_params else skip)
    ▹ write_flags p.flags
    ▹ write_string p.client_owner_addr
    ▹ (if has_is_test p.flags then write_bool p.is_test else skip)
    ▹ (if has_proto_version p.flags then write_versions p else skip)

-- A field that is not on the wire keeps Go's zero value.
unfoldable pub decode_client_params_body : Parser TlError ClientParams
decode_client_params_body = do
  flags ← read_flags
  addr ← read_string
  is_test ← (if has_is_test flags then read_bool else pure false)
  (lo, hi) ← (if has_proto_version flags then read_versions else pure (pos 0, pos 0))
  pure (record {
    flags = flags;
    client_owner_addr = addr;
    is_test = is_test;
    min_proto_version = lo;
    max_proto_version = hi;
  })

pub record ProxyParams : Type 0 where
  pub flags : ℕ
  pub public_key : Bytes
  pub owner_address : Bytes
  pub sc_address : Bytes
  pub is_test : Bool
  pub proto_version : ℤ

unfoldable pub encode_proxy_params : Bool → ProxyParams → Writer → Writer
encode_proxy_params boxed p w =
    w
    ▹ (if boxed then write_uint32 id_proxy_params else skip)
    ▹ write_flags p.flags
    ▹ write_int256 p.public_key
    ▹ write_string p.owner_address
    ▹ write_string p.sc_address
    ▹ (if has_is_test p.flags then write_bool p.is_test else skip)
    ▹ (if has_proto_version p.flags then write_int32 p.proto_version else skip)

unfoldable pub decode_proxy_params_body : Parser TlError ProxyParams
decode_proxy_params_body = do
  flags ← read_flags
  key ← read_int256
  owner ← read_string
  sc ← read_string
  is_test ← (if has_is_test flags then read_bool else pure false)
  version ← (if has_proto_version flags then read_int32 else pure (pos 0))
  pure (record {
    flags = flags;
    public_key = key;
    owner_address = owner;
    sc_address = sc;
    is_test = is_test;
    proto_version = version;
  })

pub record TokensUsed : Type 0 where
  pub prompt_tokens : ℤ
  pub cached_tokens : ℤ
  pub completion_tokens : ℤ
  pub reasoning_tokens : ℤ
  pub total_tokens : ℤ

unfoldable pub encode_tokens_used : TokensUsed → Writer → Writer
encode_tokens_used t w =
    w
    ▹ write_int64 t.prompt_tokens
    ▹ write_int64 t.cached_tokens
    ▹ write_int64 t.completion_tokens
    ▹ write_int64 t.reasoning_tokens
    ▹ write_int64 t.total_tokens

unfoldable pub decode_tokens_used : Parser TlError TokensUsed
decode_tokens_used = do
  prompt ← read_int64
  cached ← read_int64
  completion ← read_int64
  reasoning ← read_int64
  total ← read_int64
  pure (record {
    prompt_tokens = prompt;
    cached_tokens = cached;
    completion_tokens = completion;
    reasoning_tokens = reasoning;
    total_tokens = total;
  })

pub record ClientConnectToProxy : Type 0 where
  pub params : ClientParams
  pub min_config_version : ℤ

unfoldable pub encode_connect_to_proxy : ClientConnectToProxy → Writer → Writer
encode_connect_to_proxy c w =
    w
    ▹ write_uint32 id_client_connect_to_proxy
    ▹ encode_client_params false c.params
    ▹ write_int32 c.min_config_version

unfoldable pub encode_authorize_short : Bytes → Writer → Writer
encode_authorize_short secret w =
    w ▹ write_uint32 id_client_authorize_with_proxy_short ▹ write_bytes secret

unfoldable pub encode_authorize_long : Writer → Writer
encode_authorize_long w = w ▹ write_uint32 id_client_authorize_with_proxy_long

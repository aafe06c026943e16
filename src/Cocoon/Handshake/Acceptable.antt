-- ===== src/Cocoon/Handshake/Acceptable.antt =====
-- validateConnectedToProxy of pkg/cocoon/handshake.go: which answers the client goes on with.
use gocoon.Common.{◌≤◌, ◌≡◌, true, false, none, ◌&&◌, ◌||◌, Bool-cases, inl, inr, ◌⊎◌, ◌↔◌, arith}
use gocoon.Common.Int.{ℤ, pos, negsuc, int_ltb}
use gocoon.Tl.Types.{flag_set, has_is_test, has_proto_version}
use gocoon.Cocoon.Handshake.{ConnectedToProxyDecoded, validate_connected_to_proxy}

-- A protocol version that the client speaks.
abbrev pub IsSupported : ℤ → Type 0
IsSupported (pos v) = (1 ≤ v) × (v ≤ 4)
IsSupported (negsuc v) = ⊥

version_iff : (v : ℤ) → ((int_ltb v (pos 1) || int_ltb (pos 4) v) ≡ false) ↔ IsSupported v
version_iff (pos v) = (λ h. (ground arith, ground arith), λ h. ground arith)
version_iff (negsuc v) = (λ h. cc, λ h. absurd h)

-- What the client asks of the answer to connectToProxy.
pub record IsAcceptable (d : ConnectedToProxyDecoded) : Type 0 where
  pub recent : flag_set d.proxy_params.flags 0x3 ≡ true
  pub mainnet : has_is_test d.proxy_params.flags && d.proxy_params.is_test ≡ false
  pub version :
      (has_proto_version d.proxy_params.flags ≡ false) ⊎ IsSupported d.proxy_params.proto_version

-- The checks of the answer to connectToProxy pass if and only if bit 0 or bit 1 of the flags is
-- set, the proxy does not state test mode, and a version that it states is 1 to 4.
pub validate-eq-none_iff :
    (d : ConnectedToProxyDecoded) → (validate_connected_to_proxy d ≡ none) ↔ IsAcceptable d
unfolding validate_connected_to_proxy
validate-eq-none_iff d = (
  λ h. record {
    recent = ground arith;
    mainnet = ground arith;
    version = elim (Bool-cases (has_proto_version d.proxy_params.flags)) [
      | inl b ↦ inr ((version_iff d.proxy_params.proto_version).0 (ground arith))
      | inr b ↦ inl b
    ];
  },
  λ a. elim a.version [
    | inl b ↦ ground (arith, a.recent, a.mainnet)
    | inr v ↦ ground (arith, a.recent, a.mainnet, (version_iff d.proxy_params.proto_version).1 v)
  ],
)

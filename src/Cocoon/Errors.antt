-- ===== src/Cocoon/Errors.antt =====
-- pkg/cocoon/errors.go: the sentinel errors, and the structured errors that unwrap to them.
use gocoon.Common.{ℕ, Bytes, Option, if◌then◌else◌}
use gocoon.Common.Int.{ℤ}
use gocoon.Tl.Reader.{TlError}
use gocoon.Tl.Frame.{FrameError}
use Prim.Native.String.{String}
use text.Mathlib.Text.{◌==◌ as str_eq}

pub data Sentinel : Type 0 where
  invalid_config missing_node_key missing_owner_address unsupported_network : Sentinel
  root_contract_unreachable root_decode proxy_unknown : Sentinel
  connection_failed tls_handshake handshake_timeout protocol_mismatch test_mode_mismatch : Sentinel
  auth_failed : Sentinel
  insufficient_balance channel_closed channel_closing stake_below_min : Sentinel
  request_rejected request_timeout model_unknown : Sentinel
  not_connected already_closed incompatible_schema unsupported : Sentinel

pub record ProxyError : Type 0 where
  pub code : ℤ
  pub message : Bytes
  pub phase : String
  pub request_id : Option Bytes

-- Unwrap.
unfoldable pub unwrap : ProxyError → Sentinel
unwrap e =
    if str_eq e.phase "auth"
    then auth_failed
    else if str_eq e.phase "query"
    then request_rejected
    else request_rejected

-- The errors that the modelled code returns. `wrapped` is a sentinel under `%w`, alone or with text,
-- `wrong_constructor` wraps tl.ErrUnknownConstructor, and the last three lines are errors that have
-- no sentinel.
pub data Error : Type 0 where
  wrapped : Sentinel → Error
  proxy : ProxyError → Error
  tl : TlError → Error
  frame : FrameError → Error
  wrong_constructor : ℕ → Error
  on_chain_register : Error → Error
  unknown_id unexpected_constructor : ℕ → Error
  eof closed_by_caller cancelled : Error
  correlator_closed duplicate_query_id no_worker_models : Error

-- ===== src/Runner/Config.antt =====
-- cmd/gocoon-runner/config.go, and splitEndpoints of cmd/gocoon-runner/discovery.go.
pub mod Valid
use gocoon.Common.{
  ℕ, Bool, true, false, not, ◌&&◌, ◌||◌, Bytes, List, [], ◌∷◌, ◌++◌, Option, none, some, ◌==◌,
  if◌then◌else◌, length,
}
use gocoon.Common.Int.{ℤ, pos, int_ltb}
use gocoon.Common.Assoc.{bytes_beq}
use gocoon.Tl.Ids.{codes}
use gocoon.Runner.Prompt.{is_empty}

-- What the runner takes from elsewhere: address.ParseAddr, which gives the text of its error or none,
-- the two base64 decoders, and path/filepath.
pub record Outside : Type 0 where
  pub parse_addr_error : Bytes → Option Bytes
  pub std_encoding : Bytes → Option Bytes
  pub url_encoding : Bytes → Option Bytes
  pub is_abs : Bytes → Bool
  pub dir : Bytes → Bytes
  pub join : Bytes → Bytes → Bytes

abbrev pub mainnet_root : Bytes
mainnet_root = codes "EQCns7bYSp0igFvS1wpb5wsZjCKCV19MD5AVzI4EyxsnU73k"

abbrev is_one_of : Bytes → List Bytes → Bool
is_one_of s [] = false
is_one_of s (t ∷ ts) = bytes_beq s t || is_one_of s ts

-- flexBool.UnmarshalJSON: the value, or none where the text is refused.
unfoldable pub unmarshal_flex_bool : Bytes → Option Bool
unmarshal_flex_bool s =
    if is_one_of s (codes "true" ∷ codes "1" ∷ codes "\"1\"" ∷ codes "\"true\"" ∷ [])
    then some true
    else if is_one_of s (
        codes "false"
        ∷ codes "0"
        ∷ codes "\"0\""
        ∷ codes "\"false\""
        ∷ codes "\"\""
        ∷ codes "null"
        ∷ [])
    then some false
    else none

pub record ClientConfig : Type 0 where
  pub is_test : Bool
  pub is_testnet : Bool
  pub http_port : ℤ
  pub rpc_port : ℤ
  pub proxy_connections : ℤ
  pub connect_to_proxy_via : Bytes
  pub owner_address : Bytes
  pub root_contract_addr : Bytes
  pub node_wallet_key : Bytes
  pub check_proxy_hashes : Bool
  pub secret_string : Bytes
  pub ton_config_filename : Bytes
  pub http_access_hash : Bytes
  pub max_coefficient : ℤ
  pub max_tokens : ℤ

-- `decoded_length` is the reason that gives the length of the key.
pub data Reason : Type 0 where
  reason : Bytes → Reason
  decoded_length : ℕ → Reason

pub record ConfigError : Type 0 where
  pub field : Bytes
  pub why : Reason

abbrev config_error : Bytes → Bytes → Option ConfigError
config_error f r = some (record { field = f; why = reason r })

module _ (lib : Outside) where
  -- The key in one of the two encodings.
  abbrev pub key_bytes : ClientConfig → Option Bytes
  key_bytes c = elim (lib.std_encoding c.node_wallet_key) [
    | some k ↦ some k
    | none ↦ lib.url_encoding c.node_wallet_key
  ]

  -- The checks from the key on.
  abbrev pub validate_key : ClientConfig → Option Bytes → Option ConfigError
  validate_key c none = config_error (codes "node_wallet_key") (codes "not valid base64")
  validate_key c (some k) =
      if not (length k == 32)
      then some (record { field = codes "node_wallet_key"; why = decoded_length (length k) })
      else if is_empty c.ton_config_filename
      then config_error (codes "ton_config_filename") (codes "required")
      else none

  abbrev pub validate_root : ClientConfig → Option Bytes → Option ConfigError
  validate_root c (some e) = config_error (codes "root_contract_address") e
  validate_root c none =
      if not (bytes_beq c.root_contract_addr mainnet_root)
      then config_error (codes "root_contract_address") (codes "v1 mainnet only: " ++ mainnet_root)
      else if c.is_test || c.is_testnet
      then config_error (codes "is_test/is_testnet") (codes "v1 mainnet only")
      else if is_empty c.node_wallet_key
      then config_error (codes "node_wallet_key") (codes "required")
      else validate_key c (key_bytes c)

  abbrev pub validate_owner : ClientConfig → Option Bytes → Option ConfigError
  validate_owner c (some e) = config_error (codes "owner_address") e
  validate_owner c none = validate_root c (lib.parse_addr_error c.root_contract_addr)

  unfoldable pub validate : ClientConfig → Option ConfigError
  validate c =
      if int_ltb c.http_port (pos 1) || int_ltb (pos 65535) c.http_port
      then config_error (codes "http_port") (codes "must be 1..65535")
      else if int_ltb c.proxy_connections (pos 1)
      then config_error (codes "proxy_connections") (codes "must be >= 1")
      else validate_owner c (lib.parse_addr_error c.owner_address)

  abbrev pub check_length : Option Bytes → Option Bytes
  check_length none = none
  check_length (some k) = if not (length k == 32) then none else some k

  unfoldable pub node_key_bytes : ClientConfig → Option Bytes
  node_key_bytes c = check_length (key_bytes c)

  unfoldable pub resolve_ton_config : Bytes → ClientConfig → Bytes
  resolve_ton_config config_file_path c =
      if lib.is_abs c.ton_config_filename
      then c.ton_config_filename
      else lib.join (lib.dir config_file_path) c.ton_config_filename

-- Whether `raw[i] == ' ' || raw[i] == '\t'`.
abbrev pub is_blank : ℕ → Bool
is_blank c = c == b' ' || c == b'\t'

-- A token ends: `raw[start:i]` where it is not empty.
abbrev pub push_token : Bytes → List Bytes → List Bytes
push_token [] tokens = tokens
push_token (c ∷ cur) tokens = tokens ++ (c ∷ cur) ∷ []

-- The loop of splitEndpoints; `cur` is what stands between start and i.
unfoldable pub split_loop : Bytes → Bytes → List Bytes → List Bytes
split_loop [] cur tokens = push_token cur tokens
split_loop (c ∷ raw) cur tokens =
    let next = split_loop raw [] (push_token cur tokens) in
    let same = split_loop raw (cur ++ c ∷ []) tokens in if is_blank c then next else same

unfoldable pub split_endpoints : Bytes → List Bytes
split_endpoints raw = elim (split_loop raw [] []) [
  | [] ↦ []
  | t ∷ [] ↦ t ∷ []
  | t ∷ u ∷ ts ↦ u ∷ ts
]

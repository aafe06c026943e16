-- ===== src/Runner/Config/Valid.antt =====
-- Which configurations Validate lets pass, and that they have a key.
use gocoon.Common.{
  ℕ, ◌≤◌, ◌≡◌, ◌↔◌, refl, sym, ap, ◌∙◌, Bool, true, false, not, ◌||◌, Bytes, Option, none, some,
  ◌==◌, length, if◌then◌else◌, Bool-cases, inl, inr, arith,
}
use gocoon.Common.Int.{ℤ, pos, negsuc, int_ltb}
use gocoon.Common.Assoc.{bytes_beq_iff}
use gocoon.Runner.Prompt.{is_empty}
use gocoon.Runner.Config.{
  Outside, ClientConfig, mainnet_root, key_bytes, check_length, validate_key, validate_root,
  validate_owner, validate, node_key_bytes,
}

abbrev pub Within : ℕ → ℕ → ℤ → Type 0
Within lo hi (pos n) = (lo ≤ n) × (n ≤ hi)
Within lo hi (negsuc n) = ⊥

abbrev pub Positive : ℤ → Type 0
Positive (pos n) = 1 ≤ n
Positive (negsuc n) = ⊥

pub record IsValid (lib : Outside) (c : ClientConfig) : Type 0 where
  pub port : Within 1 65535 c.http_port
  pub connections : Positive c.proxy_connections
  pub owner : lib.parse_addr_error c.owner_address ≡ none
  pub root_parses : lib.parse_addr_error c.root_contract_addr ≡ none
  pub root : c.root_contract_addr ≡ mainnet_root
  pub mainnet : (c.is_test || c.is_testnet) ≡ false
  pub has_key : is_empty c.node_wallet_key ≡ false
  pub key : (k : Bytes) × (node_key_bytes lib c ≡ some k) × (length k ≡ 32)
  pub has_ton_config : is_empty c.ton_config_filename ≡ false

Within-iff : (v : ℤ) → ((int_ltb v (pos 1) || int_ltb (pos 65535) v) ≡ false) ↔ Within 1 65535 v
Within-iff (pos v) = (λ h. (ground arith, ground arith), λ h. ground arith)
Within-iff (negsuc v) = (λ h. cc, λ h. absurd h)

Positive-iff : (v : ℤ) → (int_ltb v (pos 1) ≡ false) ↔ Positive v
Positive-iff (pos v) = (λ h. ground arith, λ h. ground arith)
Positive-iff (negsuc v) = (λ h. cc, λ h. absurd h)

-- A check passes if and only if its test is false and the rest passes.
check_iff {ℓ} :
    {E : Type ℓ} (b : Bool) (e : E) (o : Option E)
    → ((if b then some e else o) ≡ none) ↔ ((b ≡ false) × (o ≡ none))
check_iff true e o = (λ h. cc, λ h. cc (h.0))
check_iff false e o = (λ h. (refl, h), λ h. h.1)

not_iff : (b : Bool) → (not b ≡ false) ↔ (b ≡ true)
not_iff true = (λ h. refl, λ h. refl)
not_iff false = (λ h. cc, λ h. cc)

module _ (lib : Outside) (c : ClientConfig) where
  module _ (k : Bytes) where
    key_length : key_bytes lib c ≡ some k → length k ≡ 32 → node_key_bytes lib c ≡ some k
    unfolding node_key_bytes
    key_length h g = ap (check_length lib) h ∙ ap (λ n. if not (n == 32) then none else some k) g

  owner_none :
      (o : Option Bytes)
      → validate_owner lib c o ≡ none
      → (o ≡ none) × (validate_root lib c (lib.parse_addr_error c.root_contract_addr) ≡ none)
  owner_none none h = (refl, h)
  owner_none (some e) h = cc

  root_none :
      (o : Option Bytes)
      → validate_root lib c o ≡ none
      → (o ≡ none)
        × (c.root_contract_addr ≡ mainnet_root)
        × ((c.is_test || c.is_testnet) ≡ false)
        × (is_empty c.node_wallet_key ≡ false)
        × (validate_key lib c (key_bytes lib c) ≡ none)
  root_none (some e) h = cc
  root_none none h =
      let (a, h1) = (check_iff _ _ _).0 h in
      let (b, h2) = (check_iff _ _ _).0 h1 in
      let (d, h3) = (check_iff _ _ _).0 h2 in
      (refl, (bytes_beq_iff c.root_contract_addr mainnet_root).0 ((not_iff _).0 a), b, d, h3)

  key_none :
      (o : Option Bytes)
      → validate_key lib c o ≡ none
      → (k : Bytes) × (o ≡ some k) × (length k ≡ 32) × (is_empty c.ton_config_filename ≡ false)
  key_none none h = cc
  key_none (some k) h =
      let (a, h1) = (check_iff (not (length k == 32)) _ _).0 h in
      let (b, h2) = (check_iff _ _ _).0 h1 in (k, refl, (ground (arith, a)), b)

  IsValid-of : validate lib c ≡ none → IsValid lib c
  unfolding validate
  IsValid-of h =
      let (a, h1) = (check_iff _ _ _).0 h in
      let (b, h2) = (check_iff _ _ _).0 h1 in
      let (o, h3) = owner_none (lib.parse_addr_error c.owner_address) h2 in
      let (r, root, net, key, h4) = root_none (lib.parse_addr_error c.root_contract_addr) h3 in
      let (k, at, len, ton) = key_none (key_bytes lib c) h4 in
      record {
        port = (Within-iff c.http_port).0 a;
        connections = (Positive-iff c.proxy_connections).0 b;
        owner = o;
        root_parses = r;
        root = root;
        mainnet = net;
        has_key = key;
        key = (k, key_length k at len, len);
        has_ton_config = ton;
      }

  key_passes :
      (o : Option Bytes) (k : Bytes)
      → check_length lib o ≡ some k
      → is_empty c.ton_config_filename ≡ false
      → validate_key lib c o ≡ none
  key_passes none k h g = cc
  key_passes (some j) k h g = elim (Bool-cases (not (length j == 32))) [
    | inl e ↦ cc (sym h ∙ ap (λ b. if b then none else some j) e)
    | inr e ↦ (check_iff _ _ _).1 (e, (check_iff _ _ _).1 (g, refl))
  ]

  decoded : (v : IsValid lib c) → check_length lib (key_bytes lib c) ≡ some v.key.0
  unfolding node_key_bytes
  decoded v = v.key.1

  IsValid-passes : IsValid lib c → validate lib c ≡ none
  unfolding validate
  IsValid-passes v = (check_iff _ _ _).1 (
    (Within-iff c.http_port).1 v.port,
    (check_iff _ _ _).1 (
      (Positive-iff c.proxy_connections).1 v.connections,
      ap (validate_owner lib c) v.owner
          ∙ ap (validate_root lib c) v.root_parses
          ∙ (check_iff _ _ _).1 (
            (not_iff _).1 ((bytes_beq_iff c.root_contract_addr mainnet_root).1 v.root),
            (check_iff _ _ _).1 (
              v.mainnet,
              (check_iff _ _ _).1
                  (v.has_key, key_passes (key_bytes lib c) v.key.0 (decoded v) v.has_ton_config),
            ),
          ),
    ),
  )

-- Validate finds no error if and only if the port is 1 to 65535, there is at least one
-- connection, both addresses parse, the root contract is the one of mainnet, neither test flag is
-- set, the name of the TON configuration is not empty, and the key is not empty and NodeKeyBytes
-- decodes it, to 32 bytes.
pub validate-IsValid : (lib : Outside) (c : ClientConfig) → (validate lib c ≡ none) ↔ IsValid lib c
validate-IsValid lib c = (IsValid-of lib c, IsValid-passes lib c)

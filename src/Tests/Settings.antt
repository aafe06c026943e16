-- ===== src/Tests/Settings.antt =====
-- A configuration of the runner, and the models of a proxy.
use gocoon.Common.{◌≡◌, ◌↔◌, refl, arith, false, [], ◌∷◌, none, some, length, replicate, map}
use gocoon.Common.Int.{pos}
use gocoon.Tl.Ids.{codes}
use gocoon.Tl.Reader.{ok}
use gocoon.Runner.Config.{
  Outside, ClientConfig, mainnet_root, validate, split_endpoints, split_loop,
}
use gocoon.Runner.Config.Valid.{IsValid, validate-IsValid}
use gocoon.Cocoon.Models.{decode_worker_types_v2}
use gocoon.Cocoon.Models.RoundTrip.{
  Model, type_of, write_models, decode_worker_types_v2-write_models,
}
use gocoon.Cocoon.Handshake.Wire.{written}

-- Addresses all parse, and a key is 32 bytes in the second encoding.
abbrev outside : Outside
outside = record {
  parse_addr_error = λ s. none;
  std_encoding = λ s. none;
  url_encoding = λ s. some (replicate 32 7);
  is_abs = λ s. false;
  dir = λ s. s;
  join = λ s t. t;
}

abbrev config : ClientConfig
config = record {
  is_test = false;
  is_testnet = false;
  http_port = pos 8080;
  rpc_port = pos 0;
  proxy_connections = pos 1;
  connect_to_proxy_via = [];
  owner_address = codes "owner";
  root_contract_addr = mainnet_root;
  node_wallet_key = codes "key";
  check_proxy_hashes = false;
  secret_string = [];
  ton_config_filename = codes "ton.json";
  http_access_hash = [];
  max_coefficient = pos 0;
  max_tokens = pos 0;
}

validate-config : validate outside config ≡ none
unfolding validate
validate-config = refl

validate-IsValid_example : (validate outside config ≡ none) ↔ IsValid outside config
validate-IsValid_example = validate-IsValid outside config

split_two : split_endpoints (codes "workers:1  clients:2\tx") ≡ codes "clients:2" ∷ codes "x" ∷ []
unfolding split_endpoints split_loop
split_two = refl

abbrev a_model : Model
a_model = (
  codes "m",
  (0, record { coefficient = pos 1000; active_requests = pos 1; max_active_requests = pos 8 }) ∷ [],
)

decode_worker_types_v2-write_models_example :
    decode_worker_types_v2 (written (write_models (a_model ∷ [])))
    ≡ ok (map type_of (a_model ∷ [])) (record {
      buf = written (write_models (a_model ∷ []));
      pos = length (written (write_models (a_model ∷ [])));
    })
decode_worker_types_v2-write_models_example =
    decode_worker_types_v2-write_models a_model [] (omega arith)
      ((omega arith, omega arith, ((omega arith, omega arith, omega arith, omega arith), tt)), tt)

-- ===== src/Tests/Handshakes.antt =====
-- The handshake against a peer that answers as a proxy does.
use gocoon.Common.{
  ◌≡◌, refl, arith, false, List, [], ◌∷◌, none, some, length, replicate, ◌==◌, if◌then◌else◌, ◌↔◌,
}
use gocoon.Common.Int.{pos}
use gocoon.Common.State.{ok}
use gocoon.Cocoon.Handshake.{
  decode_connected_to_proxy, decode_authorization_with_proxy, validate_connected_to_proxy,
  encode_client_connect_to_proxy,
}
use gocoon.Cocoon.Handshake.Wire.{
  long, signed, unsigned, Connected, ConnectedFits, write_connected, connected_value, Authorization,
  granted, write_authorization, authorization_value, written,
}
use gocoon.Cocoon.Handshake.Decode.{
  decode_connected_to_proxy-write_connected, decode_authorization-write_authorization,
}
use gocoon.Cocoon.Handshake.Run.{
  Event, connect_sent, query_sent, registered, answer, Peer, HandshakeResult, authorize_long_body,
  run_handshake, send_tcp_connect, send_connect_to_proxy, authorize, finish, await,
  register_if_given, send_authorize_long,
}
use gocoon.Cocoon.Handshake.Acceptable.{IsAcceptable, validate-eq-none_iff}
use gocoon.Cocoon.Handshake.Sequence.{run_handshake_secret_unused, IsReady, run_handshake-IsReady}

abbrev hello : Connected
hello = record {
  params = record {
    flags = 3;
    public_key = replicate 32 5;
    owner_address = 69 ∷ [];
    sc_address = 81 ∷ [];
    is_test = false;
    proto_version = pos 2;
  };
  address = 81 ∷ 82 ∷ [];
  auth = long 9;
  payment = unsigned;
}

hello_fits : ConnectedFits hello
hello_fits = record {
  params = record {
    flags = omega arith;
    key = refl;
    owner = omega arith;
    sc = omega arith;
    test = λ h. cc;
    range = omega arith;
    version = λ h. cc;
  };
  address = omega arith;
  auth = omega arith;
  payment = tt;
}

decode_connected_to_proxy-write_connected_example :
    decode_connected_to_proxy (written (write_connected hello))
    ≡ ok (connected_value hello) (record {
      buf = written (write_connected hello);
      pos = length (written (write_connected hello));
    })
decode_connected_to_proxy-write_connected_example =
    decode_connected_to_proxy-write_connected hello hello_fits

abbrev grant : Authorization
grant = granted (signed (1 ∷ 2 ∷ [])) (pos 5) (pos 100)

decode_authorization-write_authorization_example :
    decode_authorization_with_proxy (written (write_authorization grant))
    ≡ ok (authorization_value grant) (record {
      buf = written (write_authorization grant);
      pos = length (written (write_authorization grant));
    })
decode_authorization-write_authorization_example =
    decode_authorization-write_authorization grant (omega arith, omega arith, omega arith)

validate-eq-none_iff_example :
    (validate_connected_to_proxy (connected_value hello) ≡ none)
    ↔ IsAcceptable (connected_value hello)
validate-eq-none_iff_example = validate-eq-none_iff (connected_value hello)

-- A proxy that answers the second event with its hello and the fourth with a grant, and a chain
-- that registers.
abbrev peer : Peer
peer = record {
  send_connect = λ _. none;
  wait_inited = none;
  await_query = λ trace _. answer (
      if length trace == 2
      then written (write_connected hello)
      else written (write_authorization grant));
  register_on_chain = some (λ _ _ _. none);
}

run_handshake_secret_unused_example :
    run_handshake peer (pos 1) (69 ∷ []) (pos 3) [] []
    ≡ run_handshake peer (pos 1) (69 ∷ []) (pos 3) (1 ∷ 2 ∷ []) []
run_handshake_secret_unused_example =
    run_handshake_secret_unused peer (pos 1) (69 ∷ []) (pos 3) [] (1 ∷ 2 ∷ []) []

abbrev result : HandshakeResult
result = record {
  proxy_params = hello.params;
  client_sc_address = hello.address;
  proto_version = pos 2;
  signed_payment_blob = 1 ∷ 2 ∷ [];
  tokens_committed_db = pos 5;
  max_tokens = pos 100;
}

abbrev trace : List Event
trace =
    connect_sent (pos 1)
    ∷ query_sent (encode_client_connect_to_proxy (69 ∷ []) (pos 3))
    ∷ registered hello.address 9 hello.params
    ∷ query_sent authorize_long_body
    ∷ []

run_handshake_returns : run_handshake peer (pos 1) (69 ∷ []) (pos 3) (7 ∷ []) [] ≡ ok result trace
unfolding run_handshake send_tcp_connect send_connect_to_proxy authorize finish await
    register_if_given send_authorize_long validate_connected_to_proxy
run_handshake_returns =
    rw
      (
        decode_connected_to_proxy-write_connected hello hello_fits,
        decode_authorization-write_authorization grant (omega arith, omega arith, omega arith),
      )
      refl

run_handshake-IsReady_example : IsReady peer (pos 1) (69 ∷ []) (pos 3) result trace
run_handshake-IsReady_example =
    run_handshake-IsReady peer (pos 1) (69 ∷ []) (pos 3) (7 ∷ []) result trace run_handshake_returns

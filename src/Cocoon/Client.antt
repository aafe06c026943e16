-- ===== src/Cocoon/Client.antt =====
-- The sessions of a client: pkg/cocoon/client.go and the status of pkg/cocoon/session.go.
pub mod Answers
pub mod Calls
pub mod Tidy
use gocoon.Common.{
  ℕ, zero, suc, Bool, true, false, not, ◌&&◌, Bytes, List, [], ◌∷◌, Option, none, some, ◌==◌,
  if◌then◌else◌,
}
use gocoon.Common.Assoc.{lookup, delete, put, bytes_eq}
use gocoon.Common.State.{Result, Method, ok, err}
use gocoon.Runner.Prompt.{is_empty}

pub data SessionStatus : Type 0 where
  session_connecting session_ready session_disconnected session_crashed : SessionStatus

abbrev pub is_ready : SessionStatus → Bool
is_ready session_ready = true
is_ready _ = false

-- What a client may answer a caller; `failed` is the error of a dial or of a handshake.
pub data Refusal : Type 0 where
  empty_address already_closed : Refusal
  failed : ℕ → Refusal

-- The fields of a Session that decide what becomes of it; `transport` is nil, or whether it is open.
pub record SessionState : Type 0 where
  pub proxy_addr : Bytes
  pub status : SessionStatus
  pub transport : Option Bool
  pub error : Option ℕ
  pub closed_once : Bool

-- A client names its sessions by slots, since those that left its map are still held by callers.
pub record Client : Type 0 where
  pub sessions : List (Bytes × ℕ)
  pub closed : Bool
  pub next_slot : ℕ
  pub slots : ℕ → SessionState

abbrev pub update : (ℕ → SessionState) → ℕ → SessionState → ℕ → SessionState
update f s c = λ i. if i == s then c else f i

unfoldable pub is_usable : SessionState → Bool
is_usable s = is_ready s.status && elim s.transport [ none ↦ false | some open_ ↦ open_ ]

abbrev pub new_session : Bytes → SessionState
new_session addr = record {
  proxy_addr = addr;
  status = session_connecting;
  transport = none;
  error = none;
  closed_once = false;
}

-- What New starts from.
unfoldable pub new_client : Client
new_client = record { sessions = []; closed = false; next_slot = 0; slots = λ k. new_session [] }

-- Session.Close.
unfoldable pub close_session : SessionState → SessionState
close_session s =
    if s.closed_once
    then s
    else record s { status = session_disconnected; transport = none; closed_once = true }

-- removeSession: the entry of the map goes, and the session is closed.
unfoldable pub remove_session : Bytes → Client → Client
remove_session addr c = elim (lookup addr c.sessions) [
  | none ↦ c
  | some k ↦ record c {
    sessions = delete addr c.sessions;
    slots = update c.slots k (close_session (c.slots k));
  }
]

-- `c.sessions[addr] = newSession(c, addr)`
unfoldable pub add_session : Bytes → Client → Client
add_session addr c = record c {
  sessions = put addr c.next_slot c.sessions;
  next_slot = suc c.next_slot;
  slots = update c.slots c.next_slot (new_session addr);
}

-- What Session.connect comes to.
pub data Outcome : Type 0 where
  dial_fails handshake_fails : ℕ → Outcome
  ready : Outcome

unfoldable pub connected : Outcome → SessionState → SessionState
connected (dial_fails e) s = record s { status = session_crashed; error = some e }
connected (handshake_fails e) s = record s {
  status = session_crashed;
  error = some e;
  transport = some false;
}
connected ready s = record s { status = session_ready; transport = some true }

abbrev pub settle : Outcome → ℕ → Client → Client
settle o k c = record c { slots = update c.slots k (connected o (c.slots k)) }

-- From the new session on.
unfoldable pub open_session : Bytes → Outcome → Method Client Refusal ℕ
open_session addr ready c = ok c.next_slot (settle ready c.next_slot (add_session addr c))
open_session addr (dial_fails e) c =
    err (failed e) (remove_session addr (settle (dial_fails e) c.next_slot (add_session addr c)))
open_session addr (handshake_fails e) c =
    err (failed e)
      (remove_session addr (settle (handshake_fails e) c.next_slot (add_session addr c)))

-- From the lookup of the address on.
abbrev pub connect_found : Bytes → Outcome → Option ℕ → Method Client Refusal ℕ
connect_found addr o none c = open_session addr o c
connect_found addr o (some k) c =
    let anew = open_session addr o (remove_session addr c) in
    if is_usable (c.slots k) then ok k c else anew

-- ConnectProxy, where no other call comes between its locks.
unfoldable pub connect_proxy : Bytes → Outcome → Method Client Refusal ℕ
connect_proxy addr o c =
    if is_empty addr
    then err empty_address c
    else if c.closed
    then err already_closed c
    else connect_found addr o (lookup addr c.sessions) c

unfoldable pub disconnect_proxy : Bytes → Client → Client
disconnect_proxy = remove_session

-- `for _, s := range sessions { _ = s.Close() }`
unfoldable pub close_each : List (Bytes × ℕ) → (ℕ → SessionState) → ℕ → SessionState
close_each [] f = f
close_each ((addr, k) ∷ es) f = close_each es (update f k (close_session (f k)))

-- Close, without that of the store.
unfoldable pub close : Method Client Refusal (Unit {0})
close c =
    if c.closed
    then err already_closed c
    else ok tt (record c { closed = true; sessions = []; slots = close_each c.sessions c.slots })

abbrev pub transport_lost : ℕ → Client → Option Bool → Client
transport_lost k c none = c
transport_lost k c (some open_) =
    let s = c.slots k in
    let c' = record c { slots = update c.slots k (record s { transport = some false }) } in
    let without = remove_session s.proxy_addr c' in if is_ready s.status then without else c'

-- removeOnTransportClose, once the transport of a session is closed.
unfoldable pub transport_closed : ℕ → Client → Client
transport_closed k c = transport_lost k c (c.slots k).transport

-- Wait, at one look at the session: what it returns, or that it goes on.
pub data Waiting : Type 0 where
  done again not_connected : Waiting
  with_error : ℕ → Waiting

unfoldable pub wait : SessionState → Waiting
wait s = elim s.status [
  | session_ready ↦ done
  | session_connecting ↦ again
  | _ ↦ elim s.error [ none ↦ not_connected | some e ↦ with_error e ]
]

-- ===== src/Cocoon/Client/Calls.antt =====
-- The calls of a client one after another: ConnectProxy, DisconnectProxy, Close and a lost transport.
use gocoon.Common.{
  ℕ, ◌≡◌, ◌⊎◌, inl, inr, refl, sym, ap, subst, ◌∙◌, Bool, true, false, Bytes, List, [], ◌∷◌, Option,
  none, some, ◌==◌, if◌then◌else◌, Option-cases, Bool-cases, arith,
}
use gocoon.Common.Assoc.{lookup, bytes_eq, bytes_beq, bytes_beq_iff, lookup-delete}
use gocoon.Common.State.{Result, ok, err}
use gocoon.Runner.Prompt.{is_empty}
use gocoon.Cocoon.Client.{
  SessionState, Client, Refusal, update, is_ready, is_usable, close_session, remove_session,
  add_session, Outcome, dial_fails, handshake_fails, ready, connected, settle, open_session,
  connect_found, transport_lost, new_client, connect_proxy, disconnect_proxy, close_each, close,
  transport_closed,
}
use gocoon.Cocoon.Client.Tidy.{
  IsTidy, replace-IsTidy, close_session_closes, same_slot, removed_none, removed_some,
  remove_session-IsTidy, add_session-IsTidy,
}

-- The client after a call.
abbrev pub client_of {ℓ} : {A : Type ℓ} → Result Client Refusal A → Client
client_of (ok a c) = c
client_of (err e c) = c

connected_same :
    (o : Outcome) (s : SessionState)
    → ((connected o s).proxy_addr ≡ s.proxy_addr) × ((connected o s).closed_once ≡ s.closed_once)
unfolding connected
connected_same (dial_fails e) s = (refl, refl)
connected_same (handshake_fails e) s = (refl, refl)
connected_same ready s = (refl, refl)

settle-IsTidy : (o : Outcome) (k : ℕ) (c : Client) → IsTidy c → IsTidy (settle o k c)
settle-IsTidy o k c w =
    replace-IsTidy c k (connected o (c.slots k)) w (connected_same o (c.slots k)).0
      (connected_same o (c.slots k)).1

pub lookup-remove_session :
    (addr : Bytes) (c : Client) → lookup addr (remove_session addr c).sessions ≡ none
lookup-remove_session addr c = elim (Option-cases (lookup addr c.sessions)) [
  | inl h ↦ ap (λ c'. lookup addr c'.sessions) (removed_none addr c h) ∙ h
  | inr (k, h) ↦
      ap (λ c'. lookup addr c'.sessions) (removed_some addr c k h)
      ∙ lookup-delete addr addr c.sessions
      ∙ ap (λ b. if b then none else lookup addr c.sessions) ((bytes_beq_iff addr addr).1 refl)
]

remove_session_closed : (addr : Bytes) (c : Client) → (remove_session addr c).closed ≡ c.closed
remove_session_closed addr c = elim (Option-cases (lookup addr c.sessions)) [
  | inl h ↦ ap (λ c'. c'.closed) (removed_none addr c h)
  | inr (k, h) ↦ ap (λ c'. c'.closed) (removed_some addr c k h)
]

open_session-IsTidy :
    (addr : Bytes) (o : Outcome) (c : Client)
    → lookup addr c.sessions ≡ none
    → c.closed ≡ false
    → IsTidy c
    → IsTidy (client_of (open_session addr o c))
unfolding open_session
open_session-IsTidy addr ready c h g w =
    settle-IsTidy ready c.next_slot (add_session addr c) (add_session-IsTidy addr c h w g)
open_session-IsTidy addr (dial_fails e) c h g w = remove_session-IsTidy addr _ (
    settle-IsTidy (dial_fails e) c.next_slot (add_session addr c) (add_session-IsTidy addr c h w g))
open_session-IsTidy addr (handshake_fails e) c h g w = remove_session-IsTidy addr _ (
    settle-IsTidy (handshake_fails e) c.next_slot (add_session addr c)
      (add_session-IsTidy addr c h w g))

-- What holds of both branches of a test holds of it.
pub both {ℓ κ} :
    {A : Type ℓ} (P : A → Type κ) (b : Bool) {x y : A}
    → (b ≡ true → P x)
    → (b ≡ false → P y)
    → P (if b then x else y)
both P true t e = t refl
both P false t e = e refl

-- What a call returns leaves the client tidy.
abbrev LeavesTidy {ℓ} : {A : Type ℓ} → Result Client Refusal A → Type 0
LeavesTidy r = IsTidy (client_of r)

connect_found-IsTidy :
    (addr : Bytes) (o : Outcome) (m : Option ℕ) (c : Client)
    → lookup addr c.sessions ≡ m
    → c.closed ≡ false
    → IsTidy c
    → IsTidy (client_of (connect_found addr o m c))
connect_found-IsTidy addr o none c h g w = open_session-IsTidy addr o c h g w
connect_found-IsTidy addr o (some k) c h g w =
    both {A = Result Client Refusal ℕ} LeavesTidy (is_usable (c.slots k)) (λ u. w)
      (λ u.
        open_session-IsTidy addr o (remove_session addr c) (lookup-remove_session addr c)
          (remove_session_closed addr c ∙ g) (remove_session-IsTidy addr c w))

connect_proxy-IsTidy :
    (addr : Bytes) (o : Outcome) (c : Client)
    → IsTidy c
    → IsTidy (client_of (connect_proxy addr o c))
unfolding connect_proxy
connect_proxy-IsTidy addr o c w =
    both {A = Result Client Refusal ℕ} LeavesTidy (is_empty addr) (λ e. w)
      (λ e.
        both {A = Result Client Refusal ℕ} LeavesTidy c.closed (λ g. w)
          (λ g. connect_found-IsTidy addr o (lookup addr c.sessions) c refl g w))

transport_lost-IsTidy :
    (k : ℕ) (c : Client) (t : Option Bool) → IsTidy c → IsTidy (transport_lost k c t)
transport_lost-IsTidy k c none w = w
transport_lost-IsTidy k c (some open_) w =
    let w' = replace-IsTidy c k (record (c.slots k) { transport = some false }) w refl refl in
    both IsTidy (is_ready (c.slots k).status)
      (λ e. remove_session-IsTidy (c.slots k).proxy_addr _ w') (λ e. w')

-- A session that is closed stays closed, and so are all in the list.
close_each_once :
    (es : List (Bytes × ℕ)) (f : ℕ → SessionState) (j : ℕ)
    → (f j).closed_once ≡ true
    → (close_each es f j).closed_once ≡ true
unfolding close_each
close_each_once [] f j h = h
close_each_once ((a, k) ∷ es) f j h = close_each_once es (update f k (close_session (f k))) j (
    both {A = SessionState} (λ s. s.closed_once ≡ true) (j == k) (λ e. close_session_closes (f k))
      (λ e. h))

close_each_all :
    (es : List (Bytes × ℕ)) (f : ℕ → SessionState) (a : Bytes) (j : ℕ)
    → lookup a es ≡ some j
    → (close_each es f j).closed_once ≡ true
unfolding close_each lookup
close_each_all [] f a j h = cc
close_each_all ((b, k) ∷ es) f a j h = elim (Bool-cases (bytes_beq b a)) [
  | inl e ↦
      let same : k ≡ j = cc (sym (ap (λ t. if t then some k else lookup a es) e) ∙ h) in
      close_each_once es (update f k (close_session (f k))) j (
        subst (λ i. (update f k (close_session (f k)) i).closed_once ≡ true) same
          (ap (λ s. s.closed_once) (same_slot f k k (close_session (f k)) (ground arith))
            ∙ close_session_closes (f k)))
  | inr e ↦
      close_each_all es (update f k (close_session (f k))) a j
        (sym (ap (λ t. if t then some k else lookup a es) e) ∙ h)
]

closed_all :
    (es : List (Bytes × ℕ)) (f : ℕ → SessionState) (j : ℕ)
    → ((f j).closed_once ≡ true) ⊎ (lookup (f j).proxy_addr es ≡ some j)
    → (close_each es f j).closed_once ≡ true
closed_all es f j (inl x) = close_each_once es f j x
closed_all es f j (inr x) = close_each_all es f (f j).proxy_addr j x

close-IsTidy : (c : Client) → IsTidy c → IsTidy (client_of (close c))
unfolding close lookup
close-IsTidy c w =
    both {A = Result Client Refusal (Unit {0})} LeavesTidy c.closed (λ g. w)
      (λ g. record {
        routed = λ a k h. cc h;
        kept = λ j h. inl (closed_all c.sessions c.slots j (w.kept j h));
        shut = λ h. refl;
      })

-- A call of the client, or the end of a session's transport.
pub data Call : Type 0 where
  connect : Bytes → Outcome → Call
  disconnect : Bytes → Call
  lost : ℕ → Call
  shut_down : Call

unfoldable pub apply : Call → Client → Client
apply (connect addr o) c = client_of (connect_proxy addr o c)
apply (disconnect addr) c = disconnect_proxy addr c
apply (lost k) c = transport_closed k c
apply shut_down c = client_of (close c)

unfoldable pub run : List Call → Client → Client
run [] c = c
run (x ∷ xs) c = run xs (apply x c)

apply-IsTidy : (x : Call) (c : Client) → IsTidy c → IsTidy (apply x c)
unfolding apply disconnect_proxy transport_closed
apply-IsTidy (connect addr o) c w = connect_proxy-IsTidy addr o c w
apply-IsTidy (disconnect addr) c w = remove_session-IsTidy addr c w
apply-IsTidy (lost k) c w = transport_lost-IsTidy k c (c.slots k).transport w
apply-IsTidy shut_down c w = close-IsTidy c w

run-IsTidy_from : (xs : List Call) (c : Client) → IsTidy c → IsTidy (run xs c)
unfolding run
run-IsTidy_from [] c w = w
run-IsTidy_from (x ∷ xs) c w = run-IsTidy_from xs (apply x c) (apply-IsTidy x c w)

new_client-IsTidy : IsTidy new_client
unfolding new_client lookup
new_client-IsTidy = record {
  routed = λ a k h. cc h;
  kept = λ k h. ground (arith, h);
  shut = λ h. refl;
}

-- After any list of calls of a new client, none of which overlap, and of losses of transports,
-- the map leads an address to a session of that address that is not closed, every session that
-- was opened is closed or in the map, so none is leaked, and the map of a closed client is empty.
pub run-IsTidy : (xs : List Call) → IsTidy (run xs new_client)
run-IsTidy xs = run-IsTidy_from xs new_client new_client-IsTidy

-- ===== src/Cocoon/Client/Answers.antt =====
-- What ConnectProxy answers, and what the client then has under the address.
use gocoon.Common.{
  ◌≡◌, ◌⊎◌, inl, inr, refl, ap, ◌∙◌, true, false, Option-cases, Bytes, [], ◌∷◌, Option, none, some,
  if◌then◌else◌, ℕ, arith,
}
use gocoon.Common.Assoc.{lookup, bytes_eq, bytes_beq_iff, lookup-put}
use gocoon.Common.State.{Result, ok, err}
use gocoon.Runner.Prompt.{is_empty}
use gocoon.Cocoon.Client.{
  Client, Refusal, empty_address, already_closed, failed, is_usable, remove_session, add_session,
  Outcome, dial_fails, handshake_fails, ready, connected, open_session, connect_found,
  connect_proxy,
}
use gocoon.Cocoon.Client.Tidy.{same_slot, removed_none, removed_some}
use gocoon.Cocoon.Client.Calls.{both, lookup-remove_session}

-- The session that is there for a caller.
abbrev pub usable_at : Client → Option ℕ → Option ℕ
usable_at c none = none
usable_at c (some k) = if is_usable (c.slots k) then some k else none

abbrev pub usable_session : Bytes → Client → Option ℕ
usable_session addr c = usable_at c (lookup addr c.sessions)

abbrev pub FailsWith : ℕ → Outcome → Type 0
FailsWith e o = (o ≡ dial_fails e) ⊎ (o ≡ handshake_fails e)

-- The call goes past its first two tests.
abbrev pub Admits : Bytes → Client → Type 0
Admits addr c = (is_empty addr ≡ false) × (c.closed ≡ false)

-- A connect was tried, with this outcome, since no session was there.
abbrev pub Tries : Bytes → Client → Type 0
Tries addr c = Admits addr c × (usable_session addr c ≡ none)

-- The answer where the connect has the outcome `o`.
abbrev pub Answers : Bytes → Outcome → Client → Result Client Refusal ℕ → Type 0
Answers addr o c (ok k c') =
    (is_usable (c'.slots k) ≡ true)
    × (lookup addr c'.sessions ≡ some k)
    × ((Admits addr c × (usable_session addr c ≡ some k) × (c' ≡ c))
        ⊎ (Tries addr c × (o ≡ ready) × (k ≡ c.next_slot)))
Answers addr o c (err empty_address c') = (addr ≡ []) × (c' ≡ c)
Answers addr o c (err already_closed c') = (is_empty addr ≡ false) × (c.closed ≡ true) × (c' ≡ c)
Answers addr o c (err (failed e) c') =
    Tries addr c × FailsWith e o × (lookup addr c'.sessions ≡ none)

-- A session is opened in `c'`, which is `c` or what is left of it without the address.
open_session-Answers :
    (addr : Bytes) (o : Outcome) (c c' : Client)
    → Tries addr c
    → c'.next_slot ≡ c.next_slot
    → Answers addr o c (open_session addr o c')
unfolding open_session is_usable connected add_session
open_session-Answers addr ready c c' t same = (
  ap is_usable (same_slot (add_session addr c').slots c'.next_slot c'.next_slot _ (ground arith)),
  lookup-put addr addr c'.next_slot c'.sessions
      ∙ ap (λ b. if b then some c'.next_slot else lookup addr c'.sessions)
          ((bytes_beq_iff addr addr).1 refl),
  inr (t, refl, same),
)
open_session-Answers addr (dial_fails e) c c' t same = (t, inl refl, lookup-remove_session addr _)
open_session-Answers addr (handshake_fails e) c c' t same =
    (t, inr refl, lookup-remove_session addr _)

remove_session_next : (addr : Bytes) (c : Client) → (remove_session addr c).next_slot ≡ c.next_slot
remove_session_next addr c = elim (Option-cases (lookup addr c.sessions)) [
  | inl h ↦ ap (λ (c' : Client). c'.next_slot) (removed_none addr c h)
  | inr (k, h) ↦ ap (λ (c' : Client). c'.next_slot) (removed_some addr c k h)
]

connect_found-Answers :
    (addr : Bytes) (o : Outcome) (m : Option ℕ) (c : Client)
    → Admits addr c
    → lookup addr c.sessions ≡ m
    → Answers addr o c (connect_found addr o m c)
connect_found-Answers addr o none c a h =
    open_session-Answers addr o c c (a, ap (usable_at c) h) refl
connect_found-Answers addr o (some k) c a h =
    both (Answers addr o c) (is_usable (c.slots k))
      (λ u. (u, h, inl (a, ap (usable_at c) h ∙ ap (λ b. if b then some k else none) u, refl)))
      (λ u.
        open_session-Answers addr o c (remove_session addr c)
          (a, ap (usable_at c) h ∙ ap (λ b. if b then some k else none) u)
          (remove_session_next addr c))

empty_iff : (s : Bytes) → is_empty s ≡ true → s ≡ []
empty_iff [] h = refl
empty_iff (x ∷ s) h = cc

-- A ConnectProxy that no other call overlaps answers that the address is empty, or else that the
-- client is closed, where this is so, and leaves the client as it was; else with the session that
-- the address leads to, where it is usable, and leaves the client as it was; else it tries a
-- connect: where that succeeds it answers with the new session, which is usable and which the
-- address then leads to, and where dialling or the handshake fails it answers with the error of
-- that and the address leads to no session.
pub connect_proxy-Answers :
    (addr : Bytes) (o : Outcome) (c : Client) → Answers addr o c (connect_proxy addr o c)
unfolding connect_proxy
connect_proxy-Answers addr o c =
    both (Answers addr o c) (is_empty addr) (λ e. (empty_iff addr e, refl))
      (λ e.
        both (Answers addr o c) c.closed (λ g. (e, g, refl))
          (λ g. connect_found-Answers addr o (lookup addr c.sessions) c (e, g) refl))

-- ===== src/Cocoon/Client/Tidy.antt =====
-- A session is in the map of its client or closed, as long as the calls do not overlap.
use gocoon.Common.{
  ℕ, ◌<◌, ◌≡◌, ◌⊎◌, inl, inr, refl, sym, ap, subst, ◌∙◌, Bool, true, false, Bytes, List, [], none,
  some, ◌==◌, if◌then◌else◌, Option-cases, Bool-cases, arith,
}
use gocoon.Common.Assoc.{
  lookup, delete, put, bytes_eq, bytes_beq, bytes_beq_iff, lookup-delete, lookup-put,
}
use gocoon.Cocoon.Client.{
  SessionState, Client, update, new_session, close_session, remove_session, add_session,
}

-- The map leads to sessions of their address that are not closed, every session that is not closed
-- is in the map, and the map of a closed client is empty.
pub record IsTidy (c : Client) : Type 0 where
  pub routed :
      (a : Bytes) (k : ℕ)
      → lookup a c.sessions ≡ some k
      → (k < c.next_slot) × ((c.slots k).proxy_addr ≡ a) × ((c.slots k).closed_once ≡ false)
  pub kept :
      (k : ℕ)
      → k < c.next_slot
      → ((c.slots k).closed_once ≡ true) ⊎ (lookup (c.slots k).proxy_addr c.sessions ≡ some k)
  pub shut : c.closed ≡ true → c.sessions ≡ []

close_session_same : (s : SessionState) → (close_session s).proxy_addr ≡ s.proxy_addr
unfolding close_session
close_session_same s = ground arith

pub close_session_closes : (s : SessionState) → (close_session s).closed_once ≡ true
unfolding close_session
close_session_closes s = ground arith

pub same_slot :
    (f : ℕ → SessionState) (j k : ℕ) (s : SessionState) → (j == k) ≡ true → update f k s j ≡ s
same_slot f j k s e = rw e refl

other_slot :
    (f : ℕ → SessionState) (j k : ℕ) (s : SessionState) → (j == k) ≡ false → update f k s j ≡ f j
other_slot f j k s e = rw e refl

-- A session of its slot is closed, or its address leads to the slot.
abbrev Kept : List (Bytes × ℕ) → ℕ → SessionState → Type 0
Kept m j s = (s.closed_once ≡ true) ⊎ (lookup s.proxy_addr m ≡ some j)

replaced :
    (m : List (Bytes × ℕ)) (f : ℕ → SessionState) (j k : ℕ) (s : SessionState)
    → s.proxy_addr ≡ (f k).proxy_addr
    → s.closed_once ≡ (f k).closed_once
    → j ≡ k
    → Kept m j (f j)
    → Kept m j s
replaced m f j k s addr same e (inl h) = inl (same ∙ ap (λ i. (f i).closed_once) (sym e) ∙ h)
replaced m f j k s addr same e (inr h) =
    inr (ap (λ x. lookup x m) (addr ∙ ap (λ i. (f i).proxy_addr) (sym e)) ∙ h)

-- A session changes, but not in its address nor in whether it is closed.
pub replace-IsTidy :
    (c : Client) (k : ℕ) (s : SessionState)
    → IsTidy c
    → s.proxy_addr ≡ (c.slots k).proxy_addr
    → s.closed_once ≡ (c.slots k).closed_once
    → IsTidy (record c { slots = update c.slots k s })
replace-IsTidy c k s w addr same = record {
  routed = λ a j h. elim (Bool-cases (j == k)) [
    | inl e ↦ ground (arith, e, w.routed a j h, addr, same)
    | inr e ↦ ground (arith, e, w.routed a j h)
  ];
  kept = λ j h. elim (Bool-cases (j == k)) [
    | inl e ↦
        subst (Kept c.sessions j) (sym (same_slot c.slots j k s e))
          (replaced c.sessions c.slots j k s addr same (ground (arith, e)) (w.kept j h))
    | inr e ↦ rw e (w.kept j h)
  ];
  shut = w.shut;
}

pub removed_none :
    (addr : Bytes) (c : Client) → lookup addr c.sessions ≡ none → remove_session addr c ≡ c
unfolding remove_session
removed_none addr c h = rw (h, remove_session) refl

pub removed_some :
    (addr : Bytes) (c : Client) (k : ℕ)
    → lookup addr c.sessions ≡ some k
    → remove_session addr c ≡ record c {
      sessions = delete addr c.sessions;
      slots = update c.slots k (close_session (c.slots k));
    }
unfolding remove_session
removed_some addr c k h = rw (h, remove_session) refl

-- What is deleted leads to one slot alone.
removed_routed :
    (addr a : Bytes) (j : ℕ) (c : Client)
    → lookup a (delete addr c.sessions) ≡ some j
    → (lookup a c.sessions ≡ some j) × (bytes_beq addr a ≡ false)
removed_routed addr a j c h = elim (Bool-cases (bytes_beq addr a)) [
  | inl e ↦ cc (
      sym h ∙ lookup-delete addr a c.sessions ∙ ap (λ b. if b then none else lookup a c.sessions) e)
  | inr e ↦ (
    sym (lookup-delete addr a c.sessions ∙ ap (λ b. if b then none else lookup a c.sessions) e) ∙ h,
    e,
  )
]

removed-Kept :
    (addr : Bytes) (j k : ℕ) (c : Client) (s : SessionState)
    → lookup addr c.sessions ≡ some k
    → (j == k) ≡ false
    → Kept c.sessions j s
    → Kept (delete addr c.sessions) j s
removed-Kept addr j k c s h e (inl x) = inl x
removed-Kept addr j k c s h e (inr x) = elim (Bool-cases (bytes_beq addr s.proxy_addr)) [
  | inl b ↦
      let same =
        sym h ∙ ap (λ a. lookup a c.sessions) ((bytes_beq_iff addr s.proxy_addr).0 b) ∙ x in
      ground (arith, e, same)
  | inr b ↦ inr (
      lookup-delete addr s.proxy_addr c.sessions
      ∙ ap (λ b. if b then none else lookup s.proxy_addr c.sessions) b
      ∙ x)
]

delete_nil : (addr : Bytes) (m : List (Bytes × ℕ)) → m ≡ [] → delete addr m ≡ []
unfolding delete
delete_nil addr m h = ap (delete addr) h

pub remove_session-IsTidy : (addr : Bytes) (c : Client) → IsTidy c → IsTidy (remove_session addr c)
remove_session-IsTidy addr c w = elim (Option-cases (lookup addr c.sessions)) [
  | inl h ↦ subst IsTidy (sym (removed_none addr c h)) w
  | inr (k, h) ↦ subst IsTidy (sym (removed_some addr c k h)) (record {
    routed = λ a j g.
        let (at, away) = removed_routed addr a j c g in
        elim (Bool-cases (j == k)) [
          | inl e ↦
              let jk : j ≡ k = ground (arith, e) in
              let q =
                sym (w.routed addr k h).1
                ∙ ap (λ i. (c.slots i).proxy_addr) (sym jk)
                ∙ (w.routed a j at).1 in
              cc (sym ((bytes_beq_iff addr a).1 q) ∙ away)
          | inr e ↦ rw e (w.routed a j at)
        ];
    kept = λ j g. elim (Bool-cases (j == k)) [
      | inl e ↦
          inl
            (ap (λ x. x.closed_once) (same_slot c.slots j k _ e) ∙ close_session_closes (c.slots k))
      | inr e ↦ rw e (removed-Kept addr j k c (c.slots j) h e (w.kept j g))
    ];
    shut = λ g. delete_nil addr c.sessions (w.shut g);
  })
]

-- The lookup behind an entry that is new.
added_lookup :
    (addr a : Bytes) (n : ℕ) (m : List (Bytes × ℕ)) (b : Bool)
    → bytes_beq addr a ≡ b
    → lookup a (put addr n m) ≡ (if b then some n else lookup a m)
added_lookup addr a n m b e = lookup-put addr a n m ∙ ap (λ b. if b then some n else lookup a m) e

newest : (j n : ℕ) → (j == n) ≡ true → n ≡ j
newest j n e = ground (arith, e)

module _ (addr : Bytes) (c : Client) (fresh : lookup addr c.sessions ≡ none) (w : IsTidy c) where
  abbrev added : List (Bytes × ℕ)
  added = put addr c.next_slot c.sessions

  added-Kept : (j : ℕ) (s : SessionState) → Kept c.sessions j s → Kept added j s
  added-Kept j s (inl x) = inl x
  added-Kept j s (inr x) = elim (Bool-cases (bytes_beq addr s.proxy_addr)) [
    | inl b ↦ cc (
        sym x ∙ ap (λ a. lookup a c.sessions) (sym ((bytes_beq_iff addr s.proxy_addr).0 b)) ∙ fresh)
    | inr b ↦ inr (added_lookup addr s.proxy_addr c.next_slot c.sessions false b ∙ x)
  ]

  pub add_session-IsTidy : c.closed ≡ false → IsTidy (add_session addr c)
  unfolding add_session
  add_session-IsTidy open_ = record {
    routed = λ a j h. elim (Bool-cases (bytes_beq addr a)) [
      | inl e ↦
          let at : some c.next_slot ≡ some j =
            sym (added_lookup addr a c.next_slot c.sessions true e) ∙ h in
          let same : j ≡ c.next_slot = cc at in
          let t : (j == c.next_slot) ≡ true = ground (arith, same) in
          (ground (arith, same), rw t ((bytes_beq_iff addr a).0 e), rw t refl)
      | inr e ↦
          let at = sym (added_lookup addr a c.next_slot c.sessions false e) ∙ h in
          let (low, is_at, is_open) = w.routed a j at in
          let t : (j == c.next_slot) ≡ false = ground (arith, low) in
          (ground (arith, low), rw t is_at, rw t is_open)
    ];
    kept = λ j h. elim (Bool-cases (j == c.next_slot)) [
      | inl e ↦ subst (Kept added j) (sym (same_slot c.slots j c.next_slot (new_session addr) e)) (
          inr (
            added_lookup addr addr c.next_slot c.sessions true ((bytes_beq_iff addr addr).1 refl)
            ∙ ap (λ n. some n) (newest j c.next_slot e)))
      | inr e ↦
          subst (Kept added j) (sym (other_slot c.slots j c.next_slot (new_session addr) e))
            (added-Kept j (c.slots j) (w.kept j (ground (arith, h, e))))
    ];
    shut = λ h. cc (sym open_ ∙ h);
  }

-- ===== src/Tl/Codec.antt =====
-- A write method paired with the read method that undoes it: what the pair promises, and how
-- promises compose along a chain of writes and a `do` block of reads.
pub mod Blob
pub mod Overlong
pub mod Fixed
use gocoon.Common.{
  ℕ, ◌+◌, ◌≤◌, ◌≡◌, refl, sym, ap, ◌∙◌, ◌⊎◌, inl, inr, subst, [], ◌∷◌, ◌++◌, append_assoc,
  append-nil, Bytes, length, drop, length-append, length-drop, drop-append, drop-drop, arith,
}
use gocoon.Tl.Reader.{
  Reader, Outcome, Parser, new_reader, ok, err, ◌>>=◌, next, pure, Fails, advance,
}
use gocoon.Common.State.{bind_assoc}
use gocoon.Tl.Writer.{Writer, new_writer}
use Prim.Native.Nat.add

-- At the front of whatever is unread, `p` takes exactly `enc` and returns `a`.
abbrev pub Reads {ℓ} : {E : Type 0} {A : Type ℓ} → Parser E A → Bytes → A → Type ℓ
Reads p enc a =
    (r : Reader) (rest : Bytes)
    → r.pos ≤ length r.buf
    → drop r.pos r.buf ≡ enc ++ rest
    → p r ≡ ok a (advance (length enc) r)

-- Where only a proper prefix of `enc` is left unread, `p` fails.
abbrev pub Cuts {ℓ} : {E : Type 0} {A : Type ℓ} → Parser E A → Bytes → Type 0
Cuts p enc =
    (r : Reader) (x : ℕ) (back : Bytes)
    → r.pos ≤ length r.buf
    → drop r.pos r.buf ++ (x ∷ back) ≡ enc
    → Fails (p r)

pub record Codec {ℓ} {E : Type 0} {A : Type ℓ} (w : Writer → Writer) (p : Parser E A) (a : A)
    : Type ℓ where
  pub enc : Bytes
  pub emits : (x : Writer) → w x ≡ record { buf = x.buf ++ enc }
  pub reads : Reads p enc a
  pub cuts : Cuts p enc

-- The reader behind a consumed prefix.
pub drop_rest :
    (r : Reader) (a b : Bytes) → drop r.pos r.buf ≡ a ++ b → drop (r.pos + length a) r.buf ≡ b
drop_rest r a b h =
    drop-drop r.pos (length a) r.buf ∙ ap (λ (t : Bytes). drop (length a) t) h ∙ drop-append a b

pub pos_bound :
    (r : Reader) (a b : Bytes)
    → r.pos ≤ length r.buf
    → drop r.pos r.buf ≡ a ++ b
    → r.pos + length a ≤ length r.buf
pos_bound r a b h e = omega (arith, ap length e, length-append a b, length-drop r.pos r.buf)

-- A proper prefix of a concatenation ends within the first part or within the second.
prefix_cases :
    (front : Bytes) (x : ℕ) (back e₁ e₂ : Bytes)
    → front ++ (x ∷ back) ≡ e₁ ++ e₂
    → ((b : Bytes) × (front ++ (x ∷ b) ≡ e₁))
      ⊎ ((f : Bytes) × (front ≡ e₁ ++ f) × (f ++ (x ∷ back) ≡ e₂))
prefix_cases front x back [] e₂ h = inr (front, refl, h)
prefix_cases [] x back (y ∷ ys) e₂ h = inl (ys, cc)
prefix_cases (f ∷ fs) x back (y ∷ ys) e₂ h = elim (prefix_cases fs x back ys e₂ (cc)) [
  | inl (b, e) ↦ inl (b, cc)
  | inr (g, e, e') ↦ inr (g, cc, e')
]

module _ {ℓ κ} {E : Type 0} {A : Type ℓ} {B : Type κ} where
  Reads-bind :
      (p : Parser E A) (f : A → Parser E B) (e₁ e₂ : Bytes) {a : A} {b : B}
      → Reads p e₁ a
      → Reads (f a) e₂ b
      → Reads (p >>= f) (e₁ ++ e₂) b
  Reads-bind p f e₁ e₂ {b = b} hp hf r rest bound h =
      let h' = h ∙ append_assoc e₁ e₂ rest in
      ap (λ (o : Outcome E A). next o f) (hp r (e₂ ++ rest) bound h')
      ∙ hf (advance (length e₁) r) rest (pos_bound r e₁ (e₂ ++ rest) bound h')
          (drop_rest r e₁ (e₂ ++ rest) h')
      ∙ ap (λ (n : ℕ). ok b (record r { pos = n })) (omega (arith, length-append e₁ e₂))

  pub Fails-next : (o : Outcome E A) (f : A → Parser E B) → Fails o → Fails (next o f)
  Fails-next (ok a r) f h = absurd h
  Fails-next (err e r) f h = tt

  Cuts-bind :
      (p : Parser E A) (f : A → Parser E B) (e₁ e₂ : Bytes) {a : A}
      → Reads p e₁ a
      → Cuts p e₁
      → Cuts (f a) e₂
      → Cuts (p >>= f) (e₁ ++ e₂)
  Cuts-bind p f e₁ e₂ {a} hp cp cf r x back bound h =
      elim (prefix_cases (drop r.pos r.buf) x back e₁ e₂ h) [
        | inl (b, e) ↦ Fails-next (p r) f (cp r x b bound e)
        | inr (g, e, e') ↦ second g e e'
      ]
    where
      second :
          (g : Bytes) → drop r.pos r.buf ≡ e₁ ++ g → g ++ (x ∷ back) ≡ e₂ → Fails (next (p r) f)
      second g e e' = rw (hp r g bound e) (
          cf (advance (length e₁) r) x back (pos_bound r e₁ g bound e)
            (ap (λ (t : Bytes). t ++ (x ∷ back)) (drop_rest r e₁ g e) ∙ e'))

  pub Codec-bind :
      {w₁ w₂ : Writer → Writer} {p : Parser E A} (f : A → Parser E B) {a : A} {b : B}
      → Codec w₁ p a
      → Codec w₂ (f a) b
      → Codec (λ w. w₂ (w₁ w)) (p >>= f) b
  Codec-bind {w₂ = w₂} {p = p} f c d = record {
    enc = c.enc ++ d.enc;
    emits = λ x.
        ap w₂ (c.emits x)
        ∙ d.emits _
        ∙ ap (λ (t : Bytes). record { buf = t }) (append_assoc x.buf c.enc d.enc);
    reads = Reads-bind p f c.enc d.enc c.reads d.reads;
    cuts = Cuts-bind p f c.enc d.enc c.reads c.cuts d.cuts;
  }

module _ {ℓ} {E : Type 0} {A : Type ℓ} where
  -- The end of a `do` block writes nothing.
  pub Codec-pure : (a : A) → Codec (λ w. w) (pure {E = E} a) a
  Codec-pure a = record {
    enc = [];
    emits = λ x. ap (λ (t : Bytes). record { buf = t }) (sym (append-nil x.buf));
    reads = λ r rest b h. ap (λ (n : ℕ). ok a (record r { pos = n })) (omega arith);
    cuts = λ r x back b h. no_prefix (drop r.pos r.buf) x back h;
  }
    where
      no_prefix : (front : Bytes) (x : ℕ) (back : Bytes) → front ++ (x ∷ back) ≡ [] → ⊥
      no_prefix [] x back h = cc
      no_prefix (f ∷ fs) x back h = cc

-- A `do` block that converts what it read.
pub Codec-map {ℓ κ} :
    {E : Type 0} {A : Type ℓ} {B : Type κ} (k : A → B) {w : Writer → Writer} {p : Parser E A}
    {a : A} {b : B}
    → k a ≡ b
    → Codec w p a
    → Codec w (p >>= λ x. pure (k x)) b
Codec-map k {w = w} {p = p} e c =
    subst (λ t. Codec w (p >>= λ x. pure (k x)) t) e (Codec-bind (λ x. pure (k x)) c (Codec-pure _))

module _ {ℓ} {E : Type 0} {A : Type ℓ} {w : Writer → Writer} {p : Parser E A} {a : A} where
  -- What a fresh Writer holds is read back to its last byte.
  pub Codec-whole :
      (c : Codec w p a)
      → p (new_reader (w new_writer).buf)
        ≡ ok a (record { buf = (w new_writer).buf; pos = length (w new_writer).buf })
  unfolding new_reader new_writer
  Codec-whole c =
      let e = ap (λ (t : Writer). t.buf) (c.emits (record { buf = [] })) in
      rw e (
        c.reads (record { buf = c.enc; pos = 0 }) [] (omega arith) (sym (append-nil c.enc))
        ∙ ap (λ (n : ℕ). ok a (record { buf = c.enc; pos = n })) (add.zero (length c.enc)))

  -- Any input that stops short of it is refused.
  pub Codec-truncated :
      (c : Codec w p a) (front : Bytes) (x : ℕ) (back : Bytes)
      → front ++ (x ∷ back) ≡ (w new_writer).buf
      → Fails (p (new_reader front))
  unfolding new_reader new_writer
  Codec-truncated c front x back h =
      c.cuts (record { buf = front; pos = 0 }) x back (omega arith)
        (h ∙ ap (λ (t : Writer). t.buf) (c.emits (record { buf = [] })))

  -- A method reads back what was appended to `pre`, whatever stands around it.
  pub Codec-anywhere :
      (c : Codec w p a) (pre rest : Bytes)
      → let out = (w (record { buf = pre })).buf in
        p (record { buf = out ++ rest; pos = length pre })
        ≡ ok a (record { buf = out ++ rest; pos = length out })
  Codec-anywhere c pre rest =
      let e = ap (λ (t : Writer). t.buf) (c.emits (record { buf = pre })) in
      rw e (
        c.reads (record { buf = (pre ++ c.enc) ++ rest; pos = length pre }) rest
          (omega (arith, length-append (pre ++ c.enc) rest, length-append pre c.enc))
          (ap (λ (t : Bytes). drop (length pre) t) (append_assoc pre c.enc rest)
            ∙ drop-append pre (c.enc ++ rest))
        ∙ ap (λ (n : ℕ). ok a (record { buf = (pre ++ c.enc) ++ rest; pos = n }))
            (sym (length-append pre c.enc)))

-- A codec for two steps of a `do` block that goes on behind them.
pub Codec-bind_pair {ℓ κ μ} :
    {E : Type 0} {A : Type ℓ} {B : Type κ} {C : Type μ} {w₁ w₂ : Writer → Writer} (p : Parser E A)
    (f : A → Parser E B) (g : B → Parser E C) {b : B} {c : C}
    → Codec w₁ (p >>= f) b
    → Codec w₂ (g b) c
    → Codec (λ w. w₂ (w₁ w)) (p >>= λ a. f a >>= g) c
Codec-bind_pair {w₁ = w₁} {w₂ = w₂} p f g {c = c} d e =
    subst (λ q. Codec (λ w. w₂ (w₁ w)) q c) (bind_assoc p f g) (Codec-bind g d e)

-- ===== src/Runner/Strip/Spans.antt =====
-- The loop over spans against a description of what it removes.
use gocoon.Common.{
  ℕ, zero, suc, ◌+◌, ◌<◌, false, Bytes, [], ◌∷◌, ◌++◌, none, some, ◌≡◌, ◌↔◌, ◌≢◌, refl, sym, ap,
  subst, ◌∙◌, ◌==◌, length, take, drop, length-append, length-drop, take-append, drop-append,
  take-append-drop, drop-drop, append-nil, Option-cases, inl, inr, arith,
}
use gocoon.Runner.Text.{shift, index}
use gocoon.Runner.Text.Search.{Lacks, index-tag, index_pass, index-take, index-drop}
use gocoon.Tl.Ids.{codes}
use gocoon.Runner.Strip.{
  strip_loop, strip_blocks, strip_think_blocks, think_open_tag, think_close_tag, tool_call_open_tag,
  tool_call_close_tag,
}

-- What is left of a text: the parts before, between and behind the spans, each of which runs from
-- an open tag to the first close tag behind it, or to the end.
pub data Stripped (o c : Bytes) : Bytes → Bytes → Type 0 where
  whole : (v : Bytes) → index o v ≡ none → Stripped o c v v
  unclosed : (v s : Bytes) → index o v ≡ none → index c s ≡ none → Stripped o c (v ++ (o ++ s)) v
  span :
      (v s : Bytes) {rest out : Bytes}
      → index o v ≡ none
      → index c s ≡ none
      → Stripped o c rest out
      → Stripped o c (v ++ (o ++ (s ++ (c ++ rest)))) (v ++ out)

-- A round of the loop in its three cases.
module _ (n : ℕ) (o c text : Bytes) where
  round_whole : index o text ≡ none → strip_loop (suc n) o c text ≡ text
  unfolding strip_loop
  round_whole h = rw (h, strip_loop) refl

  module _ (i : ℕ) (h : index o text ≡ some i) where
    round_unclosed : index c (drop i text) ≡ none → strip_loop (suc n) o c text ≡ take i text
    unfolding strip_loop
    round_unclosed g = rw (h, strip_loop) (rw g (append-nil (take i text)))

    round_span :
        (j : ℕ)
        → index c (drop i text) ≡ some j
        → strip_loop (suc n) o c text
          ≡ take i text ++ strip_loop n o c (drop (j + length c) (drop i text))
    unfolding strip_loop
    round_span j g = rw (h, strip_loop) (rw g refl)

-- A pair of tags `<…>` and `</…>`.
module _ (a : ℕ) (t u : Bytes) (slash : (a == b'/') ≡ false) (lacks_t : Lacks b'<' (a ∷ t))
    (lacks_u : Lacks b'<' (b'/' ∷ u)) where
  abbrev o : Bytes
  o = b'<' ∷ a ∷ t

  abbrev c : Bytes
  c = b'<' ∷ b'/' ∷ u

  -- A close tag does not begin in an open one.
  index_behind_tag : (s : Bytes) → index c (o ++ s) ≡ shift (length o) (index c s)
  index_behind_tag s = elim (Option-cases (index c s)) [
    | inl e ↦ ground (arith, slash, e, index_pass b'<' (b'/' ∷ u) (a ∷ t) s lacks_t)
    | inr (i, e) ↦ ground (arith, slash, e, index_pass b'<' (b'/' ∷ u) (a ∷ t) s lacks_t)
  ]

  -- The rounds of the loop, on a text that is given by its parts.
  loop_unclosed :
      (n : ℕ) (v s : Bytes)
      → index o v ≡ none
      → index c s ≡ none
      → strip_loop (suc n) o c (v ++ (o ++ s)) ≡ v
  loop_unclosed n v s h g =
      round_unclosed n o c (v ++ (o ++ s)) (length v) (index-tag b'<' (a ∷ t) v s lacks_t h)
        (ap (index c) (drop-append v (o ++ s)) ∙ index_behind_tag s ∙ ap (shift (length o)) g)
      ∙ take-append v (o ++ s)

  module _ (s rest : Bytes) where
    abbrev closed : Bytes
    closed = o ++ (s ++ (c ++ rest))

    drop-closed : drop (length o + length s + length c) closed ≡ rest
    drop-closed =
        drop-drop (length o + length s) (length c) closed
        ∙ ap (drop (length c)) (
            drop-drop (length o) (length s) closed
            ∙ ap (drop (length s)) (drop-append o (s ++ (c ++ rest)))
            ∙ drop-append s (c ++ rest))
        ∙ drop-append c rest

    loop_span :
        (n : ℕ) (v : Bytes)
        → index o v ≡ none
        → index c s ≡ none
        → strip_loop (suc n) o c (v ++ closed) ≡ v ++ strip_loop n o c rest
    loop_span n v h g =
        round_span n o c (v ++ closed) (length v)
          (index-tag b'<' (a ∷ t) v (s ++ (c ++ rest)) lacks_t h) (length o + length s)
          (ap (index c) (drop-append v closed)
            ∙ index_behind_tag (s ++ (c ++ rest))
            ∙ ap (shift (length o)) (index-tag b'<' (b'/' ∷ u) s rest lacks_u g))
        ∙ ap
            (λ x.
              x
              ++ strip_loop n o c
                  (drop (length o + length s + length c) (drop (length v) (v ++ closed))))
            (take-append v closed)
        ∙ ap (λ x. v ++ strip_loop n o c (drop (length o + length s + length c) x))
            (drop-append v closed)
        ∙ ap (λ x. v ++ strip_loop n o c x) drop-closed

  Stripped-loop :
      (n : ℕ) {text out : Bytes}
      → length text < n
      → Stripped o c text out
      → strip_loop n o c text ≡ out
  Stripped-loop zero h st = absurd (omega arith)
  Stripped-loop (suc n) h (whole v e) = round_whole n o c v e
  Stripped-loop (suc n) h (unclosed v s e g) = loop_unclosed n v s e g
  Stripped-loop (suc n) h (span v s {rest} {out} e g st) =
      (loop_span s rest n v e g) ∙ ap (λ x. v ++ x) (Stripped-loop n shorter st)
    where
      shorter : length rest < n
      shorter = omega (
        arith,
        length-append v (o ++ (s ++ (c ++ rest))),
        length-append t (s ++ (c ++ rest)),
        length-append s (c ++ rest),
        length-append u rest,
      )

  shorter_than : (text : Bytes) (i : ℕ) → index o text ≡ some i → length text ≢ 0
  shorter_than [] i h = cc
  shorter_than (b ∷ text) i h = omega arith

  -- Each text has such parts.
  loop-Stripped :
      (n : ℕ) (text : Bytes) → length text < n → Stripped o c text (strip_loop n o c text)
  loop-Stripped zero text h = absurd (omega arith)
  loop-Stripped (suc n) text h = elim (Option-cases (index o text)) [
    | inl e ↦ subst (Stripped o c text) (sym (round_whole n o c text e)) (whole text e)
    | inr (i, e) ↦
        let v = take i text in
        let s = drop (length o) (drop i text) in
        let here : v ++ (o ++ s) ≡ text =
          ap (λ x. v ++ x) (sym (index-drop b'<' (a ∷ t) text i e)) ∙ take-append-drop i text in
        let no_tag = index-take b'<' (a ∷ t) text i e in
        subst (λ x. Stripped o c x (strip_loop (suc n) o c x)) here
          (elim (Option-cases (index c s)) [
            | inl g ↦
                subst (Stripped o c (v ++ (o ++ s))) (sym (loop_unclosed n v s no_tag g))
                  (unclosed v s no_tag g)
            | inr (j, g) ↦
                let w = take j s in
                let rest = drop (length c) (drop j s) in
                let there : w ++ (c ++ rest) ≡ s =
                  ap (λ x. w ++ x) (sym (index-drop b'<' (b'/' ∷ u) s j g))
                  ∙ take-append-drop j s in
                let no_close = index-take b'<' (b'/' ∷ u) s j g in
                subst (λ x. Stripped o c (v ++ (o ++ x)) (strip_loop (suc n) o c (v ++ (o ++ x))))
                  there
                  (subst (Stripped o c (v ++ (o ++ (w ++ (c ++ rest)))))
                    (sym (loop_span w rest n v no_tag no_close))
                    (span v w no_tag no_close (
                      loop-Stripped n rest (
                        omega (
                          arith,
                          h,
                          length-drop i text,
                          length-drop j s,
                          length-drop (length o) (drop i text),
                          length-drop (length c) (drop j s),
                          shorter_than text i e,
                        )))))
          ])
  ]

  strip_blocks_iff : (text out : Bytes) → (strip_blocks o c text ≡ out) ↔ Stripped o c text out
  unfolding strip_blocks
  strip_blocks_iff text out = (
    λ e. subst (Stripped o c text) e (loop-Stripped (suc (length text)) text (omega arith)),
    Stripped-loop (suc (length text)) (omega arith),
  )

abbrev pub ThinkStripped : Bytes → Bytes → Type 0
ThinkStripped = Stripped think_open_tag think_close_tag

abbrev pub ToolCallsStripped : Bytes → Bytes → Type 0
ToolCallsStripped = Stripped tool_call_open_tag tool_call_close_tag

-- StripThinkBlocks returns what is left of a text without its spans, and nothing else: a span
-- runs from an open tag to the first close tag behind it, or to the end of the text where there
-- is none, and the search goes on behind it.
pub strip_think_blocks_iff :
    (text out : Bytes) → (strip_think_blocks text ≡ out) ↔ ThinkStripped text out
unfolding strip_think_blocks think_open_tag think_close_tag
strip_think_blocks_iff =
    strip_blocks_iff b't' (codes "hink>") (codes "think>") refl (ground arith) (ground arith)

pub strip_tool_calls_iff :
    (text out : Bytes)
    → (strip_blocks tool_call_open_tag tool_call_close_tag text ≡ out) ↔ ToolCallsStripped text out
unfolding tool_call_open_tag tool_call_close_tag
strip_tool_calls_iff =
    strip_blocks_iff b't' (codes "ool_call>") (codes "tool_call>") refl (ground arith)
      (ground arith)

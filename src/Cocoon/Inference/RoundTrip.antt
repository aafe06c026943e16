-- ===== src/Cocoon/Inference/RoundTrip.antt =====
-- What the client makes of the parts of an answer.
use gocoon.Common.{
  ℕ, ◌^◌, ◌<◌, ◌≡◌, refl, ap, ◌∙◌, Bool, true, false, Bytes, [], ◌++◌, some, ◌==◌, if◌then◌else◌,
  arith,
}
use gocoon.Common.Bits.{bit_and_one}
use gocoon.Common.Int.{ℤ}
use gocoon.Tl.Reader.{
  TlError, Parser, Reader, Outcome, ok, err, next, ◌>>=◌, pure, new_reader, read_uint32, read_int32,
  read_int256, read_string, read_bytes, read_flags,
}
use gocoon.Tl.Writer.{Writer, new_writer, write_uint32}
use gocoon.Tl.Codec.{Codec, Codec-bind, Codec-map, Codec-pure, Codec-anywhere}
use gocoon.Common.State.{next-eq-ok}
use gocoon.Tl.Codec.Fixed.{uint32-Codec, int32-Codec, int256-Codec, bool-Codec, flags-Codec}
use gocoon.Tl.Codec.Blob.{bytes-Codec, string-Codec}
use gocoon.Tl.Types.{flag_set, TokensUsed, decode_tokens_used}
use gocoon.Tl.Types.RoundTrip.{tokens_used-Codec}
use gocoon.Tl.Constants.{id_client_query_answer_ex, id_client_query_answer_part_ex}
use gocoon.Cocoon.Inference.{
  Chunk, no_tokens, error_chunk, succeeded, ignore, skip_client_query_final_info, unwrap_http,
  read_answer, read_answer_ex, read_answer_error, read_answer_error_ex, query_part_body,
  try_decode_query_part,
}
use gocoon.Cocoon.Inference.Parts.{
  QueryPart, answer, answer_part, answer_ex, answer_part_ex, answer_error, answer_part_error,
  answer_error_ex, write_part, answer_fields, ex_fields, error_fields, error_ex_fields,
  answer_chunk, ends, chunk_of, AnswerFits, ErrorFits, ExFits, PartFits,
}

answer-Codec :
    (b : Bytes) (d : Bool) (r : Bytes) (t : TokensUsed)
    → AnswerFits b r t
    → Codec (answer_fields b d r t) read_answer (answer_chunk b d r t)
unfolding read_answer
answer-Codec b d r t f = Codec-bind _ (bytes-Codec b f.0) (
    Codec-bind _ (bool-Codec d) (
      Codec-bind _ (int256-Codec r f.1)
        (Codec-map (answer_chunk b d r) refl (tokens_used-Codec t f.2))))

-- The fields of an Ex kind up to its flags.
abbrev ex_head : ℕ → Parser TlError Chunk
ex_head id = do
  rid ← read_int256
  body ← read_bytes
  flags ← read_flags
  pure (
      answer_chunk (if id == id_client_query_answer_ex then unwrap_http body else body) (ends flags)
        rid no_tokens)

ex-Codec :
    (id : ℕ) (r b : Bytes) (flags : ℕ)
    → ExFits b r flags
    → Codec (ex_fields r b flags) (ex_head id) (
        answer_chunk
          (if id == id_client_query_answer_ex then unwrap_http b else b)
          (ends flags)
          r
          no_tokens)
ex-Codec id r b flags f =
    Codec-bind _ (int256-Codec r f.1)
      (Codec-bind _ (bytes-Codec b f.0) (Codec-bind _ (flags-Codec flags f.2) (Codec-pure _)))

-- The fields of an error that count.
abbrev error_head : Parser TlError Chunk
error_head = do
  code ← read_int32
  msg ← read_string
  rid ← read_int256
  pure (error_chunk rid code msg)

error-Codec :
    (c : ℤ) (m r : Bytes)
    → ErrorFits c m r
    → Codec (error_fields c m r) error_head (error_chunk r c m)
error-Codec c m r f = Codec-bind _ (int32-Codec c f.0) (
    Codec-bind _ (string-Codec m f.1)
      (Codec-map (λ rid. error_chunk rid c m) refl (int256-Codec r f.2)))

abbrev error_ex_head : Parser TlError Chunk
error_ex_head = do
  rid ← read_int256
  code ← read_int32
  msg ← read_string
  flags ← read_flags
  pure (error_chunk rid code msg)

error_ex-Codec :
    (c : ℤ) (m r : Bytes) (flags : ℕ)
    → ErrorFits c m r
    → flags < 2 ^ 32
    → Codec (error_ex_fields r c m flags) error_ex_head (error_chunk r c m)
error_ex-Codec c m r flags f h = Codec-bind _ (int256-Codec r f.2) (
    Codec-bind _ (int32-Codec c f.0) (
      Codec-bind _ (string-Codec m f.1)
        (Codec-bind _ (flags-Codec flags h) (Codec-pure (error_chunk r c m)))))

-- Two continuations that succeed alike.
succeeded-next :
    {A B : Type 0} (o : Outcome TlError A) (f g : A → Parser TlError B)
    → ((a : A) (s : Reader) → succeeded (f a s) ≡ succeeded (g a s))
    → succeeded (next o f) ≡ succeeded (next o g)
succeeded-next (ok a s) f g h = h a s
succeeded-next (err e s) f g h = refl

-- A call that is ignored changes nothing in front of a result.
succeeded-ignore :
    {A : Type 0} (o : Outcome TlError A) (c : Chunk)
    → succeeded (next (elim o [ ok _ s ↦ ok tt s | err _ s ↦ ok tt s ]) (λ (u : Unit {0}). pure c))
      ≡ some c
succeeded-ignore (ok a s) c = refl
succeeded-ignore (err e s) c = refl

error_same : (r : Reader) → succeeded (read_answer_error r) ≡ succeeded (error_head r)
unfolding read_answer_error
error_same r = succeeded-next (read_int32 r) _ _ λ code s.
    succeeded-next (read_string s) _ _ λ msg t.
      succeeded-next (read_int256 t) _ _
        λ rid u. succeeded-ignore (decode_tokens_used u) (error_chunk rid code msg)

-- A final info changes nothing either, whole or broken, where the flags announce one.
succeeded-final_info :
    (b : Bool) (c : Chunk) (r : Reader)
    → succeeded (
        next
          ((if b then ignore skip_client_query_final_info else pure tt) r)
          (λ (u : Unit {0}). pure c))
      ≡ some c
succeeded-final_info true c r = succeeded-ignore (skip_client_query_final_info r) c
succeeded-final_info false c r = refl

ends_iff : (flags : ℕ) → flag_set flags 1 ≡ ends flags
ends_iff flags = ground (arith, bit_and_one flags)

ex_same : (id : ℕ) (r : Reader) → succeeded (read_answer_ex id r) ≡ succeeded (ex_head id r)
unfolding read_answer_ex
ex_same id r = succeeded-next (read_int256 r) _ _ λ rid s.
    succeeded-next (read_bytes s) _ _ λ body t. succeeded-next (read_flags t) _ _ λ flags u.
      succeeded-final_info (flag_set flags 1) _ u
      ∙ ap
          (λ b. some (
            answer_chunk (if id == id_client_query_answer_ex then unwrap_http body else body) b rid
              no_tokens))
          (ends_iff flags)

error_ex_same : (r : Reader) → succeeded (read_answer_error_ex r) ≡ succeeded (error_ex_head r)
unfolding read_answer_error_ex
error_ex_same r = succeeded-next (read_int256 r) _ _ λ rid s.
    succeeded-next (read_int32 s) _ _ λ code t. succeeded-next (read_string t) _ _ λ msg u.
      succeeded-next (read_flags u) _ _
        λ flags v. succeeded-final_info (flag_set flags 1) (error_chunk rid code msg) v

-- The outcome of the switch, from those of the id and of the fields.
switched :
    (o : Outcome TlError ℕ) {i id : ℕ} {s t : Reader} {a b : Chunk} {body : Parser TlError Chunk}
    (head : Parser TlError Chunk)
    → o ≡ ok i s
    → i ≡ id
    → query_part_body id ≡ body
    → succeeded (body s) ≡ succeeded (head s)
    → head s ≡ ok b t
    → b ≡ a
    → succeeded (next o query_part_body) ≡ some a
switched o {s = s} head e₁ ei e same e₂ eb =
    ap (λ p. succeeded (next p query_part_body)) e₁
    ∙ ap (λ j. succeeded (query_part_body j s)) ei
    ∙ ap (λ (p : Parser TlError Chunk). succeeded (p s)) e
    ∙ same
    ∙ ap succeeded e₂
    ∙ ap some eb

ok_pair :
    {i id : ℕ} {a b : Chunk} {t u : Reader}
    → ◌≡◌ {A = Outcome TlError (ℕ × Chunk)} (ok (i, b) t) (ok (id, a) u)
    → (i ≡ id) × (b ≡ a)
ok_pair h = (cc, cc)

-- A constructor id in front of the body of its case, or of one that succeeds alike.
tagged :
    (id : ℕ) {w : Writer → Writer} {body head : Parser TlError Chunk} {a : Chunk} (rest : Bytes)
    → id < 2 ^ 32
    → query_part_body id ≡ body
    → ((r : Reader) → succeeded (body r) ≡ succeeded (head r))
    → Codec w head a
    → try_decode_query_part ((w (write_uint32 id new_writer)).buf ++ rest) ≡ some a
unfolding try_decode_query_part new_writer new_reader
tagged id {w} {body} {head} {a} rest h e same c =
    let tag : ℕ → Chunk → Parser TlError (ℕ × Chunk) = λ i b. pure (i, b) in
    let pair : Codec {E = TlError} {A = ℕ × Chunk} (λ x. w (write_uint32 id x))
        (read_uint32 >>= λ i. head >>= tag i) (id, a) =
      Codec-bind (λ i. head >>= tag i) (uint32-Codec id h) (Codec-map (λ b. (id, b)) refl c) in
    let r : Reader = record { buf = (w (write_uint32 id new_writer)).buf ++ rest; pos = 0 } in
    let (i, s, e₁, r₁) =
      next-eq-ok (read_uint32 r) (λ i. head >>= tag i) (Codec-anywhere pair [] rest) in
    let (b, t, e₂, r₂) = next-eq-ok (head s) (tag i) r₁ in
    let (ei, eb) = ok_pair r₂ in switched (read_uint32 r) head e₁ ei e (same s) e₂ eb

-- A part of an answer of each of the seven kinds, whose fields fit, is decoded to its chunk
-- whatever follows it: an error even where the count of tokens or the final info behind it is
-- broken or missing, and a part of an Ex kind as the last one if and only if the lowest bit of
-- its flags is set, whether the final info that this announces is whole or not.
pub try_decode_query_part-write_part :
    (p : QueryPart) (rest : Bytes)
    → PartFits p
    → try_decode_query_part ((write_part p new_writer).buf ++ rest) ≡ some (chunk_of p)
unfolding write_part query_part_body
try_decode_query_part-write_part (answer b d r t) rest f =
    tagged _ rest (omega arith) refl (λ _. refl) (answer-Codec b d r t f)
try_decode_query_part-write_part (answer_part b d r t) rest f =
    tagged _ rest (omega arith) refl (λ _. refl) (answer-Codec b d r t f)
try_decode_query_part-write_part (answer_ex r b flags) rest f =
    tagged _ rest (omega arith) refl (ex_same id_client_query_answer_ex)
      (ex-Codec id_client_query_answer_ex r b flags f)
try_decode_query_part-write_part (answer_part_ex r b flags) rest f =
    tagged _ rest (omega arith) refl (ex_same id_client_query_answer_part_ex)
      (ex-Codec id_client_query_answer_part_ex r b flags f)
try_decode_query_part-write_part (answer_error c m r) rest f =
    tagged _ rest (omega arith) refl error_same (error-Codec c m r f)
try_decode_query_part-write_part (answer_part_error c m r) rest f =
    tagged _ rest (omega arith) refl error_same (error-Codec c m r f)
try_decode_query_part-write_part (answer_error_ex r c m flags) rest f =
    tagged _ rest (omega arith) refl error_ex_same (error_ex-Codec c m r flags f.0 f.1)

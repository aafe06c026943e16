-- ===== src/Cocoon/Inference/Parts.antt =====
-- The parts of an answer as the schema has them, and the chunks that they are.
use gocoon.Common.{ℕ, ◌^◌, ◌%◌, ◌<◌, ◌≡◌, Bool, Bytes, length, none, ◌==◌}
use gocoon.Common.Int.{ℤ, IsInt32}
use gocoon.Tl.Writer.{
  Writer, write_uint32, write_int32, write_int256, write_bytes, write_string, write_bool,
  write_flags,
}
use gocoon.Tl.Types.{TokensUsed, encode_tokens_used}
use gocoon.Tl.Types.RoundTrip.{TokensUsedFit}
use gocoon.Tl.Constants.{
  id_client_query_answer, id_client_query_answer_part, id_client_query_answer_ex,
  id_client_query_answer_part_ex, id_client_query_answer_error, id_client_query_answer_part_error,
  id_client_query_answer_error_ex,
}
use gocoon.Cocoon.Inference.{Chunk, no_tokens, error_chunk, unwrap_http}

-- What a proxy sends for a request, up to the last field that the client keeps. Behind an error
-- there is the count of tokens, and behind the flags of an Ex kind, which are the last argument, the
-- final info that their lowest bit announces.
pub data QueryPart : Type 0 where
  answer answer_part : Bytes → Bool → Bytes → TokensUsed → QueryPart
  answer_ex answer_part_ex : Bytes → Bytes → ℕ → QueryPart
  answer_error answer_part_error : ℤ → Bytes → Bytes → QueryPart
  answer_error_ex : Bytes → ℤ → Bytes → ℕ → QueryPart

abbrev pub answer_fields : Bytes → Bool → Bytes → TokensUsed → Writer → Writer
answer_fields body done rid t w =
    encode_tokens_used t (write_int256 rid (write_bool done (write_bytes body w)))

abbrev pub ex_fields : Bytes → Bytes → ℕ → Writer → Writer
ex_fields rid body flags w = write_flags flags (write_bytes body (write_int256 rid w))

abbrev pub error_fields : ℤ → Bytes → Bytes → Writer → Writer
error_fields code msg rid w = write_int256 rid (write_string msg (write_int32 code w))

abbrev pub error_ex_fields : Bytes → ℤ → Bytes → ℕ → Writer → Writer
error_ex_fields rid code msg flags w =
    write_flags flags (write_string msg (write_int32 code (write_int256 rid w)))

unfoldable pub write_part : QueryPart → Writer → Writer
write_part (answer b d r t) w = answer_fields b d r t (write_uint32 id_client_query_answer w)
write_part (answer_part b d r t) w =
    answer_fields b d r t (write_uint32 id_client_query_answer_part w)
write_part (answer_ex r b f) w = ex_fields r b f (write_uint32 id_client_query_answer_ex w)
write_part (answer_part_ex r b f) w =
    ex_fields r b f (write_uint32 id_client_query_answer_part_ex w)
write_part (answer_error c m r) w = error_fields c m r (write_uint32 id_client_query_answer_error w)
write_part (answer_part_error c m r) w =
    error_fields c m r (write_uint32 id_client_query_answer_part_error w)
write_part (answer_error_ex r c m f) w =
    error_ex_fields r c m f (write_uint32 id_client_query_answer_error_ex w)

abbrev pub answer_chunk : Bytes → Bool → Bytes → TokensUsed → Chunk
answer_chunk b d r t = record {
  bytes = b;
  is_final = d;
  request_id = r;
  tokens_used = t;
  error = none;
}

-- The lowest bit announces the final info, and so the end of the answer.
abbrev pub ends : ℕ → Bool
ends flags = flags % 2 == 1

-- The chunk of a part.
abbrev pub chunk_of : QueryPart → Chunk
chunk_of (answer b d r t) = answer_chunk b d r t
chunk_of (answer_part b d r t) = answer_chunk b d r t
chunk_of (answer_ex r b f) = answer_chunk (unwrap_http b) (ends f) r no_tokens
chunk_of (answer_part_ex r b f) = answer_chunk b (ends f) r no_tokens
chunk_of (answer_error c m r) = error_chunk r c m
chunk_of (answer_part_error c m r) = error_chunk r c m
chunk_of (answer_error_ex r c m f) = error_chunk r c m

abbrev pub AnswerFits : Bytes → Bytes → TokensUsed → Type 0
AnswerFits b r t = (length b < 2 ^ 24) × (length r ≡ 32) × TokensUsedFit t

abbrev pub ErrorFits : ℤ → Bytes → Bytes → Type 0
ErrorFits c m r = IsInt32 c × (length m < 2 ^ 24) × (length r ≡ 32)

abbrev pub ExFits : Bytes → Bytes → ℕ → Type 0
ExFits b r f = (length b < 2 ^ 24) × (length r ≡ 32) × (f < 2 ^ 32)

abbrev pub PartFits : QueryPart → Type 0
PartFits (answer b d r t) = AnswerFits b r t
PartFits (answer_part b d r t) = AnswerFits b r t
PartFits (answer_ex r b f) = ExFits b r f
PartFits (answer_part_ex r b f) = ExFits b r f
PartFits (answer_error c m r) = ErrorFits c m r
PartFits (answer_part_error c m r) = ErrorFits c m r
PartFits (answer_error_ex r c m f) = ErrorFits c m r × (f < 2 ^ 32)

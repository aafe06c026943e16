-- ===== src/Tests/Streaming.antt =====
-- Streamed answers: their decoding, and two streams in one session.
use gocoon.Common.{
  ℕ, ◌≡◌, refl, arith, true, Bytes, [], ◌∷◌, ◌++◌, none, some, replicate, ◌==◌, ◌&&◌, if◌then◌else◌,
}
use gocoon.Common.Int.{negsuc}
use gocoon.Common.Assoc.{lookup, delete, put, bytes_eq, bytes_beq}
use gocoon.Tl.Writer.{new_writer}
use gocoon.Cocoon.Inference.{try_decode_query_part}
use gocoon.Cocoon.Inference.Parts.{QueryPart, answer_error, answer_part_ex, chunk_of, write_part}
use gocoon.Cocoon.Inference.RoundTrip.{try_decode_query_part-write_part}
use gocoon.Cocoon.Streams.{Session, open_stream, route}
use gocoon.Cocoon.Streams.Invariant.{
  Reach, here, step, open_step, new_session, new_session-Reach-IsWellFormed,
}
use gocoon.Cocoon.Streams.Routing.{accepted, route_delivers}

abbrev request : Bytes
request = replicate 32 1

-- An error, with part of a token count behind it.
abbrev an_error : QueryPart
an_error = answer_error (negsuc 0) (110 ∷ 111 ∷ []) request

-- The last part of an answer, with a final info that is cut short behind its flags.
abbrev last_part : QueryPart
last_part = answer_part_ex request (110 ∷ []) 3

try_decode_query_part-write_part_example :
    try_decode_query_part ((write_part last_part new_writer).buf ++ (0 ∷ 0 ∷ []))
    ≡ some (chunk_of last_part)
try_decode_query_part-write_part_example =
    try_decode_query_part-write_part last_part (0 ∷ 0 ∷ []) (omega arith, refl, omega arith)

abbrev two_streams : Session
two_streams = (open_stream (replicate 32 2) (open_stream request new_session).0).0

Reach-two_streams : Reach new_session two_streams
Reach-two_streams = step (step here (open_step request)) (open_step (replicate 32 2))

found_request : lookup request two_streams.streams ≡ some 0
unfolding open_stream new_session put delete lookup
found_request = refl

-- The last chunk of the first stream.
route_delivers_example :
    let chunk = chunk_of an_error in
    let t = route chunk two_streams in
    ((t.channels 0).queue ≡ accepted (two_streams.channels 0).queue chunk)
    × ((t.channels 0).done ≡ true)
    × ((i : ℕ) → t.channels i ≡ (if i == 0 then t.channels 0 else two_streams.channels i))
    × ((r : Bytes)
        → lookup r t.streams
          ≡ (if true && bytes_beq request r then none else lookup r two_streams.streams))
route_delivers_example =
    route_delivers (chunk_of an_error) two_streams 0
      (new_session-Reach-IsWellFormed Reach-two_streams) found_request

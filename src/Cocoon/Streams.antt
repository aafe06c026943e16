-- ===== src/Cocoon/Streams.antt =====
-- pkg/cocoon/inference.go: the streams of a session. Each RunQuery has a stream, a Go channel with
-- a buffer of 16, that dispatchPacket fills and that one of several goroutines closes.
pub mod Calls
pub mod Invariant
pub mod Routing
use gocoon.Common.{
  ℕ, zero, suc, ◌+◌, Bool, true, false, Bytes, List, [], ◌∷◌, ◌++◌, Option, none, some, ltb, ◌==◌,
  if◌then◌else◌, length,
}
use gocoon.Common.Assoc.{lookup, delete, put, bytes_eq}
use gocoon.Cocoon.Inference.{Chunk, try_decode_query_part}

-- `queue` is what the consumer has not received yet. `panicked` records a send on a closed channel,
-- or a second close of one, which stop a Go program.
pub record StreamChannel : Type 0 where
  pub request_id : Bytes
  pub queue : List Chunk
  pub done : Bool
  pub ch_closed : Bool
  pub closed_once : Bool
  pub panicked : Bool

abbrev pub capacity : ℕ
capacity = 16

-- The streams of a Session by request id, and every stream by the slot at which its goroutines hold it.
pub record Session : Type 0 where
  pub streams : List (Bytes × ℕ)
  pub next_slot : ℕ
  pub channels : ℕ → StreamChannel

abbrev pub update : (ℕ → StreamChannel) → ℕ → StreamChannel → ℕ → StreamChannel
update f s c = λ i. if i == s then c else f i

-- `s.ch <- chunk` where there is room, in Go's semantics.
unfoldable pub channel_send : Chunk → StreamChannel → StreamChannel
channel_send chunk c =
    if c.ch_closed
    then record c { panicked = true }
    else record c { queue = c.queue ++ (chunk ∷ []) }

-- `send`, under the stream's lock.
unfoldable pub send : Chunk → StreamChannel → StreamChannel × Bool
send chunk c =
    if c.done
    then (c, false)
    else if ltb (length c.queue) capacity
    then (channel_send chunk c, true)
    else (c, false)

-- `close(stream.done); close(out)`
unfoldable pub close_channels : StreamChannel → StreamChannel
close_channels c =
    if c.done then record c { panicked = true } else record c { done = true; ch_closed = true }

-- `stream.close`, behind its sync.Once.
unfoldable pub close : ℕ → Session → Session
close slot s =
    let c = s.channels slot in
    if c.closed_once then s else record s {
      streams = delete c.request_id s.streams;
      channels = update s.channels slot (close_channels (record c { closed_once = true }));
    }

abbrev pub fresh_stream : Bytes → StreamChannel
fresh_stream req = record {
  request_id = req;
  queue = [];
  done = false;
  ch_closed = false;
  closed_once = false;
  panicked = false;
}

-- The part of RunQuery that makes the stream of a request id.
unfoldable pub open_stream : Bytes → Session → Session × ℕ
open_stream req s = (
  record {
    streams = put req s.next_slot s.streams;
    next_slot = suc s.next_slot;
    channels = update s.channels s.next_slot (fresh_stream req);
  },
  s.next_slot,
)

abbrev pub send_to : ℕ → Chunk → Session → Session
send_to slot chunk s = record s {
  channels = update s.channels slot (send chunk (s.channels slot)).0;
}

-- `sendFinal` of the goroutine that watches over the request.
unfoldable pub send_final : ℕ → Chunk → Session → Session
send_final slot chunk s = close slot (send_to slot chunk s)

-- What is done with a decoded chunk.
unfoldable pub route : Chunk → Session → Session
route chunk s = elim (lookup chunk.request_id s.streams) [
  | none ↦ s
  | some slot ↦ let s' = send_to slot chunk s in if chunk.is_final then close slot s' else s'
]

unfoldable pub dispatch_packet : Bytes → Session → Session
dispatch_packet payload s = elim (try_decode_query_part payload) [
  | none ↦ s
  | some chunk ↦ route chunk s
]

abbrev pub behind : List Chunk → List Chunk
behind [] = []
behind (x ∷ xs) = xs

-- The consumer's `<-ch`, where something is in the buffer.
unfoldable pub receive : ℕ → Session → Session
receive slot s =
    let c = s.channels slot in
    record s { channels = update s.channels slot (record c { queue = behind c.queue }) }

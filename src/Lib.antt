-- ===== src/Lib.antt =====
-- gocoon: a client of the Cocoon network over TON.
--
-- The program talks to a proxy over one TLS connection. pkg/tl has the wire format: primitive
-- values and constructors of the type language TL, tcp.* packets around every payload, and frames
-- with a length and a sequence number around every packet. pkg/cocoon has the session on top of
-- it: the handshake with the proxy, the correlator that pairs queries with answers, and the
-- streams of the answers to inference requests. pkg/router dials the proxy, which may ask for a
-- proof of work before TLS. pkg/store keeps contract snapshots and signed payments. The program
-- cmd/gocoon-runner is a gateway: it serves the HTTP interface of OpenAI from a session, and
-- rewrites calls of tools to text and back for models that have none.
--
-- Which file is about which code:
--   Common           helpers: Boolean tests, lists, machine integers, little-endian numbers, results
--                    with a state, association lists.
--   Tl/Reader        pkg/tl/primitives.go, Reader: each method is a function from the reader to a
--                    value or an error, with the reader afterwards.
--   Tl/Writer        pkg/tl/primitives.go, Writer: each method appends to a buffer.
--   Tl/Codec         a writer and a reader that belong together, closed under sequence; its child
--                    modules are the primitives.
--   Tl/Vector        pkg/tl/vector.go.
--   Tl/Ids, Tl/Constants
--                    constructor ids: the CRC32 of pkg/tl/types.go, and its table of constants.
--   Tl/Types         pkg/tl/types.go: client.params, proxy.params, tokensUsed, the handshake calls.
--   Tl/Tcp           pkg/tl/tcp.go: EncodeTCP* and DecodeTCPPacket, and the two packets that
--                    pkg/cocoon/internal/fakeproxy writes.
--   Tl/Frame         pkg/tl/frame.go: FramedConn and the simple frames.
--   Cocoon/Errors    pkg/cocoon/errors.go.
--   Cocoon/Correlator
--                    pkg/cocoon/correlator.go: register, deliver, fail, failAll, gcExpired.
--   Cocoon/Handshake pkg/cocoon/handshake.go: the decoders and the checks; its child module Run is
--                    runHandshake, and Wire is what the other side writes.
--   Cocoon/Inference pkg/cocoon/inference.go: tryDecodeQueryPart, and Cocoon/Streams: the streams of
--                    RunQuery and dispatchPacket.
--   Cocoon/Transport pkg/cocoon/transport.go: the loop of Run, dispatch, the queries and the close,
--                    over a frame connection, a correlator and a session.
--   Cocoon/Client    pkg/cocoon/client.go: the sessions of a client, with their status of
--                    pkg/cocoon/session.go.
--   Cocoon/Models    decodeWorkerTypesV2 of pkg/cocoon/models.go and decodePaymentStatus of
--                    pkg/cocoon/session.go.
--   Cocoon/Request   encodeRunQueryEx and encodeHTTPRequest of pkg/cocoon/inference.go.
--   Router/Pow       pkg/router/pow.go: SolvePoW, findNonce, VerifyPoWResponse.
--   Store, Store/Memory
--                    pkg/store/store.go and pkg/store/memory/memory.go: the store in memory, and the
--                    ledger of payments that it implements.
--   Runner/Config    cmd/gocoon-runner/config.go, and splitEndpoints of cmd/gocoon-runner/discovery.go.
--   Runner/Text, Runner/Json
--                    what Runner uses of Go's strings and encoding/json.
--   Runner/Prompt, Runner/Tools, Runner/Strip, Runner/Extract, Runner/ToolCalls
--                    cmd/gocoon-runner/tools_translate.go: messages as text, the request, the spans
--                    of think tags, extractJSONObject, and the calls in an answer.
--   Tests            concrete runs.
--
-- How the state corresponds: a byte is a number below 256, a string is its bytes, and a w-bit
-- integer is its bit pattern or the signed number of it, with the wrap written out. A Reader is
-- its buffer and position. A FramedConn has the bytes that the peer will have sent, the bytes
-- that it wrote, the faults of the writes to come and the two counters as bit patterns. A
-- correlator names the channels of a query by a slot, since the caller of register holds them
-- too; each channel is a buffer of one, and a send that does not fit is dropped as in the source.
-- A call of the correlator is one step: the source sends to a channel after the lock is released,
-- when the query is out of the map and no other call can reach its channels. A stream has its
-- buffer and the marks that its Go channels are closed; it is held by a slot too, and a send
-- after a close, or a second close, which would stop the program, is recorded in it. Taking a
-- stream out of the map and closing its channels is one step. A Go map is an association list
-- without an order that counts. Times are numbers.
--
-- A transport has its connection, its correlator, its session and whether it is closed; the close
-- of the connection is no more input and writes that fail. One call, and one round of Run, is a
-- step. A client names its sessions by slots, as callers hold those that left its map; a
-- ConnectProxy is one step with the outcome of its connect, so calls that overlap are not covered.
-- A value of encoding/json is a data type, a number in it the bit pattern of a float64; an
-- object is an association list.
--
-- Loops are structural: over the items of a vector, the bits of a checksum, the entries of a map,
-- the messages of a request and the calls of a run. Three loops are on fuel. That of findNonce has
-- a counter that overflows after 2^63 rounds: the fuel is that number. Run has as many rounds as
-- there are bytes of input and one more, since a round takes at least the header of a frame off
-- or closes the transport. The searches for tags in a text have as many rounds as it has bytes and
-- one more, since a round takes at least a tag off.
--
-- What the code relies on is a parameter: the transport and the chain of a handshake are a record
-- Peer, whose answers may depend on all that was sent before; SHA-256 is a function from bytes to
-- bytes; strconv.Itoa, the order in which Go walks through a map, encoding/json's Marshal and
-- Unmarshal, TrimSpace, base64, path/filepath, the parser of addresses and the random bytes are
-- functions too.
--
-- Not modelled: goroutines, timers and the ticker of the correlator, logging, dialling and TLS,
-- HTTP handlers, flags and printing, since they are input and output around the parts above. And,
-- so far, the payments of a client and its registration on chain, the store on disk, the
-- contracts, the broadcasters, the command line, and of the runner its loop over proxies, its
-- control plane and its forwarding of requests.
pub mod Common
pub mod Tl
pub mod Cocoon
pub mod Router
pub mod Runner
pub mod Store
mod Tests

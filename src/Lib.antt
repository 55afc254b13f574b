-- ===== src/Lib.antt =====
-- js-libp2p: a model of parts of the library's own logic.
--
-- The repository is a set of packages. A node (packages/libp2p) puts together transports, encrypters
-- and stream multiplexers, and protocols run over the streams that these give it. Modelled are parts
-- that keep state of their own and that the rest builds on:
--
-- Base: the shared helpers. Numbers are the native ones, bytes and characters are numbers, a byte
-- array is the list of its bytes. Base.Map is JavaScript's Map in the order of insertion, Base.Int has
-- the integers, Base.Equality the equality of keys, Base.Sorting is JavaScript's stable sort.
--
-- Mplex: packages/stream-multiplexer-mplex/src. MessageTypes is message-types.ts. Decode is the
-- Decoder of decode.ts: `write` with `round` for one round of its loop, `decode_header` for
-- _decodeHeader, `read_var_int` for readVarInt; `write_all` is the calls of onData in mplex.ts,
-- which gives the decoder one chunk after the other and handles the messages of each. Encode is
-- encode.ts, whose headers are views of one shared pool: the memory of all pools is explicit, and
-- `write_messages` is `encode` for one message after another. Stream is what stream.ts sends. The
-- package uint8-varint is the parameter `Varint`, with LEB128 as its documented behaviour. An
-- exception is the result `err`. Muxer is mplex.ts over packages/utils/src/abstract-stream-
-- muxer.ts: the list of streams with their ids, `handle_message` for handleMessage, the rate limit
-- and the early streams. Its streams are those of Utils.MessageStream and its limiter that of
-- Utils.RateLimiter. The connection below is the parameter `conn_send` over a state `W`.
-- Muxer.Steps puts its events one after the other; what is done to a stream is any function of it.
-- A stream takes itself off the list where its status comes to an end. The method close, which
-- waits for the streams, is left out.
--
-- Gossipsub: packages/gossipsub/src. MessageCache is message-cache.ts, all operations; the message,
-- its topic and msgIdToStrFn are parameters. Run puts operations one after the other. `shift` of a
-- cache with no window throws: it is `none`. TimeCache is utils/time-cache.ts, with Date.now() as an
-- argument; its loop over the entries of a Map that it deletes from is a recursion on the list.
--
-- Router is gossipsub.ts as far as it keeps the meshes and the backoffs: `handle_graft` and
-- `handle_prune`, and in Router.Subscriptions `join`, `leave`, `graft_on_subscribe`, `remove_peer` and
-- `clear_backoff`. `negative` says which peers have a score below zero at the time of the call, and
-- Shuffle is utils/shuffle.ts with its random draws as an argument. A handler runs at one time; where
-- handlePrune waits for the peers of an exchange, its list counts as several lists. Router.Steps puts
-- these events one after the other. Heartbeat is the body of the heartbeat's loop over the meshes, with
-- comparisons of scores as an argument; the PRUNEs that it sends set the backoffs of its own pruning
-- once more and are left out, as are the gossip, the fanout's upkeep and the publishing.
--
-- Requests is handleIHave and Responses is handleIWant of gossipsub.ts, the latter over the MessageCache.
-- The score, the mesh, the cache of seen messages and msgIdToStrFn are arguments of a call; both put calls
-- one after the other, Requests from counters as the heartbeat clears them. Counts by topic are left out.
--
-- KadDht: packages/kad-dht/src. PeerDistanceList is peer-distance-list.ts, the list of the closest
-- peers that queries and the routing table use. The functions xor and xorCompare of uint8arrays and
-- the key that convertPeerId derives from a peer id are parameters, with xorCompare as a total order.
-- KBucket is routing-table/k-bucket.ts: the trie of buckets with `get`, `remove`, `stop` and `add`,
-- whose passes are `add_pass`, with the answers of verify and ping as arguments of the call. The calls
-- are those of a caller that waits for each before the next: calls that overlap, which can change a
-- bucket while another call splits it, are not modelled. The binary text of a key is a parameter. The
-- functions onAdd, onRemove and onMove are the caller's.
--
-- Utils: packages/utils/src. MemoryStorage and RateLimiter are the two classes of rate-limiter.ts.
-- Date.now() is an argument, and a timer that fires is a call of `expire`. MessageStream is
-- abstract-message-stream.ts with abstract-stream.ts as MessageStream.Close: the statuses, the two
-- buffers and the events of a stream. Its sendData is the parameter `send_data` over a state `W`, with
-- the answer of SendResult; a listener that calls the stream back does it in a later step, and a timer
-- that dispatches the read buffer is a step too. The timeline, the promise of onDrain and the async
-- iterator are left out. `delivered` and `accepted` record the bytes of the message events and those
-- that sendData took.
--
-- Utils.Queue is queue/index.ts with priority-queue.ts: the jobs with their statuses, `add`,
-- `try_to_start_another`, `on_run_end` for what follows the end of a run, `pause`, `resume` and `clear`. A
-- job may settle, and the promise of `add` be rejected, at any time; the ids of the runs that have not
-- ended are kept beside the queue. The recipients of a result, the events and toGenerator are left out.
--
-- Multistream: packages/multistream-select/src. Select is select.ts and Handle is handle.ts, each as a
-- reaction to the message that it reads; Text is readString of multistream.ts and what is written.
-- System puts the two sides at the ends of a stream that keeps the order of whole messages, and takes
-- turns in any order. The UTF-8 functions of uint8arrays are the parameter `Utf8`, with the documented
-- round trip, the length prefix of it-length-prefixed is `single`.
--
-- ConnectionManager: packages/libp2p/src/connection-manager. Pruner is connection-pruner.ts with
-- safelyCloseConnectionIfUnused of utils.ts: which connections are chosen, and which of them are
-- closed. What is expected of it is in Pruner.Expected. The peer store's tags and the nets of the
-- allow list are the parameter `Components`. Where the allow list is concerned, connections that
-- are no network addresses are in it as soon as it has an entry, as in the code.
--
-- CircuitRelay: packages/transport-circuit-relay-v2/src. ReservationStore is
-- server/reservation-store.ts, with the timers of the signals as a part of the state and Date.now() as
-- an argument; Server is server/index.ts, from the decoded request to the answer, with what the
-- environment says as `Components`. Server.Steps puts requests, failed confirmations, timers and stops
-- one after the other. A confirmation fails in a later step. Limits is createLimitedRelay and
-- LimitTracker of utils.ts as far as they count bytes.
--
-- Loops that are not structural take fuel: `drain` gives the decoder's loop one round more than the
-- buffer has bytes, and every round that goes on takes a byte at least; `slices` has one round for
-- each byte, and every round takes one at least when `maxDataSize` is not 0; `process_send_queue` has
-- one round more than the write buffer has bytes, and a round that goes on sends a byte at least. In
-- Multistream, one round more than there are protocols is enough. The list of turns that a call of
-- KBucket's `add` gets is its fuel; two more than `prefixLength` are enough where verify succeeds, the
-- pinged peers respond and the time stands still.
--
-- Numbers: readVarInt is in JavaScript's doubles, so sums of 2^53 and more are rounded; shifts and `|`
-- are on 32 bits with sign. Times, points and counts are taken to be exact.
--
-- Not modelled: network and platform I/O, cryptography, generated protobuf code, metrics and logging.
-- The abort signals and the promises of the operations are left out where they only report an end.
pub mod Base
pub mod Mplex
pub mod CircuitRelay
pub mod ConnectionManager
pub mod Multistream
pub mod Utils
pub mod Gossipsub
pub mod KadDht

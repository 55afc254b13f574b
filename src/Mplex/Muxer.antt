-- ===== src/Mplex/Muxer.antt =====
-- packages/stream-multiplexer-mplex/src/mplex.ts, over packages/utils/src/abstract-stream-muxer.ts
-- The id of a stream is the text `i` or `r` before its number: `i` for the streams that this side
-- opened. It is modelled by the direction and the number. `conn_send` is the `send` of the connection
-- below, of the state `W`, with the messages of one call before they are encoded; its answer is true
-- also where it throws, which an abort catches. `conn_abort` is its `abort`, whose close event is a
-- step of its own. What the listeners do with a stream is a step of the stream.
pub mod Ids
pub mod Limit
pub mod Flood
pub mod Found
pub mod Steps
use mathlib.Core.Option
use js_libp2p.Base.{
  ℤ, pos, ℕ, suc, ◌+◌, Bool, true, false, not, ◌&&◌, Option, none, some, List, [], ◌∷◌, ◌++◌, map,
  if◌then◌else◌, ltb, length, nat_beq, beq_ℤ,
}
use js_libp2p.Mplex.MessageTypes.{Message, MessageTypes}
use js_libp2p.Mplex.Decode.{Decoder, Result, ok, err, out_of_fuel}
use js_libp2p.Mplex.Decode as Decode
use js_libp2p.Mplex.Stream.{Direction, inbound, outbound, MplexStream, send_reset, send_data}
use js_libp2p.Utils.MessageStream.{
  MessageStream, Status, is_terminal, aborted_status, abort, on_data, on_remote_close_write,
  on_remote_reset, on_transport_closed, on_muxer_needs_drain, on_muxer_drain,
}
use js_libp2p.Utils.MessageStream as MessageStream
use js_libp2p.Utils.RateLimiter.{RateLimiter, Consumed, allowed, rate_limit_error, consume}

-- StreamMuxerStatus of packages/interface.
pub data MuxerStatus : Type 0 where
  open_status closing_status closed_status : MuxerStatus

abbrev pub is_open : MuxerStatus → Bool
is_open open_status = true
is_open _ = false

abbrev pub is_closed : MuxerStatus → Bool
is_closed closed_status = true
is_closed _ = false

pub record MuxedStream : Type 0 where
  pub direction : Direction
  pub number : ℤ
  pub stream : MessageStream

-- What the streams of a muxer are made with: streamOptions, and the muxer's maxMessageSize.
pub record StreamOptions : Type 0 where
  pub max_read_buffer_length : ℕ
  pub max_write_buffer_length : Option ℕ
  pub max_data_size : ℕ

pub record Muxer (W : Type 0) : Type 0 where
  pub status : MuxerStatus
  pub next_stream_id : ℕ
  pub streams : List MuxedStream
  pub early_streams : ℕ
  pub max_early_streams : ℕ
  pub stream_listeners : ℕ
  pub rate_limiter : RateLimiter
  pub decoder : Decoder
  pub options : StreamOptions
  pub connection : W

abbrev pub same_direction : Direction → Direction → Bool
same_direction inbound inbound = true
same_direction outbound outbound = true
same_direction _ _ = false

abbrev pub has_id : MuxedStream → Direction → ℤ → Bool
has_id s direction number =
    if same_direction s.direction direction then beq_ℤ s.number number else false

-- `this.streams.find(s => s.id === id)`
unfoldable pub find_stream : List MuxedStream → Direction → ℤ → Option MuxedStream
find_stream [] direction number = none
find_stream (s ∷ ss) direction number =
    if has_id s direction number then some s else find_stream ss direction number

-- A stream that ends dispatches an event, at which the muxer takes it off its list.
abbrev pub has_just_ended : MessageStream → MessageStream → Bool
has_just_ended before after = if is_terminal before.status then false else is_terminal after.status

-- The first stream with the id after a call of it.
unfoldable pub settle_first :
    (MessageStream → MessageStream) → List MuxedStream → Direction → ℤ → List MuxedStream
settle_first f [] direction number = []
settle_first f (s ∷ ss) direction number =
    if has_id s direction number
    then if has_just_ended s.stream (f s.stream) then ss else record s { stream = f s.stream } ∷ ss
    else s ∷ settle_first f ss direction number

-- All streams after a call of each.
unfoldable pub settle_all : (MessageStream → MessageStream) → List MuxedStream → List MuxedStream
settle_all f [] = []
settle_all f (s ∷ ss) =
    let rest = settle_all f ss in
    if has_just_ended s.stream (f s.stream) then rest else record s { stream = f s.stream } ∷ rest

abbrev pub is_aborted : Status → Bool
is_aborted aborted_status = true
is_aborted _ = false

-- The call made the stream send a reset message.
abbrev pub has_reset : MessageStream → MessageStream → Bool
has_reset before after = if is_terminal before.status then false else is_aborted after.status

abbrev pub plain_stream : StreamOptions → MuxedStream → MplexStream
plain_stream o s = record {
  stream_id = s.number;
  direction = s.direction;
  max_data_size = o.max_data_size;
}

abbrev pub needs_drain : MuxedStream → MuxedStream
needs_drain s = record s { stream = on_muxer_needs_drain s.stream }

abbrev pub drained : MuxedStream → MuxedStream
drained s = record s { stream = on_muxer_drain s.stream }

-- The direction of the streams that a message is for: an odd type comes from the receiver's side.
abbrev pub addressee : MessageTypes → Direction
addressee MessageTypes.message_receiver = outbound
addressee MessageTypes.close_receiver = outbound
addressee MessageTypes.reset_receiver = outbound
addressee _ = inbound

abbrev pub is_new_stream : MessageTypes → Bool
is_new_stream MessageTypes.new_stream = true
is_new_stream _ = false

abbrev pub payload_of : Option (List ℕ) → List ℕ
payload_of none = []
payload_of (some bytes) = bytes

-- The call of the stream that a message makes.
abbrev pub call_of : Message → MessageStream → MessageStream
call_of message s = elim message.type [
  | MessageTypes.message_initiator ↦ on_data s (payload_of message.payload)
  | MessageTypes.message_receiver ↦ on_data s (payload_of message.payload)
  | MessageTypes.close_initiator ↦ on_remote_close_write s
  | MessageTypes.close_receiver ↦ on_remote_close_write s
  | MessageTypes.reset_initiator ↦ on_remote_reset s
  | MessageTypes.reset_receiver ↦ on_remote_reset s
  | _ ↦ s
]

-- The keys `new-stream` and `missing-stream` of the rate limiter.
abbrev pub new_stream_key : List ℕ
new_stream_key = b'n' ∷ b'e' ∷ b'w' ∷ b'-' ∷ b's' ∷ b't' ∷ b'r' ∷ b'e' ∷ b'a' ∷ b'm' ∷ []

abbrev pub missing_stream_key : List ℕ
missing_stream_key =
    b'm' ∷ b'i' ∷ b's' ∷ b's' ∷ b'i' ∷ b'n' ∷ b'g' ∷ b'-' ∷ b's' ∷ b't' ∷ b'r' ∷ b'e' ∷ b'a' ∷ b'm'
    ∷ []

module _ {W : Type 0} where
  abbrev pub new_stream : Muxer W → ℤ → Direction → MuxedStream
  new_stream m number direction = record {
    direction = direction;
    number = number;
    stream =
        MessageStream.init m.options.max_read_buffer_length m.options.max_write_buffer_length none;
  }

  -- `points` is the disconnectThreshold, for a duration of one second.
  unfoldable pub new_muxer : W → ℕ → ℕ → StreamOptions → Decoder → Muxer W
  new_muxer w points max_early options decoder = record {
    status = open_status;
    next_stream_id = 0;
    streams = [];
    early_streams = 0;
    max_early_streams = max_early;
    stream_listeners = 0;
    rate_limiter = record {
      memory_storage = [];
      points = points;
      duration = 1;
      block_duration = 0;
      key_prefix = b'r' ∷ b'l' ∷ b'f' ∷ b'l' ∷ b'x' ∷ [];
    };
    decoder = decoder;
    options = options;
    connection = w;
  }

  -- `createStream` with `onCreateStream`, `none` where it throws a MuxerClosedError.
  unfoldable pub create_stream : Muxer W → Option (Muxer W)
  create_stream m =
      if is_open m.status
      then some (record m {
        next_stream_id = m.next_stream_id + 1;
        streams = m.streams ++ (new_stream m (pos m.next_stream_id) outbound ∷ []);
      })
      else none

  -- `muxerMaConnOnDrain`
  unfoldable pub on_drain : Muxer W → Muxer W
  on_drain m = record m { streams = map drained m.streams }

  unfoldable pub transport_closed : Muxer W → Muxer W
  transport_closed m = record m {
    streams = settle_all (λ s. on_transport_closed s false) m.streams;
    status = closed_status;
  }

  -- The streams go over to the new listener in a microtask, with nothing in between.
  unfoldable pub add_stream_listener : Muxer W → Muxer W
  add_stream_listener m = record m { stream_listeners = m.stream_listeners + 1; early_streams = 0 }

module _ {W : Type 0} (conn_send : W → List Message → W × Bool) where
  -- `send` of the muxer: all streams are told where the connection is full.
  unfoldable pub send_messages : Muxer W → List Message → Muxer W
  send_messages m messages =
      let (w, room) = conn_send m.connection messages in
      if room
      then record m { connection = w }
      else record m { connection = w; streams = map needs_drain m.streams }

  -- The resets of the streams that are aborted.
  unfoldable pub send_resets : Muxer W → List MuxedStream → Muxer W
  send_resets m [] = m
  send_resets m (s ∷ ss) =
      let reset = send_messages m (send_reset (plain_stream m.options s) ∷ []) in
      let m' = if has_reset s.stream (MessageStream.abort s.stream) then reset else m in
      send_resets m' ss

  unfoldable pub abort_muxer : Muxer W → Muxer W
  abort_muxer m =
      let m' = send_resets m m.streams in
      if is_closed m.status
      then m
      else record m' { streams = settle_all MessageStream.abort m'.streams; status = closed_status }

  unfoldable pub on_remote_stream : Muxer W → MuxedStream → Muxer W
  on_remote_stream m s =
      let m' = record m { streams = m.streams ++ (s ∷ []) } in
      let early = record m' { early_streams = m.early_streams + 1 } in
      if nat_beq m.stream_listeners 0
      then if ltb m.max_early_streams (m.early_streams + 1) then abort_muxer early else early
      else m'

  -- What a call of `rateLimiter.consume` leads to: `next`, or the end of the muxer.
  abbrev pub if_allowed : RateLimiter × Consumed → Muxer W → (Muxer W → Muxer W) → Muxer W
  if_allowed (l, allowed r) m next = next (record m { rate_limiter = l })
  if_allowed (l, rate_limit_error r) m next = abort_muxer (record m { rate_limiter = l })

  -- A message for the stream `s`.
  unfoldable pub deliver : Muxer W → MuxedStream → Message → Muxer W
  deliver m s message =
      let m' = record m {
        streams = settle_first (call_of message) m.streams s.direction s.number;
      } in
      if has_reset s.stream (call_of message s.stream)
      then send_messages m' (send_reset (plain_stream m.options s) ∷ [])
      else m'

  unfoldable pub handle_new_stream : ℕ → Muxer W → Message → Muxer W
  handle_new_stream now m message =
      if_allowed (consume now m.rate_limiter new_stream_key 1 none) m
        (λ m'. on_remote_stream m' (new_stream m message.id inbound))

  -- The rest of the handler, with the stream that was found.
  unfoldable pub handle_found : ℕ → Muxer W → Message → Option MuxedStream → Muxer W
  handle_found now m message none =
      if_allowed (consume now m.rate_limiter missing_stream_key 1 none) m (λ m'. m')
  handle_found now m message (some s) = deliver m s message

  unfoldable pub handle_message : ℕ → Muxer W → Message → Muxer W
  handle_message now m message =
      if is_new_stream message.type
      then handle_new_stream now m message
      else handle_found now m message (find_stream m.streams (addressee message.type) message.id)

  unfoldable pub handle_messages : ℕ → Muxer W → List Message → Muxer W
  handle_messages now m [] = m
  handle_messages now m (message ∷ messages) =
      handle_messages now (handle_message now m message) messages

  -- A chunk that cannot be decoded ends the muxer, and the connection.
  unfoldable pub on_decoded : (W → W) → ℕ → Muxer W → Result (List Message) → Muxer W
  on_decoded conn_abort now m (ok messages) = handle_messages now m messages
  on_decoded conn_abort now m _ =
      let aborted = abort_muxer m in record aborted { connection = conn_abort aborted.connection }

  -- `muxerMaConnOnMessage`, with `onData`
  unfoldable pub on_message : (W → W) → ℕ → Muxer W → List ℕ → Muxer W
  on_message conn_abort now m chunk =
      let (r, d) = Decode.write m.decoder chunk in
      on_decoded conn_abort now (record m { decoder = d }) r

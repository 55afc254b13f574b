-- ===== src/Mplex/Stream.antt =====
-- packages/stream-multiplexer-mplex/src/stream.ts: what a stream sends.
pub mod Slices
use js_libp2p.Base.{
  ℤ, pos, ℕ, zero, suc, ◌<◌, Bool, Option, none, some, List, [], ◌∷◌, map, if◌then◌else◌, ltb,
  length, take, drop,
}
use js_libp2p.Mplex.MessageTypes.{MessageTypes, Message}
use mathlib.Core.Option

pub data Direction : Type 0 where
  inbound outbound : Direction

pub record MplexStream : Type 0 where
  pub stream_id : ℤ
  pub direction : Direction
  pub max_data_size : ℕ

-- InitiatorMessageTypes and ReceiverMessageTypes of message-types.ts.
abbrev pub message_type : Direction → MessageTypes
message_type outbound = MessageTypes.message_initiator
message_type inbound = MessageTypes.message_receiver

abbrev pub close_type : Direction → MessageTypes
close_type outbound = MessageTypes.close_initiator
close_type inbound = MessageTypes.close_receiver

abbrev pub reset_type : Direction → MessageTypes
reset_type outbound = MessageTypes.reset_initiator
reset_type inbound = MessageTypes.reset_receiver

-- `Math.min(data.byteLength, this.maxDataSize)`
abbrev pub to_send : ℕ → List ℕ → ℕ
to_send max bytes = if ltb (length bytes) max then length bytes else max

-- The slices that the loop of `sendData` cuts, `none` where the rounds run out.
unfoldable pub slices : ℕ → ℕ → List ℕ → Option (List (List ℕ))
slices fuel max [] = some []
slices zero max (b ∷ bs) = none
slices (suc fuel) max (b ∷ bs) =
    let n = to_send max (b ∷ bs) in
    Option.map (λ rest. take n (b ∷ bs) ∷ rest) (slices fuel max (drop n (b ∷ bs)))

abbrev pub data_message : MplexStream → List ℕ → Message
data_message s slice = record {
  id = s.stream_id;
  type = message_type s.direction;
  payload = some slice;
}

-- The messages that are encoded and sent: with a slice of at least one byte a round, the number of
-- bytes is enough rounds.
unfoldable pub send_data : MplexStream → List ℕ → Option (List Message)
send_data s bytes = Option.map (map (data_message s)) (slices (length bytes) s.max_data_size bytes)

unfoldable pub send_reset : MplexStream → Message
send_reset s = record { id = s.stream_id; type = reset_type s.direction; payload = none }

unfoldable pub send_close_write : MplexStream → Message
send_close_write s = record { id = s.stream_id; type = close_type s.direction; payload = none }

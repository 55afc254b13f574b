-- ===== src/Mplex/Muxer/Steps.antt =====
-- packages/utils/src/abstract-stream-muxer.ts and packages/stream-multiplexer-mplex/src/mplex.ts: the
-- events of a muxer one after the other, as one step function.
use js_libp2p.Base.{ℤ, ℕ, Bool, Option, none, some, List, [], ◌∷◌}
use js_libp2p.Mplex.MessageTypes.{Message}
use js_libp2p.Mplex.Stream.{Direction}
use js_libp2p.Utils.MessageStream.{MessageStream}
use js_libp2p.Mplex.Muxer.{
  Muxer, create_stream, on_drain, add_stream_listener, send_messages, abort_muxer, transport_closed,
  on_message, settle_first,
}

-- `stream_acts` is whatever is done to the stream with an id: calls of it, and their microtasks.
pub data Op : Type 0 where
  creates drains listens aborts transport_closes : Op
  sends : List Message → Op
  data_arrives : ℕ → List ℕ → Op
  stream_acts : (MessageStream → MessageStream) → Direction → ℤ → Op

module _ {W : Type 0} where
  -- A call that throws a MuxerClosedError leaves the muxer as it is.
  abbrev pub or_same : Muxer W → Option (Muxer W) → Muxer W
  or_same m none = m
  or_same m (some m') = m'

module _ {W : Type 0} (conn_send : W → List Message → W × Bool) (conn_abort : W → W) where
  unfoldable pub step : Muxer W → Op → Muxer W
  step m Op.creates = or_same m (create_stream m)
  step m Op.drains = on_drain m
  step m Op.listens = add_stream_listener m
  step m Op.aborts = abort_muxer conn_send m
  step m Op.transport_closes = transport_closed m
  step m (Op.sends messages) = send_messages conn_send m messages
  step m (Op.data_arrives now chunk) = on_message conn_send conn_abort now m chunk
  step m (Op.stream_acts f direction number) = record m {
    streams = settle_first f m.streams direction number;
  }

  unfoldable pub run : Muxer W → List Op → Muxer W
  run m [] = m
  run m (op ∷ ops) = run (step m op) ops

-- ===== src/Mplex/MuxerRuns.antt =====
-- Runs of the mplex muxer, and its theorems at concrete inputs.
use mathlib.Core.List.{Memᴰ}
use mathlib.Core.List.Memᴰ.{head, tail}
use js_libp2p.Base.{pos, ℕ, ◌+◌, ◌<◌, ◌≡◌, refl, Bool, true, none, some, List, [], ◌∷◌, arith}
use js_libp2p.Mplex.MessageTypes.{Message, MessageTypes}
use js_libp2p.Mplex.Decode as Decode
use js_libp2p.Mplex.Stream.{outbound}
use js_libp2p.Utils.MessageStream as MessageStream
use js_libp2p.Mplex.Muxer.{
  Muxer, MuxedStream, StreamOptions, new_muxer, create_stream, is_closed, settle_first,
}
use js_libp2p.Mplex.Muxer.Steps.{Op, step, run}
use js_libp2p.Mplex.Muxer.Found.{FoundFrom, run-find_stream}
use js_libp2p.Mplex.Muxer.Limit.{Timed, handle_run, AreWithin, count_new}
use js_libp2p.Mplex.Muxer.Flood.{IsFresh, window_end, handle_run-limit}

abbrev options : StreamOptions
options = record {
  max_read_buffer_length = 100;
  max_write_buffer_length = some 100;
  max_data_size = 50;
}

-- A connection that counts the messages, and is never full.
counts : ℕ → List Message → ℕ × Bool
counts w [] = (w, true)
counts w (m ∷ ms) = counts (w + 1) ms

stays : ℕ → ℕ
stays w = w

abbrev start : Muxer ℕ
start = new_muxer 0 2 10 options (Decode.init 1000 1000)

-- Three streams, the second of which is aborted.
abbrev ops : List Op
ops =
    Op.creates ∷ Op.creates ∷ Op.stream_acts MessageStream.abort outbound (pos 1) ∷ Op.creates ∷ []

abbrev third : MuxedStream
third = record {
  direction = outbound;
  number = pos 2;
  stream = MessageStream.init 100 (some 100) none;
}

third_is_open : Memᴰ third (run counts stays start ops).streams
unfolding run step new_muxer create_stream settle_first MessageStream.abort MessageStream.init
third_is_open = tail (head refl)

run-find_stream_example :
    FoundFrom 0
      (run counts stays start ops).streams
      (run counts stays start ops).next_stream_id
      third
run-find_stream_example =
    run-find_stream counts stays 0 2 10 options (Decode.init 1000 1000) ops third third_is_open refl

abbrev opens : ℕ → Timed
opens n = (n, record { id = pos n; type = MessageTypes.new_stream; payload = none })

abbrev four_messages : List Timed
four_messages =
    opens 5
    ∷ opens 6
    ∷ (7, record { id = pos 5; type = MessageTypes.reset_initiator; payload = none })
    ∷ opens 900
    ∷ []

start-IsFresh : IsFresh start.rate_limiter
unfolding new_muxer
start-IsFresh = record { blocks_none = refl; lasts = omega arith; is_empty = refl }

four_messages-AreWithin : AreWithin 5 (window_end 5 start.rate_limiter) four_messages
unfolding AreWithin new_muxer
four_messages-AreWithin = omega arith

too_many : start.rate_limiter.points < count_new four_messages
unfolding count_new new_muxer
too_many = omega arith

handle_run-limit_example : is_closed (handle_run counts start four_messages).status ≡ true
handle_run-limit_example =
    handle_run-limit counts 5 start four_messages start-IsFresh four_messages-AreWithin too_many

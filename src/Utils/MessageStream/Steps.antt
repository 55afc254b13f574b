-- ===== src/Utils/MessageStream/Steps.antt =====
-- The calls of a message stream one after the other, as one step function. The state is that of the
-- stream and of what it writes to.
use js_libp2p.Base.{ℕ, Bool, Option, none, some, List, [], ◌∷◌}
use js_libp2p.Utils.MessageStream.{
  MessageStream, abort, pause, resume, push, unshift, on_data, add_message_listener,
  remove_message_listener, dispatch_read_buffer, on_remote_reset, on_transport_closed,
  on_remote_close_write, on_remote_close_read, on_muxer_needs_drain, on_muxer_drain,
}
use js_libp2p.Utils.MessageStream.Send.{SendAnswer, send, process_send_queue}
use js_libp2p.Utils.MessageStream.Close.{close, finish_close, close_read, finish_close_read}

pub data Op : Type 0 where
  sends pushes unshifts data_arrives : List ℕ → Op
  aborts pauses resumes listens unlistens dispatches : Op
  remote_resets remote_closes_write remote_closes_read : Op
  transport_closes : Bool → Op
  processes needs_drain drains : Op
  closes finishes_close closes_read finishes_close_read : Op

-- A call that throws a StreamStateError leaves the stream as it is.
abbrev pub or_same : MessageStream → Option MessageStream → MessageStream
or_same s none = s
or_same s (some s') = s'

-- The calls that send nothing.
unfoldable pub local_step : MessageStream → Op → MessageStream
local_step s (sends bytes) = s
local_step s processes = s
local_step s (pushes bytes) = or_same s (push s bytes)
local_step s (unshifts bytes) = or_same s (unshift s bytes)
local_step s (data_arrives bytes) = on_data s bytes
local_step s aborts = abort s
local_step s pauses = or_same s (pause s)
local_step s resumes = or_same s (resume s)
local_step s listens = add_message_listener s
local_step s unlistens = remove_message_listener s
local_step s dispatches = dispatch_read_buffer s
local_step s remote_resets = on_remote_reset s
local_step s remote_closes_write = on_remote_close_write s
local_step s remote_closes_read = on_remote_close_read s
local_step s (transport_closes with_error) = on_transport_closed s with_error
local_step s needs_drain = on_muxer_needs_drain s
local_step s drains = on_muxer_drain s
local_step s closes = (close s).0
local_step s finishes_close = finish_close s
local_step s closes_read = (close_read s).0
local_step s finishes_close_read = finish_close_read s

module _ {W : Type 0} (send_data : W → List ℕ → W × SendAnswer) where
  unfoldable pub step : W × MessageStream → Op → W × MessageStream
  step (w, s) (sends bytes) = let (w', s', r) = send send_data w s bytes in (w', s')
  step (w, s) processes = let (w', s', r) = process_send_queue send_data w s in (w', s')
  step (w, s) op = (w, local_step s op)

  unfoldable pub run : W × MessageStream → List Op → W × MessageStream
  run ws [] = ws
  run ws (op ∷ ops) = run (step ws op) ops

  -- What every step keeps, a run keeps.
  pub run_induction :
      (Q : MessageStream → Type 0)
      → ((w : W) (s : MessageStream) (op : Op) → Q s → Q (step (w, s) op).1)
      → (w : W) (s : MessageStream) (ops : List Op) → Q s
      → Q (run (w, s) ops).1
  unfolding run
  run_induction Q keep w s [] q = q
  run_induction Q keep w s (op ∷ ops) q =
      let (w', s') = step (w, s) op in
      run_induction Q keep (step (w, s) op).0 (step (w, s) op).1 ops (keep w s op q)

-- ===== src/Utils/MessageStream/Statuses.antt =====
-- The statuses of a message stream in any run.
use js_libp2p.Base.{ℕ, ◌≡◌, true, Option, List, ◌++◌, arith, inl, inr, Bool-cases}
use js_libp2p.Utils.MessageStream.{
  MessageStream, ReadStatus, WriteStatus, is_terminal, init, abort, check_read_buffer_length,
  check_write_buffer_length, dispatch, close_when_read, dispatch_read_buffer, pause, resume, push,
  unshift, on_data, on_remote_reset, on_transport_closed, on_remote_close_write,
  on_remote_close_read, writes_no_more,
}
use js_libp2p.Utils.MessageStream.Send.{SendAnswer, send, process_send_queue}
use js_libp2p.Utils.MessageStream.Close.{close, finish_close, close_read, finish_close_read}
use js_libp2p.Utils.MessageStream.Rounds.{KeptBySending, process-keeps}
use js_libp2p.Utils.MessageStream.Steps.{Op, local_step, step, run, run_induction, sends, processes}

-- A stream that has ended is closed in both directions, on this side for writing and on the other.
pub record IsSound (s : MessageStream) : Type 0 where
  pub write_closed : is_terminal s.status ≡ true → s.write_status ≡ WriteStatus.closed
  pub remote_read_closed : is_terminal s.status ≡ true → s.remote_read_status ≡ ReadStatus.closed
  pub remote_write_closed : is_terminal s.status ≡ true → s.remote_write_status ≡ WriteStatus.closed

pub abort-IsSound : (s : MessageStream) → IsSound s → IsSound (abort s)
unfolding abort
abort-IsSound s h = ground arith

check_read-IsSound : (s : MessageStream) → IsSound s → IsSound (check_read_buffer_length s)
unfolding check_read_buffer_length
check_read-IsSound s h = ground (arith, abort-IsSound s h)

check_write-IsSound : (s : MessageStream) → IsSound s → IsSound (check_write_buffer_length s)
unfolding check_write_buffer_length
check_write-IsSound s h = ground (arith, abort-IsSound s h)

dispatch-IsSound : (s : MessageStream) → IsSound s → IsSound (dispatch_read_buffer s)
unfolding dispatch_read_buffer close_when_read dispatch
dispatch-IsSound s h = check_read-IsSound (close_when_read (dispatch s)) (ground arith)

local_step-IsSound : (s : MessageStream) (op : Op) → IsSound s → IsSound (local_step s op)
unfolding local_step push unshift pause resume on_data on_remote_reset on_transport_closed
    on_remote_close_write on_remote_close_read close finish_close close_read finish_close_read
local_step-IsSound s (Op.pushes bytes) h =
    ground (arith, check_read-IsSound (record s { read_buffer = s.read_buffer ++ bytes }))
local_step-IsSound s (Op.unshifts bytes) h =
    ground (arith, check_read-IsSound (record s { read_buffer = bytes ++ s.read_buffer }))
local_step-IsSound s (Op.data_arrives bytes) h =
    ground (arith, dispatch-IsSound (record s { read_buffer = s.read_buffer ++ bytes }))
local_step-IsSound s Op.aborts h = abort-IsSound s h
local_step-IsSound s Op.resumes h =
    ground (arith, dispatch-IsSound (record s { read_status = ReadStatus.readable }))
local_step-IsSound s Op.dispatches h = dispatch-IsSound s h
local_step-IsSound s (Op.transport_closes b) h = unfold abort in ground arith
local_step-IsSound s op h = ground arith

sending-IsSound : KeptBySending IsSound
unfolding abort
sending-IsSound = record {
  aborts = abort-IsSound;
  takes = λ s n h. ground arith;
  flags = λ s a b h. ground arith;
  emits = λ s h. ground arith;
}

-- It has ended, is closed, and `sendData` has taken these bytes.
pub record HasEnded (bytes : List ℕ) (s : MessageStream) : Type 0 where
  pub ended : is_terminal s.status ≡ true
  pub write_closed : s.write_status ≡ WriteStatus.closed
  pub remote_read_closed : s.remote_read_status ≡ ReadStatus.closed
  pub remote_write_closed : s.remote_write_status ≡ WriteStatus.closed
  pub all_accepted : s.accepted ≡ bytes

ended-HasEnded :
    (s : MessageStream) → IsSound s → is_terminal s.status ≡ true → HasEnded s.accepted s
ended-HasEnded s h e = ground arith

check_read-HasEnded :
    (bytes : List ℕ) (s : MessageStream)
    → HasEnded bytes s
    → HasEnded bytes (check_read_buffer_length s)
unfolding check_read_buffer_length abort
check_read-HasEnded bytes s h = ground arith

dispatch-HasEnded :
    (bytes : List ℕ) (s : MessageStream)
    → HasEnded bytes s
    → HasEnded bytes (dispatch_read_buffer s)
unfolding dispatch_read_buffer close_when_read dispatch
dispatch-HasEnded bytes s h =
    check_read-HasEnded bytes (close_when_read (dispatch s)) (ground arith)

local_step-HasEnded :
    (bytes : List ℕ) (s : MessageStream) (op : Op)
    → HasEnded bytes s
    → HasEnded bytes (local_step s op)
unfolding local_step push unshift pause resume on_data on_remote_reset on_transport_closed
    on_remote_close_write on_remote_close_read close finish_close close_read finish_close_read
local_step-HasEnded bytes s (Op.pushes bs) h =
    ground (arith, check_read-HasEnded bytes (record s { read_buffer = s.read_buffer ++ bs }))
local_step-HasEnded bytes s (Op.unshifts bs) h =
    ground (arith, check_read-HasEnded bytes (record s { read_buffer = bs ++ s.read_buffer }))
local_step-HasEnded bytes s (Op.data_arrives bs) h =
    ground (arith, dispatch-HasEnded bytes (record s { read_buffer = s.read_buffer ++ bs }))
local_step-HasEnded bytes s Op.aborts h = unfold abort in ground arith
local_step-HasEnded bytes s Op.resumes h =
    ground (arith, dispatch-HasEnded bytes (record s { read_status = ReadStatus.readable }))
local_step-HasEnded bytes s Op.dispatches h = dispatch-HasEnded bytes s h
local_step-HasEnded bytes s (Op.transport_closes b) h = unfold abort in ground arith
local_step-HasEnded bytes s op h = ground arith

module _ {W : Type 0} (send_data : W → List ℕ → W × SendAnswer) where
  send-IsSound :
      (w : W) (s : MessageStream) (bytes : List ℕ)
      → IsSound s
      → IsSound (send send_data w s bytes).1
  unfolding send
  send-IsSound w s bytes h = elim (Bool-cases (writes_no_more s.write_status)) [
    | inl c ↦ rw (send, c) h
    | inr c ↦
        rw (send, c)
          (process-keeps send_data IsSound sending-IsSound w
            (record s { write_buffer = s.write_buffer ++ bytes }) (ground arith))
  ]

  step-IsSound :
      (w : W) (s : MessageStream) (op : Op) → IsSound s → IsSound (step send_data (w, s) op).1
  unfolding step
  step-IsSound w s (sends bytes) h = send-IsSound w s bytes h
  step-IsSound w s processes h = process-keeps send_data IsSound sending-IsSound w s h
  step-IsSound w s op h = local_step-IsSound s op h

  pub run-IsSound :
      (w : W) (max_read : ℕ) (max_write max_message : Option ℕ) (ops : List Op)
      → IsSound (run send_data (w, init max_read max_write max_message) ops).1
  unfolding init
  run-IsSound w max_read max_write max_message ops =
      run_induction send_data IsSound step-IsSound w (init max_read max_write max_message) ops
        (ground arith)

  process-HasEnded :
      (w : W) (s : MessageStream) (bytes : List ℕ)
      → HasEnded bytes s
      → HasEnded bytes (process_send_queue send_data w s).1
  unfolding process_send_queue check_write_buffer_length abort
  process-HasEnded w s bytes h = ground arith

  step-HasEnded :
      (bytes : List ℕ) (w : W) (s : MessageStream) (op : Op)
      → HasEnded bytes s
      → HasEnded bytes (step send_data (w, s) op).1
  unfolding step send
  step-HasEnded bytes w s (sends more) h = ground arith
  step-HasEnded bytes w s processes h = process-HasEnded w s bytes h
  step-HasEnded bytes w s op h = local_step-HasEnded bytes s op h

  -- A new stream that has ended after some steps, by a close, an abort or a reset, has ended after any
  -- more steps too, is closed for writing and by the remote in both directions, and has handed no more
  -- bytes to `sendData`.
  pub run-HasEnded :
      (w : W) (max_read : ℕ) (max_write max_message : Option ℕ) (ops more : List Op)
      → is_terminal (run send_data (w, init max_read max_write max_message) ops).1.status ≡ true
      → HasEnded
          (run send_data (w, init max_read max_write max_message) ops).1.accepted
          (run send_data (run send_data (w, init max_read max_write max_message) ops) more).1
  run-HasEnded w max_read max_write max_message ops more ended =
      let r = run send_data (w, init max_read max_write max_message) ops in
      run_induction send_data (HasEnded r.1.accepted) (step-HasEnded r.1.accepted) r.0 r.1 more
        (ended-HasEnded r.1 (run-IsSound w max_read max_write max_message ops) ended)

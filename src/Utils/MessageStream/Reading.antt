-- ===== src/Utils/MessageStream/Reading.antt =====
-- The bytes that arrive at a message stream, on their way to its listeners.
use mathlib.Core.List.{append_assoc, append-nil}
use js_libp2p.Base.{
  ℕ, ◌≡◌, refl, sym, ap, ◌∙◌, subst, false, Option, List, [], ◌∷◌, ◌++◌, arith, take, drop, length,
  if◌then◌else◌, if_both, take_length-append, drop_length-append,
}
use js_libp2p.Utils.MessageStream.{
  MessageStream, ReadStatus, init, abort, check_read_buffer_length, dispatch, close_when_read,
  dispatch_read_buffer, pause, resume, push, unshift, on_data, buffered, on_remote_reset,
  on_transport_closed, on_remote_close_write, on_remote_close_read, reads_no_more, writes_no_more,
}
use js_libp2p.Utils.MessageStream.Send.{SendAnswer, SendOutcome, send}
use js_libp2p.Utils.MessageStream.Close.{close, finish_close, close_read, finish_close_read}
use js_libp2p.Utils.MessageStream.Rounds.{KeptBySending, process-keeps}
use js_libp2p.Utils.MessageStream.Steps.{
  Op, local_step, step, run, sends, processes, pushes, unshifts, data_arrives,
}

-- While the stream can be read, what was delivered and what waits are these bytes.
abbrev IsWaiting : List ℕ → MessageStream → Type 0
IsWaiting bytes s = reads_no_more s.read_status ≡ false → s.delivered ++ s.read_buffer ≡ bytes

abort-IsWaiting :
    (bytes : List ℕ) (s : MessageStream) → IsWaiting bytes s → IsWaiting bytes (abort s)
unfolding abort
abort-IsWaiting bytes s h e = ground (arith, h)

sending-IsWaiting : (bytes : List ℕ) → KeptBySending (IsWaiting bytes)
sending-IsWaiting bytes = record {
  aborts = abort-IsWaiting bytes;
  takes = λ s n h. h;
  flags = λ s a b h. h;
  emits = λ s h. h;
}

check-IsWaiting :
    (bytes : List ℕ) (s : MessageStream)
    → IsWaiting bytes s
    → IsWaiting bytes (check_read_buffer_length s)
unfolding check_read_buffer_length
check-IsWaiting bytes s h e = ground (arith, h, abort-IsWaiting bytes s h)

dispatch-IsWaiting :
    (bytes : List ℕ) (s : MessageStream)
    → IsWaiting bytes s
    → IsWaiting bytes (dispatch_read_buffer s)
unfolding dispatch_read_buffer close_when_read dispatch
dispatch-IsWaiting bytes s h =
    check-IsWaiting bytes (close_when_read (dispatch s))
      (λ e. ground (arith, h, append-nil (s.delivered ++ s.read_buffer)))

-- What the bytes that have arrived are after a step: unshifted bytes come before those that are not
-- delivered yet.
abbrev pub arrived_after : MessageStream → List ℕ → Op → List ℕ
arrived_after s bytes (pushes more) = if reads_no_more s.read_status then bytes else bytes ++ more
arrived_after s bytes (data_arrives more) =
    if reads_no_more s.read_status then bytes else bytes ++ more
arrived_after s bytes (unshifts more) =
    if reads_no_more s.read_status
    then bytes
    else take (length s.delivered) bytes ++ (more ++ drop (length s.delivered) bytes)
arrived_after s bytes op = bytes

buffered-IsWaiting :
    (bytes : List ℕ) (s : MessageStream) → IsWaiting bytes s → IsWaiting bytes (buffered s)
buffered-IsWaiting bytes s h e = ground (arith, h, check-IsWaiting bytes s h)

appended :
    (s : MessageStream) (bytes more : List ℕ)
    → IsWaiting bytes s
    → IsWaiting (bytes ++ more) (record s { read_buffer = s.read_buffer ++ more })
appended s bytes more h e =
    sym (append_assoc s.delivered s.read_buffer more) ∙ ap (λ l. l ++ more) (h e)

prepended :
    (s : MessageStream) (bytes more : List ℕ)
    → IsWaiting bytes s
    → IsWaiting
        (take (length s.delivered) bytes ++ (more ++ drop (length s.delivered) bytes))
        (record s { read_buffer = more ++ s.read_buffer })
prepended s bytes more h e =
    subst
      (λ b.
        s.delivered ++ (more ++ s.read_buffer)
        ≡ take (length s.delivered) b ++ (more ++ drop (length s.delivered) b))
      (h e)
      (sym (
        ap (λ l. l ++ (more ++ drop (length s.delivered) (s.delivered ++ s.read_buffer)))
          (take_length-append s.delivered s.read_buffer)
        ∙ ap (λ l. s.delivered ++ (more ++ l)) (drop_length-append s.delivered s.read_buffer)))

local_step-IsWaiting :
    (bytes : List ℕ) (s : MessageStream) (op : Op)
    → IsWaiting bytes s
    → IsWaiting (arrived_after s bytes op) (local_step s op)
unfolding local_step push unshift pause resume on_data on_remote_reset on_transport_closed
    on_remote_close_write on_remote_close_read close finish_close close_read finish_close_read abort
local_step-IsWaiting bytes s (pushes []) h e = ground (arith, h, append-nil bytes)
local_step-IsWaiting bytes s (pushes (b ∷ bs)) h e = ground (
  arith,
  h,
  buffered-IsWaiting (bytes ++ (b ∷ bs)) (record s { read_buffer = s.read_buffer ++ (b ∷ bs) })
      (appended s bytes (b ∷ bs) h),
)
local_step-IsWaiting bytes s (unshifts []) h e = ground (arith, h, prepended s bytes [] h)
local_step-IsWaiting bytes s (unshifts (b ∷ bs)) h e = ground (
  arith,
  h,
  buffered-IsWaiting
      (take (length s.delivered) bytes ++ ((b ∷ bs) ++ drop (length s.delivered) bytes))
      (record s { read_buffer = (b ∷ bs) ++ s.read_buffer }) (prepended s bytes (b ∷ bs) h),
)
local_step-IsWaiting bytes s (data_arrives []) h e = ground (arith, h, append-nil bytes)
local_step-IsWaiting bytes s (data_arrives (b ∷ bs)) h e = ground (
  arith,
  h,
  dispatch-IsWaiting (bytes ++ (b ∷ bs)) (record s { read_buffer = s.read_buffer ++ (b ∷ bs) })
      (appended s bytes (b ∷ bs) h),
)
local_step-IsWaiting bytes s Op.resumes h e =
    ground (arith, h, dispatch-IsWaiting bytes (record s { read_status = ReadStatus.readable }))
local_step-IsWaiting bytes s Op.dispatches h e = dispatch-IsWaiting bytes s h e
local_step-IsWaiting bytes s op h e = ground (arith, h)

module _ {W : Type 0} (send_data : W → List ℕ → W × SendAnswer) where
  send-IsWaiting :
      (w : W) (s : MessageStream) (bytes more : List ℕ)
      → IsWaiting bytes s
      → IsWaiting bytes (send send_data w s more).1
  unfolding send
  send-IsWaiting w s bytes more h =
      if_both (λ (r : W × MessageStream × SendOutcome). IsWaiting bytes r.1)
        (writes_no_more s.write_status) h
        (process-keeps send_data (IsWaiting bytes) (sending-IsWaiting bytes) w
          (record s { write_buffer = s.write_buffer ++ more }) h)

  step-IsWaiting :
      (w : W) (s : MessageStream) (op : Op) (bytes : List ℕ)
      → IsWaiting bytes s
      → IsWaiting (arrived_after s bytes op) (step send_data (w, s) op).1
  unfolding step
  step-IsWaiting w s (sends more) bytes h = send-IsWaiting w s bytes more h
  step-IsWaiting w s processes bytes h =
      process-keeps send_data (IsWaiting bytes) (sending-IsWaiting bytes) w s h
  step-IsWaiting w s op bytes h = local_step-IsWaiting bytes s op h

  -- The bytes that arrive in the steps, after those that arrived before.
  unfoldable pub arrived : W × MessageStream → List ℕ → List Op → List ℕ
  arrived ws bytes [] = bytes
  arrived ws bytes (op ∷ ops) = arrived (step send_data ws op) (arrived_after ws.1 bytes op) ops

  run-IsWaiting :
      (w : W) (s : MessageStream) (ops : List Op) (bytes : List ℕ)
      → IsWaiting bytes s
      → IsWaiting (arrived (w, s) bytes ops) (run send_data (w, s) ops).1
  unfolding run arrived
  run-IsWaiting w s [] bytes h = h
  run-IsWaiting w s (op ∷ ops) bytes h =
      let ws = step send_data (w, s) op in
      run-IsWaiting ws.0 ws.1 ops (arrived_after s bytes op) (step-IsWaiting w s op bytes h)

  -- After any steps on a new stream that can be read still, the bytes of its message events, with the
  -- read buffer behind them, are the bytes that arrived and were pushed, in order, each unshifted piece
  -- before what was not delivered at that time.
  pub delivered-arrived :
      (w : W) (max_read : ℕ) (max_write max_message : Option ℕ) (ops : List Op)
      → reads_no_more (run send_data (w, init max_read max_write max_message) ops).1.read_status
        ≡ false
      → (run send_data (w, init max_read max_write max_message) ops).1.delivered
          ++ (run send_data (w, init max_read max_write max_message) ops).1.read_buffer
        ≡ arrived (w, init max_read max_write max_message) [] ops
  delivered-arrived w max_read max_write max_message ops =
      run-IsWaiting w (init max_read max_write max_message) ops [] (λ e. unfold init in refl)

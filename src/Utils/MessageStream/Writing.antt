-- ===== src/Utils/MessageStream/Writing.antt =====
-- The bytes that are written to a message stream, on their way to `sendData`.
use mathlib.Core.List.{append_assoc, append-nil}
use js_libp2p.Base.{
  ℕ, ◌≡◌, refl, sym, ap, ◌∙◌, subst, Bool, true, false, Option, List, [], ◌∷◌, ◌++◌, arith, inl,
  inr, Bool-cases, take, drop, length, nat_beq, if◌then◌else◌, take-append_drop, take_length-append,
}
use js_libp2p.Utils.MessageStream.{
  MessageStream, ReadStatus, init, abort, check_read_buffer_length, dispatch, close_when_read,
  dispatch_read_buffer, pause, resume, push, unshift, on_data, on_remote_reset, on_transport_closed,
  on_remote_close_write, on_remote_close_read, writes_no_more,
}
use js_libp2p.Utils.MessageStream.Send.{SendAnswer, send, next_end, next_chunk, left_over}
use js_libp2p.Utils.MessageStream.Close.{close, finish_close, close_read, finish_close_read}
use js_libp2p.Utils.MessageStream.Rounds.{KeptBySending, process-keeps}
use js_libp2p.Utils.MessageStream.Steps.{Op, local_step, step, run, sends, processes}

abbrev pub is_read_closed : ReadStatus → Bool
is_read_closed ReadStatus.closed = true
is_read_closed _ = false

-- Unless the remote reads no more, what was taken and what waits are these bytes.
abbrev IsQueued : List ℕ → MessageStream → Type 0
IsQueued bytes s =
    is_read_closed s.remote_read_status ≡ false → s.accepted ++ s.write_buffer ≡ bytes

take_whole : (n : ℕ) (bytes : List ℕ) → n ≡ length bytes → take n bytes ≡ bytes
take_whole n bytes e =
    ap (λ k. take k bytes) e
    ∙ ap (take (length bytes)) (sym (append-nil bytes))
    ∙ take_length-append bytes []

taken_bytes :
    (n end : ℕ) (buffer : List ℕ)
    → take n (take end buffer) ++ left_over n (take end buffer) (drop end buffer) ≡ buffer
taken_bytes n end buffer =
    let chunk = take end buffer in
    let rest = drop end buffer in
    elim (Bool-cases (nat_beq n (length chunk))) [
      | inl e ↦
          rw e
            (ap (λ l. l ++ rest) (take_whole n chunk (ground arith)) ∙ take-append_drop end buffer)
      | inr e ↦ rw e (
          sym (append_assoc (take n chunk) (drop n chunk) rest)
          ∙ ap (λ l. l ++ rest) (take-append_drop n chunk)
          ∙ take-append_drop end buffer)
    ]

abort-IsQueued : (bytes : List ℕ) (s : MessageStream) → IsQueued bytes s → IsQueued bytes (abort s)
unfolding abort
abort-IsQueued bytes s h e = ground (arith, h)

sending-IsQueued : (bytes : List ℕ) → KeptBySending (IsQueued bytes)
sending-IsQueued bytes = record {
  aborts = abort-IsQueued bytes;
  takes = λ s n h e.
      append_assoc s.accepted (take n (next_chunk s))
        (left_over n (next_chunk s) (drop (next_end s) s.write_buffer))
      ∙ ap (◌++◌ s.accepted) (taken_bytes n (next_end s) s.write_buffer)
      ∙ h e;
  flags = λ s a b h. h;
  emits = λ s h. h;
}

dispatch-IsQueued :
    (bytes : List ℕ) (s : MessageStream)
    → IsQueued bytes s
    → IsQueued bytes (dispatch_read_buffer s)
unfolding dispatch_read_buffer close_when_read dispatch check_read_buffer_length abort
dispatch-IsQueued bytes s h e = ground (arith, h)

local_step-IsQueued :
    (bytes : List ℕ) (s : MessageStream) (op : Op)
    → IsQueued bytes s
    → IsQueued bytes (local_step s op)
unfolding local_step push unshift pause resume on_data on_remote_reset on_transport_closed
    on_remote_close_write on_remote_close_read close finish_close close_read finish_close_read
    check_read_buffer_length abort
local_step-IsQueued bytes s (Op.data_arrives bs) h e =
    ground (arith, h, dispatch-IsQueued bytes (record s { read_buffer = s.read_buffer ++ bs }) h)
local_step-IsQueued bytes s Op.resumes h e =
    ground (arith, h, dispatch-IsQueued bytes (record s { read_status = ReadStatus.readable }) h)
local_step-IsQueued bytes s Op.dispatches h e = dispatch-IsQueued bytes s h e
local_step-IsQueued bytes s op h e = ground (arith, h)

module _ {W : Type 0} (send_data : W → List ℕ → W × SendAnswer) where
  -- The bytes of the calls of `send` that are not refused.
  unfoldable pub written_by : MessageStream → Op → List ℕ
  written_by s (sends bytes) = if writes_no_more s.write_status then [] else bytes
  written_by s op = []

  unfoldable pub written : W × MessageStream → List Op → List ℕ
  written ws [] = []
  written ws (op ∷ ops) = written_by ws.1 op ++ written (step send_data ws op) ops

  send-IsQueued :
      (w : W) (s : MessageStream) (bytes more : List ℕ)
      → IsQueued bytes s
      → IsQueued (bytes ++ written_by s (sends more)) (send send_data w s more).1
  unfolding send written_by
  send-IsQueued w s bytes more h = elim (Bool-cases (writes_no_more s.write_status)) [
    | inl c ↦ rw (send, c) (λ e. h e ∙ sym (append-nil bytes))
    | inr c ↦
        rw (send, c)
          (process-keeps send_data (IsQueued (bytes ++ more)) (sending-IsQueued (bytes ++ more)) w
            (record s { write_buffer = s.write_buffer ++ more })
            (λ e. sym (append_assoc s.accepted s.write_buffer more) ∙ ap (λ l. l ++ more) (h e)))
  ]

  step-IsQueued :
      (w : W) (s : MessageStream) (op : Op) (bytes : List ℕ)
      → IsQueued bytes s
      → IsQueued (bytes ++ written_by s op) (step send_data (w, s) op).1
  unfolding step written_by
  step-IsQueued w s (sends more) bytes h = send-IsQueued w s bytes more h
  step-IsQueued w s processes bytes h =
      process-keeps send_data (IsQueued (bytes ++ [])) (sending-IsQueued (bytes ++ [])) w s
        (λ e. h e ∙ sym (append-nil bytes))
  step-IsQueued w s op bytes h = λ e. local_step-IsQueued bytes s op h e ∙ sym (append-nil bytes)

  run-IsQueued :
      (w : W) (s : MessageStream) (ops : List Op) (bytes : List ℕ)
      → IsQueued bytes s
      → IsQueued (bytes ++ written (w, s) ops) (run send_data (w, s) ops).1
  unfolding run written
  run-IsQueued w s [] bytes h = λ e. h e ∙ sym (append-nil bytes)
  run-IsQueued w s (op ∷ ops) bytes h =
      let ws = step send_data (w, s) op in
      subst (λ b. IsQueued b (run send_data ws ops).1)
        (append_assoc bytes (written_by s op) (written ws ops))
        (run-IsQueued ws.0 ws.1 ops (bytes ++ written_by s op) (step-IsQueued w s op bytes h))

  -- After any steps on a new stream, unless the remote's readable end counts as closed, the bytes that
  -- `sendData` took, with the write buffer behind them, are the bytes of all calls of `send` that were
  -- not refused, in order.
  pub accepted-written :
      (w : W) (max_read : ℕ) (max_write max_message : Option ℕ) (ops : List Op)
      → is_read_closed
          (run send_data (w, init max_read max_write max_message) ops).1.remote_read_status
        ≡ false
      → (run send_data (w, init max_read max_write max_message) ops).1.accepted
          ++ (run send_data (w, init max_read max_write max_message) ops).1.write_buffer
        ≡ written (w, init max_read max_write max_message) ops
  accepted-written w max_read max_write max_message ops =
      run-IsQueued w (init max_read max_write max_message) ops [] (λ e. unfold init in refl)

-- ===== src/Utils/MessageStream/Send.antt =====
-- packages/utils/src/abstract-message-stream.ts, send and processSendQueue
-- `sendData` of the class that extends this one is a parameter, over the state `W` of what it writes to.
use js_libp2p.Base.{
  ℕ, zero, suc, Bool, true, false, ◌||◌, Option, none, some, List, ◌++◌, if◌then◌else◌, ltb, length,
  take, drop, nat_beq,
}
use js_libp2p.Utils.MessageStream.{
  MessageStream, is_empty, abort, emit, idle, check_write_buffer_length, is_write_closed,
  writes_no_more,
}

-- What `sendData` returns, SendResult, or that it throws.
pub data SendAnswer : Type 0 where
  send_result : ℕ → Bool → SendAnswer
  send_throws : SendAnswer

-- How the loop over the write buffer ends: with `canSendMore`, or by the error of `sendData`; it
-- `spins` where `sendData` takes no byte and says that it can take more.
pub data LoopEnd : Type 0 where
  finished : Bool → LoopEnd
  threw spins : LoopEnd

-- What `send` and `processSendQueue` return or throw.
pub data SendOutcome : Type 0 where
  returned : Bool → SendOutcome
  state_error send_error hangs : SendOutcome

-- `Math.min(this.maxMessageSize ?? length, length)`
abbrev pub chunk_end : Option ℕ → ℕ → ℕ
chunk_end none size = size
chunk_end (some max) size = if ltb max size then max else size

-- The bytes that stay after `n` bytes of the chunk were taken.
abbrev pub left_over : ℕ → List ℕ → List ℕ → List ℕ
left_over n chunk rest = if nat_beq n (length chunk) then rest else drop n chunk ++ rest

-- The chunk of the next round, and the stream after `sendData` took `n` bytes of it.
abbrev pub next_end : MessageStream → ℕ
next_end s = chunk_end s.max_message_size (length s.write_buffer)

abbrev pub next_chunk : MessageStream → List ℕ
next_chunk s = take (next_end s) s.write_buffer

abbrev pub taken : MessageStream → ℕ → MessageStream
taken s n = record s {
  accepted = s.accepted ++ take n (next_chunk s);
  write_buffer = left_over n (next_chunk s) (drop (next_end s) s.write_buffer);
}

-- One round of the loop ends it, or the loop goes on.
pub data RoundEnd : Type 0 where
  ends : LoopEnd → RoundEnd
  goes_on : RoundEnd

module _ {W : Type 0} where
  abbrev pub answered : MessageStream → W × SendAnswer → W × MessageStream × RoundEnd
  answered s (w, send_throws) = (w, abort s, ends threw)
  answered s (w, send_result n true) = (w, taken s n, goes_on)
  answered s (w, send_result n false) = (w, taken s n, ends (finished false))

  abbrev pub after_loop : W × MessageStream × LoopEnd → W × MessageStream × SendOutcome
  after_loop (w, s, threw) = (w, record s { sending_data = false }, send_error)
  after_loop (w, s, spins) = (w, s, hangs)
  after_loop (w, s, finished true) = (
    w,
    record (if is_empty s.write_buffer then emit idle s else s) { sending_data = false },
    returned true,
  )
  after_loop (w, s, finished false) =
      let s' = check_write_buffer_length (record s { writable_needs_drain = true }) in
      (
        w,
        record (if is_empty s'.write_buffer then emit idle s' else s') { sending_data = false },
        returned false,
      )

module _ {W : Type 0} (send_data : W → List ℕ → W × SendAnswer) where
  unfoldable pub send_round : W → MessageStream → W × MessageStream × RoundEnd
  send_round w s =
      if is_empty s.write_buffer
      then (w, s, ends (finished true))
      else if nat_beq (next_end s) 0
      then (w, s, ends (finished false))
      else answered s (send_data w (next_chunk s))

  unfoldable pub send_loop : ℕ → W → MessageStream → W × MessageStream × LoopEnd
  send_loop zero w s = (w, s, spins)
  send_loop (suc fuel) w s =
      let (w', s', e) = send_round w s in
      elim e [ goes_on ↦ send_loop fuel w' s' | ends end ↦ (w', s', end) ]

  -- The rounds: each but the last takes a byte at least.
  unfoldable pub process_send_queue : W → MessageStream → W × MessageStream × SendOutcome
  process_send_queue w s =
      if s.writable_needs_drain
      then (w, check_write_buffer_length s, returned false)
      else if is_empty s.write_buffer || s.sending_data
      then (w, s, returned true)
      else if is_write_closed s.write_status
      then (w, s, returned false)
      else after_loop (send_loop (suc (length s.write_buffer)) w (record s { sending_data = true }))

  unfoldable pub send : W → MessageStream → List ℕ → W × MessageStream × SendOutcome
  send w s bytes =
      if writes_no_more s.write_status
      then (w, s, state_error)
      else process_send_queue w (record s { write_buffer = s.write_buffer ++ bytes })

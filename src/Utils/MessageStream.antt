-- ===== src/Utils/MessageStream.antt =====
-- packages/utils/src/abstract-message-stream.ts
-- A listener that calls the stream back does so in a later step, as do timers and microtasks: a call
-- of `dispatch_read_buffer` or of `process_send_queue`. Logging, the timeline
-- and the promise of `onDrain` are left out.
pub mod Send
pub mod Rounds
pub mod Close
pub mod Steps
pub mod Statuses
pub mod Writing
pub mod Reading
pub mod Limits
use js_libp2p.Base.{
  ℕ, zero, suc, ◌+◌, ◌-◌, Bool, true, false, ◌||◌, ◌&&◌, not, Option, none, some, List, [], ◌∷◌,
  ◌++◌, if◌then◌else◌, ltb, length, take, drop, nat_beq,
}

-- MessageStreamStatus, MessageStreamReadStatus and MessageStreamWriteStatus of packages/interface.
pub data Status : Type 0 where
  open_status closing_status closed_status aborted_status reset_status : Status

pub data ReadStatus : Type 0 where
  readable paused closing closed : ReadStatus

pub data WriteStatus : Type 0 where
  writable closing closed : WriteStatus

abbrev pub is_terminal : Status → Bool
is_terminal open_status = false
is_terminal closing_status = false
is_terminal _ = true

abbrev pub reads_no_more : ReadStatus → Bool
reads_no_more ReadStatus.closing = true
reads_no_more ReadStatus.closed = true
reads_no_more _ = false

abbrev pub is_paused : ReadStatus → Bool
is_paused ReadStatus.paused = true
is_paused _ = false

abbrev pub is_readable : ReadStatus → Bool
is_readable ReadStatus.readable = true
is_readable _ = false

abbrev pub writes_no_more : WriteStatus → Bool
writes_no_more WriteStatus.closing = true
writes_no_more WriteStatus.closed = true
writes_no_more _ = false

abbrev pub is_write_closed : WriteStatus → Bool
is_write_closed WriteStatus.closed = true
is_write_closed _ = false

-- What the listeners and the underlying resource are told, beside the data.
pub data Event : Type 0 where
  idle drain remote_close_write : Event
  stream_close stream_abort stream_reset : Event
  sends_reset sends_pause sends_resume : Event

-- `delivered` are the bytes of the message events so far, `accepted` those that `sendData` took, and
-- `listeners` is the number of the listeners for messages.
pub record MessageStream : Type 0 where
  pub status : Status
  pub read_status : ReadStatus
  pub write_status : WriteStatus
  pub remote_read_status : ReadStatus
  pub remote_write_status : WriteStatus
  pub writable_needs_drain : Bool
  pub sending_data : Bool
  pub read_buffer : List ℕ
  pub write_buffer : List ℕ
  pub max_read_buffer_length : ℕ
  pub max_write_buffer_length : Option ℕ
  pub max_message_size : Option ℕ
  pub listeners : ℕ
  pub delivered : List ℕ
  pub accepted : List ℕ
  pub events : List Event

unfoldable pub init : ℕ → Option ℕ → Option ℕ → MessageStream
init max_read max_write max_message = record {
  status = open_status;
  read_status = ReadStatus.readable;
  write_status = WriteStatus.writable;
  remote_read_status = ReadStatus.readable;
  remote_write_status = WriteStatus.writable;
  writable_needs_drain = false;
  sending_data = false;
  read_buffer = [];
  write_buffer = [];
  max_read_buffer_length = max_read;
  max_write_buffer_length = max_write;
  max_message_size = max_message;
  listeners = 0;
  delivered = [];
  accepted = [];
  events = [];
}

abbrev pub is_empty : List ℕ → Bool
is_empty [] = true
is_empty (b ∷ bs) = false

abbrev pub emit : Event → MessageStream → MessageStream
emit e s = record s { events = s.events ++ (e ∷ []) }

-- 'idle' where there were bytes to throw away
abbrev pub idle_unless_empty : List ℕ → List Event
idle_unless_empty bs = if is_empty bs then [] else idle ∷ []

unfoldable pub abort : MessageStream → MessageStream
abort s = if is_terminal s.status then s else record s {
  status = aborted_status;
  read_status = ReadStatus.closed;
  write_status = WriteStatus.closed;
  remote_read_status = ReadStatus.closed;
  remote_write_status = WriteStatus.closed;
  read_buffer = [];
  write_buffer = [];
  events = s.events ++ (idle_unless_empty s.write_buffer ++ (sends_reset ∷ stream_abort ∷ []));
}

unfoldable pub check_read_buffer_length : MessageStream → MessageStream
check_read_buffer_length s =
    if ltb s.max_read_buffer_length (length s.read_buffer) then abort s else s

unfoldable pub check_write_buffer_length : MessageStream → MessageStream
check_write_buffer_length s = elim s.max_write_buffer_length [
  | none ↦ s
  | some max ↦ if ltb max (length s.write_buffer) then abort s else s
]

-- The body of `dispatchReadBuffer`, and its `finally`.
unfoldable pub dispatch : MessageStream → MessageStream
dispatch s =
    if nat_beq s.listeners 0 || is_empty s.read_buffer || is_paused s.read_status
    then s
    else if reads_no_more s.read_status
    then record s { read_buffer = [] }
    else record s { delivered = s.delivered ++ s.read_buffer; read_buffer = [] }

unfoldable pub close_when_read : MessageStream → MessageStream
close_when_read s =
    if is_empty s.read_buffer && is_write_closed s.remote_write_status
    then record s { read_status = ReadStatus.closed }
    else s

unfoldable pub dispatch_read_buffer : MessageStream → MessageStream
dispatch_read_buffer s = check_read_buffer_length (close_when_read (dispatch s))

-- `none` where the call throws a StreamStateError, which changes nothing.
unfoldable pub pause : MessageStream → Option MessageStream
pause s =
    if reads_no_more s.read_status
    then none
    else if is_paused s.read_status
    then some s
    else some (emit sends_pause (record s { read_status = ReadStatus.paused }))

unfoldable pub resume : MessageStream → Option MessageStream
resume s =
    if reads_no_more s.read_status
    then none
    else if is_readable s.read_status
    then some s
    else some
        (emit sends_resume (dispatch_read_buffer (record s { read_status = ReadStatus.readable })))

-- Where the data is not dispatched by a timer, the length is checked at once.
abbrev pub buffered : MessageStream → MessageStream
buffered s =
    if is_paused s.read_status || nat_beq s.listeners 0 then check_read_buffer_length s else s

unfoldable pub push : MessageStream → List ℕ → Option MessageStream
push s bytes =
    if reads_no_more s.read_status
    then none
    else if is_empty bytes
    then some s
    else some (buffered (record s { read_buffer = s.read_buffer ++ bytes }))

unfoldable pub unshift : MessageStream → List ℕ → Option MessageStream
unshift s bytes =
    if reads_no_more s.read_status
    then none
    else if is_empty bytes
    then some s
    else some (buffered (record s { read_buffer = bytes ++ s.read_buffer }))

unfoldable pub on_data : MessageStream → List ℕ → MessageStream
on_data s bytes =
    if is_empty bytes || reads_no_more s.read_status
    then s
    else dispatch_read_buffer (record s { read_buffer = s.read_buffer ++ bytes })

abbrev pub add_message_listener : MessageStream → MessageStream
add_message_listener s = record s { listeners = s.listeners + 1 }

abbrev pub remove_message_listener : MessageStream → MessageStream
remove_message_listener s = record s { listeners = s.listeners - 1 }

unfoldable pub on_remote_reset : MessageStream → MessageStream
on_remote_reset s = emit stream_reset (record s {
  status = reset_status;
  write_status = WriteStatus.closed;
  remote_write_status = WriteStatus.closed;
  remote_read_status = ReadStatus.closed;
  read_status = if is_empty s.read_buffer then ReadStatus.closed else s.read_status;
})

-- The four statuses that close before the error is looked at.
abbrev pub shut_statuses : MessageStream → MessageStream
shut_statuses s = record s {
  read_status =
      if is_readable s.read_status && is_empty s.read_buffer
      then ReadStatus.closed
      else s.read_status;
  remote_read_status = ReadStatus.closed;
  remote_write_status = WriteStatus.closed;
  write_status = WriteStatus.closed;
}

unfoldable pub on_transport_closed : MessageStream → Bool → MessageStream
on_transport_closed s with_error =
    if with_error
    then abort (shut_statuses s)
    else if is_terminal s.status
    then shut_statuses s
    else emit stream_close (record (shut_statuses s) { status = closed_status })

unfoldable pub on_remote_close_write : MessageStream → MessageStream
on_remote_close_write s =
    let s' = emit remote_close_write (record s { remote_write_status = WriteStatus.closed }) in
    if is_write_closed s.remote_write_status
    then s
    else if is_write_closed s.write_status
    then on_transport_closed s' false
    else s'

unfoldable pub on_remote_close_read : MessageStream → MessageStream
on_remote_close_read s = record s {
  remote_read_status = ReadStatus.closed;
  write_buffer = [];
  events = s.events ++ idle_unless_empty s.write_buffer;
}

abbrev pub on_muxer_needs_drain : MessageStream → MessageStream
on_muxer_needs_drain s = record s { writable_needs_drain = true }

-- The stream's own listener for 'drain' goes on in a microtask.
abbrev pub on_muxer_drain : MessageStream → MessageStream
on_muxer_drain s = emit drain (record s { writable_needs_drain = false })

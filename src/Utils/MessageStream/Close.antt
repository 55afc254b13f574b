-- ===== src/Utils/MessageStream/Close.antt =====
-- packages/utils/src/abstract-stream.ts
-- The parts of `close` and `closeRead` between their waits. A wait that is rejected ends the call.
use js_libp2p.Base.{false, not, ◌||◌, [], if◌then◌else◌}
use js_libp2p.Utils.MessageStream.{
  MessageStream, ReadStatus, WriteStatus, reads_no_more, writes_no_more, is_empty, is_write_closed,
  on_transport_closed,
}

-- What the call waits for, if it has not returned.
pub data Waits : Type 0 where
  nothing for_idle for_drain for_send : Waits

-- What comes when the write buffer is empty: the wait for room, and `sendCloseWrite`.
abbrev pub after_idle : MessageStream → Waits
after_idle s = if s.writable_needs_drain then for_drain else for_send

unfoldable pub close : MessageStream → MessageStream × Waits
close s =
    if writes_no_more s.write_status
    then (s, nothing)
    else if s.sending_data || not (is_empty s.write_buffer)
    then (record s { write_status = WriteStatus.closing }, for_idle)
    else (record s { write_status = WriteStatus.closing }, after_idle s)

-- After `sendCloseWrite`.
unfoldable pub finish_close : MessageStream → MessageStream
finish_close s =
    let s' = record s { write_status = WriteStatus.closed } in
    if is_write_closed s.remote_write_status then on_transport_closed s' false else s'

unfoldable pub close_read : MessageStream → MessageStream × Waits
close_read s =
    if reads_no_more s.read_status
    then (s, nothing)
    else (record s { read_buffer = []; read_status = ReadStatus.closing }, for_send)

-- After `sendCloseRead`.
unfoldable pub finish_close_read : MessageStream → MessageStream
finish_close_read s = record s { read_status = ReadStatus.closed }

-- ===== src/Utils/StreamRuns.antt =====
-- Runs of a message stream, and its theorems at concrete inputs.
use js_libp2p.Base.{
  ℕ, ◌≡◌, ◌++◌, refl, true, false, none, some, List, [], ◌∷◌, arith, length, leb, if◌then◌else◌,
}
use js_libp2p.Utils.MessageStream.{
  MessageStream, init, is_terminal, reads_no_more, abort, push, on_data, pause, dispatch,
  close_when_read, dispatch_read_buffer, check_read_buffer_length, check_write_buffer_length,
}
use js_libp2p.Utils.MessageStream.Send.{
  SendAnswer, send_result, send, process_send_queue, send_loop, send_round,
}
use js_libp2p.Utils.MessageStream.Steps.{Op, step, run, local_step}
use js_libp2p.Utils.MessageStream.Statuses.{HasEnded, run-HasEnded}
use js_libp2p.Utils.MessageStream.Writing.{is_read_closed, written, accepted-written}
use js_libp2p.Utils.MessageStream.Reading.{arrived, delivered-arrived}
use js_libp2p.Utils.MessageStream.Limits.{TakesAll, IsWithin, send-IsWithin}

-- A resource that takes two bytes at a time, and is full after more.
two_bytes : ℕ → List ℕ → ℕ × SendAnswer
two_bytes w bytes =
    (w, if leb (length bytes) 2 then send_result (length bytes) true else send_result 2 false)

two_bytes-TakesAll : TakesAll two_bytes
unfolding two_bytes
two_bytes-TakesAll = record { all_taken = λ w w' bytes n e. ground arith }

abbrev stream : MessageStream
stream = init 100 (some 10) none

abbrev six_steps : List Op
six_steps =
    Op.listens
    ∷ Op.data_arrives (7 ∷ 8 ∷ [])
    ∷ Op.sends (1 ∷ 2 ∷ 3 ∷ [])
    ∷ Op.drains
    ∷ Op.pauses
    ∷ Op.pushes (9 ∷ [])
    ∷ []

still_read_by_remote :
    is_read_closed (run two_bytes (0, stream) six_steps).1.remote_read_status ≡ false
unfolding run step init send process_send_queue send_loop send_round two_bytes local_step on_data
    dispatch_read_buffer close_when_read dispatch check_read_buffer_length check_write_buffer_length
    push pause abort
still_read_by_remote = refl

still_readable : reads_no_more (run two_bytes (0, stream) six_steps).1.read_status ≡ false
unfolding run step init send process_send_queue send_loop send_round two_bytes local_step on_data
    dispatch_read_buffer close_when_read dispatch check_read_buffer_length check_write_buffer_length
    push pause abort
still_readable = refl

ended : is_terminal (run two_bytes (0, stream) (Op.sends (5 ∷ []) ∷ Op.aborts ∷ [])).1.status ≡ true
unfolding run step init send process_send_queue send_loop send_round two_bytes local_step on_data
    dispatch_read_buffer close_when_read dispatch check_read_buffer_length check_write_buffer_length
    push pause abort
ended = refl

accepted-written_example :
    (run two_bytes (0, stream) six_steps).1.accepted
      ++ (run two_bytes (0, stream) six_steps).1.write_buffer
    ≡ written two_bytes (0, stream) six_steps
accepted-written_example =
    accepted-written two_bytes 0 100 (some 10) none six_steps still_read_by_remote

delivered-arrived_example :
    (run two_bytes (0, stream) six_steps).1.delivered
      ++ (run two_bytes (0, stream) six_steps).1.read_buffer
    ≡ arrived two_bytes (0, stream) [] six_steps
delivered-arrived_example =
    delivered-arrived two_bytes 0 100 (some 10) none six_steps still_readable

run-HasEnded_example :
    HasEnded
      (run two_bytes (0, stream) (Op.sends (5 ∷ []) ∷ Op.aborts ∷ [])).1.accepted
      (run two_bytes (run two_bytes (0, stream) (Op.sends (5 ∷ []) ∷ Op.aborts ∷ [])) six_steps).1
run-HasEnded_example =
    run-HasEnded two_bytes 0 100 (some 10) none (Op.sends (5 ∷ []) ∷ Op.aborts ∷ []) six_steps ended

send-IsWithin_example :
    IsWithin
      (some 10)
      (send two_bytes 0 stream (1 ∷ 2 ∷ 3 ∷ [])).1
      (send two_bytes 0 stream (1 ∷ 2 ∷ 3 ∷ [])).2
unfolding init
send-IsWithin_example =
    send-IsWithin two_bytes two_bytes-TakesAll 0 stream (1 ∷ 2 ∷ 3 ∷ []) (unfold init in refl)
      (unfold init in refl)

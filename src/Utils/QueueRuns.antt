-- ===== src/Utils/QueueRuns.antt =====
-- packages/utils/src/queue: examples
use js_libp2p.Base.{ℕ, ◌≡◌, refl, true, false, ◌&&◌, none, some, List, [], ◌∷◌, All}
use js_libp2p.Base.Sorting.{sort_by, insert_by}
use js_libp2p.Utils.Queue.{
  has_id, is_queued, queued, QueueInit, new_queue, first_queued, remove_job, set_status,
  try_to_start_another, on_run_end, enqueue, add, on_rejected, pause, resume, settle,
  priority_queue_init, Step, add_step, end_step, reject_step, settle_step, pause_step, resume_step,
  step, run,
}
use js_libp2p.Utils.Queue.Tracked.{IsQueue}
use js_libp2p.Utils.Queue.Tracking.{run-IsQueue}
use js_libp2p.Utils.Queue.Full.{IsFull, run-IsFull}
use js_libp2p.Utils.Queue.Drain.{work, end_runs, ended_runs, run-empty}
use js_libp2p.Utils.Queue.Priority.{goes_before, run-first}

-- Two jobs at a time, four in the queue.
abbrev example_init : QueueInit ℕ
example_init = priority_queue_init (some 2) (some 4)

abbrev example_steps : List (Step ℕ)
example_steps =
    add_step 5 false
    ∷ add_step 1 false
    ∷ add_step 1 false
    ∷ add_step 7 false
    ∷ add_step 9 false
    ∷ settle_step 0 true
    ∷ end_step 0
    ∷ add_step 1 false
    ∷ reject_step 2
    ∷ []

run-IsQueue_example : IsQueue example_init (run example_init new_queue example_steps)
run-IsQueue_example = run-IsQueue example_init example_steps

run-IsFull_example : IsFull example_init (run example_init new_queue example_steps)
run-IsFull_example =
    run-IsFull example_init example_steps
      (refl, (refl, (refl, (refl, (refl, (refl, (refl, (refl, (refl, tt)))))))))

run-empty_example :
    ((end_runs example_init
        (work (run example_init new_queue example_steps))
        (run example_init new_queue example_steps)).queue
      ≡ [])
    × All
        (λ j.
          has_id j.id (
            ended_runs example_init
              (work (run example_init new_queue example_steps))
              (run example_init new_queue example_steps))
          ≡ true)
        (run example_init new_queue example_steps).queue
run-empty_example =
    run-empty example_init example_steps refl
      (refl, (refl, (refl, (refl, (refl, (refl, (refl, (refl, (refl, tt)))))))))

-- The fourth job overtook the third one; the job of id 4 was refused with the queue full, and is the next one.
next_example :
    first_queued (run example_init new_queue example_steps).queue
    ≡ some (record { id = 4; options = 1; status = queued })
unfolding first_queued remove_job set_status try_to_start_another on_run_end enqueue add on_rejected
    settle step run new_queue sort_by insert_by
next_example = refl

run-first_example :
    All
      (λ k.
        (is_queued k.status && goes_before k (record { id = 4; options = 1; status = queued }))
        ≡ false)
      (run example_init new_queue example_steps).queue
run-first_example =
    run-first (some 2) (some 4) example_steps (record { id = 4; options = 1; status = queued })
      next_example

-- Three jobs are added to a paused queue of concurrency two: when it is resumed one of them starts only.
resumed_example :
    (run
      (record { concurrency = some 2; max_size = none; sort = none })
      (new_queue {O = ℕ})
      (pause_step
        ∷ add_step 1 false
        ∷ add_step 2 false
        ∷ add_step 3 false
        ∷ resume_step
        ∷ [])).active
    ≡ 0 ∷ []
unfolding first_queued set_status try_to_start_another enqueue add pause resume step run new_queue
resumed_example = refl

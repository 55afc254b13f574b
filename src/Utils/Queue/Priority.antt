-- ===== src/Utils/Queue/Priority.antt =====
-- packages/utils/src/priority-queue.ts: the job that is started next
use js_libp2p.Base.{
  ℕ, ◌-◌, ◌≡◌, ap, sym, subst, ◌∙◌, Bool, false, not, ◌&&◌, ◌||◌, Option, none, some, List, [], ◌∷◌,
  if◌then◌else◌, nat_beq, ltb, length, arith, Bool-cases, inl, inr, All, All-map, if_both,
}
use mathlib.Core.Option.{some_inj}
use js_libp2p.Base.Sorting.{IsSortedBy, IsOrder, by_both, sort_by-append}
use js_libp2p.Utils.Queue.{
  JobStatus, queued, running, errored, complete, is_queued, QueueInit, Queue, Job, less_than,
  is_limit, has_id, remove_id, new_queue, remove_job, first_queued, set_status, with_status,
  start_job, find_status, has_status, is_running, try_to_start_another, on_run_end, enqueue, add,
  on_rejected, pause, resume, clear, settle, by_priority, priority_queue_init, Step, add_step,
  end_step, reject_step, settle_step, pause_step, resume_step, clear_step, abort_step, queue_of,
  step, run,
}
use js_libp2p.Utils.Queue.Jobs.{remove_job-IsSortedBy, set_status-IsSortedBy, id-with_status}
use js_libp2p.Utils.Queue.Tracked.{IsQueue}
use js_libp2p.Utils.Queue.Tracking.{step-IsQueue, new_queue-IsQueue}

abbrev older : Job ℕ → Job ℕ → Bool
older a b = ltb a.id b.id

abbrev sorts_before : Job ℕ → Job ℕ → Bool
sorts_before = by_both by_priority older

-- The greater priority first, and of equal ones the job that was added first.
abbrev pub goes_before : Job ℕ → Job ℕ → Bool
goes_before a b = ltb b.options a.options || (nat_beq a.options b.options && ltb a.id b.id)

sorts_before-goes_before : (a b : Job ℕ) → sorts_before a b ≡ false → goes_before a b ≡ false
sorts_before-goes_before a b h = ground (arith, h)

by_priority-IsOrder : IsOrder by_priority
by_priority-IsOrder = record {
  asymmetric = λ a b h. ground arith;
  transitive = λ a b c h k. ground arith;
}

abbrev IsSorted : Queue ℕ → Type 0
IsSorted q = IsSortedBy sorts_before q.queue

options-with_status : (n : ℕ) (s : JobStatus) (j : Job ℕ) → (with_status n s j).options ≡ j.options
options-with_status n s j = ground arith

set_status-IsSorted :
    (n : ℕ) (s : JobStatus) (js : List (Job ℕ))
    → IsSortedBy sorts_before js
    → IsSortedBy sorts_before (set_status n s js)
set_status-IsSorted n s = set_status-IsSortedBy sorts_before n s (λ a b. ground (
  arith,
  id-with_status n s a,
  id-with_status n s b,
  options-with_status n s a,
  options-with_status n s b,
))

module _ (concurrency max_size : Option ℕ) where
  abbrev init : QueueInit ℕ
  init = priority_queue_init concurrency max_size

  start_job-IsSorted : (q : Queue ℕ) (o : Option (Job ℕ)) → IsSorted q → IsSorted (start_job q o)
  start_job-IsSorted q none h = h
  start_job-IsSorted q (some j) h = set_status-IsSorted j.id running q.queue h

  try_to_start_another-IsSorted :
      (q : Queue ℕ) → IsSorted q → IsSorted (try_to_start_another init q)
  unfolding try_to_start_another
  try_to_start_another-IsSorted q h = if_both IsSorted q.paused h (
      if_both IsSorted (nat_beq (length q.queue) 0) h (
        if_both IsSorted (less_than q.pending concurrency)
          (start_job-IsSorted q (first_queued q.queue) h) h))

  step-IsSorted :
      (q : Queue ℕ) (s : Step ℕ) → IsQueue init q → IsSorted q → IsSorted (step init q s)
  unfolding step add enqueue on_run_end on_rejected settle pause resume clear
  step-IsSorted q (add_step options is_aborted) i h =
      let job : Job ℕ = record { id = q.next_id; options = options; status = queued } in
      if_both (λ r. IsSorted (queue_of init q r)) is_aborted h
        (if_both (λ r. IsSorted (queue_of init q r)) (is_limit (length q.queue) max_size) h
          (try_to_start_another-IsSorted (enqueue init job q) (
            sort_by-append by_priority older by_priority-IsOrder q.queue job
              (All-map q.queue (λ j e. ground (arith, e)) i.fresh_jobs) h)))
  step-IsSorted q (end_step n) i h =
      if_both IsSorted (has_id n q.active)
        (try_to_start_another-IsSorted
          (record q {
            queue = remove_job n q.queue;
            pending = q.pending - 1;
            active = remove_id n q.active;
          })
          (remove_job-IsSortedBy sorts_before n q.queue h))
        h
  step-IsSorted q (reject_step n) i h =
      if_both IsSorted (has_status is_queued (find_status n q.queue))
        (remove_job-IsSortedBy sorts_before n q.queue h) h
  step-IsSorted q (settle_step n succeeds) i h =
      if_both IsSorted (has_status is_running (find_status n q.queue))
        (set_status-IsSorted n (if succeeds then complete else errored) q.queue h) h
  step-IsSorted q pause_step i h = h
  step-IsSorted q resume_step i h =
      if_both IsSorted (not q.paused) h
        (try_to_start_another-IsSorted (record q { paused = false }) h)
  step-IsSorted q clear_step i h = tt
  step-IsSorted q abort_step i h = tt

  steps-IsSorted :
      (q : Queue ℕ) (ss : List (Step ℕ)) → IsQueue init q → IsSorted q → IsSorted (run init q ss)
  unfolding run
  steps-IsSorted q [] i h = h
  steps-IsSorted q (s ∷ ss) i h =
      steps-IsSorted (step init q s) ss (step-IsQueue init q s i) (step-IsSorted q s i h)

  -- The job does not wait, or is not to be started before the other.
  abbrev IsBehind : Job ℕ → Job ℕ → Type 0
  IsBehind j k = (is_queued k.status && goes_before k j) ≡ false

  first_queued-first :
      (js : List (Job ℕ)) (j : Job ℕ)
      → IsSortedBy sorts_before js
      → first_queued js ≡ some j
      → All (IsBehind j) js
  unfolding first_queued
  first_queued-first [] j h e = tt
  first_queued-first (k ∷ js) j (a, h) e = elim (Bool-cases (is_queued k.status)) [
    | inl q ↦
        let same : k ≡ j =
          some_inj.0 (sym (ap (λ b. if b then some k else first_queued js) q) ∙ e) in
        subst (λ i. All (IsBehind i) (k ∷ js)) same
          (
            ground arith,
            All-map {P = λ y. sorts_before y k ≡ false} {Q = IsBehind k} js
                (λ y f. ground (arith, sorts_before-goes_before y k f)) a,
          )
    | inr q ↦ (
      ground (arith, q),
      first_queued-first js j h (sym (ap (λ b. if b then some k else first_queued js) q) ∙ e),
    )
  ]

  new_queue-IsSorted : IsSorted new_queue
  unfolding new_queue
  new_queue-IsSorted = tt

  -- After any steps on a new priority queue, the job that is started next has the greatest priority of all
  -- that wait, and of those with this priority it was added first.
  pub run-first :
      (ss : List (Step ℕ)) (j : Job ℕ)
      → first_queued (run (priority_queue_init concurrency max_size) new_queue ss).queue ≡ some j
      → All
          (λ k. (is_queued k.status && goes_before k j) ≡ false)
          (run (priority_queue_init concurrency max_size) new_queue ss).queue
  run-first ss j e =
      first_queued-first (run init new_queue ss).queue j
        (steps-IsSorted new_queue ss (new_queue-IsQueue init) new_queue-IsSorted) e

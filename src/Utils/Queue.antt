-- ===== src/Utils/Queue.antt =====
-- packages/utils/src/queue/index.ts and priority-queue.ts
-- A job keeps its place in the queue while it runs. `active` are the jobs whose `run` has not come to its
-- `finally`, also where the queue was cleared. What a job does, and the promises of those who wait for it,
-- are left out: a job may settle at any time, and its promise may be rejected at any time. No listener of
-- an event calls the queue back before the call that dispatches it is over.
pub mod Jobs
pub mod Tracked
pub mod Tracking
pub mod Full
pub mod Drain
pub mod Priority
use js_libp2p.Base.{
  ℕ, zero, suc, ◌+◌, ◌-◌, Bool, true, false, not, ◌&&◌, Option, none, some, List, [], ◌∷◌, ◌++◌,
  if◌then◌else◌, ltb, nat_beq, length,
}
use js_libp2p.Base.Sorting.{sort_by}

pub data JobStatus : Type 0 where
  queued running errored complete : JobStatus

pub record Job (O : Type 0) : Type 0 where
  pub id : ℕ
  pub options : O
  pub status : JobStatus

-- `none` is infinity, and no comparator.
pub record QueueInit (O : Type 0) : Type 0 where
  pub concurrency : Option ℕ
  pub max_size : Option ℕ
  pub sort : Option (Job O → Job O → Bool)

pub record Queue (O : Type 0) : Type 0 where
  pub queue : List (Job O)
  pub pending : ℕ
  pub paused : Bool
  pub active : List ℕ
  pub next_id : ℕ

-- Why `add` throws.
pub data AddError : Type 0 where
  aborted queue_full : AddError

pub data Added (O : Type 0) : Type 0 where
  added : Queue O → Added O
  refused : AddError → Added O

abbrev pub is_queued : JobStatus → Bool
is_queued queued = true
is_queued s = false

abbrev pub is_running : JobStatus → Bool
is_running running = true
is_running s = false

abbrev pub has_status : (JobStatus → Bool) → Option JobStatus → Bool
has_status p none = false
has_status p (some s) = p s

abbrev pub less_than : ℕ → Option ℕ → Bool
less_than n none = true
less_than n (some limit) = ltb n limit

abbrev pub is_limit : ℕ → Option ℕ → Bool
is_limit n none = false
is_limit n (some limit) = nat_beq n limit

abbrev pub has_id : ℕ → List ℕ → Bool
has_id n [] = false
has_id n (m ∷ ms) = let rest = has_id n ms in if nat_beq m n then true else rest

abbrev pub remove_id : ℕ → List ℕ → List ℕ
remove_id n [] = []
remove_id n (m ∷ ms) = let rest = remove_id n ms in if nat_beq m n then ms else m ∷ rest

module _ {O : Type 0} where
  unfoldable pub new_queue : Queue O
  new_queue = record { queue = []; pending = 0; paused = false; active = []; next_id = 0 }

  -- The loop that removes a job from the queue.
  unfoldable pub remove_job : ℕ → List (Job O) → List (Job O)
  remove_job n [] = []
  remove_job n (j ∷ js) = let rest = remove_job n js in if nat_beq j.id n then js else j ∷ rest

  -- The loop that finds the job to start.
  unfoldable pub first_queued : List (Job O) → Option (Job O)
  first_queued [] = none
  first_queued (j ∷ js) = let rest = first_queued js in if is_queued j.status then some j else rest

  -- The job changes its status.
  abbrev pub with_status : ℕ → JobStatus → Job O → Job O
  with_status n status j = if nat_beq j.id n then record j { status = status } else j

  unfoldable pub set_status : ℕ → JobStatus → List (Job O) → List (Job O)
  set_status n status [] = []
  set_status n status (j ∷ js) = with_status n status j ∷ set_status n status js

  abbrev pub start_job : Queue O → Option (Job O) → Queue O
  start_job q none = q
  start_job q (some j) = record q {
    pending = suc q.pending;
    queue = set_status j.id running q.queue;
    active = q.active ++ (j.id ∷ []);
  }

  abbrev pub find_status : ℕ → List (Job O) → Option JobStatus
  find_status n [] = none
  find_status n (j ∷ js) =
      let rest = find_status n js in if nat_beq j.id n then some j.status else rest

  -- `join(options).catch(...)`: the promise that `add` made has been rejected.
  unfoldable pub on_rejected : ℕ → Queue O → Queue O
  on_rejected n q =
      if has_status is_queued (find_status n q.queue)
      then record q { queue = remove_job n q.queue }
      else q

  unfoldable pub pause : Queue O → Queue O
  pause q = record q { paused = true }

  unfoldable pub clear : Queue O → Queue O
  clear q = record q { queue = [] }

  abbrev pub sort_with : Option (Job O → Job O → Bool) → List (Job O) → List (Job O)
  sort_with none jobs = jobs
  sort_with (some before) jobs = sort_by before jobs

  -- The function of a running job has come to an end, in one of two ways.
  unfoldable pub settle : ℕ → JobStatus → Queue O → Queue O
  settle n status q =
      if has_status is_running (find_status n q.queue)
      then record q { queue = set_status n status q.queue }
      else q

module _ {O : Type 0} (init : QueueInit O) where
  unfoldable pub try_to_start_another : Queue O → Queue O
  try_to_start_another q =
      if q.paused
      then q
      else if nat_beq (length q.queue) 0
      then q
      else if less_than q.pending init.concurrency
      then start_job q (first_queued q.queue)
      else q

  -- `run().finally(...)`
  unfoldable pub on_run_end : ℕ → Queue O → Queue O
  on_run_end n q = try_to_start_another (record q {
    queue = remove_job n q.queue;
    pending = q.pending - 1;
    active = remove_id n q.active;
  })

  unfoldable pub enqueue : Job O → Queue O → Queue O
  enqueue j q = record q {
    queue = sort_with init.sort (q.queue ++ (j ∷ []));
    next_id = suc q.next_id;
  }

  -- `is_aborted` is whether the signal of the options has been aborted.
  unfoldable pub add : O → Bool → Queue O → Added O
  add options is_aborted q =
      if is_aborted
      then refused aborted
      else if is_limit (length q.queue) init.max_size
      then refused queue_full
      else added (
          try_to_start_another
            (enqueue (record { id = q.next_id; options = options; status = queued }) q))

  unfoldable pub resume : Queue O → Queue O
  resume q = if not q.paused then q else try_to_start_another (record q { paused = false })

-- The greatest priority first.
abbrev pub by_priority : Job ℕ → Job ℕ → Bool
by_priority a b = ltb b.options a.options

abbrev pub priority_queue_init : Option ℕ → Option ℕ → QueueInit ℕ
priority_queue_init concurrency max_size = record {
  concurrency = concurrency;
  max_size = max_size;
  sort = some by_priority;
}

-- What may happen to a queue. A rejected call of `add` changes nothing.
pub data Step (O : Type 0) : Type 0 where
  add_step : O → Bool → Step O
  end_step : ℕ → Step O
  reject_step : ℕ → Step O
  settle_step : ℕ → Bool → Step O
  pause_step resume_step clear_step abort_step : Step O

module _ {O : Type 0} (init : QueueInit O) where
  abbrev pub queue_of : Queue O → Added O → Queue O
  queue_of q (added q') = q'
  queue_of q (refused e) = q

  -- A `run` that is active comes to an end. `abort` signals the jobs, which settle then, and clears.
  unfoldable pub step : Queue O → Step O → Queue O
  step q (add_step options is_aborted) = queue_of q (add init options is_aborted q)
  step q (end_step n) = if has_id n q.active then on_run_end init n q else q
  step q (reject_step n) = on_rejected n q
  step q (settle_step n succeeds) = settle n (if succeeds then complete else errored) q
  step q pause_step = pause q
  step q resume_step = resume init q
  step q clear_step = clear q
  step q abort_step = clear q

  unfoldable pub run : Queue O → List (Step O) → Queue O
  run q [] = q
  run q (s ∷ ss) = run (step q s) ss

-- ===== src/Utils/Queue/Tracking.antt =====
-- packages/utils/src/queue/index.ts: the counts of a queue are those of its jobs
use js_libp2p.Base.{
  ℕ, ◌<◌, ◌≡◌, refl, ap, sym, subst, ◌∙◌, Bool, true, false, not, Option, none, some, List, [], ◌∷◌,
  if◌then◌else◌, length, arith, Bool-cases, inl, inr, Option-cases, if_both,
}
use js_libp2p.Utils.Queue.{
  JobStatus, queued, running, errored, complete, is_queued, is_running, QueueInit, Queue, Added,
  added, refused, queue_full, is_limit, has_id, new_queue, remove_job, set_status, find_status,
  has_status, try_to_start_another, on_run_end, enqueue, add, on_rejected, pause, resume, clear,
  settle, Step, add_step, end_step, reject_step, settle_step, pause_step, resume_step, clear_step,
  abort_step, queue_of, step, run,
}
use js_libp2p.Utils.Queue.Jobs.{
  same_id, remove_job-All, remove_job-IsSortedBy, length-remove_job-le, length-set_status,
  set_status-All, find_status-All,
}
use js_libp2p.Utils.Queue.Tracked.{
  IsWithin, IsWithin-down, IsTracked, IsQueue, with_status-IsTracked, with_status-fresh,
  set_status-distinct, try_to_start_another-IsQueue, ended-IsQueue, enqueue-IsQueue,
}

module _ {O : Type 0} (init : QueueInit O) where
  on_rejected-IsQueue : (n : ℕ) (q : Queue O) → IsQueue init q → IsQueue init (on_rejected n q)
  unfolding on_rejected
  on_rejected-IsQueue n q h =
      if_both (IsQueue init) (has_status is_queued (find_status n q.queue))
        (record {
          counted = h.counted;
          concurrent = h.concurrent;
          sized =
              IsWithin-down (length (remove_job n q.queue)) (length q.queue) init.max_size
                (length-remove_job-le n q.queue) h.sized;
          fresh_jobs = remove_job-All (λ j. j.id < q.next_id) n q.queue h.fresh_jobs;
          fresh_active = h.fresh_active;
          distinct = remove_job-IsSortedBy same_id n q.queue h.distinct;
          tracked = remove_job-All (IsTracked q.active) n q.queue h.tracked;
        })
        h

  -- A job that is found running is active.
  running-active :
      (n : ℕ) (q : Queue O)
      → IsQueue init q
      → has_status is_running (find_status n q.queue) ≡ true
      → has_id n q.active ≡ true
  running-active n q h e = elim (Option-cases (find_status n q.queue)) [
    | inl f ↦ cc (sym (ap (has_status is_running) f) ∙ e)
    | inr (s, f) ↦
        find_status-All (λ m t. has_id m q.active ≡ not (is_queued t)) n q.queue s h.tracked f
        ∙ not_queued s (sym (ap (has_status is_running) f) ∙ e)
  ]
    where
      not_queued : (s : JobStatus) → is_running s ≡ true → not (is_queued s) ≡ true
      not_queued queued r = cc r
      not_queued running r = refl
      not_queued errored r = refl
      not_queued complete r = refl

  settle-IsQueue :
      (n : ℕ) (s : JobStatus) (q : Queue O)
      → is_queued s ≡ false
      → IsQueue init q
      → IsQueue init (settle n s q)
  unfolding settle
  settle-IsQueue n s q e h = elim (Bool-cases (has_status is_running (find_status n q.queue))) [
    | inl r ↦
        subst (λ b. IsQueue init (if b then record q { queue = set_status n s q.queue } else q))
          (sym r)
          (record {
            counted = h.counted;
            concurrent = h.concurrent;
            sized =
                subst (λ k. IsWithin k init.max_size) (sym (length-set_status n s q.queue)) h.sized;
            fresh_jobs =
                set_status-All (λ k. k.id < q.next_id) (λ k. k.id < q.next_id) n s q.queue
                  (with_status-fresh n s q.next_id) h.fresh_jobs;
            fresh_active = h.fresh_active;
            distinct = set_status-distinct n s q.queue h.distinct;
            tracked =
                set_status-All (IsTracked q.active) (IsTracked q.active) n s q.queue
                  (with_status-IsTracked q.active q.active n s e (running-active n q h r)
                    (λ m f. refl))
                  h.tracked;
          })
    | inr r ↦
        subst (λ b. IsQueue init (if b then record q { queue = set_status n s q.queue } else q))
          (sym r) h
  ]

  clear-IsQueue : (q : Queue O) → IsQueue init q → IsQueue init (clear q)
  unfolding clear
  clear-IsQueue q h = record {
    counted = h.counted;
    concurrent = h.concurrent;
    sized = IsWithin-down 0 (length q.queue) init.max_size (omega arith) h.sized;
    fresh_jobs = tt;
    fresh_active = h.fresh_active;
    distinct = tt;
    tracked = tt;
  }

  paused-IsQueue :
      (b : Bool) (q : Queue O) → IsQueue init q → IsQueue init (record q { paused = b })
  paused-IsQueue b q h = record {
    counted = h.counted;
    concurrent = h.concurrent;
    sized = h.sized;
    fresh_jobs = h.fresh_jobs;
    fresh_active = h.fresh_active;
    distinct = h.distinct;
    tracked = h.tracked;
  }

  add-IsQueue :
      (options : O) (is_aborted : Bool) (q : Queue O)
      → IsQueue init q
      → IsQueue init (queue_of init q (add init options is_aborted q))
  unfolding add
  add-IsQueue options is_aborted q h =
      if_both (λ r. IsQueue init (queue_of init q r)) is_aborted h
        (elim (Bool-cases (is_limit (length q.queue) init.max_size)) [
          | inl l ↦ subst (λ b. IsQueue init (queue_of init q (tried b))) (sym l) h
          | inr l ↦
              subst (λ b. IsQueue init (queue_of init q (tried b))) (sym l)
                (try_to_start_another-IsQueue init _ (enqueue-IsQueue init options q l h))
        ])
    where
      tried : Bool → Added O
      tried b =
          if b
          then refused queue_full
          else added (
              try_to_start_another init
                (enqueue init (record { id = q.next_id; options = options; status = queued }) q))

  pub step-IsQueue : (q : Queue O) (s : Step O) → IsQueue init q → IsQueue init (step init q s)
  unfolding step pause resume on_run_end
  step-IsQueue q (add_step options is_aborted) h = add-IsQueue options is_aborted q h
  step-IsQueue q (end_step n) h = elim (Bool-cases (has_id n q.active)) [
    | inl a ↦
        subst (λ b. IsQueue init (if b then on_run_end init n q else q)) (sym a)
          (try_to_start_another-IsQueue init _ (ended-IsQueue init n q a h))
    | inr a ↦ subst (λ b. IsQueue init (if b then on_run_end init n q else q)) (sym a) h
  ]
  step-IsQueue q (reject_step n) h = on_rejected-IsQueue n q h
  step-IsQueue q (settle_step n true) h = settle-IsQueue n complete q refl h
  step-IsQueue q (settle_step n false) h = settle-IsQueue n errored q refl h
  step-IsQueue q pause_step h = paused-IsQueue true q h
  step-IsQueue q resume_step h =
      if_both (IsQueue init) (not q.paused) h
        (try_to_start_another-IsQueue init _ (paused-IsQueue false q h))
  step-IsQueue q clear_step h = clear-IsQueue q h
  step-IsQueue q abort_step h = clear-IsQueue q h

  pub new_queue-IsQueue : IsQueue init new_queue
  unfolding new_queue
  new_queue-IsQueue = record {
    counted = refl;
    concurrent = none_yet init.concurrency;
    sized = none_yet init.max_size;
    fresh_jobs = tt;
    fresh_active = tt;
    distinct = tt;
    tracked = tt;
  }
    where
      none_yet : (o : Option ℕ) → IsWithin 0 o
      none_yet none = tt
      none_yet (some n) = omega arith

  pub steps-IsQueue :
      (q : Queue O) (ss : List (Step O)) → IsQueue init q → IsQueue init (run init q ss)
  unfolding run
  steps-IsQueue q [] h = h
  steps-IsQueue q (s ∷ ss) h = steps-IsQueue (step init q s) ss (step-IsQueue q s h)

  -- After any steps on a new queue, with jobs that settle, end and are rejected at any time: as many jobs are
  -- counted as pending as runs have not ended, at most `concurrency`; the queue holds at most `maxSize` jobs,
  -- of different ids; and each of them has such a run exactly where it is not waiting.
  pub run-IsQueue : (ss : List (Step O)) → IsQueue init (run init new_queue ss)
  run-IsQueue ss = steps-IsQueue new_queue ss new_queue-IsQueue

-- ===== src/Utils/Queue/Full.antt =====
-- packages/utils/src/queue/index.ts: no job waits without need
use js_libp2p.Base.{
  ℕ, suc, ◌-◌, ◌≡◌, refl, sym, subst, Bool, true, false, not, ◌&&◌, Option, none, some, List, [],
  ◌∷◌, ◌++◌, if◌then◌else◌, nat_beq, length, arith, Bool-cases, inl, inr, All, All-map, All-append,
  if_both,
}
use js_libp2p.Utils.Queue.{
  JobStatus, queued, running, errored, complete, is_queued, QueueInit, Queue, Job, less_than,
  is_limit, has_id, new_queue, remove_job, first_queued, with_status, start_job, find_status,
  has_status, is_running, try_to_start_another, on_run_end, enqueue, add, on_rejected, resume,
  clear, settle, Step, add_step, end_step, reject_step, settle_step, pause_step, resume_step,
  clear_step, abort_step, queue_of, step, run,
}
use js_libp2p.Utils.Queue.Jobs.{
  sort_with-All, remove_job-All, set_status-All, first_queued-All, first_queued-queued,
  first_queued-none, length-remove_id,
}
use js_libp2p.Utils.Queue.Tracked.{IsQueue}
use js_libp2p.Utils.Queue.Tracking.{step-IsQueue, new_queue-IsQueue}

less_than-down :
    (n : ℕ) (limit : Option ℕ) → less_than (suc n) limit ≡ true → less_than n limit ≡ true
less_than-down n none h = refl
less_than-down n (some limit) h = ground (arith, h)

module _ {O : Type 0} where
  abbrev pub is_pause : Step O → Bool
  is_pause pause_step = true
  is_pause s = false

  -- The job does not wait.
  abbrev pub IsStarted : Job O → Type 0
  IsStarted j = is_queued j.status ≡ false

  -- No job but the one of this id waits.
  abbrev IsOnly : ℕ → Job O → Type 0
  IsOnly n j = (is_queued j.status && not (nat_beq j.id n)) ≡ false

  with_status-IsStarted :
      (n : ℕ) (s : JobStatus)
      → is_queued s ≡ false
      → (j : Job O) → IsOnly n j
      → IsStarted (with_status n s j)
  with_status-IsStarted n s e j h = elim (Bool-cases (nat_beq j.id n)) [
    | inl q ↦ subst (λ b. IsStarted (if b then record j { status = s } else j)) (sym q) e
    | inr q ↦
        subst (λ b. IsStarted (if b then record j { status = s } else j)) (sym q)
          (ground (arith, h, q))
  ]

module _ {O : Type 0} (init : QueueInit O) where
  pub record IsFull (q : Queue O) : Type 0 where
    pub unpaused : q.paused ≡ false
    pub full : less_than q.pending init.concurrency ≡ true → All IsStarted q.queue

  -- One job waits at most, if there is room for another one beside the one that can be started.
  start_job-IsFull :
      (q : Queue O) (o : Option (Job O)) (n : ℕ)
      → q.paused ≡ false
      → (less_than (suc q.pending) init.concurrency ≡ true → All (IsOnly n) q.queue)
      → first_queued q.queue ≡ o
      → IsFull (start_job q o)
  start_job-IsFull q none n p h e = record { unpaused = p; full = λ l. first_queued-none q.queue e }
  start_job-IsFull q (some j) n p h e = record {
    unpaused = p;
    full = λ l.
        let only = h l in
        let same : j.id ≡ n =
          is_it j (first_queued-queued q.queue j e)
            (first_queued-All (IsOnly n) q.queue j only e) in
        set_status-All (IsOnly n) IsStarted j.id running q.queue
          (λ k o. with_status-IsStarted j.id running refl k (subst (λ m. IsOnly m k) (sym same) o))
          only;
  }
    where
      is_it : (j : Job O) → is_queued j.status ≡ true → IsOnly n j → j.id ≡ n
      is_it j a b = ground (arith, a, b)

  try_to_start_another-IsFull :
      (q : Queue O) (n : ℕ)
      → q.paused ≡ false
      → (less_than (suc q.pending) init.concurrency ≡ true → All (IsOnly n) q.queue)
      → IsFull (try_to_start_another init q)
  unfolding try_to_start_another
  try_to_start_another-IsFull q n p h =
      subst (λ b. IsFull (if b then q else tried (nat_beq (length q.queue) 0))) (sym p)
        (elim (Bool-cases (nat_beq (length q.queue) 0)) [
          | inl e ↦
              subst (λ b. IsFull (tried b)) (sym e)
                (record { unpaused = p; full = λ l. no_jobs q.queue e })
          | inr e ↦
              subst (λ b. IsFull (tried b)) (sym e)
                (elim (Bool-cases (less_than q.pending init.concurrency)) [
                  | inl l ↦
                      subst (λ b. IsFull (if b then start_job q (first_queued q.queue) else q))
                        (sym l) (start_job-IsFull q (first_queued q.queue) n p h refl)
                  | inr l ↦
                      subst (λ b. IsFull (if b then start_job q (first_queued q.queue) else q))
                        (sym l) (record { unpaused = p; full = λ k. cc (k, l) })
                ])
        ])
    where
      tried : Bool → Queue O
      tried b =
          if b
          then q
          else if less_than q.pending init.concurrency
          then start_job q (first_queued q.queue)
          else q

      no_jobs : (js : List (Job O)) → nat_beq (length js) 0 ≡ true → All IsStarted js
      no_jobs [] e = tt
      no_jobs (j ∷ js) e = absurd (positive (length js) e)
        where
          positive : (m : ℕ) → nat_beq (suc m) 0 ≡ true → ⊥
          positive m e = ground (arith, e)

  started-IsOnly : (n : ℕ) (js : List (Job O)) → All IsStarted js → All (IsOnly n) js
  started-IsOnly n js h = All-map js (λ j e. ground (arith, e)) h

  add-IsFull :
      (options : O) (is_aborted : Bool) (q : Queue O)
      → IsFull q
      → IsFull (queue_of init q (add init options is_aborted q))
  unfolding add enqueue
  add-IsFull options is_aborted q h =
      let job : Job O = record { id = q.next_id; options = options; status = queued } in
      if_both (λ r. IsFull (queue_of init q r)) is_aborted h
        (if_both (λ r. IsFull (queue_of init q r)) (is_limit (length q.queue) init.max_size) h
          (try_to_start_another-IsFull (enqueue init job q) q.next_id h.unpaused (λ l.
            sort_with-All (IsOnly q.next_id) init.sort (q.queue ++ (job ∷ [])) (
              All-append (IsOnly q.next_id) q.queue (job ∷ [])
                (started-IsOnly q.next_id q.queue
                  (h.full (less_than-down q.pending init.concurrency l)))
                (ground arith, tt)))))

  on_run_end-IsFull :
      (n : ℕ) (q : Queue O)
      → has_id n q.active ≡ true
      → IsQueue init q
      → IsFull q
      → IsFull (on_run_end init n q)
  unfolding on_run_end
  on_run_end-IsFull n q a i h =
      let one : suc (q.pending - 1) ≡ q.pending =
        omega (arith, i.counted, length-remove_id n q.active a) in
      try_to_start_another-IsFull _ n h.unpaused (λ l. started-IsOnly n (remove_job n q.queue) (
        remove_job-All IsStarted n q.queue
          (h.full (subst (λ k. less_than k init.concurrency ≡ true) one l))))

  step-IsFull :
      (q : Queue O) (s : Step O)
      → is_pause s ≡ false
      → IsQueue init q
      → IsFull q
      → IsFull (step init q s)
  unfolding step resume on_rejected settle clear
  step-IsFull q (add_step options is_aborted) p i h = add-IsFull options is_aborted q h
  step-IsFull q (end_step n) p i h = elim (Bool-cases (has_id n q.active)) [
    | inl a ↦
        subst (λ b. IsFull (if b then on_run_end init n q else q)) (sym a)
          (on_run_end-IsFull n q a i h)
    | inr a ↦ subst (λ b. IsFull (if b then on_run_end init n q else q)) (sym a) h
  ]
  step-IsFull q (reject_step n) p i h =
      if_both IsFull (has_status is_queued (find_status n q.queue))
        (record {
          unpaused = h.unpaused;
          full = λ l. remove_job-All IsStarted n q.queue (h.full l);
        })
        h
  step-IsFull q (settle_step n succeeds) p i h =
      if_both IsFull (has_status is_running (find_status n q.queue))
        (record {
          unpaused = h.unpaused;
          full = λ l.
              set_status-All IsStarted IsStarted n (if succeeds then complete else errored) q.queue
                (λ j e.
                  with_status-IsStarted n (if succeeds then complete else errored)
                    (settled succeeds) j (ground (arith, e)))
                (h.full l);
        })
        h
    where
      settled : (b : Bool) → is_queued (if b then complete else errored) ≡ false
      settled true = refl
      settled false = refl
  step-IsFull q pause_step p i h = cc p
  step-IsFull q resume_step p i h =
      subst
        (λ b. IsFull (if not b then q else try_to_start_another init (record q { paused = false })))
        (sym h.unpaused) h
  step-IsFull q clear_step p i h = record { unpaused = h.unpaused; full = λ l. tt }
  step-IsFull q abort_step p i h = record { unpaused = h.unpaused; full = λ l. tt }

  pub new_queue-IsFull : IsFull new_queue
  unfolding new_queue
  new_queue-IsFull = record { unpaused = refl; full = λ l. tt }

  pub steps-IsFull :
      (q : Queue O) (ss : List (Step O))
      → All (λ s. is_pause s ≡ false) ss
      → IsQueue init q
      → IsFull q
      → IsFull (run init q ss)
  unfolding run
  steps-IsFull q [] p i h = h
  steps-IsFull q (s ∷ ss) p i h =
      steps-IsFull (step init q s) ss p.1 (step-IsQueue init q s i) (step-IsFull q s p.0 i h)

  pub end-IsFull :
      (q : Queue O) (n : ℕ)
      → has_id n q.active ≡ true
      → IsQueue init q
      → IsFull q
      → IsFull (on_run_end init n q)
  end-IsFull q n a i h = on_run_end-IsFull n q a i h

  -- After any steps on a new queue, none of which pauses it, no job of the queue waits while fewer run than
  -- `concurrency`.
  pub run-IsFull :
      (ss : List (Step O)) → All (λ s. is_pause s ≡ false) ss → IsFull (run init new_queue ss)
  run-IsFull ss p = steps-IsFull new_queue ss p (new_queue-IsQueue init) new_queue-IsFull

-- ===== src/Utils/Queue/Tracked.antt =====
-- packages/utils/src/queue/index.ts: what holds of a queue, and the start of a job
use js_libp2p.Base.{
  ℕ, suc, ◌+◌, ◌-◌, ◌≤◌, ◌<◌, ◌≡◌, refl, ap, sym, subst, ◌∙◌, true, false, not, Option, none, some,
  List, [], ◌∷◌, ◌++◌, if◌then◌else◌, nat_beq, length, length-append, arith, Bool-cases, inl, inr,
  All, All-map, All-append, if_both,
}
use js_libp2p.Base.Sorting.{IsSortedBy, IsSortedBy-append}
use js_libp2p.Utils.Queue.{
  JobStatus, queued, running, is_queued, QueueInit, Queue, Job, less_than, is_limit, has_id,
  remove_id, remove_job, first_queued, set_status, with_status, start_job, try_to_start_another,
  sort_with, enqueue,
}
use js_libp2p.Utils.Queue.Jobs.{
  sort_with-All, length-sort_with, sort_with-distinct, has_id-append, has_id-remove_id,
  length-remove_id, remove_id-All, has_id-fresh, same_id, remove_job-All, remove_job-IsSortedBy,
  remove_job-other, length-remove_job-le, length-set_status, set_status-All, set_status-IsSortedBy,
  id-with_status, first_queued-All,
}

abbrev pub IsWithin : ℕ → Option ℕ → Type 0
IsWithin n none = Unit {0}
IsWithin n (some limit) = n ≤ limit

pub IsWithin-down : (m n : ℕ) (limit : Option ℕ) → m ≤ n → IsWithin n limit → IsWithin m limit
IsWithin-down m n none h k = tt
IsWithin-down m n (some limit) h k = omega (arith, h, k)

suc-IsWithin : (n : ℕ) (limit : Option ℕ) → less_than n limit ≡ true → IsWithin (suc n) limit
suc-IsWithin n none h = tt
suc-IsWithin n (some limit) h = ground (arith, h)

room-IsWithin :
    (n : ℕ) (limit : Option ℕ)
    → IsWithin n limit
    → is_limit n limit ≡ false
    → IsWithin (suc n) limit
room-IsWithin n none k h = tt
room-IsWithin n (some limit) k h = ground (arith, h, k)

module _ {O : Type 0} where
  -- A job runs exactly where it is not waiting any more.
  abbrev pub IsTracked : List ℕ → Job O → Type 0
  IsTracked active j = has_id j.id active ≡ not (is_queued j.status)

  pub record IsQueue (init : QueueInit O) (q : Queue O) : Type 0 where
    pub counted : q.pending ≡ length q.active
    pub concurrent : IsWithin q.pending init.concurrency
    pub sized : IsWithin (length q.queue) init.max_size
    pub fresh_jobs : All (λ j. j.id < q.next_id) q.queue
    pub fresh_active : All (λ m. m < q.next_id) q.active
    pub distinct : IsSortedBy same_id q.queue
    pub tracked : All (IsTracked q.active) q.queue

  -- A job that does not wait any more is active.
  pub with_status-IsTracked :
      (active active' : List ℕ) (n : ℕ) (s : JobStatus)
      → is_queued s ≡ false
      → has_id n active' ≡ true
      → ((m : ℕ) → nat_beq m n ≡ false → has_id m active' ≡ has_id m active)
      → (j : Job O) → IsTracked active j
      → IsTracked active' (with_status n s j)
  with_status-IsTracked active active' n s e h f j t = elim (Bool-cases (nat_beq j.id n)) [
    | inl q ↦
        let same : j.id ≡ n = ground (arith, q) in
        subst (λ b. IsTracked active' (if b then record j { status = s } else j)) (sym q)
          (ap (λ m. has_id m active') same ∙ h ∙ ap not (sym e))
    | inr q ↦
        subst (λ b. IsTracked active' (if b then record j { status = s } else j)) (sym q)
          (f j.id q ∙ t)
  ]

  pub with_status-fresh :
      (n : ℕ) (s : JobStatus) (next : ℕ) (j : Job O) → j.id < next → (with_status n s j).id < next
  with_status-fresh n s next j h = subst (λ m. m < next) (sym (id-with_status n s j)) h

  pub set_status-distinct :
      (n : ℕ) (s : JobStatus) (js : List (Job O))
      → IsSortedBy same_id js
      → IsSortedBy same_id (set_status n s js)
  set_status-distinct n s = set_status-IsSortedBy same_id n s (λ a b.
      ap (λ m. nat_beq m (with_status n s b).id) (id-with_status n s a)
      ∙ ap (nat_beq a.id) (id-with_status n s b))

module _ {O : Type 0} (init : QueueInit O) where
  pub start_job-IsQueue :
      (q : Queue O) (o : Option (Job O))
      → less_than q.pending init.concurrency ≡ true
      → first_queued q.queue ≡ o
      → IsQueue init q
      → IsQueue init (start_job q o)
  start_job-IsQueue q none l e h = h
  start_job-IsQueue q (some j) l e h = record {
    counted =
        let size : length (q.active ++ (j.id ∷ [])) ≡ length q.active + 1 =
          length-append q.active (j.id ∷ []) in
        omega (arith, h.counted, size);
    concurrent = suc-IsWithin q.pending init.concurrency l;
    sized =
        subst (λ n. IsWithin n init.max_size) (sym (length-set_status j.id running q.queue))
          h.sized;
    fresh_jobs =
        set_status-All (λ k. k.id < q.next_id) (λ k. k.id < q.next_id) j.id running q.queue
          (with_status-fresh j.id running q.next_id) h.fresh_jobs;
    fresh_active =
        All-append (λ m. m < q.next_id) q.active (j.id ∷ []) h.fresh_active
          (first_queued-All (λ k. k.id < q.next_id) q.queue j h.fresh_jobs e, tt);
    distinct = set_status-distinct j.id running q.queue h.distinct;
    tracked =
        set_status-All (IsTracked q.active) (IsTracked (q.active ++ (j.id ∷ []))) j.id running
          q.queue
          (with_status-IsTracked q.active (q.active ++ (j.id ∷ [])) j.id running refl
            (here q.active j.id) (λ m f. other m j.id q.active f))
          h.tracked;
  }
    where
      here : (ms : List ℕ) (n : ℕ) → has_id n (ms ++ (n ∷ [])) ≡ true
      here ms n = ground (arith, has_id-append n n ms)

      other :
          (m n : ℕ) (ms : List ℕ) → nat_beq m n ≡ false → has_id m (ms ++ (n ∷ [])) ≡ has_id m ms
      other m n ms f = ground (arith, has_id-append m n ms, f)

  pub try_to_start_another-IsQueue :
      (q : Queue O) → IsQueue init q → IsQueue init (try_to_start_another init q)
  unfolding try_to_start_another
  try_to_start_another-IsQueue q h = if_both (IsQueue init) q.paused h (
      if_both (IsQueue init) (nat_beq (length q.queue) 0) h
        (elim (Bool-cases (less_than q.pending init.concurrency)) [
          | inl l ↦
              subst (λ b. IsQueue init (if b then start_job q (first_queued q.queue) else q))
                (sym l) (start_job-IsQueue q (first_queued q.queue) l refl h)
          | inr l ↦
              subst (λ b. IsQueue init (if b then start_job q (first_queued q.queue) else q))
                (sym l) h
        ]))

  -- The queue from which another job is started when a run has ended.
  pub ended-IsQueue :
      (n : ℕ) (q : Queue O)
      → has_id n q.active ≡ true
      → IsQueue init q
      → IsQueue init (record q {
        queue = remove_job n q.queue;
        pending = q.pending - 1;
        active = remove_id n q.active;
      })
  ended-IsQueue n q a h = record {
    counted = omega (arith, h.counted, length-remove_id n q.active a);
    concurrent =
        IsWithin-down (q.pending - 1) q.pending init.concurrency (omega arith) h.concurrent;
    sized =
        IsWithin-down (length (remove_job n q.queue)) (length q.queue) init.max_size
          (length-remove_job-le n q.queue) h.sized;
    fresh_jobs = remove_job-All (λ j. j.id < q.next_id) n q.queue h.fresh_jobs;
    fresh_active = remove_id-All (λ m. m < q.next_id) n q.active h.fresh_active;
    distinct = remove_job-IsSortedBy same_id n q.queue h.distinct;
    tracked =
        still (remove_job n q.queue) (remove_job-other n q.queue h.distinct)
          (remove_job-All (IsTracked q.active) n q.queue h.tracked);
  }
    where
      still :
          (js : List (Job O))
          → All (λ j. nat_beq j.id n ≡ false) js
          → All (IsTracked q.active) js
          → All (IsTracked (remove_id n q.active)) js
      still [] f t = tt
      still (j ∷ js) f t = (has_id-remove_id j.id n q.active f.0 ∙ t.0, still js f.1 t.1)

  pub enqueue-IsQueue :
      (options : O) (q : Queue O)
      → is_limit (length q.queue) init.max_size ≡ false
      → IsQueue init q
      → IsQueue init
          (enqueue init (record { id = q.next_id; options = options; status = queued }) q)
  unfolding enqueue
  enqueue-IsQueue options q l h =
      let job : Job O = record { id = q.next_id; options = options; status = queued } in
      record {
        counted = h.counted;
        concurrent = h.concurrent;
        sized =
            let size : length (sort_with init.sort (q.queue ++ (job ∷ []))) ≡ suc (length q.queue) =
              length-sort_with init.sort (q.queue ++ (job ∷ []))
              ∙ length-append q.queue (job ∷ [])
              ∙ omega arith in
            subst (λ n. IsWithin n init.max_size) (sym size)
              (room-IsWithin (length q.queue) init.max_size h.sized l);
        fresh_jobs =
            sort_with-All (λ j. j.id < suc q.next_id) init.sort (q.queue ++ (job ∷ []))
              (All-append (λ j. j.id < suc q.next_id) q.queue (job ∷ [])
                (All-map q.queue (λ j e. omega (arith, e)) h.fresh_jobs) (omega arith, tt));
        fresh_active = All-map q.active (λ m e. omega (arith, e)) h.fresh_active;
        distinct = sort_with-distinct init.sort (q.queue ++ (job ∷ [])) (
            IsSortedBy-append same_id q.queue job
              (All-map q.queue (λ j e. ground (arith, e)) h.fresh_jobs) h.distinct);
        tracked = sort_with-All (IsTracked q.active) init.sort (q.queue ++ (job ∷ [])) (
            All-append (IsTracked q.active) q.queue (job ∷ []) h.tracked
              (has_id-fresh q.next_id q.active h.fresh_active, tt));
      }

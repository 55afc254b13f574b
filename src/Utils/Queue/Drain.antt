-- ===== src/Utils/Queue/Drain.antt =====
-- packages/utils/src/queue/index.ts: a queue that is not paused runs all its jobs
use js_libp2p.Base.{
  ℕ, zero, suc, ◌+◌, ◌-◌, ◌≡◌, refl, ap, sym, subst, ◌∙◌, true, false, Option, none, some, List, [],
  ◌∷◌, if◌then◌else◌, nat_beq, length, arith, Bool-cases, inl, inr, All, All-map, if_both,
}
use mathlib.Core.Option.{some_inj}
use js_libp2p.Base.Sorting.{IsSortedBy}
use js_libp2p.Utils.Queue.{
  running, is_queued, QueueInit, Queue, Job, less_than, has_id, remove_id, new_queue, remove_job,
  first_queued, set_status, with_status, start_job, try_to_start_another, on_run_end, Step, run,
}
use js_libp2p.Utils.Queue.Jobs.{
  All-remove_job, All-set_status, same_id, set_status-same, first_queued-All, length-remove_id,
}
use js_libp2p.Utils.Queue.Tracked.{IsQueue, IsTracked, ended-IsQueue, try_to_start_another-IsQueue}
use js_libp2p.Utils.Queue.Tracking.{run-IsQueue}
use js_libp2p.Utils.Queue.Full.{is_pause, IsStarted, IsFull, end-IsFull, run-IsFull}

has_id-head : (n : ℕ) (ns : List ℕ) → has_id n (n ∷ ns) ≡ true
has_id-head n ns = ground arith

has_id-later : (m n : ℕ) (ns : List ℕ) → has_id m ns ≡ true → has_id m (n ∷ ns) ≡ true
has_id-later m n ns h = ground (arith, h)

-- The first run, and those that end after it.
abbrev first_ended : (ℕ → List ℕ) → List ℕ → List ℕ
first_ended go [] = []
first_ended go (n ∷ ns) = n ∷ go n

module _ {O : Type 0} where
  -- How many jobs wait.
  abbrev pub count_queued : List (Job O) → ℕ
  count_queued [] = 0
  count_queued (j ∷ js) =
      let rest = count_queued js in if is_queued j.status then suc rest else rest

  count_queued-remove_job :
      (n : ℕ) (active : List ℕ) (js : List (Job O))
      → has_id n active ≡ true
      → All (IsTracked active) js
      → count_queued (remove_job n js) ≡ count_queued js
  unfolding remove_job
  count_queued-remove_job n active [] a t = refl
  count_queued-remove_job n active (j ∷ js) a t = elim (Bool-cases (nat_beq j.id n)) [
    | inl e ↦
        let same : j.id ≡ n = ground (arith, e) in
        let started : is_queued j.status ≡ false =
          ground (arith, sym (ap (λ m. has_id m active) same) ∙ t.0, a) in
        ground (arith, e, started)
    | inr e ↦ ground (arith, e, count_queued-remove_job n active js a t.1)
  ]

  count_queued-start :
      (js : List (Job O)) (j : Job O)
      → IsSortedBy same_id js
      → first_queued js ≡ some j
      → suc (count_queued (set_status j.id running js)) ≡ count_queued js
  unfolding first_queued set_status
  count_queued-start [] j h e = cc e
  count_queued-start (k ∷ js) j (a, h) e = elim (Bool-cases (is_queued k.status)) [
    | inl q ↦
        let same : k ≡ j =
          some_inj.0 (sym (ap (λ b. if b then some k else first_queued js) q) ∙ e) in
        subst
          (λ i.
            suc (count_queued (with_status i.id running k ∷ set_status i.id running js))
            ≡ count_queued (k ∷ js))
          same (at_head k js q a)
    | inr q ↦
        let later : first_queued js ≡ some j =
          sym (ap (λ b. if b then some k else first_queued js) q) ∙ e in
        behind k js q (first_queued-All (λ y. same_id y k ≡ false) js j a later)
          (count_queued-start js j h later)
  ]
    where
      at_head :
          (k : Job O) (js : List (Job O))
          → is_queued k.status ≡ true
          → All (λ y. same_id y k ≡ false) js
          → suc (count_queued (with_status k.id running k ∷ set_status k.id running js))
            ≡ count_queued (k ∷ js)
      at_head k js q a =
          let own : nat_beq k.id k.id ≡ true = ground arith in
          ground (arith, q, own, set_status-same k.id running js a)

      behind :
          (k : Job O) (js : List (Job O))
          → is_queued k.status ≡ false
          → same_id j k ≡ false
          → suc (count_queued (set_status j.id running js)) ≡ count_queued js
          → suc (count_queued (with_status j.id running k ∷ set_status j.id running js))
            ≡ count_queued (k ∷ js)
      behind k js q d ih =
          let other : nat_beq k.id j.id ≡ false = ground (arith, d) in ground (arith, q, other, ih)

  count_queued-none : (js : List (Job O)) → All IsStarted js → count_queued js ≡ 0
  count_queued-none [] h = refl
  count_queued-none (j ∷ js) h = ground (arith, h.0, count_queued-none js h.1)

  none-count_queued : (js : List (Job O)) → count_queued js ≡ 0 → All IsStarted js
  none-count_queued [] e = tt
  none-count_queued (j ∷ js) e = (ground (arith, e), none-count_queued js (ground (arith, e)))

  -- The jobs that wait, and the runs that have not ended.
  abbrev pub work : Queue O → ℕ
  work q = count_queued q.queue + q.pending

  -- Where no run is active, no job that has started is in the queue.
  idle-empty : (js : List (Job O)) → All (IsTracked []) js → All IsStarted js → js ≡ []
  idle-empty [] t s = refl
  idle-empty (j ∷ js) t s = cc (t.0, s.0)

  abbrev on_first : (ℕ → Queue O) → Queue O → List ℕ → Queue O
  on_first go q [] = q
  on_first go q (n ∷ ns) = go n

module _ {O : Type 0} (init : QueueInit O) where
  try_to_start_another-work :
      (q : Queue O) → IsQueue init q → work (try_to_start_another init q) ≡ work q
  unfolding try_to_start_another
  try_to_start_another-work q h =
      let next =
        if less_than q.pending init.concurrency then start_job q (first_queued q.queue) else q in
      if_both {x = q} {y = if nat_beq (length q.queue) 0 then q else next}
        (λ (r : Queue O). work r ≡ work q) q.paused refl
        (if_both {x = q} {y = next} (λ (r : Queue O). work r ≡ work q) (nat_beq (length q.queue) 0)
          refl
          (if_both {x = start_job q (first_queued q.queue)} {y = q}
            (λ (r : Queue O). work r ≡ work q) (less_than q.pending init.concurrency)
            (started (first_queued q.queue) refl) refl))
    where
      started : (o : Option (Job O)) → first_queued q.queue ≡ o → work (start_job q o) ≡ work q
      started none e = refl
      started (some j) e = omega (arith, count_queued-start q.queue j h.distinct e)

  on_run_end-work :
      (n : ℕ) (q : Queue O)
      → has_id n q.active ≡ true
      → IsQueue init q
      → suc (work (on_run_end init n q)) ≡ work q
  unfolding on_run_end
  on_run_end-work n q a h =
      let q' : Queue O = record q {
        queue = remove_job n q.queue;
        pending = q.pending - 1;
        active = remove_id n q.active;
      } in
      omega (
        arith,
        try_to_start_another-work q' (ended-IsQueue init n q a h),
        count_queued-remove_job n q.active q.queue a h.tracked,
        length-remove_id n q.active a,
        h.counted,
      )

  on_run_end-IsQueue :
      (n : ℕ) (q : Queue O)
      → has_id n q.active ≡ true
      → IsQueue init q
      → IsQueue init (on_run_end init n q)
  unfolding on_run_end
  on_run_end-IsQueue n q a h = try_to_start_another-IsQueue init _ (ended-IsQueue init n q a h)

  -- The first active run ends, so many times.
  unfoldable pub end_runs : ℕ → Queue O → Queue O
  end_runs zero q = q
  end_runs (suc k) q = on_first (λ n. end_runs k (on_run_end init n q)) q q.active

  end_runs-empty :
      (k : ℕ) (q : Queue O)
      → less_than 0 init.concurrency ≡ true
      → IsQueue init q
      → IsFull init q
      → work q ≡ k
      → (end_runs k q).queue ≡ []
  unfolding end_runs
  end_runs-empty zero q c h f e =
      let no_runs : length q.active ≡ 0 = omega (arith, h.counted, e) in
      idle-empty q.queue
        (subst (λ ms. All (IsTracked ms) q.queue) (nothing q.active no_runs) h.tracked)
        (none-count_queued q.queue (omega (arith, e)))
    where
      nothing : (ms : List ℕ) → length ms ≡ 0 → ms ≡ []
      nothing [] z = refl
      nothing (m ∷ ms) z = absurd (omega (arith, z))
  end_runs-empty (suc k) q c h f e = next q.active refl (λ n a.
      end_runs-empty k (on_run_end init n q) c (on_run_end-IsQueue n q a h)
        (end-IsFull init q n a h f) (omega (arith, on_run_end-work n q a h, e)))
    where
      next :
          (ms : List ℕ)
          → q.active ≡ ms
          → ((n : ℕ) → has_id n q.active ≡ true → (end_runs k (on_run_end init n q)).queue ≡ [])
          → (on_first (λ n. end_runs k (on_run_end init n q)) q ms).queue ≡ []
      next [] a more =
          let no_runs : q.pending ≡ 0 = h.counted ∙ ap length a in
          idle-empty q.queue (subst (λ ms. All (IsTracked ms) q.queue) a h.tracked)
            (f.full (subst (λ p. less_than p init.concurrency ≡ true) (sym no_runs) c))
      next (n ∷ ns) a more = more n (ap (has_id n) a ∙ has_id-head n ns)

  -- The runs that end meanwhile.
  unfoldable pub ended_runs : ℕ → Queue O → List ℕ
  ended_runs zero q = []
  ended_runs (suc k) q = first_ended (λ n. ended_runs k (on_run_end init n q)) q.active

  -- Starting a job leaves the ids of the queue.
  All-try_to_start_another :
      (P : ℕ → Type 0) (q : Queue O)
      → All (λ j. P j.id) (try_to_start_another init q).queue
      → All (λ j. P j.id) q.queue
  unfolding try_to_start_another
  All-try_to_start_another P q =
      let next =
        if less_than q.pending init.concurrency then start_job q (first_queued q.queue) else q in
      if_both {x = q} {y = if nat_beq (length q.queue) 0 then q else next} IsKept q.paused (λ h. h)
        (if_both {x = q} {y = next} IsKept (nat_beq (length q.queue) 0) (λ h. h)
          (if_both {x = start_job q (first_queued q.queue)} {y = q} IsKept
            (less_than q.pending init.concurrency) (started (first_queued q.queue)) (λ h. h)))
    where
      IsKept : Queue O → Type 0
      IsKept r = All (λ j. P j.id) r.queue → All (λ j. P j.id) q.queue

      started : (o : Option (Job O)) → IsKept (start_job q o)
      started none h = h
      started (some j) h = All-set_status P j.id running q.queue h

  All-on_run_end :
      (P : ℕ → Type 0) (n : ℕ) (q : Queue O)
      → P n
      → All (λ j. P j.id) (on_run_end init n q).queue
      → All (λ j. P j.id) q.queue
  unfolding on_run_end
  All-on_run_end P n q p h = All-remove_job P n q.queue p (
      All-try_to_start_another P
        (record q {
          queue = remove_job n q.queue;
          pending = q.pending - 1;
          active = remove_id n q.active;
        })
        h)

  end_runs-ended :
      (k : ℕ) (q : Queue O)
      → (end_runs k q).queue ≡ []
      → All (λ j. has_id j.id (ended_runs k q) ≡ true) q.queue
  unfolding end_runs ended_runs
  end_runs-ended zero q e = subst (All (λ j. has_id j.id [] ≡ true)) (sym e) tt
  end_runs-ended (suc k) q e = next q.active e (λ n. end_runs-ended k (on_run_end init n q))
    where
      next :
          (ms : List ℕ)
          → (on_first (λ n. end_runs k (on_run_end init n q)) q ms).queue ≡ []
          → ((n : ℕ)
              → (end_runs k (on_run_end init n q)).queue ≡ []
              → All
                  (λ j. has_id j.id (ended_runs k (on_run_end init n q)) ≡ true)
                  (on_run_end init n q).queue)
          → All
              (λ j. has_id j.id (first_ended (λ n. ended_runs k (on_run_end init n q)) ms) ≡ true)
              q.queue
      next [] e more = subst (All (λ j. has_id j.id [] ≡ true)) (sym e) tt
      next (n ∷ ns) e more =
          let rest = ended_runs k (on_run_end init n q) in
          All-on_run_end (λ m. has_id m (n ∷ rest) ≡ true) n q (has_id-head n rest)
            (All-map (on_run_end init n q).queue (λ j h. has_id-later j.id n rest h) (more n e))

  -- After any steps on a new queue of positive concurrency, none of which pauses it, once as many runs have
  -- ended as jobs wait and run, the first active one each time, the queue is empty, and of each job that was in
  -- it a run is among those that ended.
  pub run-empty :
      (ss : List (Step O))
      → less_than 0 init.concurrency ≡ true
      → All (λ s. is_pause s ≡ false) ss
      → ((end_runs (work (run init new_queue ss)) (run init new_queue ss)).queue ≡ [])
        × All
            (λ j.
              has_id j.id (ended_runs (work (run init new_queue ss)) (run init new_queue ss))
              ≡ true)
            (run init new_queue ss).queue
  run-empty ss c p =
      let q = run init new_queue ss in
      let empty : (end_runs (work q) q).queue ≡ [] =
        end_runs-empty (work q) q c (run-IsQueue init ss) (run-IsFull init ss p) refl in
      (empty, end_runs-ended (work q) q empty)

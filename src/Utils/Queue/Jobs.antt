-- ===== src/Utils/Queue/Jobs.antt =====
-- packages/utils/src/queue/index.ts: the loops over the jobs
use js_libp2p.Base.{
  Option, ℕ, suc, ◌≤◌, ◌<◌, ◌≡◌, refl, ap, sym, subst, ◌∙◌, Bool, true, false, ◌||◌, none, some,
  List, [], ◌∷◌, ◌++◌, if◌then◌else◌, nat_beq, length, arith, Bool-cases, inl, inr, All, All-map,
  if_both,
}
use mathlib.Core.Option.{some_inj}
use js_libp2p.Base.Sorting.{IsSortedBy, sort_by-All, sort_by-pairs, length-sort_by}
use js_libp2p.Utils.Queue.{
  sort_with, JobStatus, is_queued, Job, has_id, remove_id, remove_job, first_queued, set_status,
  with_status, find_status,
}

pub has_id-append :
    (m n : ℕ) (ms : List ℕ) → has_id m (ms ++ (n ∷ [])) ≡ (has_id m ms || nat_beq n m)
has_id-append m n [] = ground arith
has_id-append m n (k ∷ ms) = ground (arith, has_id-append m n ms)

pub has_id-remove_id :
    (m n : ℕ) (ms : List ℕ) → nat_beq m n ≡ false → has_id m (remove_id n ms) ≡ has_id m ms
has_id-remove_id m n [] h = refl
has_id-remove_id m n (k ∷ ms) h = ground (arith, has_id-remove_id m n ms h, h)

pub length-remove_id :
    (n : ℕ) (ms : List ℕ) → has_id n ms ≡ true → suc (length (remove_id n ms)) ≡ length ms
length-remove_id n [] h = cc h
length-remove_id n (k ∷ ms) h = ground (arith, length-remove_id n ms)

pub remove_id-All : (P : ℕ → Type 0) (n : ℕ) (ms : List ℕ) → All P ms → All P (remove_id n ms)
remove_id-All P n [] h = tt
remove_id-All P n (k ∷ ms) h = if_both (All P) (nat_beq k n) h.1 (h.0, remove_id-All P n ms h.1)

-- An id that is not yet given out.
pub has_id-fresh : (n : ℕ) (ms : List ℕ) → All (λ m. m < n) ms → has_id n ms ≡ false
has_id-fresh n [] h = refl
has_id-fresh n (k ∷ ms) h =
    let other : nat_beq k n ≡ false = ground (arith, h.0) in
    ground (arith, has_id-fresh n ms h.1, other)

module _ {O : Type 0} where
  abbrev pub same_id : Job O → Job O → Bool
  same_id a b = nat_beq a.id b.id

  pub remove_job-All :
      (P : Job O → Type 0) (n : ℕ) (js : List (Job O)) → All P js → All P (remove_job n js)
  unfolding remove_job
  remove_job-All P n [] h = tt
  remove_job-All P n (j ∷ js) h =
      if_both (All P) (nat_beq j.id n) h.1 (h.0, remove_job-All P n js h.1)

  pub remove_job-IsSortedBy :
      (r : Job O → Job O → Bool) (n : ℕ) (js : List (Job O))
      → IsSortedBy r js
      → IsSortedBy r (remove_job n js)
  unfolding remove_job
  remove_job-IsSortedBy r n [] h = tt
  remove_job-IsSortedBy r n (j ∷ js) (a, h) =
      if_both (IsSortedBy r) (nat_beq j.id n) h
        (remove_job-All (λ y. r y j ≡ false) n js a, remove_job-IsSortedBy r n js h)

  -- The jobs have different ids, so that none of the removed id is left.
  pub remove_job-other :
      (n : ℕ) (js : List (Job O))
      → IsSortedBy same_id js
      → All (λ j. nat_beq j.id n ≡ false) (remove_job n js)
  unfolding remove_job
  remove_job-other n [] h = tt
  remove_job-other n (j ∷ js) (a, h) = elim (Bool-cases (nat_beq j.id n)) [
    | inl e ↦
        subst (λ b. All (λ k. nat_beq k.id n ≡ false) (if b then js else j ∷ remove_job n js))
          (sym e) (All-map js (λ k f. ground (arith, f, e)) a)
    | inr e ↦
        subst (λ b. All (λ k. nat_beq k.id n ≡ false) (if b then js else j ∷ remove_job n js))
          (sym e) (e, remove_job-other n js h)
  ]

  pub length-remove_job-le : (n : ℕ) (js : List (Job O)) → length (remove_job n js) ≤ length js
  unfolding remove_job
  length-remove_job-le n [] = omega arith
  length-remove_job-le n (j ∷ js) = ground (arith, length-remove_job-le n js)

  pub length-set_status :
      (n : ℕ) (s : JobStatus) (js : List (Job O)) → length (set_status n s js) ≡ length js
  unfolding set_status
  length-set_status n s [] = refl
  length-set_status n s (j ∷ js) = ap suc (length-set_status n s js)

  pub set_status-All :
      (P Q : Job O → Type 0) (n : ℕ) (s : JobStatus) (js : List (Job O))
      → ((j : Job O) → P j → Q (with_status n s j))
      → All P js
      → All Q (set_status n s js)
  unfolding set_status
  set_status-All P Q n s [] f h = tt
  set_status-All P Q n s (j ∷ js) f h = (f j h.0, set_status-All P Q n s js f h.1)

  -- A relation that does not look at the status.
  pub set_status-IsSortedBy :
      (r : Job O → Job O → Bool) (n : ℕ) (s : JobStatus)
      → ((a b : Job O) → r (with_status n s a) (with_status n s b) ≡ r a b)
      → (js : List (Job O)) → IsSortedBy r js
      → IsSortedBy r (set_status n s js)
  unfolding set_status
  set_status-IsSortedBy r n s f [] h = tt
  set_status-IsSortedBy r n s f (j ∷ js) (a, h) = (
    set_status-All (λ y. r y j ≡ false) (λ y. r y (with_status n s j) ≡ false) n s js
        (λ y e. f y j ∙ e) a,
    set_status-IsSortedBy r n s f js h,
  )

  pub set_status-same :
      (n : ℕ) (s : JobStatus) (js : List (Job O))
      → All (λ j. nat_beq j.id n ≡ false) js
      → set_status n s js ≡ js
  unfolding set_status
  set_status-same n s [] h = refl
  set_status-same n s (j ∷ js) h = ground (arith, h.0, set_status-same n s js h.1)

  pub id-with_status : (n : ℕ) (s : JobStatus) (j : Job O) → (with_status n s j).id ≡ j.id
  id-with_status n s j = ground arith

  -- What holds of the ids of the jobs that are left, and of the removed one, holds of all ids.
  pub All-remove_job :
      (P : ℕ → Type 0) (n : ℕ) (js : List (Job O))
      → P n
      → All (λ j. P j.id) (remove_job n js)
      → All (λ j. P j.id) js
  unfolding remove_job
  All-remove_job P n [] p h = tt
  All-remove_job P n (j ∷ js) p h = elim (Bool-cases (nat_beq j.id n)) [
    | inl e ↦
        let same : n ≡ j.id = ground (arith, e) in
        (subst P same p, subst (λ b. All (λ k. P k.id) (if b then js else j ∷ remove_job n js)) e h)
    | inr e ↦
        let (q, r) : All (λ k. P k.id) (j ∷ remove_job n js) =
          subst (λ b. All (λ k. P k.id) (if b then js else j ∷ remove_job n js)) e h in
        (q, All-remove_job P n js p r)
  ]

  pub All-set_status :
      (P : ℕ → Type 0) (n : ℕ) (s : JobStatus) (js : List (Job O))
      → All (λ j. P j.id) (set_status n s js)
      → All (λ j. P j.id) js
  unfolding set_status
  All-set_status P n s [] h = tt
  All-set_status P n s (j ∷ js) h =
      (subst P (id-with_status n s j) h.0, All-set_status P n s js h.1)

  pub first_queued-All :
      (P : Job O → Type 0) (js : List (Job O)) (j : Job O)
      → All P js
      → first_queued js ≡ some j
      → P j
  unfolding first_queued
  first_queued-All P [] j h e = cc e
  first_queued-All P (k ∷ js) j h e = elim (Bool-cases (is_queued k.status)) [
    | inl q ↦ subst P (some_inj.0 (sym (ap (λ b. if b then some k else first_queued js) q) ∙ e)) h.0
    | inr q ↦
        first_queued-All P js j h.1 (sym (ap (λ b. if b then some k else first_queued js) q) ∙ e)
  ]

  pub first_queued-queued :
      (js : List (Job O)) (j : Job O) → first_queued js ≡ some j → is_queued j.status ≡ true
  unfolding first_queued
  first_queued-queued [] j e = cc e
  first_queued-queued (k ∷ js) j e = elim (Bool-cases (is_queued k.status)) [
    | inl q ↦
        subst (λ i. is_queued i.status ≡ true)
          (some_inj.0 (sym (ap (λ b. if b then some k else first_queued js) q) ∙ e)) q
    | inr q ↦ first_queued-queued js j (sym (ap (λ b. if b then some k else first_queued js) q) ∙ e)
  ]

  pub first_queued-none :
      (js : List (Job O)) → first_queued js ≡ none → All (λ j. is_queued j.status ≡ false) js
  unfolding first_queued
  first_queued-none [] e = tt
  first_queued-none (k ∷ js) e = elim (Bool-cases (is_queued k.status)) [
    | inl q ↦ cc (sym (ap (λ b. if b then some k else first_queued js) q) ∙ e)
    | inr q ↦
        (q, first_queued-none js (sym (ap (λ b. if b then some k else first_queued js) q) ∙ e))
  ]

  -- What holds of every job holds of the one that the id finds.
  pub find_status-All :
      (P : ℕ → JobStatus → Type 0) (n : ℕ) (js : List (Job O)) (s : JobStatus)
      → All (λ j. P j.id j.status) js
      → find_status n js ≡ some s
      → P n s
  find_status-All P n [] s h e = cc e
  find_status-All P n (k ∷ js) s h e = elim (Bool-cases (nat_beq k.id n)) [
    | inl q ↦
        let same : k.id ≡ n = ground (arith, q) in
        let status : k.status ≡ s =
          some_inj.0 (sym (ap (λ b. if b then some k.status else find_status n js) q) ∙ e) in
        subst (λ m. P m s) same (subst (P k.id) status h.0)
    | inr q ↦
        find_status-All P n js s h.1
          (sym (ap (λ b. if b then some k.status else find_status n js) q) ∙ e)
  ]

  pub sort_with-All :
      (P : Job O → Type 0) (o : Option (Job O → Job O → Bool)) (js : List (Job O))
      → All P js
      → All P (sort_with o js)
  sort_with-All P none js h = h
  sort_with-All P (some before) js h = sort_by-All P before js h

  pub length-sort_with :
      (o : Option (Job O → Job O → Bool)) (js : List (Job O)) → length (sort_with o js) ≡ length js
  length-sort_with none js = refl
  length-sort_with (some before) js = length-sort_by before js

  pub sort_with-distinct :
      (o : Option (Job O → Job O → Bool)) (js : List (Job O))
      → IsSortedBy same_id js
      → IsSortedBy same_id (sort_with o js)
  sort_with-distinct none js h = h
  sort_with-distinct (some before) js h =
      sort_by-pairs before same_id (λ a b e. ground (arith, e)) js h

-- ===== src/Gossipsub/MessageCache/Run.antt =====
-- Runs of the operations of message-cache.ts, and its count after them.
use native.Mathlib.Nat.{add_assoc}
use Prim.Native.String.{String}
use js_libp2p.Base.{
  ℕ, ◌+◌, ◌<◌, ◌≡◌, ◌≢◌, refl, Bool, Option, none, some, List, [], ◌∷◌, arith, zero, suc,
  Option-cases, inl, inr, string_eq,
}
use js_libp2p.Base.Map
use js_libp2p.Gossipsub.MessageCache.{
  MessageCache, MessageId, init, empty_windows, put, observe_duplicate, get_with_iwant_count,
  validate, shift, remove,
}
use js_libp2p.Gossipsub.MessageCache.Counting.{
  Counts, unvalidated_at, count_unvalidated, put-Counts, observe-Counts, ask-Counts,
  validate-Counts, remove-Counts, shift-Counts,
}

-- The operations that change the cache.
pub data Op (M : Type 0) : Type 0 where
  puts : MessageId → M → Bool → Op M
  observes : String → String → Op M
  asks : String → String → Op M
  validates : String → Op M
  removes : String → Op M
  shifts : Op M

module _ {M : Type 0} (topic_of : M → String) where
  abbrev pub or_same : MessageCache M → Option (MessageCache M) → MessageCache M
  or_same c none = c
  or_same c (some c') = c'

  -- `shift` of a cache with no window throws, and changes nothing.
  unfoldable pub step : MessageCache M → Op M → MessageCache M
  step c (puts id msg validated) = (put topic_of c id msg validated).0
  step c (observes id from) = observe_duplicate c id from
  step c (asks id peer) = (get_with_iwant_count c id peer).0
  step c (validates id) = (validate c id).0
  step c (removes id) = (remove c id).0
  step c shifts = or_same c (shift c)

  unfoldable pub run : MessageCache M → List (Op M) → MessageCache M
  run c [] = c
  run c (op ∷ ops) = run (step c op) ops

  -- What each operation keeps, a run keeps.
  pub run_induction :
      (P : MessageCache M → Type 0)
      → ((c : MessageCache M) (op : Op M) → P c → P (step c op))
      → (c : MessageCache M) (ops : List (Op M)) → P c
      → P (run c ops)
  unfolding run
  run_induction P keep c [] h = h
  run_induction P keep c (op ∷ ops) h = run_induction P keep (step c op) ops (keep c op h)

  -- How many messages were not validated when `remove` took them.
  unfoldable pub removed_unvalidated : MessageCache M → List (Op M) → ℕ
  removed_unvalidated c [] = 0
  removed_unvalidated c (removes id ∷ ops) =
      unvalidated_at (Map.get c.msgs id) + removed_unvalidated (step c (removes id)) ops
  removed_unvalidated c (op ∷ ops) = removed_unvalidated (step c op) ops

  shifts-Counts : (n : ℕ) (c : MessageCache M) → Counts n c → Counts n (step c shifts)
  unfolding step
  shifts-Counts n c k = elim (Option-cases (shift c)) [
    | inl e ↦ rw (e, step) k
    | inr (c', e) ↦ rw (e, step) (shift-Counts n c c' k e)
  ]

  run-Counts :
      (n : ℕ) (c : MessageCache M) (ops : List (Op M))
      → Counts n c
      → Counts (n + removed_unvalidated c ops) (run c ops)
  unfolding run removed_unvalidated
  run-Counts n c [] k = let e : n + 0 ≡ n = omega arith in rw e k
  run-Counts n c (puts id msg validated ∷ ops) k =
      run-Counts n (step c (puts id msg validated)) ops
        (unfold step in put-Counts topic_of n c id msg validated k)
  run-Counts n c (observes id from ∷ ops) k =
      run-Counts n (step c (observes id from)) ops (unfold step in observe-Counts n c id from k)
  run-Counts n c (asks id peer ∷ ops) k =
      run-Counts n (step c (asks id peer)) ops (unfold step in ask-Counts n c id peer k)
  run-Counts n c (validates id ∷ ops) k =
      run-Counts n (step c (validates id)) ops (unfold step in validate-Counts n c id k)
  run-Counts n c (removes id ∷ ops) k =
      let u = unvalidated_at (Map.get c.msgs id) in
      rw (← add_assoc n u (removed_unvalidated (step c (removes id)) ops))
        (run-Counts (n + u) (step c (removes id)) ops (unfold step in remove-Counts n c id k))
  run-Counts n c (shifts ∷ ops) k = run-Counts n (step c shifts) ops (shifts-Counts n c k)

  empty_windows-ne : (n : ℕ) → 0 < n → empty_windows n ≢ []
  empty_windows-ne zero h e = absurd (omega arith)
  empty_windows-ne (suc n) h e = cc

  init-Counts : (gossip capacity : ℕ) → 0 < capacity → Counts 0 (init {M = M} gossip capacity)
  unfolding init
  init-Counts gossip capacity h = record {
    shaped = empty_windows-ne capacity h;
    distinct = tt;
    counted = refl;
  }

  -- After any operations on a new cache with at least one window, `notValidatedCount` is the number
  -- of messages in the cache that are not validated, and one more for each that `remove` took while
  -- it was not validated.
  pub not_validated_count-run :
      (gossip capacity : ℕ) (ops : List (Op M))
      → 0 < capacity
      → (run (init gossip capacity) ops).not_validated_count
        ≡ count_unvalidated (run (init gossip capacity) ops).msgs
          + removed_unvalidated (init gossip capacity) ops
  not_validated_count-run gossip capacity ops h =
      omega
        (arith, (run-Counts 0 (init gossip capacity) ops (init-Counts gossip capacity h)).counted)

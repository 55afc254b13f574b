-- ===== src/Gossipsub/MessageCache/Retention.antt =====
-- How long message-cache.ts keeps a message.
use Prim.Native.String.{String}
use js_libp2p.Base.{
  ℕ, zero, suc, ◌+◌, ◌<◌, ◌≡◌, refl, true, false, List, [], ◌∷◌, arith, length, drop, inl, inr,
  Option-cases, string_eq, ==_refl, ap, subst, sym, ◌∙◌, Bool-cases,
}
use js_libp2p.Base.Map
use js_libp2p.Base.Map.{Map}
use js_libp2p.Gossipsub.MessageCache.{MessageCache, CacheEntry, init, empty_windows, shift}
use js_libp2p.Gossipsub.MessageCache.Windows.{in_history, drop_beyond}
use js_libp2p.Gossipsub.MessageCache.Tracked.{
  IsTracked, IsTrackedFrom, put-IsTracked, observe-IsTracked, ask-IsTracked, validate-IsTracked,
  remove-IsTracked, shift-IsTrackedFrom, shift-none, length-history-shift,
}
use js_libp2p.Gossipsub.MessageCache.Run.{
  Op, puts, observes, asks, validates, removes, shifts, step, run, run_induction,
}

length-empty_windows : (n : ℕ) → length (empty_windows n) ≡ n
length-empty_windows zero = refl
length-empty_windows (suc n) = omega (arith, length-empty_windows n)

empty_of_has {κ} : {V : Type κ} (m : Map String V) → ((k : String) → Map.has m k ≡ false) → m ≡ []
unfolding Map.has
empty_of_has [] h = refl
empty_of_has ((k, v) ∷ m) h = ground (arith, h k, ==_refl k)

in_history_of_drop :
    (k : String) (h : List (List CacheEntry))
    → in_history k (drop 1 h) ≡ true
    → in_history k h ≡ true
in_history_of_drop k [] e = e
in_history_of_drop k (w ∷ ws) e = ground (arith, e)

module _ {M : Type 0} (topic_of : M → String) where
  shifts-IsTracked :
      (n : ℕ) (c : MessageCache M) → IsTracked n c → IsTracked n (step topic_of c shifts)
  unfolding step
  shifts-IsTracked n c t = elim (Option-cases (shift c)) [
    | inl e ↦ rw (e, step) t
    | inr (c', e) ↦
        rw (e, step)
          (record {
            windows = length-history-shift c c' e ∙ t.windows;
            tracked =
                λ k h. in_history_of_drop k c'.history (shift-IsTrackedFrom 0 c c' t.tracked e k h);
          })
  ]

  step-IsTracked :
      (n : ℕ)
      → 0 < n
      → (c : MessageCache M) (op : Op M) → IsTracked n c
      → IsTracked n (step topic_of c op)
  step-IsTracked n pos c (puts id msg validated) t =
      unfold step in put-IsTracked topic_of n c id msg validated pos t
  step-IsTracked n pos c (observes id from) t = unfold step in observe-IsTracked n c id from t
  step-IsTracked n pos c (asks id peer) t = unfold step in ask-IsTracked n c id peer t
  step-IsTracked n pos c (validates id) t = unfold step in validate-IsTracked n c id t
  step-IsTracked n pos c (removes id) t = unfold step in remove-IsTracked n c id t
  step-IsTracked n pos c shifts t = shifts-IsTracked n c t

  init-IsTracked : (gossip capacity : ℕ) → IsTracked capacity (init {M = M} gossip capacity)
  unfolding init Map.has
  init-IsTracked gossip capacity = record {
    windows = length-empty_windows capacity;
    tracked = λ k h. cc;
  }

  -- `n` calls of `shift`, one after the other.
  abbrev pub shift_times : ℕ → MessageCache M → MessageCache M
  shift_times zero c = c
  shift_times (suc n) c = shift_times n (step topic_of c shifts)

  shift_times-IsTrackedFrom :
      (i j n : ℕ) (c : MessageCache M)
      → length c.history ≡ n
      → 0 < n
      → IsTrackedFrom j c
      → IsTrackedFrom (j + i) (shift_times i c) × (length (shift_times i c).history ≡ n)
  shift_times-IsTrackedFrom zero j n c l pos t = let e : j + 0 ≡ j = omega arith in (rw e t, l)
  shift_times-IsTrackedFrom (suc i) j n c l pos t = elim (Option-cases (shift c)) [
    | inl e ↦ absurd (omega (arith, ap length (shift-none c e)))
    | inr (c', e) ↦
        let q : j + suc i ≡ suc j + i = omega arith in
        let s : step topic_of c shifts ≡ c' = unfold step in rw e in
        subst
          (λ x.
            IsTrackedFrom (j + suc i) (shift_times i x) × (length (shift_times i x).history ≡ n))
          (sym s)
          (rw q (
            shift_times-IsTrackedFrom i (suc j) n c' (length-history-shift c c' e ∙ l) pos
              (shift-IsTrackedFrom j c c' t e)))
  ]

  -- Whatever was done before, after as many shifts as there are windows no message is left.
  pub msgs-shift_times :
      (gossip capacity : ℕ) (ops : List (Op M))
      → 0 < capacity
      → (shift_times capacity (run topic_of (init gossip capacity) ops)).msgs ≡ []
  msgs-shift_times gossip capacity ops pos =
      let c = run topic_of (init gossip capacity) ops in
      let t : IsTracked capacity c =
        run_induction topic_of (IsTracked capacity) (step-IsTracked capacity pos)
          (init gossip capacity) ops (init-IsTracked gossip capacity) in
      let (kept, l) = shift_times-IsTrackedFrom capacity 0 capacity c t.windows pos t.tracked in
      empty_of_has _ λ k. elim (Bool-cases (Map.has (shift_times capacity c).msgs k)) [
        | inl there ↦ cc (
          kept k there,
          drop_beyond (0 + capacity) k (shift_times capacity c).history (omega arith),
        )
        | inr gone ↦ gone
      ]

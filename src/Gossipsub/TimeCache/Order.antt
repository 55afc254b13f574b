-- ===== src/Gossipsub/TimeCache/Order.antt =====
-- Runs of time-cache.ts, the order of its entries, and the loop of `prune`, which stops early.
use js_libp2p.Base.{
  ℕ, ◌≤◌, ◌≡◌, refl, sym, ap, subst, inl, inr, Bool, true, false, not, List, [], ◌∷◌, ◌++◌, arith,
  filter, All, All-map, All-append, Bool-cases, Eq, ℤ, pos, ◌+ℤ◌, ltb_ℤ, +ℤ-le_left,
}
use js_libp2p.Base.Map
use js_libp2p.Base.Map.{Map}
use js_libp2p.Gossipsub.TimeCache.{
  CacheValue, SimpleTimeCache, init, put, prune, prune_entries, clear,
}

-- `a` is at most `b`.
abbrev IsAtMost : ℤ → ℤ → Type 0
IsAtMost a b = ltb_ℤ b a ≡ false

IsAtMost-refl : (a : ℤ) → IsAtMost a a
IsAtMost-refl a = ground arith

IsAtMost-trans : (a b c : ℤ) → IsAtMost a b → IsAtMost b c → IsAtMost a c
IsAtMost-trans a b c h k = ground arith

still_valid :
    (now : ℕ) (a b : ℤ) → ltb_ℤ a (pos now) ≡ false → IsAtMost a b → not (ltb_ℤ b (pos now)) ≡ true
still_valid now a b h k = ground arith

module _ {K T : Type 0} where
  abbrev pub is_valid : ℕ → K × CacheValue T → Bool
  is_valid now entry = not (ltb_ℤ entry.1.valid_until_ms (pos now))

  -- In the order of insertion the entries expire one after the other.
  abbrev IsAscending : Map K (CacheValue T) → Type 0
  IsAscending [] = Unit {0}
  IsAscending ((k, v) ∷ m) =
      All (λ x. IsAtMost v.valid_until_ms x.1.valid_until_ms) m × IsAscending m

  filter-All :
      (now : ℕ) (m : Map K (CacheValue T))
      → All (λ x. is_valid now x ≡ true) m
      → filter (is_valid now) m ≡ m
  filter-All now [] h = refl
  filter-All now (x ∷ m) h = rw (h.0) (ap (◌∷◌ x) (filter-All now m h.1))

  snoc-IsAscending :
      (m : Map K (CacheValue T)) (k : K) (v : CacheValue T)
      → All (λ x. IsAtMost x.1.valid_until_ms v.valid_until_ms) m
      → IsAscending m
      → IsAscending (m ++ ((k, v) ∷ []))
  snoc-IsAscending [] k v b h = (tt, tt)
  snoc-IsAscending ((j, w) ∷ m) k v b h = (
    All-append (λ x. IsAtMost w.valid_until_ms x.1.valid_until_ms) m ((k, v) ∷ []) h.0 (b.0, tt),
    snoc-IsAscending m k v b.1 h.1,
  )

module _ {K T : Type 0} ⦃e : Eq K⦄ where
  prune_entries-filter :
      (now : ℕ) (m : Map K (CacheValue T))
      → IsAscending m
      → prune_entries now m ≡ filter (is_valid now) m
  unfolding prune_entries
  prune_entries-filter now [] h = refl
  prune_entries-filter now ((k, v) ∷ m) h = elim (Bool-cases (ltb_ℤ v.valid_until_ms (pos now))) [
    | inl expired ↦ rw expired (prune_entries-filter now m h.1)
    | inr valid ↦ rw valid (
        ap (◌∷◌ (k, v)) (
          sym (
            filter-All now m (
              All-map m (λ x a. still_valid now v.valid_until_ms x.1.valid_until_ms valid a) h.0))))
  ]

  set_absent :
      (m : Map K (CacheValue T)) (k : K) (v : CacheValue T)
      → Map.has m k ≡ false
      → Map.set m k v ≡ m ++ ((k, v) ∷ [])
  unfolding Map.has Map.set
  set_absent [] k v h = refl
  set_absent ((j, w) ∷ m) k v h = ground (arith, set_absent m k v)

  prune-keeps :
      (R : K × CacheValue T → Type 0) (now : ℕ) (m : Map K (CacheValue T))
      → All R m
      → All R (prune_entries now m)
  unfolding prune_entries
  prune-keeps R now [] h = tt
  prune-keeps R now ((k, v) ∷ m) h = elim (Bool-cases (ltb_ℤ v.valid_until_ms (pos now))) [
    | inl x ↦ rw x (prune-keeps R now m h.1)
    | inr x ↦ rw x (h.0, h.1)
  ]

  prune-IsAscending :
      (now : ℕ) (m : Map K (CacheValue T)) → IsAscending m → IsAscending (prune_entries now m)
  unfolding prune_entries
  prune-IsAscending now [] h = tt
  prune-IsAscending now ((k, v) ∷ m) h = elim (Bool-cases (ltb_ℤ v.valid_until_ms (pos now))) [
    | inl x ↦ rw x (prune-IsAscending now m h.1)
    | inr x ↦ rw x (h.0, h.1)
  ]

-- The operations that change the cache, with the clock at each.
pub data Op (K T : Type 0) : Type 0 where
  puts : ℕ → K → T → Op K T
  prunes : ℕ → Op K T
  clears : Op K T

module _ {K T : Type 0} ⦃e : Eq K⦄ where
  unfoldable pub run : SimpleTimeCache K T → List (Op K T) → SimpleTimeCache K T
  run c [] = c
  run c (puts now k v ∷ ops) = run (put now c k v).0 ops
  run c (prunes now ∷ ops) = run (prune now c) ops
  run c (clears ∷ ops) = run (clear c) ops

  -- From `t` on the clock does not go back.
  unfoldable pub IsTimed : ℕ → List (Op K T) → Type 0
  IsTimed t [] = Unit {0}
  IsTimed t (puts now k v ∷ ops) = (t ≤ now) × IsTimed now ops
  IsTimed t (prunes now ∷ ops) = (t ≤ now) × IsTimed now ops
  IsTimed t (clears ∷ ops) = IsTimed t ops

  -- The entries are in order, and none expires later than one that is put in at `t` would.
  abbrev IsOrdered : ℕ → SimpleTimeCache K T → Type 0
  IsOrdered t c =
      IsAscending c.entries
      × All (λ x. IsAtMost x.1.valid_until_ms (pos t +ℤ c.validity_ms)) c.entries

  put-IsOrdered :
      (t now : ℕ) (c : SimpleTimeCache K T) (k : K) (v : T)
      → t ≤ now
      → IsOrdered t c
      → IsOrdered now (put now c k v).0
  unfolding put
  put-IsOrdered t now c k v h (up, below) =
      let until = pos now +ℤ c.validity_ms in
      let below' : All (λ x. IsAtMost x.1.valid_until_ms until) c.entries =
        All-map c.entries
          (λ x a.
            IsAtMost-trans x.1.valid_until_ms (pos t +ℤ c.validity_ms) until a
              (+ℤ-le_left t now c.validity_ms h))
          below in
      let entry : CacheValue T = record { value = v; valid_until_ms = until } in
      elim (Bool-cases (Map.has c.entries k)) [
        | inl there ↦ rw (put, there) (up, below')
        | inr absent ↦
            rw (put, absent)
              (subst (λ m. IsAscending m × All (λ x. IsAtMost x.1.valid_until_ms until) m)
                (sym (set_absent c.entries k entry absent))
                (
                  snoc-IsAscending c.entries k entry below' up,
                  All-append (λ x. IsAtMost x.1.valid_until_ms until) c.entries ((k, entry) ∷ [])
                      below' (IsAtMost-refl until, tt),
                ))
      ]

  run-IsAscending :
      (t : ℕ) (c : SimpleTimeCache K T) (ops : List (Op K T))
      → IsTimed t ops
      → IsOrdered t c
      → IsAscending (run c ops).entries
  unfolding run IsTimed
  run-IsAscending t c [] h o = o.0
  run-IsAscending t c (puts now k v ∷ ops) h o =
      run-IsAscending now (put now c k v).0 ops h.1 (put-IsOrdered t now c k v h.0 o)
  run-IsAscending t c (prunes now ∷ ops) h o =
      let until = pos now +ℤ c.validity_ms in
      let below : All (λ x. IsAtMost x.1.valid_until_ms until) c.entries =
        All-map c.entries
          (λ x a.
            IsAtMost-trans x.1.valid_until_ms (pos t +ℤ c.validity_ms) until a
              (+ℤ-le_left t now c.validity_ms h.0))
          o.1 in
      run-IsAscending now (prune now c) ops h.1 (
        prune-IsAscending now c.entries o.0,
        prune-keeps (λ x. IsAtMost x.1.valid_until_ms until) now c.entries below,
      )
  run-IsAscending t c (clears ∷ ops) h o = run-IsAscending t (clear c) ops h (tt, tt)

  -- After any operations on a new cache, at times that do not go back, `prune` leaves exactly the
  -- entries that are valid, in their order.
  pub prune-filter :
      (validity : ℤ) (ops : List (Op K T)) (now : ℕ)
      → IsTimed 0 ops
      → (prune now (run (init validity) ops)).entries
        ≡ filter (is_valid now) (run (init validity) ops).entries
  prune-filter validity ops now h =
      prune_entries-filter now (run (init validity) ops).entries
        (run-IsAscending 0 (init validity) ops h (tt, tt))

-- ===== src/ConnectionManager/Pruner/Choice.antt =====
-- packages/libp2p/src/connection-manager/connection-pruner.ts: the loop that collects what is closed
use js_libp2p.Base.{
  ℕ, zero, suc, ◌+◌, ◌<◌, ◌≡◌, refl, ap, sym, ◌∙◌, Bool, true, false, not, List, [], ◌∷◌, ◌++◌,
  if◌then◌else◌, nat_beq, length, take, filter, arith, length-append, Bool-cases, inl, inr,
}
use mathlib.Core.List.{append_assoc, append-nil}
use js_libp2p.ConnectionManager.Pruner.{Connection, collect}

module _ {A : Type 0} (allowed : Connection A → Bool) where
  abbrev pub prunable : List (Connection A) → List (Connection A)
  prunable cs = filter (λ c. not (allowed c)) cs

  -- One connection more, or one that stays open.
  collect-allowed :
      (n : ℕ) (c : Connection A) (cs to_close : List (Connection A))
      → 0 < n
      → allowed c ≡ true
      → collect allowed (length to_close + n) (c ∷ cs) to_close
        ≡ collect allowed (length to_close + n) cs to_close
  unfolding collect
  collect-allowed n c cs to_close h e =
      let other : nat_beq (length to_close) (length to_close + n) ≡ false = ground arith in
      ground (arith, e, other)

  collect-prunable :
      (n : ℕ) (c : Connection A) (cs to_close : List (Connection A))
      → allowed c ≡ false
      → collect allowed (length to_close + suc n) (c ∷ cs) to_close ≡ (
          if nat_beq n 0
          then to_close ++ (c ∷ [])
          else collect allowed (length (to_close ++ (c ∷ [])) + n) cs (to_close ++ (c ∷ [])))
  unfolding collect
  collect-prunable n c cs to_close e =
      let size : length (to_close ++ (c ∷ [])) ≡ length to_close + 1 =
        length-append to_close (c ∷ []) in
      let total : length to_close + suc n ≡ length (to_close ++ (c ∷ [])) + n =
        omega (arith, size) in
      let same : nat_beq (length (to_close ++ (c ∷ []))) (length (to_close ++ (c ∷ [])) + n)
          ≡ nat_beq n 0 =
        ground arith in
      ap (λ m. collect allowed m (c ∷ cs) to_close) total ∙ ground (arith, e, same)

  -- What is collected: the first connections that may be pruned.
  pub collect-take :
      (n : ℕ) (cs to_close : List (Connection A))
      → collect allowed (length to_close + suc n) cs to_close
        ≡ to_close ++ take (suc n) (prunable cs)
  unfolding collect
  collect-take n [] to_close = sym (append-nil to_close)
  collect-take n (c ∷ cs) to_close = elim (Bool-cases (allowed c)) [
    | inl e ↦
        collect-allowed (suc n) c cs to_close (omega arith) e
        ∙ collect-take n cs to_close
        ∙ ap (λ ds. to_close ++ take (suc n) ds) (sym (kept c cs e))
    | inr e ↦
        collect-prunable n c cs to_close e
        ∙ more n c cs to_close (λ m. collect-take m cs (to_close ++ (c ∷ [])))
        ∙ ap (λ ds. to_close ++ take (suc n) ds) (sym (taken c cs e))
  ]
    where
      kept :
          (c : Connection A) (cs : List (Connection A))
          → allowed c ≡ true
          → prunable (c ∷ cs) ≡ prunable cs
      kept c cs e = ground (arith, e)

      taken :
          (c : Connection A) (cs : List (Connection A))
          → allowed c ≡ false
          → prunable (c ∷ cs) ≡ c ∷ prunable cs
      taken c cs e = ground (arith, e)

      more :
          (n : ℕ) (c : Connection A) (cs to_close : List (Connection A))
          → ((m : ℕ)
              → collect allowed (length (to_close ++ (c ∷ [])) + suc m) cs (to_close ++ (c ∷ []))
                ≡ (to_close ++ (c ∷ [])) ++ take (suc m) (prunable cs))
          → (if nat_beq n 0
              then to_close ++ (c ∷ [])
              else collect allowed (length (to_close ++ (c ∷ [])) + n) cs (to_close ++ (c ∷ [])))
            ≡ to_close ++ (c ∷ take n (prunable cs))
      more zero c cs to_close ih = refl
      more (suc m) c cs to_close ih =
          let next =
            collect allowed (length (to_close ++ (c ∷ [])) + suc m) cs (to_close ++ (c ∷ [])) in
          let differs : nat_beq (suc m) 0 ≡ false = ground arith in
          ap (λ b. if b then to_close ++ (c ∷ []) else next) differs
          ∙ ih m
          ∙ append_assoc to_close (c ∷ []) (take (suc m) (prunable cs))

-- ===== src/Gossipsub/Shuffle.antt =====
-- packages/gossipsub/src/utils/shuffle.ts
-- The numbers that `Math.random` leads to are an argument: `pick i` is the index drawn in round i.
use mathlib.Core.Option.{some_inj}
use js_libp2p.Base.{
  ℕ, zero, suc, ◌+◌, Option, none, some, List, [], ◌∷◌, if◌then◌else◌, leb, length, All, ◌≡◌, refl,
  subst, if_both, ap, ◌∙◌,
}

module _ {ℓ} {A : Type ℓ} where
  unfoldable pub at : List A → ℕ → Option A
  at [] n = none
  at (x ∷ xs) zero = some x
  at (x ∷ xs) (suc n) = at xs n

  unfoldable pub set_at : List A → ℕ → A → List A
  set_at [] n y = []
  set_at (x ∷ xs) zero y = y ∷ xs
  set_at (x ∷ xs) (suc n) y = x ∷ set_at xs n y

  abbrev exchange : List A → ℕ → ℕ → Option A → Option A → List A
  exchange xs i j (some x) (some y) = set_at (set_at xs i y) j x
  exchange xs i j _ _ = xs

  unfoldable pub swap : List A → ℕ → ℕ → List A
  swap xs i j = exchange xs i j (at xs i) (at xs j)

  -- The rounds from i on, as many as are left.
  unfoldable pub rounds : (ℕ → ℕ) → ℕ → ℕ → List A → List A
  rounds pick zero i xs = xs
  rounds pick (suc left) i xs = rounds pick left (i + 1) (swap xs i (pick i))

  unfoldable pub shuffle : (ℕ → ℕ) → List A → List A
  shuffle pick xs = if leb (length xs) 1 then xs else rounds pick (length xs) 0 xs

  length-set_at : (xs : List A) (n : ℕ) (y : A) → length (set_at xs n y) ≡ length xs
  unfolding set_at
  length-set_at [] n y = refl
  length-set_at (x ∷ xs) zero y = refl
  length-set_at (x ∷ xs) (suc n) y = ap suc (length-set_at xs n y)

  length-swap : (xs : List A) (i j : ℕ) → length (swap xs i j) ≡ length xs
  unfolding swap
  length-swap xs i j = exchanged (at xs i) (at xs j)
    where
      exchanged : (a b : Option A) → length (exchange xs i j a b) ≡ length xs
      exchanged (some x) (some y) = length-set_at (set_at xs i y) j x ∙ length-set_at xs i y
      exchanged (some x) none = refl
      exchanged none b = refl

  length-rounds :
      (pick : ℕ → ℕ) (left i : ℕ) (xs : List A) → length (rounds pick left i xs) ≡ length xs
  unfolding rounds
  length-rounds pick zero i xs = refl
  length-rounds pick (suc left) i xs =
      length-rounds pick left (i + 1) (swap xs i (pick i)) ∙ length-swap xs i (pick i)

  pub length-shuffle : (pick : ℕ → ℕ) (xs : List A) → length (shuffle pick xs) ≡ length xs
  unfolding shuffle
  length-shuffle pick xs =
      if_both {x = xs} {y = rounds pick (length xs) 0 xs} (λ (ys : List A). length ys ≡ length xs)
        (leb (length xs) 1) refl (length-rounds pick (length xs) 0 xs)

  module _ (P : A → Type 0) where
    pub at-All : (xs : List A) (n : ℕ) (x : A) → at xs n ≡ some x → All P xs → P x
    unfolding at
    at-All [] n x e h = cc
    at-All (y ∷ ys) zero x e h = subst P (some_inj.0 e) h.0
    at-All (y ∷ ys) (suc n) x e h = at-All ys n x e h.1

    set_at-All : (xs : List A) (n : ℕ) (y : A) → P y → All P xs → All P (set_at xs n y)
    unfolding set_at
    set_at-All [] n y p h = h
    set_at-All (x ∷ xs) zero y p h = (p, h.1)
    set_at-All (x ∷ xs) (suc n) y p h = (h.0, set_at-All xs n y p h.1)

    exchange-All :
        (xs : List A) (i j : ℕ) (a b : Option A)
        → ((x : A) → a ≡ some x → P x)
        → ((y : A) → b ≡ some y → P y)
        → All P xs
        → All P (exchange xs i j a b)
    exchange-All xs i j (some x) (some y) p q h =
        set_at-All (set_at xs i y) j x (p x refl) (set_at-All xs i y (q y refl) h)
    exchange-All xs i j (some x) none p q h = h
    exchange-All xs i j none b p q h = h

    swap-All : (xs : List A) (i j : ℕ) → All P xs → All P (swap xs i j)
    unfolding swap
    swap-All xs i j h =
        exchange-All xs i j (at xs i) (at xs j) (λ x e. at-All xs i x e h)
          (λ y e. at-All xs j y e h) h

    rounds-All :
        (pick : ℕ → ℕ) (left i : ℕ) (xs : List A) → All P xs → All P (rounds pick left i xs)
    unfolding rounds
    rounds-All pick zero i xs h = h
    rounds-All pick (suc left) i xs h =
        rounds-All pick left (i + 1) (swap xs i (pick i)) (swap-All xs i (pick i) h)

    -- What holds of all elements holds of all after the shuffle.
    pub shuffle-All : (pick : ℕ → ℕ) (xs : List A) → All P xs → All P (shuffle pick xs)
    unfolding shuffle
    shuffle-All pick xs h =
        if_both (All P) (leb (length xs) 1) h (rounds-All pick (length xs) 0 xs h)

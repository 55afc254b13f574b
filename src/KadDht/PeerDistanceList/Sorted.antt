-- ===== src/KadDht/PeerDistanceList/Sorted.antt =====
-- The order of peer-distance-list.ts under `splice` and `slice`.
use mathlib.Core.List.{Memᴰ}
use mathlib.Core.List.Memᴰ.{head, tail}
use js_libp2p.Base.{
  ◌≢◌, none, ℕ, zero, suc, ◌≤◌, ◌≡◌, refl, sym, subst, ◌⊎◌, inl, inr, true, false, some, List, [],
  ◌∷◌, arith, length, length-take, take, All, All-map, Bool-cases,
}
use js_libp2p.KadDht.PeerDistanceList.{XorMetric, PeerDistance, is_closer_sign, insert, last}

-- `xorCompare` orders distances: nothing is closer than itself, of two at most one is closer, and
-- "not closer" is transitive.
pub record IsOrder (metric : XorMetric) : Type 0 where
  pub not_itself : (a : List ℕ) → is_closer_sign (metric.compare a a) ≡ false
  pub not_both :
      (a b : List ℕ)
      → is_closer_sign (metric.compare a b) ≡ true
      → is_closer_sign (metric.compare b a) ≡ false
  pub chain :
      (a b c : List ℕ)
      → is_closer_sign (metric.compare b a) ≡ false
      → is_closer_sign (metric.compare c b) ≡ false
      → is_closer_sign (metric.compare c a) ≡ false

pub All-at {ℓ κ} : {A : Type ℓ} (Q : A → Type κ) (xs : List A) (y : A) → All Q xs → Memᴰ y xs → Q y
All-at Q [] y h m = elim m [ ]
All-at Q (x ∷ xs) y h (head e) = subst Q (sym e) h.0
All-at Q (x ∷ xs) y h (tail m) = All-at Q xs y h.1 m

pub All-take {ℓ κ} :
    {A : Type ℓ} (Q : A → Type κ) (n : ℕ) (xs : List A) → All Q xs → All Q (take n xs)
All-take Q zero xs h = tt
All-take Q (suc n) [] h = tt
All-take Q (suc n) (x ∷ xs) h = (h.0, All-take Q n xs h.1)

pub length-take-le {ℓ} : {A : Type ℓ} (n : ℕ) (xs : List A) → length (take n xs) ≤ n
length-take-le zero xs = omega arith
length-take-le (suc n) [] = omega arith
length-take-le (suc n) (x ∷ xs) = omega (arith, length-take-le n xs)

pub take_of_le {ℓ} : {A : Type ℓ} (n : ℕ) (xs : List A) → n ≤ length xs → n ≤ length (take n xs)
take_of_le n xs h = omega (arith, length-take n xs h)

-- `y` is not closer than `x`.
abbrev pub IsAtMost : XorMetric → List ℕ → List ℕ → Type 0
IsAtMost metric x y = is_closer_sign (metric.compare y x) ≡ false

some-injective : {A : Type 0} {a b : A} → some a ≡ some b → a ≡ b
some-injective e = cc

succ-ne : {n : ℕ} → suc n ≢ 0
succ-ne h = omega arith

module _ {P I : Type 0} where
  pub last-none : (xs : List (PeerDistance P I)) → last xs ≡ none → length xs ≡ 0
  last-none [] h = refl
  last-none (x ∷ []) h = cc
  last-none (x ∷ y ∷ ys) h = absurd (succ-ne (last-none (y ∷ ys) h))

module _ {P I : Type 0} (metric : XorMetric) where
  abbrev pub IsSorted : List (PeerDistance P I) → Type 0
  IsSorted [] = Unit {0}
  IsSorted (x ∷ xs) = All (λ y. IsAtMost metric x.distance y.distance) xs × IsSorted xs

  pub length-insert :
      (xs : List (PeerDistance P I)) (el : PeerDistance P I)
      → length (insert metric xs el) ≡ suc (length xs)
  unfolding insert
  length-insert [] el = refl
  length-insert (x ∷ xs) el = ground (arith, length-insert xs el)

  -- What holds of the new element and of all in the list holds of all after `insert`.
  pub All-insert :
      (Q : PeerDistance P I → Type 0) (xs : List (PeerDistance P I)) (el : PeerDistance P I)
      → Q el
      → All Q xs
      → All Q (insert metric xs el)
  unfolding insert
  All-insert Q [] el q h = (q, tt)
  All-insert Q (x ∷ xs) el q h =
      elim (Bool-cases (is_closer_sign (metric.compare x.distance el.distance))) [
        | inl c ↦ rw c (h.0, All-insert Q xs el q h.1)
        | inr c ↦ rw c (q, (h.0, h.1))
      ]

  pub insert-Memᴰ :
      (xs : List (PeerDistance P I)) (el y : PeerDistance P I)
      → Memᴰ y xs
      → Memᴰ y (insert metric xs el)
  unfolding insert
  insert-Memᴰ [] el y m = elim m [ ]
  insert-Memᴰ (x ∷ xs) el y m =
      elim (Bool-cases (is_closer_sign (metric.compare x.distance el.distance))) [
        | inl c ↦ elim m [ head e ↦ rw c (head e) | tail i ↦ rw c (tail (insert-Memᴰ xs el y i)) ]
        | inr c ↦ rw c (tail m)
      ]

  pub insert-el :
      (xs : List (PeerDistance P I)) (el : PeerDistance P I) → Memᴰ el (insert metric xs el)
  unfolding insert
  insert-el [] el = head refl
  insert-el (x ∷ xs) el =
      elim (Bool-cases (is_closer_sign (metric.compare x.distance el.distance))) [
        | inl c ↦ rw c (tail (insert-el xs el))
        | inr c ↦ rw c (head refl)
      ]

  module _ (order : IsOrder metric) where
    pub insert-IsSorted :
        (xs : List (PeerDistance P I)) (el : PeerDistance P I)
        → IsSorted xs
        → IsSorted (insert metric xs el)
    unfolding insert
    insert-IsSorted [] el h = (tt, tt)
    insert-IsSorted (x ∷ xs) el h =
        elim (Bool-cases (is_closer_sign (metric.compare x.distance el.distance))) [
          | inl c ↦ rw c (
            All-insert (λ y. IsAtMost metric x.distance y.distance) xs el
                (order.not_both x.distance el.distance c) h.0,
            insert-IsSorted xs el h.1,
          )
          | inr c ↦ rw c (
            (c, All-map xs (λ y. order.chain el.distance x.distance y.distance c) h.0),
            (h.0, h.1),
          )
        ]

    pub take-IsSorted : (n : ℕ) (xs : List (PeerDistance P I)) → IsSorted xs → IsSorted (take n xs)
    take-IsSorted zero xs h = tt
    take-IsSorted (suc n) [] h = tt
    take-IsSorted (suc n) (x ∷ xs) h =
        (All-take (λ y. IsAtMost metric x.distance y.distance) n xs h.0, take-IsSorted n xs h.1)

    -- An element that is cut off is at least as far as all that stay.
    pub take-or-All :
        (n : ℕ) (xs : List (PeerDistance P I)) (y : PeerDistance P I)
        → IsSorted xs
        → Memᴰ y xs
        → Memᴰ y (take n xs)
          ⊎ ((n ≤ length (take n xs))
              × All (λ x. IsAtMost metric x.distance y.distance) (take n xs))
    take-or-All zero xs y h m = inr (omega arith, tt)
    take-or-All (suc n) [] y h m = elim m [ ]
    take-or-All (suc n) (x ∷ xs) y h (head e) = inl (head e)
    take-or-All (suc n) (x ∷ xs) y h (tail m) = elim (take-or-All n xs y h.1 m) [
      | inl k ↦ inl (tail k)
      | inr (l, a) ↦
          inr
            (omega (arith, l), (All-at (λ z. IsAtMost metric x.distance z.distance) xs y h.0 m, a))
    ]

    pub last-farthest :
        (xs : List (PeerDistance P I)) (z : PeerDistance P I)
        → IsSorted xs
        → last xs ≡ some z
        → All (λ x. IsAtMost metric x.distance z.distance) xs × Memᴰ z xs
    last-farthest [] z h e = cc
    last-farthest (x ∷ []) z h e = (
      (
        subst (λ w. IsAtMost metric x.distance w.distance) (some-injective e)
            (order.not_itself x.distance),
        tt,
      ),
      head (sym (some-injective e)),
    )
    last-farthest (x ∷ y ∷ ys) z h e =
        let (a, m) = last-farthest (y ∷ ys) z h.1 e in
        ((All-at (λ w. IsAtMost metric x.distance w.distance) (y ∷ ys) z h.0 m, a), tail m)

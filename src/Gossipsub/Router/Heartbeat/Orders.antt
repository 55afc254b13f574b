-- ===== src/Gossipsub/Router/Heartbeat/Orders.antt =====
-- packages/gossipsub/src/gossipsub.ts, heartbeat: the lists that are made of the peers of a mesh
use Prim.Native.String.{String}
use js_libp2p.Base.{
  ℕ, zero, suc, ◌+◌, ◌-◌, ◌≡◌, refl, true, ◌&&◌, Option, none, some, List, [], ◌∷◌, if◌then◌else◌,
  ltb, take, drop, ◌==◌, ==_refl, string_eq, arith, All, All-append, if_both,
}
use js_libp2p.Gossipsub.MessageCache.{contains}
use js_libp2p.Gossipsub.Shuffle.{at, at-All}
use js_libp2p.Gossipsub.Router.{Router}
use js_libp2p.Gossipsub.Router.Joining.{take-All}
use js_libp2p.Gossipsub.Router.Heartbeat.{to_front, is_outbound_at, bubble_up}

module _ (P : String → Type 0) where
  pub drop-All : (n : ℕ) (xs : List String) → All P xs → All P (drop n xs)
  drop-All zero xs h = h
  drop-All (suc n) [] h = h
  drop-All (suc n) (x ∷ xs) h = drop-All n xs h.1

  to_front-All :
      (x : Option String) (i : ℕ) (xs : List String)
      → ((p : String) → x ≡ some p → P p)
      → All P xs
      → All P (to_front x i xs)
  to_front-All none i xs f h = h
  to_front-All (some p) i xs f h = (
    f p refl,
    All-append P (take i xs) (drop (i + 1) xs) (take-All P i xs h) (drop-All (i + 1) xs h),
  )

  pub bubble_up-All :
      (r : Router) (rounds i need : ℕ) (xs : List String)
      → All P xs
      → All P (bubble_up r rounds i need xs)
  unfolding bubble_up
  bubble_up-All r zero i need xs h = h
  bubble_up-All r (suc rounds) i need xs h =
      let hit = ltb 0 need && is_outbound_at r (at xs i) in
      bubble_up-All r rounds (i + 1) (if hit then need - 1 else need)
        (if hit then to_front (at xs i) i xs else xs)
        (if_both (All P) hit (to_front-All (at xs i) i xs (λ p e. at-All P xs i p e h) h) h)

pub All-contains :
    (xs ys : List String)
    → ((x : String) → contains xs x ≡ true → contains ys x ≡ true)
    → All (λ x. contains ys x ≡ true) xs
All-contains [] ys f = tt
All-contains (x ∷ xs) ys f = (
  f x (ground (arith, ==_refl x)),
  All-contains xs ys (λ y h. f y (if_both (λ b. b ≡ true) (x == y) refl h)),
)

-- ===== src/ConnectionManager/Pruner/Order.antt =====
-- packages/libp2p/src/connection-manager/connection-pruner.ts: which connections are closed first
use mathlib.Core.List.{Perm}
use mathlib.Core.List.Perm as Perm
use Prim.Native.String.{String}
use js_libp2p.Base.{
  ◌≡◌, not, ◌&&◌, ◌||◌, ltb, nat_beq, length, All, ℕ, Bool, true, false, List, [], ◌∷◌,
  if◌then◌else◌, filter, arith, if_both,
}
use js_libp2p.Base.Sorting.{
  sort_by, insert_by, IsSortedBy, IsOrder, by_both, sort_by-stable, sort_by-IsSortedBy,
  IsSortedBy-weaken, sort_by-All,
}
use js_libp2p.Base.Map.{Map}
use js_libp2p.ConnectionManager.Pruner.{
  Connection, newer, incoming_first, fewer_streams, lower_value, value_in, sort_connections,
}

module _ {A : Type 0} where
  -- The order of the four sorts, one after the other.
  abbrev sorts_before : Map String ℕ → Connection A → Connection A → Bool
  sorts_before values =
      by_both (lower_value values) (by_both fewer_streams (by_both incoming_first newer))

  -- Two connections, whose peers are worth `v` and `w`.
  abbrev pub by_worth : ℕ → ℕ → Connection A → Connection A → Bool
  by_worth v w a b =
      ltb v w
      || (nat_beq v w
          && (ltb (length a.streams) (length b.streams)
              || (nat_beq (length a.streams) (length b.streams)
                  && ((not a.is_outbound && b.is_outbound)
                      || (not (a.is_outbound && not b.is_outbound)
                          && ltb b.opened_at a.opened_at)))))

  -- The order in which connections are chosen: the one whose peer is worth less, then the one with fewer
  -- streams, then an incoming before an outgoing one, then the newer one.
  abbrev pub goes_before : (Connection A → ℕ) → Connection A → Connection A → Bool
  goes_before worth a b = by_worth (worth a) (worth b) a b

  sorts_before-goes_before :
      (values : Map String ℕ) (a b : Connection A)
      → sorts_before values a b ≡ false
      → goes_before (value_in values) a b ≡ false
  sorts_before-goes_before values a b h = ground (arith, h)

  newer-IsOrder : IsOrder (newer {A = A})
  newer-IsOrder = record {
    asymmetric = λ a b h. ground arith;
    transitive = λ a b c h k. ground arith;
  }

  incoming_first-IsOrder : IsOrder (incoming_first {A = A})
  incoming_first-IsOrder = record {
    asymmetric = λ a b h. ground arith;
    transitive = λ a b c h k. ground arith;
  }

  fewer_streams-IsOrder : IsOrder (fewer_streams {A = A})
  fewer_streams-IsOrder = record {
    asymmetric = λ a b h. ground arith;
    transitive = λ a b c h k. ground arith;
  }

  lower_value-IsOrder : (values : Map String ℕ) → IsOrder (lower_value {A = A} values)
  lower_value-IsOrder values = record {
    asymmetric = λ a b h. ground arith;
    transitive = λ a b c h k. ground arith;
  }

  sort_connections-sorted :
      (connections : List (Connection A)) (values : Map String ℕ)
      → IsSortedBy (sorts_before values) (sort_connections connections values)
  unfolding sort_connections
  sort_connections-sorted connections values =
      let by_age = sort_by newer connections in
      let by_direction = sort_by incoming_first by_age in
      let by_streams = sort_by fewer_streams by_direction in
      sort_by-stable (lower_value values) (by_both fewer_streams (by_both incoming_first newer))
        (lower_value-IsOrder values) by_streams
        (sort_by-stable fewer_streams (by_both incoming_first newer) fewer_streams-IsOrder
          by_direction
          (sort_by-stable incoming_first newer incoming_first-IsOrder by_age
            (sort_by-IsSortedBy newer newer-IsOrder connections)))

  pub sort_connections-IsSortedBy :
      (connections : List (Connection A)) (values : Map String ℕ)
      → IsSortedBy (goes_before (value_in values)) (sort_connections connections values)
  sort_connections-IsSortedBy connections values =
      IsSortedBy-weaken (sorts_before values) (goes_before (value_in values))
        (sorts_before-goes_before values) (sort_connections connections values)
        (sort_connections-sorted connections values)

  pub sort_connections-All :
      (P : Connection A → Type 0) (connections : List (Connection A)) (values : Map String ℕ)
      → All P connections
      → All P (sort_connections connections values)
  unfolding sort_connections
  sort_connections-All P connections values h = sort_by-All P (lower_value values) _ (
      sort_by-All P fewer_streams _
        (sort_by-All P incoming_first _ (sort_by-All P newer connections h)))

  filter-cons-Perm :
      (p : Connection A → Bool) (x : Connection A) (xs ys : List (Connection A))
      → Perm (filter p xs) (filter p ys)
      → Perm (filter p (x ∷ xs)) (filter p (x ∷ ys))
  filter-cons-Perm p x xs ys h = go (p x)
    where
      go :
          (b : Bool)
          → Perm
              (if b then x ∷ filter p xs else filter p xs)
              (if b then x ∷ filter p ys else filter p ys)
      go true = Perm.cons x h
      go false = h

  filter-insert_by-Perm :
      (p : Connection A → Bool) (before : Connection A → Connection A → Bool) (x : Connection A)
      (xs : List (Connection A))
      → Perm (filter p (insert_by before x xs)) (filter p (x ∷ xs))
  unfolding insert_by
  filter-insert_by-Perm p before x [] = Perm.refl (filter p (x ∷ []))
  filter-insert_by-Perm p before x (y ∷ ys) =
      if_both (λ zs. Perm (filter p zs) (filter p (x ∷ y ∷ ys))) (before y x)
        (Perm.trans
          (filter-cons-Perm p y (insert_by before x ys) (x ∷ ys)
            (filter-insert_by-Perm p before x ys))
          (swapped (p x) (p y)))
        (Perm.refl (filter p (x ∷ y ∷ ys)))
    where
      swapped :
          (a b : Bool)
          → Perm
              (if b
                then y ∷ (if a then x ∷ filter p ys else filter p ys)
                else (if a then x ∷ filter p ys else filter p ys))
              (if a
                then x ∷ (if b then y ∷ filter p ys else filter p ys)
                else (if b then y ∷ filter p ys else filter p ys))
      swapped true true = Perm.swap x y (filter p ys)
      swapped true false = Perm.refl (x ∷ filter p ys)
      swapped false true = Perm.refl (y ∷ filter p ys)
      swapped false false = Perm.refl (filter p ys)

  filter-sort_by-Perm :
      (p : Connection A → Bool) (before : Connection A → Connection A → Bool)
      (xs : List (Connection A))
      → Perm (filter p (sort_by before xs)) (filter p xs)
  unfolding sort_by
  filter-sort_by-Perm p before [] = Perm.refl []
  filter-sort_by-Perm p before (x ∷ xs) =
      Perm.trans (filter-insert_by-Perm p before x (sort_by before xs))
        (filter-cons-Perm p x (sort_by before xs) xs (filter-sort_by-Perm p before xs))

  pub filter-sort_connections-Perm :
      (p : Connection A → Bool) (connections : List (Connection A)) (values : Map String ℕ)
      → Perm (filter p (sort_connections connections values)) (filter p connections)
  unfolding sort_connections
  filter-sort_connections-Perm p connections values =
      Perm.trans (filter-sort_by-Perm p (lower_value values) _) (
        Perm.trans (filter-sort_by-Perm p fewer_streams _) (
          Perm.trans (filter-sort_by-Perm p incoming_first _)
            (filter-sort_by-Perm p newer connections)))

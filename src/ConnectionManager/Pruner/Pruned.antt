-- ===== src/ConnectionManager/Pruner/Pruned.antt =====
-- packages/libp2p/src/connection-manager/connection-pruner.ts: what is chosen and closed when
-- there are too many connections
use mathlib.Core.List.{Perm}
use mathlib.Core.List.Perm as Perm
use Prim.Native.String.{String}
use js_libp2p.Base.{
  ℕ, zero, suc, ◌+◌, ◌-◌, ◌≡◌, refl, ap, sym, subst, ◌∙◌, Bool, true, false, not, List, [], ◌∷◌,
  ◌++◌, if◌then◌else◌, leb, length, take, drop, filter, arith, All-drop, All-take, All-filter,
  take-append_drop, All, string_eq,
}
use js_libp2p.Base.Sorting.{filter-IsSortedBy, split-IsSortedBy}
use js_libp2p.Base.Map
use js_libp2p.Base.Map.{Map}
use js_libp2p.ConnectionManager.Pruner.{
  Connection, Components, sort_connections, collect, maybe_prune_connections, close_unused,
  value_in, peer_values, is_allowed,
}
use js_libp2p.ConnectionManager.Pruner.Values.{HasTrueValue, peer_values-All}
use js_libp2p.ConnectionManager.Pruner.Expected.{
  worth, is_exempt, is_unused, IsChosen, HasTrueValue-worth, prunable-exempt, close_unused-filter,
}
use js_libp2p.ConnectionManager.Pruner.Choice.{prunable, collect-take}
use js_libp2p.ConnectionManager.Pruner.Order.{
  by_worth, goes_before, sort_connections-IsSortedBy, sort_connections-All,
  filter-sort_connections-Perm,
}

length-take-min :
    {A : Type 0} (n : ℕ) (xs : List A)
    → length (take n xs) ≡ (if leb n (length xs) then n else length xs)
length-take-min zero xs = ground arith
length-take-min (suc n) [] = ground arith
length-take-min (suc n) (x ∷ xs) = ground (arith, length-take-min n xs)

-- An order that agrees with another one on what has a property.
All-pairs-agree :
    {A : Type 0} (T : A → Type 0) (f g : A → A → Bool)
    → ((k c : A) → T k → T c → f k c ≡ g k c)
    → (closed kept : List A) → All T closed
    → All T kept
    → All (λ c. All (λ k. f k c ≡ false) kept) closed
    → All (λ c. All (λ k. g k c ≡ false) kept) closed
All-pairs-agree {A = A} T f g agree [] kept t u h = tt
All-pairs-agree {A = A} T f g agree (c ∷ closed) kept t u h =
    (one kept u h.0, All-pairs-agree T f g agree closed kept t.1 u h.1)
  where
    one :
        (kept : List A) → All T kept → All (λ k. f k c ≡ false) kept → All (λ k. g k c ≡ false) kept
    one [] u h = tt
    one (k ∷ ks) u h = (sym (agree k c u.0 t.0) ∙ h.0, one ks u.1 h.1)

module _ {A N : Type 0} (env : Components A N) where
  abbrev candidates : List N → List (Connection A) → List (Connection A)
  candidates allow connections = filter (λ c. not (is_exempt env allow c)) connections

  IsChosen-collect :
      (allow : List N) (n : ℕ) (connections : List (Connection A)) (values : Map String ℕ)
      → All (HasTrueValue env values) connections
      → IsChosen
          (goes_before (worth env))
          (suc n)
          (candidates allow connections)
          (collect (is_allowed env allow) (suc n) (sort_connections connections values) [])
  IsChosen-collect allow n connections values t =
      let allowed = is_allowed env allow in
      let sorted = sort_connections connections values in
      let chosen = prunable allowed sorted in
      let from_none : suc n ≡ length {A = Connection A} [] + suc n = omega arith in
      let whole : take (suc n) chosen ++ drop (suc n) chosen ≡ chosen =
        take-append_drop (suc n) chosen in
      let true' : All (HasTrueValue env values) chosen =
        All-filter (HasTrueValue env values) (λ c. not (allowed c)) sorted
          (sort_connections-All (HasTrueValue env values) connections values t) in
      subst (IsChosen (goes_before (worth env)) (suc n) (candidates allow connections))
        (sym (ap (λ m. collect allowed m sorted []) from_none ∙ collect-take allowed n sorted []))
        (record {
          kept = drop (suc n) chosen;
          are_candidates =
              subst (λ cs. Perm cs (candidates allow connections)) (sym whole)
                (subst (Perm chosen) (prunable-exempt env allow connections)
                  (filter-sort_connections-Perm (λ c. not (allowed c)) connections values));
          are_enough =
              length-take-min (suc n) chosen
              ∙ ap (λ cs. if leb (suc n) (length cs) then suc n else length cs) (sym whole);
          are_least =
              All-pairs-agree (HasTrueValue env values) (goes_before (value_in values))
                (goes_before (worth env)) (agree values) (take (suc n) chosen) (drop (suc n) chosen)
                (All-take (HasTrueValue env values) (suc n) chosen true')
                (All-drop (HasTrueValue env values) (suc n) chosen true')
                (split-IsSortedBy (goes_before (value_in values)) (suc n) chosen (
                  filter-IsSortedBy (goes_before (value_in values)) (λ c. not (allowed c)) sorted
                    (sort_connections-IsSortedBy connections values)));
        })
    where
      in_order :
          (x x' y y' : ℕ)
          → x ≡ x'
          → y ≡ y'
          → (k c : Connection A) → by_worth x y k c ≡ by_worth x' y' k c
      in_order x x' y y' e f k c = ap (λ z. by_worth z y k c) e ∙ ap (λ z. by_worth x' z k c) f

      agree :
          (values : Map String ℕ) (k c : Connection A)
          → HasTrueValue env values k
          → HasTrueValue env values c
          → goes_before (value_in values) k c ≡ goes_before (worth env) k c
      agree values k c u v =
          let worth_k : value_in values k ≡ worth env k = u ∙ HasTrueValue-worth env k in
          let worth_c : value_in values c ≡ worth env c = v ∙ HasTrueValue-worth env c in
          in_order (value_in values k) (worth env k) (value_in values c) (worth env c) worth_k
            worth_c k c

  -- What is chosen, with `b` whether there are few enough connections, is as it is to be.
  abbrev IsChosenIf : List N → List (Connection A) → Map String ℕ → ℕ → Bool → Type 0
  IsChosenIf allow connections values n b =
      IsChosen (goes_before (worth env)) n (candidates allow connections) (
        if b then [] else collect (is_allowed env allow) n (sort_connections connections values) [])

  decided-IsChosen :
      (allow : List N) (max_connections : ℕ) (connections : List (Connection A))
      (values : Map String ℕ) (n : ℕ) (b : Bool)
      → All (HasTrueValue env values) connections
      → length connections - max_connections ≡ n
      → leb (length connections) max_connections ≡ b
      → IsChosenIf allow connections values n b
  decided-IsChosen allow max_connections connections values n true t e f = record {
    kept = candidates allow connections;
    are_candidates = Perm.refl (candidates allow connections);
    are_enough = ground (arith, e, f);
    are_least = tt;
  }
  decided-IsChosen allow max_connections connections values zero false t e f =
      absurd (more (length connections) e f)
    where
      more : (size : ℕ) → size - max_connections ≡ 0 → leb size max_connections ≡ false → ⊥
      more size e f = ground (arith, e, f)
  decided-IsChosen allow max_connections connections values (suc n) false t e f =
      IsChosen-collect allow n connections values t

  -- Where there are more connections than the maximum, as many of them are chosen as there are too
  -- many, or all that the allow list does not exempt, and none that it does; and none of the
  -- others that are not exempt goes before a chosen one, by the sum of the tag values of its peer,
  -- then by streams, direction and age. Where there are not, none is chosen. Of the chosen ones
  -- exactly those are closed whose streams have closable protocols only, or none yet.
  pub maybe_prune_connections-IsChosen :
      (allow : List N) (max_connections : ℕ) (connections : List (Connection A))
      → IsChosen
          (goes_before (worth env))
          (length connections - max_connections)
          (filter (λ c. not (is_exempt env allow c)) connections)
          (maybe_prune_connections env allow max_connections connections).0
        × ((maybe_prune_connections env allow max_connections connections).1
            ≡ filter is_unused (maybe_prune_connections env allow max_connections connections).0)
  unfolding maybe_prune_connections Map.get
  maybe_prune_connections-IsChosen allow max_connections connections = (
    both (leb (length connections) max_connections) (
        decided-IsChosen allow max_connections connections values
          (length connections - max_connections) (leb (length connections) max_connections)
          (peer_values-All env connections [] (λ p v g. cc g)) refl refl),
    closed (leb (length connections) max_connections),
  )
    where
      values : Map String ℕ
      values = peer_values env connections []

      chosen : List (Connection A)
      chosen =
          collect (is_allowed env allow) (length connections - max_connections)
            (sort_connections connections values) []

      outcome : Bool → List (Connection A) × List (Connection A)
      outcome b = if b then ([], []) else (chosen, close_unused chosen)

      both :
          (b : Bool)
          → IsChosenIf allow connections values (length connections - max_connections) b
          → IsChosen
              (goes_before (worth env))
              (length connections - max_connections)
              (filter (λ c. not (is_exempt env allow c)) connections)
              (outcome b).0
      both true h = h
      both false h = h

      closed : (b : Bool) → (outcome b).1 ≡ filter is_unused (outcome b).0
      closed true = refl
      closed false = close_unused-filter chosen

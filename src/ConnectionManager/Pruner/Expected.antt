-- ===== src/ConnectionManager/Pruner/Expected.antt =====
-- connection-pruner.ts and utils.ts of the connection manager: what is expected of the pruner, said
-- without its functions
use mathlib.Core.List.{Perm}
use Prim.Native.String.{String}
use js_libp2p.Base.{
  ℕ, ◌+◌, ◌≡◌, refl, ap, ◌∙◌, Bool, true, false, not, ◌&&◌, ◌||◌, Option, none, some, List, [], ◌∷◌,
  ◌++◌, if◌then◌else◌, leb, ltb, length, filter, arith, All, ◌==◌, string_eq,
}
use js_libp2p.ConnectionManager.Pruner.{
  Connection, Components, value_of_tags, sum, is_allowed, close_unused, keeps_open, includes,
  closable_protocols,
}
use js_libp2p.ConnectionManager.Pruner.Choice.{prunable}

abbrev pub total : List ℕ → ℕ
total [] = 0
total (n ∷ ns) = n + total ns

abbrev pub any_of : {N : Type 0} → (N → Bool) → List N → Bool
any_of p [] = false
any_of p (n ∷ ns) = p n || any_of p ns

abbrev pub is_empty : {N : Type 0} → List N → Bool
is_empty [] = true
is_empty (n ∷ ns) = false

abbrev pub all_of : (String → Bool) → List (Option String) → Bool
all_of p [] = true
all_of p (none ∷ os) = all_of p os
all_of p (some x ∷ os) = p x && all_of p os

-- One of identify, identify push, autonat and dcutr.
abbrev pub is_closable : String → Bool
is_closable x =
    ("/ipfs/id/1.0.0" == x)
    || (("/ipfs/id/push/1.0.0" == x) || (("/libp2p/autonat/1.0.0" == x) || ("/libp2p/dcutr" == x)))

-- All streams of the connection with a protocol have one of these.
abbrev pub is_unused : {A : Type 0} → Connection A → Bool
is_unused c = all_of is_closable c.streams

-- The candidates are the chosen ones and those that are kept; as many are chosen as there are too many, or
-- all; and no kept one goes before a chosen one.
pub record IsChosen {A : Type 0} (before : Connection A → Connection A → Bool) (excess : ℕ)
    (candidates chosen : List (Connection A)) : Type 0 where
  pub kept : List (Connection A)
  pub are_candidates : Perm (chosen ++ kept) candidates
  pub are_enough :
      length chosen
      ≡ (if leb excess (length (chosen ++ kept)) then excess else length (chosen ++ kept))
  pub are_least : All (λ c. All (λ k. before k c ≡ false) kept) chosen

module _ {A N : Type 0} (env : Components A N) where
  -- The sum of the values of the tags of the connection's peer, 0 where the store has none.
  abbrev pub worth : Connection A → ℕ
  worth c = elim (env.tags_of c.remote_peer) [ none ↦ 0 | some tags ↦ total tags ]

  -- The address is in a net of the allow list, or is no network address while the list is not empty.
  abbrev pub is_exempt : List N → Connection A → Bool
  is_exempt allow c =
      if env.is_network_address c.remote_addr
      then any_of (λ net. env.net_contains net c.remote_addr) allow
      else not (is_empty allow)

  sum-total : (ns : List ℕ) → sum ns ≡ total ns
  sum-total [] = refl
  sum-total (n ∷ ns) = ap (λ m. n + m) (sum-total ns)

  pub HasTrueValue-worth :
      (c : Connection A) → value_of_tags env (env.tags_of c.remote_peer) ≡ worth c
  HasTrueValue-worth c = of_tags (env.tags_of c.remote_peer)
    where
      of_tags :
          (o : Option (List ℕ))
          → value_of_tags env o ≡ (elim o as (λ o. ℕ) [ none ↦ 0 | some tags ↦ total tags ])
      of_tags none = refl
      of_tags (some tags) = sum-total tags

  is_allowed-exempt :
      (allow : List N) (c : Connection A) → is_allowed env allow c ≡ is_exempt allow c
  unfolding is_allowed
  is_allowed-exempt allow c = by_address allow (env.is_network_address c.remote_addr) refl
    where
      by_address :
          (allow : List N) (b : Bool)
          → env.is_network_address c.remote_addr ≡ b
          → is_allowed env allow c ≡ (
              if b
              then any_of (λ net. env.net_contains net c.remote_addr) allow
              else not (is_empty allow))
      by_address [] true e = refl
      by_address [] false e = refl
      by_address (net ∷ nets) true e =
          ap
            (λ b. (if b then env.net_contains net c.remote_addr else true) || is_allowed env nets c)
            e
          ∙ ap (λ b. env.net_contains net c.remote_addr || b) (by_address nets true e)
      by_address (net ∷ nets) false e =
          ap
            (λ b. (if b then env.net_contains net c.remote_addr else true) || is_allowed env nets c)
            e

  pub prunable-exempt :
      (allow : List N) (cs : List (Connection A))
      → prunable (is_allowed env allow) cs ≡ filter (λ c. not (is_exempt allow c)) cs
  prunable-exempt allow [] = refl
  prunable-exempt allow (c ∷ cs) =
      ap
        (λ b.
          if not b
          then c ∷ prunable (is_allowed env allow) cs
          else prunable (is_allowed env allow) cs)
        (is_allowed-exempt allow c)
      ∙ ap (λ rest. if not (is_exempt allow c) then c ∷ rest else rest) (prunable-exempt allow cs)

includes-closable : (x : String) → includes closable_protocols x ≡ is_closable x
includes-closable x =
    chosen ("/ipfs/id/1.0.0" == x) ("/ipfs/id/push/1.0.0" == x) ("/libp2p/autonat/1.0.0" == x)
      ("/libp2p/dcutr" == x)
  where
    chosen :
        (a b c d : Bool)
        → (if a then true else if b then true else if c then true else if d then true else false)
          ≡ (a || (b || (c || d)))
    chosen true b c d = refl
    chosen false true c d = refl
    chosen false false true d = refl
    chosen false false false true = refl
    chosen false false false false = refl

none_open :
    (os : List (Option String))
    → not (ltb 0 (length (filter keeps_open os))) ≡ all_of is_closable os
none_open [] = ground arith
none_open (none ∷ os) = none_open os
none_open (some x ∷ os) =
    one (includes closable_protocols x) (filter keeps_open os)
    ∙ ap (λ b. b && not (ltb 0 (length (filter keeps_open os)))) (includes-closable x)
    ∙ ap (λ b. is_closable x && b) (none_open os)
  where
    one :
        (b : Bool) (rest : List (Option String))
        → not (ltb 0 (length (if not b then some x ∷ rest else rest)))
          ≡ (b && not (ltb 0 (length rest)))
    one true rest = refl
    one false rest = ground arith

pub close_unused-filter :
    {A : Type 0} (cs : List (Connection A)) → close_unused cs ≡ filter is_unused cs
unfolding close_unused
close_unused-filter [] = refl
close_unused-filter (c ∷ cs) = ground (arith, none_open c.streams, close_unused-filter cs)

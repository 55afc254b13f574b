-- ===== src/Gossipsub/TimeCache.antt =====
-- packages/gossipsub/src/utils/time-cache.ts
-- `now` is Date.now() at the call, in milliseconds. `validityMs` may be negative.
pub mod Order
use js_libp2p.Base.{
  ℕ, Bool, true, false, Option, none, some, List, [], ◌∷◌, if◌then◌else◌, length, Eq, ℤ, pos, ◌+ℤ◌,
  ltb_ℤ,
}
use js_libp2p.Base.Map
use js_libp2p.Base.Map.{Map}

pub record CacheValue (T : Type 0) : Type 0 where
  pub value : T
  pub valid_until_ms : ℤ

pub record SimpleTimeCache (K T : Type 0) : Type 0 where
  pub entries : Map K (CacheValue T)
  pub validity_ms : ℤ

module _ {K T : Type 0} ⦃e : Eq K⦄ where
  abbrev pub init : ℤ → SimpleTimeCache K T
  init validity = record { entries = []; validity_ms = validity }

  abbrev pub size : SimpleTimeCache K T → ℕ
  size c = length c.entries

  -- `true` where the key was there and the entry is dropped.
  unfoldable pub put : ℕ → SimpleTimeCache K T → K → T → SimpleTimeCache K T × Bool
  put now c key value = if Map.has c.entries key then (c, true) else (
    record c {
      entries =
          Map.set c.entries key
            (record { value = value; valid_until_ms = pos now +ℤ c.validity_ms });
    },
    false,
  )

  -- The loop deletes the key that it stands at, and stops at the first entry that is valid.
  unfoldable pub prune_entries : ℕ → Map K (CacheValue T) → Map K (CacheValue T)
  prune_entries now [] = []
  prune_entries now ((k, v) ∷ m) =
      let rest = prune_entries now m in
      if ltb_ℤ v.valid_until_ms (pos now) then rest else (k, v) ∷ m

  abbrev pub prune : ℕ → SimpleTimeCache K T → SimpleTimeCache K T
  prune now c = record c { entries = prune_entries now c.entries }

  unfoldable pub has : SimpleTimeCache K T → K → Bool
  has c key = Map.has c.entries key

  unfoldable pub get : ℕ → SimpleTimeCache K T → K → Option T
  get now c key = elim (Map.get c.entries key) [
    | none ↦ none
    | some v ↦ if ltb_ℤ v.valid_until_ms (pos now) then none else some v.value
  ]

  abbrev pub clear : SimpleTimeCache K T → SimpleTimeCache K T
  clear c = record c { entries = [] }

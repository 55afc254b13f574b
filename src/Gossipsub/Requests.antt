-- ===== src/Gossipsub/Requests.antt =====
-- packages/gossipsub/src/gossipsub.ts: handleIHave, with its protection against floods
-- The score, the mesh, the cache of seen messages and msgIdToStrFn are arguments, as they are at the time
-- of the call, and so are the random draws of the shuffle.
pub mod Offered
pub mod Asked
use Prim.Native.String.{String}
use js_libp2p.Base.{
  ℕ, suc, ◌+◌, ◌-◌, Bool, true, false, not, ◌&&◌, ◌||◌, Option, none, some, List, [], ◌∷◌,
  if◌then◌else◌, ltb, leb, nat_beq, length, take, string_eq,
}
use js_libp2p.Base.Map
use js_libp2p.Base.Map.{Map}
use js_libp2p.Gossipsub.Shuffle.{shuffle}

-- GossipsubMaxIHaveLength and GossipsubMaxIHaveMessages
abbrev pub max_ihave_length : ℕ
max_ihave_length = 5000

abbrev pub max_ihave_messages : ℕ
max_ihave_messages = 10

pub record ControlIHave : Type 0 where
  pub topic_id : Option String
  pub message_ids : Option (List (List ℕ))

-- One call: of whom, and what it finds.
pub record Call : Type 0 where
  pub id : String
  pub ihave : List ControlIHave
  pub is_low : Bool
  pub in_mesh : String → Bool
  pub has_seen : String → Bool
  pub pick : ℕ → ℕ

pub record Counters : Type 0 where
  pub peerhave : Map String ℕ
  pub iasked : Map String ℕ

-- The variables of the loop, and whether it was left.
pub record Examined : Type 0 where
  pub processed : ℕ
  pub iwant : Map String (List ℕ)
  pub is_over : Bool

abbrev pub count_of : Option ℕ → ℕ
count_of none = 0
count_of (some n) = n

abbrev pub count_in : Map String ℕ → String → ℕ
count_in m id = count_of (Map.get m id)

abbrev pub values : Map String (List ℕ) → List (List ℕ)
values [] = []
values ((k, v) ∷ m) = v ∷ values m

-- How many are asked for.
abbrev pub iask : ℕ → ℕ → ℕ
iask wanted asked =
    if ltb max_ihave_length (wanted + asked) then max_ihave_length - asked else wanted

module _ (id_str : List ℕ → String) (c : Call) where
  abbrev pub examine_id : List ℕ → Examined → Examined
  examine_id m e = record e {
    processed = suc e.processed;
    iwant = if c.has_seen (id_str m) then e.iwant else Map.set e.iwant (id_str m) m;
  }

  -- The ids of one topic.
  unfoldable pub examine_ids : List (List ℕ) → Examined → Examined
  examine_ids [] e = e
  examine_ids (m ∷ ms) e =
      let rest = examine_ids ms (examine_id m e) in
      if leb max_ihave_length e.processed then record e { is_over = true } else rest

  abbrev pub examine_topic : Option String → Option (List (List ℕ)) → Examined → Examined
  examine_topic none ids e = e
  examine_topic (some topic) none e = e
  examine_topic (some topic) (some ids) e = if not (c.in_mesh topic) then e else examine_ids ids e

  unfoldable pub examine : List ControlIHave → Examined → Examined
  examine [] e = e
  examine (h ∷ hs) e =
      let next = examine_topic h.topic_id h.message_ids e in
      let rest = examine hs next in if next.is_over then next else rest

  abbrev pub ask : ℕ → Map String (List ℕ) → Counters → List (List (List ℕ)) × Counters
  ask asked iwant g = if nat_beq (length iwant) 0 then ([], g) else (
    take (iask (length iwant) asked) (shuffle c.pick (values iwant)) ∷ [],
    record g { iasked = Map.set g.iasked c.id (asked + iask (length iwant) asked) },
  )

  abbrev pub ask_within : ℕ → Counters → List (List (List ℕ)) × Counters
  ask_within have g =
      if ltb max_ihave_messages have
      then ([], g)
      else if leb max_ihave_length (count_in g.iasked c.id)
      then ([], g)
      else ask (count_in g.iasked c.id)
          (examine c.ihave (record { processed = 0; iwant = []; is_over = false })).iwant g

  -- The lists of ids that are asked for by an IWANT, one or none.
  unfoldable pub handle_ihave : Counters → List (List (List ℕ)) × Counters
  handle_ihave g =
      if nat_beq (length c.ihave) 0
      then ([], g)
      else if c.is_low
      then ([], g)
      else let have = count_in g.peerhave c.id + 1 in
        ask_within have (record g { peerhave = Map.set g.peerhave c.id have })

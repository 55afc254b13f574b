-- ===== src/Gossipsub/Responses.antt =====
-- packages/gossipsub/src/gossipsub.ts: handleIWant over the message cache
-- The score and msgIdToStrFn are arguments. The counts by topic, a metric, are left out.
pub mod Resent
use Prim.Native.String.{String}
use js_libp2p.Base.{
  ℕ, suc, ◌+◌, Bool, true, false, Option, none, some, List, [], ◌∷◌, if◌then◌else◌, ltb, leb,
  nat_beq, length, ◌==◌, string_eq,
}
use js_libp2p.Base.Map
use js_libp2p.Base.Map.{Map}
use js_libp2p.Gossipsub.MessageCache.{MessageCache, get_with_iwant_count, or_zero}
use js_libp2p.Gossipsub.Requests.{max_ihave_length}

-- GossipsubGossipRetransmission and GossipsubMaxIWantMessages
abbrev pub gossip_retransmission : ℕ
gossip_retransmission = 3

abbrev pub max_iwant_messages : ℕ
max_iwant_messages = 10

-- The ids of each ControlIWant of a call, and whether the peer's score is below the threshold.
pub record Wish : Type 0 where
  pub id : String
  pub iwant : List (Option (List (List ℕ)))
  pub is_low : Bool

pub record Sender (M : Type 0) : Type 0 where
  pub cache : MessageCache M
  pub iwant_counts : Map String ℕ

-- The variables of the loop, the cache that it counts in, and whether it was left.
pub record Found (M : Type 0) : Type 0 where
  pub processed : ℕ
  pub ihave : Map String M
  pub cache : MessageCache M
  pub is_over : Bool

-- The entry of the cache, with the count.
abbrev pub keep : {M : Type 0} → String → Map String M → Option (M × ℕ) → Map String M
keep key ihave none = ihave
keep key ihave (some (message, count)) =
    if ltb gossip_retransmission count then ihave else Map.set ihave key message

module _ {M : Type 0} (id_str : List ℕ → String) where
  abbrev pub find_id : String → List ℕ → Found M → Found M
  find_id peer m f =
      let (cache, entry) = get_with_iwant_count f.cache (id_str m) peer in
      record f { processed = suc f.processed; cache = cache; ihave = keep (id_str m) f.ihave entry }

  unfoldable pub find_ids : String → List (List ℕ) → Found M → Found M
  find_ids peer [] f = f
  find_ids peer (m ∷ ms) f =
      let rest = find_ids peer ms (find_id peer m f) in
      if leb max_ihave_length f.processed then record f { is_over = true } else rest

  abbrev pub find_some : String → Option (List (List ℕ)) → Found M → Found M
  find_some peer none f = f
  find_some peer (some ids) f = find_ids peer ids f

  unfoldable pub find : String → List (Option (List (List ℕ))) → Found M → Found M
  find peer [] f = f
  find peer (w ∷ ws) f =
      let next = find_some peer w f in
      let rest = find peer ws next in if next.is_over then next else rest

  -- The messages that are sent, under their ids.
  unfoldable pub handle_iwant : Wish → Sender M → Map String M × Sender M
  handle_iwant w s =
      let count = or_zero (Map.get s.iwant_counts w.id) + 1 in
      let found =
        find w.id w.iwant
          (record { processed = 0; ihave = []; cache = s.cache; is_over = false }) in
      if nat_beq (length w.iwant) 0
      then ([], s)
      else if w.is_low
      then ([], s)
      else if ltb max_iwant_messages count
      then ([], record s { iwant_counts = Map.set s.iwant_counts w.id count })
      else (
        found.ihave,
        record { cache = found.cache; iwant_counts = Map.set s.iwant_counts w.id count },
      )

  -- Calls one after the other.
  unfoldable pub run : Sender M → List Wish → List (String × Map String M)
  run s [] = []
  run s (w ∷ ws) = let (sent, s') = handle_iwant w s in (w.id, sent) ∷ run s' ws

-- How often the message went to the peer.
abbrev pub times_sent : {M : Type 0} → String → String → List (String × Map String M) → ℕ
times_sent peer key [] = 0
times_sent peer key ((id, sent) ∷ rest) =
    let n = times_sent peer key rest in
    if id == peer then (if Map.has sent key then suc n else n) else n

-- ===== src/Gossipsub/Router/Heartbeat.antt =====
-- packages/gossipsub/src/gossipsub.ts, heartbeat: the upkeep of the mesh of one topic
-- The scores are read through comparisons only, which are an argument, as are the draws of the two
-- shuffles.
pub mod Orders
pub mod Changes
pub mod Phases
pub mod NoNegative
use Prim.Native.String.{String}
use js_libp2p.Base.{
  ℕ, zero, suc, ◌+◌, ◌-◌, ◌/◌, ◌%◌, Bool, true, false, not, ◌&&◌, Option, none, some, List, [], ◌∷◌,
  ◌++◌, if◌then◌else◌, ltb, leb, nat_beq, length, filter, take, drop, string_eq,
}
use js_libp2p.Base.Sorting.{sort_by}
use js_libp2p.Base.Map
use js_libp2p.Base.Map.{Map}
use js_libp2p.Gossipsub.MessageCache.{contains}
use js_libp2p.Gossipsub.Shuffle.{shuffle, at}
use js_libp2p.Gossipsub.Router.{
  Options, Router, or_empty, remove, has_backoff, is_outbound, speaks_ours, add_backoff,
  add_to_mesh,
}

-- `negative`: below zero; `low`: below the opportunisticGraftThreshold; `better a b`: a's is above b's.
pub record Scores : Type 0 where
  pub negative : String → Bool
  pub low : String → Bool
  pub better : String → String → Bool

pub record Upkeep : Type 0 where
  pub router : Router
  pub candidates : List String
  pub to_graft : List String
  pub to_prune : List String
  pub no_px : List String

-- `removeItemsFromSet` of utils/set.ts: what it returns, and what it leaves of the set.
abbrev pub items : ℕ → (String → Bool) → List String → List String
items ineed cond set = take ineed (filter cond set)

abbrev pub left : List String → List String → List String
left set taken = filter (λ x. not (contains taken x)) set

abbrev pub outbound_among : Router → List String → ℕ
outbound_among r peers = length (filter (is_outbound r) peers)

-- `rotate`: the peer comes to the front.
abbrev pub to_front : Option String → ℕ → List String → List String
to_front none i xs = xs
to_front (some p) i xs = p ∷ (take i xs ++ drop (i + 1) xs)

abbrev pub is_outbound_at : Router → Option String → Bool
is_outbound_at r none = false
is_outbound_at r (some p) = is_outbound r p

-- The loops that bubble up outbound peers, from the index i on.
unfoldable pub bubble_up : Router → ℕ → ℕ → ℕ → List String → List String
bubble_up r zero i need xs = xs
bubble_up r (suc rounds) i need xs =
    let hit = ltb 0 need && is_outbound_at r (at xs i) in
    bubble_up r rounds (i + 1) (if hit then need - 1 else need)
      (if hit then to_front (at xs i) i xs else xs)

abbrev pub mesh_peers : String → Router → List String
mesh_peers topic r = or_empty (Map.get r.mesh topic)

abbrev pub out_of_mesh : String → Router → String → Router
out_of_mesh topic r id = record r { mesh = Map.set r.mesh topic (remove (mesh_peers topic r) id) }

module _ (o : Options) (now : ℕ) (topic : String) where
  unfoldable pub prune_peer : Upkeep → String → Upkeep
  prune_peer u id = record u {
    router = out_of_mesh topic (add_backoff o now u.router id topic) id;
    to_prune = u.to_prune ++ (id ∷ []);
  }

  unfoldable pub prune_peers : Upkeep → List String → Upkeep
  prune_peers u [] = u
  prune_peers u (id ∷ ids) = prune_peers (prune_peer u id) ids

module _ (topic : String) where
  unfoldable pub graft_peer : Upkeep → String → Upkeep
  graft_peer u id = record u {
    router = add_to_mesh u.router id topic;
    to_graft = u.to_graft ++ (id ∷ []);
  }

  unfoldable pub graft_peers : Upkeep → List String → Upkeep
  graft_peers u [] = u
  graft_peers u (id ∷ ids) = graft_peers (graft_peer u id) ids

  -- Some of the candidates come into the mesh.
  unfoldable pub graft_items : ℕ → (String → Bool) → Upkeep → Upkeep
  graft_items ineed cond u =
      let new = items ineed cond u.candidates in
      graft_peers (record u { candidates = left u.candidates new }) new

module _ (o : Options) (now : ℕ) (scores : Scores) (pick pick_rest : ℕ → ℕ) (topic : String) where
  -- The filter of candidateMeshPeers.
  abbrev pub is_candidate : Router → String → Bool
  is_candidate r id =
      (speaks_ours o r id && not (contains (mesh_peers topic r) id) && not (contains r.direct id))
      && (not (has_backoff r topic id) && not (scores.negative id))

  unfoldable pub start_upkeep : Router → Upkeep
  start_upkeep r = record {
    router = r;
    candidates = filter (is_candidate r) (shuffle pick (or_empty (Map.get r.topics topic)));
    to_graft = [];
    to_prune = [];
    no_px = [];
  }

  unfoldable pub drop_negative : Upkeep → Upkeep
  drop_negative u =
      let bad = filter scores.negative (mesh_peers topic u.router) in
      prune_peers o now topic (record u { no_px = u.no_px ++ bad }) bad

  unfoldable pub fill_up : Upkeep → Upkeep
  fill_up u =
      let size = length (mesh_peers topic u.router) in
      if ltb size o.d_lo then graft_items topic (o.d - size) (λ id. true) u else u

  -- The best by score, and the others in random order.
  abbrev pub by_score : List String → List String
  by_score peers =
      let sorted = sort_by scores.better peers in
      take o.d_score sorted ++ shuffle pick_rest (drop o.d_score sorted)

  -- The outbound peers of the selection to the front, then others of outside it.
  abbrev pub with_outbound : Router → List String → List String
  with_outbound r xs =
      let outbound = outbound_among r (take o.d xs) in
      let inside = if ltb 0 outbound then bubble_up r (o.d - 1) 1 outbound xs else xs in
      if ltb outbound o.d_out then bubble_up r (length xs - o.d) o.d (o.d - outbound) inside else xs

  unfoldable pub drop_excess : Upkeep → Upkeep
  drop_excess u =
      let peers = mesh_peers topic u.router in
      if ltb o.d_hi (length peers)
      then prune_peers o now topic u (drop o.d (with_outbound u.router (by_score peers)))
      else u

  unfoldable pub fill_outbound : Upkeep → Upkeep
  fill_outbound u =
      let peers = mesh_peers topic u.router in
      let outbound = outbound_among u.router peers in
      if leb o.d_lo (length peers) && ltb outbound o.d_out
      then graft_items topic (o.d_out - outbound) (is_outbound u.router) u
      else u

  -- The peer with the median score.
  abbrev pub median : List String → Option String
  median peers = at (sort_by (λ a b. scores.better b a) peers) (length peers / 2)

  abbrev pub improve : Upkeep → Option String → Upkeep
  improve u none = u
  improve u (some m) =
      if scores.low m
      then graft_items topic o.opportunistic_graft_peers (λ id. scores.better id m) u
      else u

  unfoldable pub opportunistic : Upkeep → Upkeep
  opportunistic u =
      let peers = mesh_peers topic u.router in
      if nat_beq (u.router.heartbeat_ticks % o.opportunistic_graft_ticks) 0 && ltb 1 (length peers)
      then improve u (median peers)
      else u

  -- The body of `mesh.forEach`.
  unfoldable pub upkeep : Router → Upkeep
  upkeep r = opportunistic (fill_outbound (drop_excess (fill_up (drop_negative (start_upkeep r)))))

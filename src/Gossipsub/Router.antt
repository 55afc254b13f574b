-- ===== src/Gossipsub/Router.antt =====
-- packages/gossipsub/src/gossipsub.ts: the mesh of each topic and the backoffs of pruned peers
-- `negative` says of a peer whether its score is below zero when the call reads it. Messages to other
-- peers, metrics, events and the connections of peer exchange are left out. Times are in milliseconds.
pub mod Subscriptions
pub mod Lookups
pub mod Heartbeat
pub mod Steps
pub mod Grafting
pub mod Decisions
pub mod Leaving
pub mod Joining
pub mod Backoffs
use Prim.Native.String.{String}
use js_libp2p.Base.{
  ℕ, ◌+◌, ◌*◌, ◌%◌, Bool, true, false, not, ◌&&◌, ◌||◌, Option, none, some, List, [], ◌∷◌, ◌++◌,
  if◌then◌else◌, ltb, leb, nat_beq, length, filter, ◌==◌, string_eq,
}
use js_libp2p.Base.Map
use js_libp2p.Base.Map.{Map}
use js_libp2p.Gossipsub.MessageCache.{contains, add}

-- GossipsubOpts, as far as the mesh reads it.
pub record Options : Type 0 where
  pub d : ℕ
  pub d_lo : ℕ
  pub d_hi : ℕ
  pub d_score : ℕ
  pub d_out : ℕ
  pub opportunistic_graft_ticks : ℕ
  pub opportunistic_graft_peers : ℕ
  pub do_px : Bool
  pub prune_backoff : ℕ
  pub unsubscribe_backoff : ℕ
  pub graft_flood_threshold : ℕ
  pub heartbeat_interval : ℕ
  pub protocols : List String

-- `streams_outbound` has the protocol of each peer's stream.
pub record Router : Type 0 where
  pub mesh : Map String (List String)
  pub backoff : Map String (Map String ℕ)
  pub fanout : Map String (List String)
  pub fanout_lastpub : Map String ℕ
  pub topics : Map String (List String)
  pub direct : List String
  pub outbound : Map String Bool
  pub streams_outbound : Map String String
  pub heartbeat_ticks : ℕ
  pub started : Bool

abbrev pub or_zero : Option ℕ → ℕ
or_zero none = 0
or_zero (some n) = n

abbrev pub or_empty {ℓ} : {A : Type ℓ} → Option (List A) → List A
or_empty none = []
or_empty (some xs) = xs

-- What an error leaves.
abbrev pub or_same : Router → Option Router → Router
or_same r none = r
or_same r (some r') = r'

abbrev pub gossipsub_id_v10 : String
gossipsub_id_v10 = "/meshsub/1.0.0"

abbrev pub prune_backoff_ticks : ℕ
prune_backoff_ticks = 15

abbrev pub backoff_slack : ℕ
backoff_slack = 1

-- `set.delete(x)`
abbrev pub remove : List String → String → List String
remove xs x = filter (λ y. not (y == x)) xs

-- `this.backoff.get(topic)?.get(id)`
abbrev pub backoff_expiry : Router → String → String → Option ℕ
backoff_expiry r topic id = Map.get (or_empty (Map.get r.backoff topic)) id

-- `this.backoff.get(topic)?.has(id)`
abbrev pub has_backoff : Router → String → String → Bool
has_backoff r topic id = Map.has (or_empty (Map.get r.backoff topic)) id

-- `this.outbound.get(id) ?? false`
abbrev pub is_outbound : Router → String → Bool
is_outbound r id = elim (Map.get r.outbound id) [ none ↦ false | some b ↦ b ]

-- A stream to the peer on one of our protocols.
abbrev pub speaks_ours : Options → Router → String → Bool
speaks_ours o r id = elim (Map.get r.streams_outbound id) [
  | none ↦ false
  | some p ↦ contains o.protocols p
]

abbrev pub later : ℕ → Map String ℕ → String → ℕ → Map String ℕ
later expire backoff id existing =
    if ltb existing expire then Map.set backoff id expire else backoff

unfoldable pub do_add_backoff : ℕ → Router → String → String → ℕ → Router
do_add_backoff now r id topic interval_ms =
    let backoff = or_empty (Map.get r.backoff topic) in
    record r {
      backoff =
          Map.set r.backoff topic
            (later (now + interval_ms) backoff id (or_zero (Map.get backoff id)));
    }

unfoldable pub add_backoff : Options → ℕ → Router → String → String → Router
add_backoff o now r id topic = do_add_backoff now r id topic o.prune_backoff

-- `this.mesh.get(topic)?.add(id)`
abbrev pub add_to_peers : Router → String → String → Option (List String) → Router
add_to_peers r id topic none = r
add_to_peers r id topic (some peers) = record r { mesh = Map.set r.mesh topic (add peers id) }

unfoldable pub add_to_mesh : Router → String → String → Router
add_to_mesh r id topic = add_to_peers r id topic (Map.get r.mesh topic)

-- What is sent for a peer that is pruned: the topic, the backoff in milliseconds
-- and whether peers are chosen for it.
pub record ControlPrune : Type 0 where
  pub topic_id : String
  pub backoff_ms : Option ℕ
  pub with_px : Bool

-- A peer of gossipsub v1.0 cannot parse a backoff.
abbrev pub speaks_v10 : Router → String → Bool
speaks_v10 r id = elim (Map.get r.streams_outbound id) [
  | none ↦ false
  | some p ↦ p == gossipsub_id_v10
]

unfoldable pub make_prune :
    Options → ℕ → Router → String → String → Bool → Bool → Router × ControlPrune
make_prune o now r id topic do_px on_unsubscribe =
    let backoff_ms = if on_unsubscribe then o.unsubscribe_backoff else o.prune_backoff in
    if speaks_v10 r id
    then (r, record { topic_id = topic; backoff_ms = none; with_px = false })
    else (
      do_add_backoff now r id topic backoff_ms,
      record { topic_id = topic; backoff_ms = some backoff_ms; with_px = do_px },
    )

-- What the loop of `handleGraft` keeps; `penalties` counts the calls of `addPenalty`.
pub record Grafted : Type 0 where
  pub router : Router
  pub prune : List String
  pub do_px : Bool
  pub penalties : ℕ

-- The branches of the loop's body that ask for a PRUNE.
abbrev pub refused : Grafted → Router → String → Grafted
refused g r topic = record g { router = r; prune = g.prune ++ (topic ∷ []); do_px = false }

-- Backed off, with the flood cutoff.
unfoldable pub graft_backed_off : Options → ℕ → String → Grafted → String → ℕ → Grafted
graft_backed_off o now id g topic expiry =
    let flood = ltb (now + o.prune_backoff) (expiry + o.graft_flood_threshold) in
    record (refused g (add_backoff o now g.router id topic) topic) {
      penalties = g.penalties + (if flood then 2 else 1);
    }

-- Whether the backoff has not expired.
abbrev pub is_backed_off : ℕ → Option ℕ → Bool
is_backed_off now none = false
is_backed_off now (some expiry) = ltb now expiry

unfoldable pub graft_unmeshed :
    Options → ℕ → (String → Bool) → String → Grafted → String → List String → Grafted
graft_unmeshed o now negative id g topic peers =
    let r = g.router in
    let expiry = backoff_expiry r topic id in
    if contains r.direct id
    then refused g r topic
    else if is_backed_off now expiry
    then graft_backed_off o now id g topic (or_zero expiry)
    else if negative id
    then refused g (add_backoff o now r id topic) topic
    else if leb o.d_hi (length peers) && not (is_outbound r id)
    then record g { router = add_backoff o now r id topic; prune = g.prune ++ (topic ∷ []) }
    else record g { router = add_to_mesh r id topic }

-- The body of the loop, with the peers of the mesh.
abbrev pub graft_in :
    Options → ℕ → (String → Bool) → String → Grafted → String → Option (List String) → Grafted
graft_in o now negative id g topic none = record g { do_px = false }
graft_in o now negative id g topic (some peers) =
    if contains peers id then g else graft_unmeshed o now negative id g topic peers

-- One topic of a GRAFT message.
unfoldable pub graft_topic : Options → ℕ → (String → Bool) → String → Grafted → String → Grafted
graft_topic o now negative id g topic =
    graft_in o now negative id g topic (Map.get g.router.mesh topic)

unfoldable pub graft_topics :
    Options → ℕ → (String → Bool) → String → Grafted → List String → Grafted
graft_topics o now negative id g [] = g
graft_topics o now negative id g (topic ∷ topics) =
    graft_topics o now negative id (graft_topic o now negative id g topic) topics

unfoldable pub make_prunes :
    Options → ℕ → Router → String → List String → Bool → Router × List ControlPrune
make_prunes o now r id [] do_px = (r, [])
make_prunes o now r id (topic ∷ topics) do_px =
    let (r', p) = make_prune o now r id topic do_px false in
    let (r'', ps) = make_prunes o now r' id topics do_px in (r'', p ∷ ps)

unfoldable pub handle_graft :
    Options → ℕ → (String → Bool) → Router → String → List String → Router × List ControlPrune
handle_graft o now negative r id topics =
    let start : Grafted = record { router = r; prune = []; do_px = o.do_px; penalties = 0 } in
    let g = graft_topics o now negative id start topics in
    make_prunes o now g.router id g.prune g.do_px

-- A PRUNE of one topic, with its backoff in seconds.
pub record PruneRequest : Type 0 where
  pub topic_id : String
  pub backoff : Option ℕ

-- `backoff * 1000` where the peer asks for one, else the standard one.
abbrev pub interval_of : Options → Option ℕ → ℕ
interval_of o none = o.prune_backoff
interval_of o (some seconds) = if ltb 0 seconds then seconds * 1000 else o.prune_backoff

unfoldable pub prune_topic : Options → ℕ → Router → String → PruneRequest → List String → Router
prune_topic o now r id p peers =
    do_add_backoff now (record r { mesh = Map.set r.mesh p.topic_id (remove peers id) }) id
      p.topic_id (interval_of o p.backoff)

-- An unknown topic ends the loop.
unfoldable pub handle_prune : Options → ℕ → Router → String → List PruneRequest → Router
handle_prune o now r id [] = r
handle_prune o now r id (p ∷ ps) =
    let rest =
      handle_prune o now (prune_topic o now r id p (or_empty (Map.get r.mesh p.topic_id))) id ps in
    if Map.has r.mesh p.topic_id then rest else r

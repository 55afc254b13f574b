-- ===== src/Gossipsub/Router/Steps.antt =====
-- packages/gossipsub/src/gossipsub.ts: the events of the router one after the other, each with its time
-- and with the scores of its time
use Prim.Native.String.{String}
use js_libp2p.Base.{ℕ, ◌+◌, ◌≤◌, Bool, List, [], ◌∷◌, arith}
use js_libp2p.Gossipsub.Router.{Options, Router, PruneRequest, or_same, handle_graft, handle_prune}
use js_libp2p.Gossipsub.Router.Subscriptions.{
  join, leave, graft_on_subscribe, remove_peer, clear_backoff,
}
use js_libp2p.Gossipsub.Router.Heartbeat.{Scores, upkeep}
use js_libp2p.Gossipsub.Router.Heartbeat.Phases.{upkeep-IsSafe}
use js_libp2p.Gossipsub.Router.Lookups.{IsSafe, smaller-IsSafe}
use js_libp2p.Gossipsub.Router.Grafting.{handle_graft-IsSafe}
use js_libp2p.Gossipsub.Router.Leaving.{handle_prune-IsSafe, leave-IsSafe, remove_peer-IsSafe}
use js_libp2p.Gossipsub.Router.Joining.{join-IsSafe, graft_on_subscribe-IsSafe}
use js_libp2p.Gossipsub.Router.Backoffs.{clear_backoff-IsSafe}

-- `ticks` is a heartbeat's count and its clearing of backoffs, `tends` its upkeep of one mesh.
pub data Event : Type 0 where
  grafts : String → List String → Event
  prunes : String → List PruneRequest → Event
  joins : (ℕ → ℕ) → String → Event
  leaves : String → Event
  subscribes : String → String → Event
  peer_goes : String → Event
  ticks : Event
  tends : Scores → (ℕ → ℕ) → (ℕ → ℕ) → String → Event

pub record Timed : Type 0 where
  pub now : ℕ
  pub negative : String → Bool
  pub event : Event

unfoldable pub step : Options → Router → Timed → Router
step o r t = elim t.event [
  | Event.grafts id topics ↦ (handle_graft o t.now t.negative r id topics).0
  | Event.prunes id ps ↦ handle_prune o t.now r id ps
  | Event.joins pick topic ↦ or_same r (join pick o t.negative r topic)
  | Event.leaves topic ↦ or_same r (leave o t.now r topic)
  | Event.subscribes id topic ↦ (graft_on_subscribe o t.negative r id topic).0
  | Event.peer_goes id ↦ remove_peer r id
  | Event.ticks ↦ clear_backoff o t.now (record r { heartbeat_ticks = r.heartbeat_ticks + 1 })
  | Event.tends scores pick pick_rest topic ↦ (upkeep o t.now scores pick pick_rest topic r).router
]

unfoldable pub run : Options → Router → List Timed → Router
run o r [] = r
run o r (t ∷ ts) = run o (step o r t) ts

-- The times do not go back, from `start` to `end`.
unfoldable pub AreInOrder : ℕ → List Timed → ℕ → Type 0
AreInOrder start [] end = start ≤ end
AreInOrder start (t ∷ ts) end = (start ≤ t.now) × AreInOrder t.now ts end

later-IsSafe : (now now' : ℕ) (r : Router) → now ≤ now' → IsSafe now r → IsSafe now' r
later-IsSafe now now' r h s = smaller-IsSafe now now' r r h (λ t x m. m) (λ t x. omega arith) s

step-IsSafe :
    (o : Options) (r : Router) (now : ℕ) (negative : String → Bool) (event : Event)
    → IsSafe now r
    → IsSafe now (step o r (record { now = now; negative = negative; event = event }))
unfolding step
step-IsSafe o r now negative (Event.grafts id topics) s =
    handle_graft-IsSafe o now negative id r topics s
step-IsSafe o r now negative (Event.prunes id ps) s = handle_prune-IsSafe o now id r ps s
step-IsSafe o r now negative (Event.joins pick topic) s = join-IsSafe now o negative pick r topic s
step-IsSafe o r now negative (Event.leaves topic) s = leave-IsSafe o now topic r s
step-IsSafe o r now negative (Event.subscribes id topic) s =
    graft_on_subscribe-IsSafe now o negative r id topic s
step-IsSafe o r now negative (Event.peer_goes id) s = remove_peer-IsSafe o now id r s
step-IsSafe o r now negative Event.ticks s =
    clear_backoff-IsSafe o now now (record r { heartbeat_ticks = r.heartbeat_ticks + 1 })
      (smaller-IsSafe now now r (record r { heartbeat_ticks = r.heartbeat_ticks + 1 }) (omega arith)
        (λ t x m. m) (λ t x. omega arith) s)
step-IsSafe o r now negative (Event.tends scores pick pick_rest topic) s =
    upkeep-IsSafe o now scores pick pick_rest topic r s

-- Where no peer of a mesh is backed off, none is after any events at times that do not go back, of
-- GRAFTs, PRUNEs, topics joined and left, subscriptions, peers that go, clearings of backoffs and the
-- heartbeat's upkeep of a mesh, with any scores and random draws.
pub run-IsSafe :
    (o : Options) (r : Router) (start : ℕ) (ts : List Timed) (end : ℕ)
    → IsSafe start r
    → AreInOrder start ts end
    → IsSafe end (run o r ts)
unfolding run AreInOrder
run-IsSafe o r start [] end s h = later-IsSafe start end r h s
run-IsSafe o r start (t ∷ ts) end s h =
    run-IsSafe o (step o r t) t.now ts end
      (step-IsSafe o r t.now t.negative t.event (later-IsSafe start t.now r h.0 s)) h.1

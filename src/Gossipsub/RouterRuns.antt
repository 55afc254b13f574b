-- ===== src/Gossipsub/RouterRuns.antt =====
-- Runs of the gossipsub router, and its theorems at concrete inputs.
use js_libp2p.Base.{
  ℕ, ◌≡◌, refl, not, ◌&&◌, ◌||◌, if◌then◌else◌, true, false, some, List, [], ◌∷◌, arith, ◌==◌,
  string_eq,
}
use js_libp2p.Base.Sorting.{sort_by, insert_by}
use js_libp2p.Base.Map
use js_libp2p.Gossipsub.Router.{
  Options, Router, handle_graft, add_backoff, do_add_backoff, add_to_mesh,
}
use js_libp2p.Gossipsub.Router.Heartbeat.{
  Scores, upkeep, opportunistic, fill_outbound, drop_excess, fill_up, drop_negative, start_upkeep,
  prune_peers, prune_peer, graft_items, graft_peers, graft_peer, bubble_up,
}
use js_libp2p.Gossipsub.Router.Heartbeat.NoNegative.{upkeep-negative}
use js_libp2p.Gossipsub.Shuffle.{shuffle, rounds, swap, set_at}
use js_libp2p.Gossipsub.Shuffle as Shuffle
use js_libp2p.Gossipsub.Router.Lookups.{IsSafe, in_mesh}
use js_libp2p.Gossipsub.Router.Grafting.{accepts}
use js_libp2p.Gossipsub.Router.Decisions.{topics_of, handle_graft-one}
use js_libp2p.Gossipsub.Router.Steps.{Event, Timed, run, AreInOrder, run-IsSafe}

abbrev options : Options
options = record {
  d = 2;
  d_lo = 1;
  d_hi = 3;
  d_score = 1;
  d_out = 1;
  opportunistic_graft_ticks = 60;
  opportunistic_graft_peers = 2;
  do_px = true;
  prune_backoff = 60000;
  unsubscribe_backoff = 10000;
  graft_flood_threshold = 10000;
  heartbeat_interval = 1000;
  protocols = "/meshsub/1.1.0" ∷ [];
}

-- Two peers that are subscribed to the topic, and one that speaks another protocol.
abbrev router : Router
router = record {
  mesh = [];
  backoff = [];
  fanout = [];
  fanout_lastpub = [];
  topics = ("blocks", "alice" ∷ "bob" ∷ "carol" ∷ []) ∷ [];
  direct = [];
  outbound = [];
  streams_outbound =
      ("alice", "/meshsub/1.1.0") ∷ ("bob", "/meshsub/1.1.0") ∷ ("carol", "/floodsub/1.0.0") ∷ [];
  heartbeat_ticks = 14;
  started = true;
}

abbrev at : ℕ → Event → Timed
at now event = record { now = now; negative = λ id. id == "mallory"; event = event }

-- Scores by which Mallory alone is bad, and all others are the same.
abbrev scores : Scores
scores = record { negative = λ id. id == "mallory"; low = λ id. false; better = λ a b. false }

-- Bob prunes us and grafts again too early, Mallory has a bad score.
abbrev events : List Timed
events =
    at 100 (Event.joins (λ i. 0) "blocks")
    ∷ at 200 (Event.prunes "bob" (record { topic_id = "blocks"; backoff = some 5 } ∷ []))
    ∷ at 300 (Event.grafts "bob" ("blocks" ∷ "unknown" ∷ []))
    ∷ at 400 (Event.grafts "mallory" ("blocks" ∷ []))
    ∷ at 500 Event.ticks
    ∷ at 510 (Event.tends scores (λ i. 1) (λ i. 0) "blocks")
    ∷ at 600 (Event.leaves "blocks")
    ∷ []

router-IsSafe : IsSafe 0 router
unfolding IsSafe Map.get
router-IsSafe topic id h = cc

events-AreInOrder : AreInOrder 0 events 700
unfolding AreInOrder
events-AreInOrder = omega arith

run-IsSafe_example : IsSafe 700 (run options router events)
run-IsSafe_example = run-IsSafe options router 0 events 700 router-IsSafe events-AreInOrder

-- Alice and Bob are in the mesh.
abbrev joined_router : Router
joined_router = run options router (at 100 (Event.joins (λ i. 0) "blocks") ∷ [])

handle_graft-one_example :
    (in_mesh
        (handle_graft options 200 (λ id. false) joined_router "dave" ("blocks" ∷ [])).0
        "blocks"
        "dave"
      ≡ (in_mesh joined_router "blocks" "dave"
          || (Map.has joined_router.mesh "blocks"
              && accepts options 200 (λ id. false) joined_router "blocks" "dave")))
    × (topics_of (handle_graft options 200 (λ id. false) joined_router "dave" ("blocks" ∷ [])).1 ≡ (
        if Map.has joined_router.mesh "blocks"
          && not (in_mesh joined_router "blocks" "dave")
          && not (accepts options 200 (λ id. false) joined_router "blocks" "dave")
        then "blocks" ∷ []
        else []))
handle_graft-one_example = handle_graft-one options 200 (λ id. false) "dave" joined_router "blocks"

-- Alice and Mallory are in the mesh.
abbrev meshed_router : Router
meshed_router = record router { mesh = ("blocks", "mallory" ∷ "alice" ∷ []) ∷ [] }

alice_stays :
    in_mesh
      (upkeep options 200 scores (λ i. 0) (λ i. 0) "blocks" meshed_router).router
      "blocks"
      "alice"
    ≡ true
unfolding upkeep opportunistic fill_outbound drop_excess fill_up drop_negative start_upkeep
    prune_peers prune_peer graft_items graft_peers graft_peer add_backoff do_add_backoff add_to_mesh
    Map.get Map.set Map.has shuffle rounds swap Shuffle.at set_at sort_by insert_by bubble_up
alice_stays = refl

upkeep-negative_example : scores.negative "alice" ≡ false
upkeep-negative_example =
    upkeep-negative options 200 scores (λ i. 0) (λ i. 0) "blocks" meshed_router "alice" alice_stays

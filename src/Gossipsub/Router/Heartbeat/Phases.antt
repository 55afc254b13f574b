-- ===== src/Gossipsub/Router/Heartbeat/Phases.antt =====
-- packages/gossipsub/src/gossipsub.ts, heartbeat: the upkeep of a mesh, step by step
use Prim.Native.String.{String}
use js_libp2p.Base.{
  ℕ, ◌-◌, ◌%◌, ◌≤◌, ◌≡◌, sym, subst, true, ◌&&◌, Option, none, some, List, ◌++◌, if◌then◌else◌, ltb,
  leb, nat_beq, length, filter, take, drop, string_eq, arith, All, All-map, All-append, if_both,
}
use js_libp2p.Base.Sorting.{sort_by, sort_by-All}
use js_libp2p.Base.Map
use js_libp2p.Base.Map.{Map}
use js_libp2p.Gossipsub.MessageCache.{contains}
use js_libp2p.Gossipsub.Shuffle.{shuffle, shuffle-All}
use js_libp2p.Gossipsub.Router.{Options, Router, or_empty, is_outbound}
use js_libp2p.Gossipsub.Router.Lookups.{IsSafe, contains-filter}
use js_libp2p.Gossipsub.Router.Joining.{filter-passes, take-All, expires_of_absent}
use js_libp2p.Gossipsub.Router.Heartbeat.{
  Scores, Upkeep, bubble_up, mesh_peers, is_candidate, start_upkeep, drop_negative, fill_up,
  by_score, with_outbound, outbound_among, drop_excess, fill_outbound, median, improve,
  opportunistic, upkeep,
}
use js_libp2p.Gossipsub.Router.Heartbeat.Orders.{drop-All, bubble_up-All, All-contains}
use js_libp2p.Gossipsub.Router.Heartbeat.Changes.{
  IsUpkept, graft_items-IsUpkept, prune_mesh_peers-IsUpkept,
}

module _ (o : Options) (now : ℕ) (scores : Scores) (pick pick_rest : ℕ → ℕ) (topic : String) where
  start_upkeep-IsUpkept :
      (r : Router)
      → IsSafe now r
      → IsUpkept o now topic (start_upkeep o now scores pick pick_rest topic r)
  unfolding start_upkeep
  start_upkeep-IsUpkept r s =
      let chosen = is_candidate o now scores pick pick_rest topic r in
      let subscribed = shuffle pick (or_empty (Map.get r.topics topic)) in
      (
        s,
        All-map (filter chosen subscribed)
            (λ c h. (
              ground arith,
              subst (λ n. n ≤ now) (sym (expires_of_absent r topic c (ground arith))) (omega arith),
            ))
            (filter-passes chosen subscribed),
      )

  drop_negative-IsUpkept :
      (u : Upkeep)
      → IsUpkept o now topic u
      → IsUpkept o now topic (drop_negative o now scores pick pick_rest topic u)
  unfolding drop_negative
  drop_negative-IsUpkept u p =
      let peers = mesh_peers topic u.router in
      let bad = filter scores.negative peers in
      prune_mesh_peers-IsUpkept o now topic (record u { no_px = u.no_px ++ bad }) bad
        (All-contains bad peers (λ x h. contains-filter scores.negative peers x h)) p

  fill_up-IsUpkept :
      (u : Upkeep)
      → IsUpkept o now topic u
      → IsUpkept o now topic (fill_up o now scores pick pick_rest topic u)
  unfolding fill_up
  fill_up-IsUpkept u p =
      if_both (IsUpkept o now topic) (ltb (length (mesh_peers topic u.router)) o.d_lo)
        (graft_items-IsUpkept o now topic (o.d - length (mesh_peers topic u.router)) (λ id. true) u
          p)
        p

  by_score-All :
      (P : String → Type 0) (xs : List String)
      → All P xs
      → All P (by_score o now scores pick pick_rest topic xs)
  by_score-All P xs h =
      let sorted = sort_by scores.better xs in
      let all = sort_by-All P scores.better xs h in
      All-append P (take o.d_score sorted) (shuffle pick_rest (drop o.d_score sorted))
        (take-All P o.d_score sorted all)
        (shuffle-All P pick_rest (drop o.d_score sorted) (drop-All P o.d_score sorted all))

  with_outbound-All :
      (P : String → Type 0) (r : Router) (xs : List String)
      → All P xs
      → All P (with_outbound o now scores pick pick_rest topic r xs)
  with_outbound-All P r xs h =
      let outbound = outbound_among r (take o.d xs) in
      let inside = if ltb 0 outbound then bubble_up r (o.d - 1) 1 outbound xs else xs in
      let all : All P inside =
        if_both (All P) (ltb 0 outbound) (bubble_up-All P r (o.d - 1) 1 outbound xs h) h in
      if_both (All P) (ltb outbound o.d_out)
        (bubble_up-All P r (length xs - o.d) o.d (o.d - outbound) inside all) h

  drop_excess-IsUpkept :
      (u : Upkeep)
      → IsUpkept o now topic u
      → IsUpkept o now topic (drop_excess o now scores pick pick_rest topic u)
  unfolding drop_excess
  drop_excess-IsUpkept u p =
      let peers = mesh_peers topic u.router in
      let In : String → Type 0 = λ x. contains peers x ≡ true in
      let ordered = by_score o now scores pick pick_rest topic peers in
      let excess = drop o.d (with_outbound o now scores pick pick_rest topic u.router ordered) in
      let inside : All In excess =
        drop-All In o.d (with_outbound o now scores pick pick_rest topic u.router ordered) (
          with_outbound-All In u.router ordered
            (by_score-All In peers (All-contains peers peers (λ x h. h)))) in
      if_both (IsUpkept o now topic) (ltb o.d_hi (length peers))
        (prune_mesh_peers-IsUpkept o now topic u excess inside p) p

  fill_outbound-IsUpkept :
      (u : Upkeep)
      → IsUpkept o now topic u
      → IsUpkept o now topic (fill_outbound o now scores pick pick_rest topic u)
  unfolding fill_outbound
  fill_outbound-IsUpkept u p =
      let peers = mesh_peers topic u.router in
      let outbound = outbound_among u.router peers in
      if_both (IsUpkept o now topic) (leb o.d_lo (length peers) && ltb outbound o.d_out)
        (graft_items-IsUpkept o now topic (o.d_out - outbound) (is_outbound u.router) u p) p

  improve-IsUpkept :
      (u : Upkeep) (m : Option String)
      → IsUpkept o now topic u
      → IsUpkept o now topic (improve o now scores pick pick_rest topic u m)
  improve-IsUpkept u none p = p
  improve-IsUpkept u (some m) p =
      if_both (IsUpkept o now topic) (scores.low m)
        (graft_items-IsUpkept o now topic o.opportunistic_graft_peers (λ id. scores.better id m) u
          p)
        p

  opportunistic-IsUpkept :
      (u : Upkeep)
      → IsUpkept o now topic u
      → IsUpkept o now topic (opportunistic o now scores pick pick_rest topic u)
  unfolding opportunistic
  opportunistic-IsUpkept u p =
      let peers = mesh_peers topic u.router in
      if_both (IsUpkept o now topic)
        (nat_beq (u.router.heartbeat_ticks % o.opportunistic_graft_ticks) 0 && ltb 1 (length peers))
        (improve-IsUpkept u (median o now scores pick pick_rest topic peers) p) p

  pub upkeep-IsSafe :
      (r : Router) → IsSafe now r → IsSafe now (upkeep o now scores pick pick_rest topic r).router
  unfolding upkeep
  upkeep-IsSafe r s =
      (opportunistic-IsUpkept _ (
        fill_outbound-IsUpkept _ (
          drop_excess-IsUpkept _
            (fill_up-IsUpkept _ (drop_negative-IsUpkept _ (start_upkeep-IsUpkept r s)))))).0

-- ===== src/Gossipsub/Router/Heartbeat/NoNegative.antt =====
-- packages/gossipsub/src/gossipsub.ts, heartbeat: peers with a negative score
use Prim.Native.String.{String}
use js_libp2p.Base.{
  ℕ, ◌-◌, ◌%◌, ◌≡◌, refl, sym, subst, Bool, true, false, not, ◌&&◌, Option, none, some, List, [],
  ◌∷◌, ltb, leb, nat_beq, length, filter, drop, ◌==◌, ==_refl, string_eq, arith, inl, inr,
  Bool-cases, All, All-map, All-filter, if_both,
}
use js_libp2p.Base.Map
use js_libp2p.Base.Map.{Map}
use js_libp2p.Gossipsub.MessageCache.{contains, add}
use js_libp2p.Gossipsub.Shuffle.{shuffle}
use js_libp2p.Gossipsub.Router.{
  Options, Router, or_empty, remove, do_add_backoff, add_backoff, add_to_mesh, add_to_peers,
  is_outbound,
}
use js_libp2p.Gossipsub.Router.Lookups.{
  in_mesh, contains-add, contains-filter, contains-remove, in_mesh-set,
}
use js_libp2p.Gossipsub.Router.Joining.{filter-passes, take-All}
use js_libp2p.Gossipsub.Router.Heartbeat.{
  Scores, Upkeep, items, left, mesh_peers, is_candidate, start_upkeep, prune_peer, prune_peers,
  graft_peer, graft_peers, graft_items, drop_negative, fill_up, by_score, with_outbound,
  outbound_among, drop_excess, fill_outbound, median, improve, opportunistic, upkeep,
}

filtered_out :
    (p : String → Bool) (xs : List String) (x : String)
    → contains xs x ≡ true
    → contains (filter p xs) x ≡ false
    → p x ≡ false
filtered_out p [] x h k = cc
filtered_out p (y ∷ ys) x h k = elim (Bool-cases (y == x)) [
  | inl e ↦ subst (λ z. p z ≡ false) ((string_eq.same_iff y x).0 e) (ground arith)
  | inr e ↦ filtered_out p ys x (ground arith) (ground arith)
]

module _ (o : Options) (now : ℕ) (topic : String) where
  in_mesh-prune_peer :
      (u : Upkeep) (id x : String)
      → in_mesh (prune_peer o now topic u id).router topic x ≡ true
      → (in_mesh u.router topic x ≡ true) × ((id == x) ≡ false)
  unfolding prune_peer add_backoff do_add_backoff
  in_mesh-prune_peer u id x h =
      let peers = mesh_peers topic u.router in
      let there : Map.get (Map.set u.router.mesh topic (remove peers id)) topic
          ≡ some (remove peers id) =
        ground (arith, Map.get-set u.router.mesh topic topic (remove peers id), ==_refl topic) in
      let h' : contains (remove peers id) x ≡ true =
        subst (λ y. contains (or_empty y) x ≡ true) there h in
      (
        contains-filter (λ y. not (y == id)) peers x h',
        elim (Bool-cases (id == x)) [
          | inl e ↦ absurd (cc (h', contains-remove peers id, (string_eq.same_iff id x).0 e))
          | inr e ↦ e
        ],
      )

  -- Who is left was there and is not among the pruned peers.
  in_mesh-prune_peers :
      (u : Upkeep) (ids : List String) (x : String)
      → in_mesh (prune_peers o now topic u ids).router topic x ≡ true
      → (in_mesh u.router topic x ≡ true) × (contains ids x ≡ false)
  unfolding prune_peers
  in_mesh-prune_peers u [] x h = (h, refl)
  in_mesh-prune_peers u (id ∷ ids) x h =
      let (m, n) = in_mesh-prune_peers (prune_peer o now topic u id) ids x h in
      let (m', e) = in_mesh-prune_peer u id x m in (m', ground arith)

  candidates-prune_peers :
      (u : Upkeep) (ids : List String) → (prune_peers o now topic u ids).candidates ≡ u.candidates
  unfolding prune_peers prune_peer
  candidates-prune_peers u [] = refl
  candidates-prune_peers u (id ∷ ids) = candidates-prune_peers (prune_peer o now topic u id) ids

module _ (topic : String) (negative : String → Bool) where
  -- No peer of the mesh and no candidate has a negative score.
  abbrev IsGood : Upkeep → Type 0
  IsGood u =
      ((x : String) → in_mesh u.router topic x ≡ true → negative x ≡ false)
      × All (λ c. negative c ≡ false) u.candidates

  graft_peer-IsGood :
      (u : Upkeep) (id : String) → negative id ≡ false → IsGood u → IsGood (graft_peer topic u id)
  unfolding graft_peer add_to_mesh
  graft_peer-IsGood u id n (g, c) = (go (Map.get u.router.mesh topic) refl, c)
    where
      go :
          (m : Option (List String))
          → Map.get u.router.mesh topic ≡ m
          → (x : String) → in_mesh (add_to_peers u.router id topic m) topic x ≡ true
          → negative x ≡ false
      go none e x h = g x h
      go (some peers) e x h = elim (in_mesh-set u.router.mesh topic (add peers id) topic x h) [
        | inl (q, k) ↦ elim (contains-add peers id x k) [
          | inl k' ↦ g x (subst (λ y. contains (or_empty y) x ≡ true) (sym e) k')
          | inr r ↦ subst (λ y. negative y ≡ false) r n
        ]
        | inr k ↦ g x k
      ]

  graft_peers-IsGood :
      (u : Upkeep) (ids : List String)
      → All (λ c. negative c ≡ false) ids
      → IsGood u
      → IsGood (graft_peers topic u ids)
  unfolding graft_peers
  graft_peers-IsGood u [] n p = p
  graft_peers-IsGood u (id ∷ ids) n p =
      graft_peers-IsGood (graft_peer topic u id) ids n.1 (graft_peer-IsGood u id n.0 p)

  graft_items-IsGood :
      (ineed : ℕ) (cond : String → Bool) (u : Upkeep)
      → IsGood u
      → IsGood (graft_items topic ineed cond u)
  unfolding graft_items
  graft_items-IsGood ineed cond u (g, c) =
      let new = items ineed cond u.candidates in
      graft_peers-IsGood (record u { candidates = left u.candidates new }) new
        (take-All (λ x. negative x ≡ false) ineed (filter cond u.candidates)
          (All-filter (λ x. negative x ≡ false) cond u.candidates c))
        (g, All-filter (λ x. negative x ≡ false) (λ x. not (contains new x)) u.candidates c)

module _ (o : Options) (now : ℕ) (scores : Scores) (pick pick_rest : ℕ → ℕ) (topic : String) where
  drop_negative-IsGood :
      (r : Router)
      → IsGood topic scores.negative (
          drop_negative o now scores pick pick_rest topic
            (start_upkeep o now scores pick pick_rest topic r))
  unfolding drop_negative start_upkeep
  drop_negative-IsGood r =
      let chosen = is_candidate o now scores pick pick_rest topic r in
      let subscribed = shuffle pick (or_empty (Map.get r.topics topic)) in
      let peers = mesh_peers topic r in
      let bad = filter scores.negative peers in
      let u : Upkeep = record {
        router = r;
        candidates = filter chosen subscribed;
        to_graft = [];
        to_prune = [];
        no_px = bad;
      } in
      (
        (λ x h.
            let (m, n) = in_mesh-prune_peers o now topic u bad x h in
            filtered_out scores.negative peers x m n),
        subst (All (λ c. scores.negative c ≡ false))
            (sym (candidates-prune_peers o now topic u bad))
            (All-map (filter chosen subscribed) (λ c h. ground arith)
              (filter-passes chosen subscribed)),
      )

  fill_up-IsGood :
      (u : Upkeep)
      → IsGood topic scores.negative u
      → IsGood topic scores.negative (fill_up o now scores pick pick_rest topic u)
  unfolding fill_up
  fill_up-IsGood u p =
      if_both (IsGood topic scores.negative) (ltb (length (mesh_peers topic u.router)) o.d_lo)
        (graft_items-IsGood topic scores.negative (o.d - length (mesh_peers topic u.router))
          (λ id. true) u p)
        p

  drop_excess-IsGood :
      (u : Upkeep)
      → IsGood topic scores.negative u
      → IsGood topic scores.negative (drop_excess o now scores pick pick_rest topic u)
  unfolding drop_excess
  drop_excess-IsGood u p =
      let peers = mesh_peers topic u.router in
      let excess = drop o.d (
        with_outbound o now scores pick pick_rest topic u.router
          (by_score o now scores pick pick_rest topic peers)) in
      if_both (IsGood topic scores.negative) (ltb o.d_hi (length peers))
        (
          (λ x h. p.0 x (in_mesh-prune_peers o now topic u excess x h).0),
          subst (All (λ c. scores.negative c ≡ false))
              (sym (candidates-prune_peers o now topic u excess)) p.1,
        )
        p

  fill_outbound-IsGood :
      (u : Upkeep)
      → IsGood topic scores.negative u
      → IsGood topic scores.negative (fill_outbound o now scores pick pick_rest topic u)
  unfolding fill_outbound
  fill_outbound-IsGood u p =
      let peers = mesh_peers topic u.router in
      let outbound = outbound_among u.router peers in
      if_both (IsGood topic scores.negative) (leb o.d_lo (length peers) && ltb outbound o.d_out)
        (graft_items-IsGood topic scores.negative (o.d_out - outbound) (is_outbound u.router) u p) p

  improve-IsGood :
      (u : Upkeep) (m : Option String)
      → IsGood topic scores.negative u
      → IsGood topic scores.negative (improve o now scores pick pick_rest topic u m)
  improve-IsGood u none p = p
  improve-IsGood u (some m) p =
      if_both (IsGood topic scores.negative) (scores.low m)
        (graft_items-IsGood topic scores.negative o.opportunistic_graft_peers
          (λ id. scores.better id m) u p)
        p

  opportunistic-IsGood :
      (u : Upkeep)
      → IsGood topic scores.negative u
      → IsGood topic scores.negative (opportunistic o now scores pick pick_rest topic u)
  unfolding opportunistic
  opportunistic-IsGood u p =
      let peers = mesh_peers topic u.router in
      if_both (IsGood topic scores.negative)
        (nat_beq (u.router.heartbeat_ticks % o.opportunistic_graft_ticks) 0 && ltb 1 (length peers))
        (improve-IsGood u (median o now scores pick pick_rest topic peers) p) p

  -- The heartbeat's upkeep leaves no peer with a negative score in the mesh.
  pub upkeep-negative :
      (r : Router) (x : String)
      → in_mesh (upkeep o now scores pick pick_rest topic r).router topic x ≡ true
      → scores.negative x ≡ false
  unfolding upkeep
  upkeep-negative r x h =
      (opportunistic-IsGood _ (
          fill_outbound-IsGood _
            (drop_excess-IsGood _ (fill_up-IsGood _ (drop_negative-IsGood r))))).0
        x h

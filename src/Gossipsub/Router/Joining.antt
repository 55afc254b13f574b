-- ===== src/Gossipsub/Router/Joining.antt =====
-- packages/gossipsub/src/gossipsub.ts, join, graftOnSubscribe and getRandomGossipPeers: which peers
-- come into a mesh from this side
use Prim.Native.String.{String}
use js_libp2p.Base.{
  ℕ, ◌≤◌, ◌≡◌, ap, sym, subst, Bool, true, false, not, ◌&&◌, Option, none, some, List, [], ◌∷◌,
  if◌then◌else◌, ltb, length, filter, take, string_eq, arith, inl, inr, Bool-cases, All, All-map,
  All-append, if_both, zero, suc,
}
use js_libp2p.Base.Map
use js_libp2p.Base.Map.{Map}
use js_libp2p.Gossipsub.MessageCache.{contains, add}
use js_libp2p.Gossipsub.Shuffle.{shuffle, shuffle-All}
use js_libp2p.Gossipsub.Router.{
  Options, Router, or_zero, or_empty, or_same, has_backoff, speaks_ours,
}
use js_libp2p.Gossipsub.Router.Subscriptions.{
  random_peers, get_random_gossip_peers, may_join, add_all, fanout_to_add, peers_to_join, join,
  graft_on_subscribe, graft_if, joined, may_graft_on_subscribe,
}
use js_libp2p.Gossipsub.Router.Lookups.{
  expires, IsSafe, smaller-IsSafe, contains-All, set-IsSafe, add_to_mesh-IsSafe,
}

-- Every element passes the test that the list is filtered by.
pub filter-passes : (p : String → Bool) (xs : List String) → All (λ x. p x ≡ true) (filter p xs)
filter-passes p [] = tt
filter-passes p (x ∷ xs) = elim (Bool-cases (p x)) [
  | inl e ↦
      subst (λ b. All (λ y. p y ≡ true) (if b then x ∷ filter p xs else filter p xs)) (sym e)
        (e, filter-passes p xs)
  | inr e ↦
      subst (λ b. All (λ y. p y ≡ true) (if b then x ∷ filter p xs else filter p xs)) (sym e)
        (filter-passes p xs)
]

pub take-All : (P : String → Type 0) (n : ℕ) (xs : List String) → All P xs → All P (take n xs)
take-All P zero xs h = tt
take-All P (suc n) [] h = tt
take-All P (suc n) (x ∷ xs) h = (h.0, take-All P n xs h.1)

add_all-All :
    (P : String → Type 0) (xs ys : List String) → All P xs → All P ys → All P (add_all xs ys)
unfolding add_all
add_all-All P xs [] h k = h
add_all-All P xs (y ∷ ys) h k =
    add_all-All P (add xs y) ys
      (if_both (All P) (contains xs y) h (All-append P xs (y ∷ []) h (k.0, tt))) k.1

-- What the filter of getRandomGossipPeers asks holds of all that it returns.
get_random_gossip_peers-All :
    (P : String → Type 0) (pick : ℕ → ℕ) (o : Options) (r : Router) (topic : String) (count : ℕ)
    (accepts : String → Bool)
    → ((id : String) → accepts id ≡ true → P id)
    → All P (get_random_gossip_peers pick o r topic count accepts)
unfolding get_random_gossip_peers
get_random_gossip_peers-All P pick o r topic count accepts f = go (Map.get r.topics topic)
  where
    passes : (xs : List String) → All P (filter (λ id. speaks_ours o r id && accepts id) xs)
    passes xs =
        All-map (filter (λ id. speaks_ours o r id && accepts id) xs) (λ x e. f x (ground arith))
          (filter-passes (λ id. speaks_ours o r id && accepts id) xs)

    go : (x : Option (List String)) → All P (random_peers pick o r count accepts x)
    go none = tt
    go (some peers) =
        let chosen = shuffle pick (filter (λ id. speaks_ours o r id && accepts id) peers) in
        let all =
          shuffle-All P pick (filter (λ id. speaks_ours o r id && accepts id) peers)
            (passes peers) in
        if_both (All P) (ltb 0 count && ltb count (length chosen)) (take-All P count chosen all) all

-- A peer without an entry has no backoff.
pub expires_of_absent :
    (r : Router) (topic id : String) → has_backoff r topic id ≡ false → expires r topic id ≡ 0
expires_of_absent r topic id h =
    ap or_zero (Map.has_absent (or_empty (Map.get r.backoff topic)) id h)

may_join-expires :
    (negative : String → Bool) (r : Router) (topic id : String)
    → may_join negative r topic id ≡ true
    → expires r topic id ≡ 0
may_join-expires negative r topic id h = expires_of_absent r topic id (ground arith)

peers_to_join-All :
    (pick : ℕ → ℕ) (o : Options) (negative : String → Bool) (r : Router) (topic : String)
    → All (λ id. expires r topic id ≡ 0) (peers_to_join pick o negative r topic)
unfolding peers_to_join
peers_to_join-All pick o negative r topic =
    let P : String → Type 0 = λ id. expires r topic id ≡ 0 in
    let first = fanout_to_add negative r topic in
    let from_fanout : All P first =
      All-map first (λ x e. may_join-expires negative r topic x e)
        (filter-passes (may_join negative r topic) (or_empty (Map.get r.fanout topic))) in
    if_both (All P) (ltb (length first) o.d)
      (add_all-All P first
        (get_random_gossip_peers pick o r topic o.d
          (λ id. not (contains first id) && may_join negative r topic id))
        from_fanout
        (get_random_gossip_peers-All P pick o r topic o.d
          (λ id. not (contains first id) && may_join negative r topic id)
          (λ x e. may_join-expires negative r topic x (ground arith))))
      from_fanout

module _ (now : ℕ) (o : Options) (negative : String → Bool) where
  pub join-IsSafe :
      (pick : ℕ → ℕ) (r : Router) (topic : String)
      → IsSafe now r
      → IsSafe now (or_same r (join pick o negative r topic))
  unfolding join
  join-IsSafe pick r topic s =
      let peers = peers_to_join pick o negative r topic in
      let with_mesh =
        set-IsSafe now r topic peers
          (λ id c.
            subst (λ n. n ≤ now)
              (sym (
                contains-All (λ x. expires r topic x ≡ 0) peers id
                  (peers_to_join-All pick o negative r topic) c))
              (omega arith))
          s in
      let safe : IsSafe now (joined r topic peers) =
        smaller-IsSafe now now (record r { mesh = Map.set r.mesh topic peers })
          (joined r topic peers) (omega arith) (λ t x h. h) (λ t x. omega arith) with_mesh in
      if_both (λ (x : Option Router). IsSafe now (or_same r x)) (not r.started) s
        (if_both (λ (x : Option Router). IsSafe now (or_same r x)) (Map.has r.mesh topic) s safe)

  pub graft_on_subscribe-IsSafe :
      (r : Router) (id topic : String)
      → IsSafe now r
      → IsSafe now (graft_on_subscribe o negative r id topic).0
  unfolding graft_on_subscribe
  graft_on_subscribe-IsSafe r id topic s =
      let b =
        Map.has r.mesh topic
        && may_graft_on_subscribe o negative r id topic (or_empty (Map.get r.mesh topic)) in
      elim (Bool-cases b) [
        | inl e ↦
            let free : expires r topic id ≡ 0 = expires_of_absent r topic id (ground arith) in
            subst (λ (c : Bool). IsSafe now (graft_if r id topic c).0) (sym e)
              (add_to_mesh-IsSafe now r id topic (subst (λ n. n ≤ now) (sym free) (omega arith)) s)
        | inr e ↦ subst (λ (c : Bool). IsSafe now (graft_if r id topic c).0) (sym e) s
      ]

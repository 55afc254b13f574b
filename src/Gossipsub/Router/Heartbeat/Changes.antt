-- ===== src/Gossipsub/Router/Heartbeat/Changes.antt =====
-- packages/gossipsub/src/gossipsub.ts, heartbeat: peers that are grafted and pruned
use Prim.Native.String.{String}
use js_libp2p.Base.{
  ℕ, ◌≤◌, ◌≡◌, refl, sym, subst, Bool, true, false, not, Option, none, some, List, [], ◌∷◌, filter,
  ◌==◌, ==_refl, string_eq, arith, inl, inr, Bool-cases, All, All-map, All-filter,
}
use js_libp2p.Base.Map
use js_libp2p.Base.Map.{Map}
use js_libp2p.Gossipsub.MessageCache.{contains, add}
use js_libp2p.Gossipsub.Router.{
  Options, Router, or_empty, remove, do_add_backoff, add_backoff, add_to_mesh, add_to_peers,
}
use js_libp2p.Gossipsub.Router.Lookups.{
  in_mesh, expires, IsSafe, expires-do_add_backoff, do_add_backoff-IsSafe, set-IsSafe,
  add_to_mesh-IsSafe, contains-add, contains-filter, contains-remove, in_mesh-set,
}
use js_libp2p.Gossipsub.Router.Joining.{filter-passes, take-All}
use js_libp2p.Gossipsub.Router.Heartbeat.{
  Upkeep, items, left, mesh_peers, out_of_mesh, prune_peer, prune_peers, graft_peer, graft_peers,
  graft_items,
}

both :
    {P Q R : String → Type 0} (xs : List String)
    → ((x : String) → P x → Q x → R x)
    → All P xs
    → All Q xs
    → All R xs
both [] f p q = tt
both (x ∷ xs) f p q = (f x p.0 q.0, both xs f p.1 q.1)

apart_of_absent :
    (xs : List String) (c : String) → contains xs c ≡ false → All (λ x. (x == c) ≡ false) xs
apart_of_absent [] c h = tt
apart_of_absent (x ∷ xs) c h = elim (Bool-cases (x == c)) [
  | inl e ↦ absurd (ground arith)
  | inr e ↦ (e, apart_of_absent xs c (ground arith))
]

-- One is in the list and the other is not.
differ :
    (xs : List String) (x y : String)
    → contains xs x ≡ true
    → contains xs y ≡ false
    → (x == y) ≡ false
differ xs x y h k = elim (Bool-cases (x == y)) [
  | inl e ↦ absurd (cc (h, k, (string_eq.same_iff x y).0 e))
  | inr e ↦ e
]

expires-add_to_mesh :
    (topic : String) (r : Router) (id x : String)
    → expires (add_to_mesh r id topic) topic x ≡ expires r topic x
unfolding add_to_mesh
expires-add_to_mesh topic r id x = go (Map.get r.mesh topic)
  where
    go :
        (m : Option (List String)) → expires (add_to_peers r id topic m) topic x ≡ expires r topic x
    go none = refl
    go (some peers) = refl

module _ (o : Options) (now : ℕ) (topic : String) where
  -- A peer outside the mesh that is not backed off.
  abbrev pub IsFree : Router → String → Type 0
  IsFree r c = (in_mesh r topic c ≡ false) × (expires r topic c ≤ now)

  abbrev pub IsUpkept : Upkeep → Type 0
  IsUpkept u = IsSafe now u.router × All (IsFree u.router) u.candidates

  graft-IsFree :
      (r : Router) (id c : String)
      → (id == c) ≡ false
      → IsFree r c
      → IsFree (add_to_mesh r id topic) c
  unfolding add_to_mesh
  graft-IsFree r id c n f = go (Map.get r.mesh topic) refl
    where
      go :
          (x : Option (List String))
          → Map.get r.mesh topic ≡ x
          → IsFree (add_to_peers r id topic x) c
      go none e = f
      go (some peers) e =
          let out : contains peers c ≡ false = subst (λ y. contains (or_empty y) c ≡ false) e f.0 in
          let still : contains (add peers id) c ≡ false =
            elim (Bool-cases (contains (add peers id) c)) [
              | inl h ↦ elim (contains-add peers id c h) [
                | inl h' ↦ absurd (cc (h', out))
                | inr q ↦ absurd (cc (n, (string_eq.same_iff id c).1 q))
              ]
              | inr h ↦ h
            ] in
          (ground (arith, Map.get-set r.mesh topic topic (add peers id), ==_refl topic, still), f.1)

  prune-IsFree :
      (r : Router) (id c : String)
      → (id == c) ≡ false
      → IsFree r c
      → IsFree (out_of_mesh topic (add_backoff o now r id topic) id) c
  unfolding add_backoff
  prune-IsFree r id c n f =
      let pruned = add_backoff o now r id topic in
      let out : in_mesh (out_of_mesh topic pruned id) topic c ≡ false =
        elim (Bool-cases (in_mesh (out_of_mesh topic pruned id) topic c)) [
          | inl h ↦ absurd (still pruned (unfold do_add_backoff in f.0) h)
          | inr h ↦ h
        ] in
      (
        out,
        subst (λ x. x ≤ now)
            (sym (expires-do_add_backoff now r id topic o.prune_backoff topic c (ground arith)))
            f.1,
      )
    where
      still :
          (q : Router)
          → in_mesh q topic c ≡ false
          → in_mesh (out_of_mesh topic q id) topic c ≡ true
          → ⊥
      still q a h = elim (in_mesh-set q.mesh topic (remove (mesh_peers topic q) id) topic c h) [
        | inl (e, k) ↦ cc (a, contains-filter (λ y. not (y == id)) (mesh_peers topic q) c k)
        | inr k ↦ cc (a, k)
      ]

  prune-IsSafe :
      (r : Router) (id : String)
      → IsSafe now r
      → IsSafe now (out_of_mesh topic (add_backoff o now r id topic) id)
  unfolding add_backoff do_add_backoff
  prune-IsSafe r id s =
      let peers = mesh_peers topic r in
      let gone : in_mesh (out_of_mesh topic r id) topic id ≡ false = ground (
        arith,
        Map.get-set r.mesh topic topic (remove peers id),
        ==_refl topic,
        contains-remove peers id,
      ) in
      do_add_backoff-IsSafe now now (out_of_mesh topic r id) id topic o.prune_backoff gone (
        set-IsSafe now r topic (remove peers id)
          (λ x c. unfold IsSafe in s topic x (contains-filter (λ y. not (y == id)) peers x c)) s)

  -- No candidate is in the list.
  abbrev IsApart : List String → List String → Type 0
  IsApart cs ids = All (λ c. All (λ id. (id == c) ≡ false) ids) cs

  prune_peers-IsUpkept :
      (u : Upkeep) (ids : List String)
      → IsApart u.candidates ids
      → IsUpkept u
      → IsUpkept (prune_peers o now topic u ids)
  unfolding prune_peers prune_peer
  prune_peers-IsUpkept u [] a p = p
  prune_peers-IsUpkept u (id ∷ ids) a (s, f) =
      prune_peers-IsUpkept (prune_peer o now topic u id) ids (All-map u.candidates (λ c h. h.1) a) (
        prune-IsSafe u.router id s,
        both u.candidates (λ c h k. prune-IsFree u.router id c h.0 k) a f,
      )

  graft_peers-IsUpkept :
      (u : Upkeep) (ids : List String)
      → IsApart u.candidates ids
      → All (λ id. expires u.router topic id ≤ now) ids
      → IsUpkept u
      → IsUpkept (graft_peers topic u ids)
  unfolding graft_peers graft_peer
  graft_peers-IsUpkept u [] a e p = p
  graft_peers-IsUpkept u (id ∷ ids) a e (s, f) =
      graft_peers-IsUpkept (graft_peer topic u id) ids (All-map u.candidates (λ c h. h.1) a)
        (All-map ids (λ x h. subst (λ n. n ≤ now) (sym (expires-add_to_mesh topic u.router id x)) h)
          e.1)
        (
          add_to_mesh-IsSafe now u.router id topic e.0 s,
          both u.candidates (λ c h k. graft-IsFree u.router id c h.0 k) a f,
        )

  pub graft_items-IsUpkept :
      (ineed : ℕ) (cond : String → Bool) (u : Upkeep)
      → IsUpkept u
      → IsUpkept (graft_items topic ineed cond u)
  unfolding graft_items
  graft_items-IsUpkept ineed cond u (s, f) =
      let new = items ineed cond u.candidates in
      graft_peers-IsUpkept (record u { candidates = left u.candidates new }) new
        (All-map (left u.candidates new) (λ c h. apart_of_absent new c (ground arith))
          (filter-passes (λ x. not (contains new x)) u.candidates))
        (take-All (λ id. expires u.router topic id ≤ now) ineed (filter cond u.candidates)
          (All-filter (λ id. expires u.router topic id ≤ now) cond u.candidates
            (All-map u.candidates (λ c h. h.1) f)))
        (s, All-filter (IsFree u.router) (λ x. not (contains new x)) u.candidates f)

  -- Peers of the mesh are pruned.
  pub prune_mesh_peers-IsUpkept :
      (u : Upkeep) (ids : List String)
      → All (λ id. contains (mesh_peers topic u.router) id ≡ true) ids
      → IsUpkept u
      → IsUpkept (prune_peers o now topic u ids)
  prune_mesh_peers-IsUpkept u ids h p =
      prune_peers-IsUpkept u ids
        (All-map u.candidates
          (λ c f. All-map ids (λ id k. differ (mesh_peers topic u.router) id c k f.0) h) p.1)
        p

-- ===== src/Gossipsub/Router/Leaving.antt =====
-- packages/gossipsub/src/gossipsub.ts, handlePrune, leave and removePeer: peers that go from a mesh
use Prim.Native.String.{String}
use js_libp2p.Base.{
  ℕ, ◌≤◌, ◌≡◌, refl, sym, subst, ◌∙◌, Bool, true, false, not, Option, none, some, List, [], ◌∷◌,
  if◌then◌else◌, ◌==◌, ==_refl, string_eq, arith, if_both,
}
use js_libp2p.Base.Map
use js_libp2p.Base.Map.{Map}
use js_libp2p.Gossipsub.MessageCache.{contains}
use js_libp2p.Gossipsub.Router.{
  Options, Router, PruneRequest, ControlPrune, or_empty, or_same, remove, do_add_backoff,
  make_prune, speaks_v10, interval_of, prune_topic, handle_prune,
}
use js_libp2p.Gossipsub.Router.Subscriptions.{
  send_prunes, leave_mesh, leave, remove_from_all, remove_peer,
}
use js_libp2p.Gossipsub.Router.Lookups.{
  in_mesh, expires, IsSafe, smaller-IsSafe, do_add_backoff-IsSafe, expires-do_add_backoff,
  contains-filter, contains-remove, in_mesh-delete, set-IsSafe,
}

module _ (o : Options) (now : ℕ) (id : String) where
  prune_topic-IsSafe :
      (r : Router) (p : PruneRequest)
      → IsSafe now r
      → IsSafe now (prune_topic o now r id p (or_empty (Map.get r.mesh p.topic_id)))
  unfolding prune_topic
  prune_topic-IsSafe r p s =
      let peers = or_empty (Map.get r.mesh p.topic_id) in
      let out : Router = record r { mesh = Map.set r.mesh p.topic_id (remove peers id) } in
      let gone : in_mesh out p.topic_id id ≡ false = ground (
        arith,
        Map.get-set r.mesh p.topic_id p.topic_id (remove peers id),
        ==_refl p.topic_id,
        contains-remove peers id,
      ) in
      do_add_backoff-IsSafe now now out id p.topic_id (interval_of o p.backoff) gone (
        set-IsSafe now r p.topic_id (remove peers id)
          (λ x c. unfold IsSafe in s p.topic_id x (contains-filter (λ y. not (y == id)) peers x c))
          s)

  pub handle_prune-IsSafe :
      (r : Router) (ps : List PruneRequest) → IsSafe now r → IsSafe now (handle_prune o now r id ps)
  unfolding handle_prune
  handle_prune-IsSafe r [] s = s
  handle_prune-IsSafe r (p ∷ ps) s =
      if_both (IsSafe now) (Map.has r.mesh p.topic_id)
        (handle_prune-IsSafe (prune_topic o now r id p (or_empty (Map.get r.mesh p.topic_id))) ps
          (prune_topic-IsSafe r p s))
        s

  in_mesh-remove_from_all :
      (m : Map String (List String)) (topic x : String)
      → contains (or_empty (Map.get (remove_from_all m id) topic)) x ≡ true
      → contains (or_empty (Map.get m topic)) x ≡ true
  unfolding remove_from_all Map.get
  in_mesh-remove_from_all [] topic x h = h
  in_mesh-remove_from_all ((t, peers) ∷ m) topic x h =
      ground
        (arith, contains-filter (λ y. not (y == id)) peers x, in_mesh-remove_from_all m topic x)

  pub remove_peer-IsSafe : (r : Router) → IsSafe now r → IsSafe now (remove_peer r id)
  unfolding remove_peer
  remove_peer-IsSafe r s =
      smaller-IsSafe now now r (remove_peer r id) (omega arith)
        (λ t x h. in_mesh-remove_from_all r.mesh t x h) (λ t x. omega arith) s

module _ (o : Options) (now : ℕ) (topic : String) where
  -- The meshes are the same, and the backoffs outside the topic.
  abbrev IsSameElsewhere : Router → Router → Type 0
  IsSameElsewhere r r' =
      (r'.mesh ≡ r.mesh) × ((t x : String) → (topic == t) ≡ false → expires r' t x ≡ expires r t x)

  make_prune-IsSameElsewhere :
      (r : Router) (id : String) (do_px on_unsubscribe : Bool)
      → IsSameElsewhere r (make_prune o now r id topic do_px on_unsubscribe).0
  unfolding make_prune
  make_prune-IsSameElsewhere r id do_px on_unsubscribe =
      let ms = if on_unsubscribe then o.unsubscribe_backoff else o.prune_backoff in
      if_both (λ (x : Router × ControlPrune). IsSameElsewhere r x.0) (speaks_v10 r id)
        (refl, λ t x h. refl)
        (
          (unfold do_add_backoff in refl),
          λ t x h. expires-do_add_backoff now r id topic ms t x (ground arith),
        )

  send_prunes-IsSameElsewhere :
      (r : Router) (ids : List String) → IsSameElsewhere r (send_prunes o now r topic ids)
  unfolding send_prunes
  send_prunes-IsSameElsewhere r [] = (refl, λ t x h. refl)
  send_prunes-IsSameElsewhere r (id ∷ ids) =
      let (m, e) = make_prune-IsSameElsewhere r id o.do_px true in
      let (m', e') = send_prunes-IsSameElsewhere (make_prune o now r id topic o.do_px true).0 ids in
      (m' ∙ m, λ t x h. e' t x h ∙ e t x h)

  leave_mesh-IsSafe :
      (r : Router) (peers : Option (List String))
      → IsSafe now r
      → IsSafe now (leave_mesh o now r topic peers)
  unfolding IsSafe
  leave_mesh-IsSafe r none s t x h = s t x h
  leave_mesh-IsSafe r (some peers) s t x h =
      let (m, e) = send_prunes-IsSameElsewhere r peers in
      let (other, c) = in_mesh-delete (send_prunes o now r topic peers).mesh topic t x h in
      subst (λ n. n ≤ now) (sym (e t x other))
        (s t x (
          subst (λ (y : Map String (List String)). contains (or_empty (Map.get y t)) x ≡ true) m c))

  pub leave-IsSafe : (r : Router) → IsSafe now r → IsSafe now (or_same r (leave o now r topic))
  unfolding leave
  leave-IsSafe r s =
      if_both (λ (x : Option Router). IsSafe now (or_same r x)) (not r.started) s
        (leave_mesh-IsSafe r (Map.get r.mesh topic) s)

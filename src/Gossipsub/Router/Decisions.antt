-- ===== src/Gossipsub/Router/Decisions.antt =====
-- packages/gossipsub/src/gossipsub.ts, handleGraft: the answer to a GRAFT of one topic
use Prim.Native.String.{String}
use js_libp2p.Base.{
  ℕ, ◌≡◌, refl, ap, sym, subst, ◌∙◌, Bool, true, false, not, ◌&&◌, ◌||◌, Option, none, some, List,
  [], ◌∷◌, ◌++◌, map, if◌then◌else◌, ==_refl, string_eq, arith, inl, inr, Bool-cases, if_both,
}
use js_libp2p.Base.Map
use js_libp2p.Base.Map.{Map}
use js_libp2p.Gossipsub.MessageCache.{contains, add}
use js_libp2p.Gossipsub.Router.{
  Options, Router, Grafted, ControlPrune, or_empty, speaks_v10, do_add_backoff, add_to_mesh,
  add_to_peers, graft_in, graft_unmeshed, graft_topic, graft_topics, make_prune, make_prunes,
  handle_graft,
}
use js_libp2p.Gossipsub.Router.Lookups.{in_mesh, contains-append}
use js_libp2p.Gossipsub.Router.Grafting.{accepts, graft_unmeshed-accepted, graft_unmeshed-refused}

abbrev pub topics_of : List ControlPrune → List String
topics_of ps = map (λ (p : ControlPrune). p.topic_id) ps

module _ (o : Options) (now : ℕ) (id : String) where
  make_prune-mesh :
      (r : Router) (topic : String) (do_px on_unsubscribe : Bool)
      → ((make_prune o now r id topic do_px on_unsubscribe).0.mesh ≡ r.mesh)
        × ((make_prune o now r id topic do_px on_unsubscribe).1.topic_id ≡ topic)
  unfolding make_prune do_add_backoff
  make_prune-mesh r topic do_px on_unsubscribe =
      if_both (λ (x : Router × ControlPrune). (x.0.mesh ≡ r.mesh) × (x.1.topic_id ≡ topic))
        (speaks_v10 r id) (refl, refl) (refl, refl)

  make_prunes-mesh :
      (topics : List String) (r : Router) (do_px : Bool)
      → ((make_prunes o now r id topics do_px).0.mesh ≡ r.mesh)
        × (topics_of (make_prunes o now r id topics do_px).1 ≡ topics)
  unfolding make_prunes
  make_prunes-mesh [] r do_px = (refl, refl)
  make_prunes-mesh (topic ∷ topics) r do_px =
      let (m, t) = make_prune-mesh r topic do_px false in
      let (m', t') = make_prunes-mesh topics (make_prune o now r id topic do_px false).0 do_px in
      (m' ∙ m, cc (t, t'))

  -- The peer that is added is in the mesh.
  in_mesh-add_to_mesh :
      (r : Router) (topic : String) (peers : List String)
      → Map.get r.mesh topic ≡ some peers
      → in_mesh (add_to_mesh r id topic) topic id ≡ true
  unfolding add_to_mesh
  in_mesh-add_to_mesh r topic peers e =
      subst (λ x. in_mesh (add_to_peers r id topic x) topic id ≡ true) (sym e)
        (ground (
          arith,
          Map.get-set r.mesh topic topic (add peers id),
          ==_refl topic,
          contains-append peers id id,
          ==_refl id,
        ))

unmeshed-taken : {k m a : Bool} → k ≡ true → m ≡ false → (m || (k && a)) ≡ a
unmeshed-taken {a = a} h e = cc (h, e)

unmeshed-answer :
    {A : Type 0} (k m a b : Bool) (x y : A)
    → k ≡ true
    → m ≡ false
    → a ≡ b
    → (if k && not m && not a then x else y) ≡ (if b then y else x)
unmeshed-answer true false true b x y h e q = ap (λ c. if c then y else x) q
unmeshed-answer true false false b x y h e q = ap (λ c. if c then y else x) q
unmeshed-answer true true a b x y h e q = cc e
unmeshed-answer false m a b x y h e q = cc h

module _ (o : Options) (now : ℕ) (negative : String → Bool) (id : String) where
  -- The mesh has the peer afterwards, and a PRUNE is asked for.
  abbrev IsDecided : Router → String → Grafted → Type 0
  IsDecided r topic g =
      (in_mesh g.router topic id
        ≡ (in_mesh r topic id || (Map.has r.mesh topic && accepts o now negative r topic id)))
      × (g.prune ≡ (
          if Map.has r.mesh topic
            && not (in_mesh r topic id)
            && not (accepts o now negative r topic id)
          then topic ∷ []
          else []))

  decide :
      {a : Bool} (g : Grafted) (topic : String) (r : Router)
      → Map.has r.mesh topic ≡ true
      → in_mesh r topic id ≡ false
      → accepts o now negative r topic id ≡ a
      → in_mesh g.router topic id ≡ a
      → g.prune ≡ (if a then [] else topic ∷ [])
      → IsDecided r topic g
  decide g topic r known m e there prune = (
    there ∙ sym e ∙ sym (unmeshed-taken known m),
    prune ∙ sym (unmeshed-answer _ _ _ _ (topic ∷ []) [] known m e),
  )

  graft_unmeshed-IsDecided :
      (g : Grafted) (topic : String) (peers : List String)
      → g.prune ≡ []
      → Map.has g.router.mesh topic ≡ true
      → in_mesh g.router topic id ≡ false
      → Map.get g.router.mesh topic ≡ some peers
      → IsDecided g.router topic (graft_unmeshed o now negative id g topic peers)
  graft_unmeshed-IsDecided g topic peers p known m e =
      let after = graft_unmeshed o now negative id g topic peers in
      elim (Bool-cases (accepts o now negative g.router topic id)) [
        | inl a ↦
            let taken = graft_unmeshed-accepted o now negative id g topic peers e a in
            let there : in_mesh after.router topic id ≡ true =
              ap (λ (h : Grafted). in_mesh h.router topic id) taken
              ∙ in_mesh-add_to_mesh o now id g.router topic peers e in
            let nothing : after.prune ≡ [] = ap (λ (h : Grafted). h.prune) taken ∙ p in
            decide after topic g.router known m a there nothing
        | inr a ↦
            let (q, r) = graft_unmeshed-refused o now negative id g topic peers e a in
            let same : after.router.mesh ≡ g.router.mesh = elim r [
              | inl s ↦ ap (λ (x : Router). x.mesh) s
              | inr s ↦ ap (λ (x : Router). x.mesh) s ∙ (unfold do_add_backoff in refl)
            ] in
            let out : in_mesh after.router topic id ≡ false =
              ap (λ (x : Map String (List String)). contains (or_empty (Map.get x topic)) id) same
              ∙ m in
            decide after topic g.router known m a out (q ∙ ap (λ ts. ts ++ (topic ∷ [])) p)
      ]

  graft_in-IsDecided :
      (g : Grafted) (topic : String) (x : Option (List String))
      → g.prune ≡ []
      → Map.get g.router.mesh topic ≡ x
      → IsDecided g.router topic (graft_in o now negative id g topic x)
  graft_in-IsDecided g topic none p e = ground (arith, Map.has_of_none g.router.mesh topic e, p, e)
  graft_in-IsDecided g topic (some peers) p e =
      let known = Map.has_of_get g.router.mesh topic peers e in
      let m : in_mesh g.router topic id ≡ contains peers id =
        ap (λ y. contains (or_empty y) id) e in
      elim (Bool-cases (contains peers id)) [
        | inl c ↦ ground (arith, known, p, m, c)
        | inr c ↦
            subst
              (λ b.
                IsDecided g.router topic
                  (if b then g else graft_unmeshed o now negative id g topic peers))
              (sym c) (graft_unmeshed-IsDecided g topic peers p known (m ∙ c) e)
      ]

  -- A GRAFT of one topic leaves the peer in the mesh exactly where it was in it or is taken, and is
  -- answered by a PRUNE exactly where the topic is known, the peer was not in its mesh and is not taken.
  pub handle_graft-one :
      (r : Router) (topic : String)
      → (in_mesh (handle_graft o now negative r id (topic ∷ [])).0 topic id
          ≡ (in_mesh r topic id || (Map.has r.mesh topic && accepts o now negative r topic id)))
        × (topics_of (handle_graft o now negative r id (topic ∷ [])).1 ≡ (
            if Map.has r.mesh topic
              && not (in_mesh r topic id)
              && not (accepts o now negative r topic id)
            then topic ∷ []
            else []))
  unfolding handle_graft graft_topics graft_topic
  handle_graft-one r topic =
      let start : Grafted = record { router = r; prune = []; do_px = o.do_px; penalties = 0 } in
      let g = graft_in o now negative id start topic (Map.get r.mesh topic) in
      let (m, p) = graft_in-IsDecided start topic (Map.get r.mesh topic) refl refl in
      let (m', p') = make_prunes-mesh o now id g.prune g.router g.do_px in
      (
        ap (λ (x : Map String (List String)). contains (or_empty (Map.get x topic)) id) m' ∙ m,
        p' ∙ p,
      )

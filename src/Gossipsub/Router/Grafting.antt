-- ===== src/Gossipsub/Router/Grafting.antt =====
-- packages/gossipsub/src/gossipsub.ts, handleGraft: which GRAFTs are taken and which are refused
use Prim.Native.String.{String}
use js_libp2p.Base.{
  ℕ, ◌≡◌, ◌⊎◌, refl, sym, subst, Bool, true, false, not, ◌&&◌, Option, none, some, List, [], ◌∷◌,
  ◌++◌, if◌then◌else◌, ltb, leb, length, ◌==◌, string_eq, arith, inl, inr, Bool-cases, All, All-map,
  All-append, if_both,
}
use js_libp2p.Base.Map
use js_libp2p.Base.Map.{Map}
use js_libp2p.Gossipsub.MessageCache.{contains, add}
use js_libp2p.Gossipsub.Router.{
  Options, Router, Grafted, or_zero, or_empty, is_outbound, is_backed_off, backoff_expiry,
  do_add_backoff, add_backoff, add_to_mesh, add_to_peers, graft_backed_off, graft_unmeshed,
  graft_in, graft_topic, graft_topics, make_prune, make_prunes, ControlPrune, speaks_v10,
  handle_graft,
}
use js_libp2p.Gossipsub.Router.Lookups.{
  in_mesh, expires, IsSafe, expires-do_add_backoff-le, do_add_backoff-IsSafe, add_to_mesh-IsSafe,
}

-- The mesh has no room for the peer.
abbrev pub is_full : Options → Router → String → String → Bool
is_full o r topic id =
    leb o.d_hi (length (or_empty (Map.get r.mesh topic))) && not (is_outbound r id)

-- Whether a GRAFT of a peer that is not in the mesh is taken.
abbrev pub accepts : Options → ℕ → (String → Bool) → Router → String → String → Bool
accepts o now negative r topic id =
    not (contains r.direct id)
    && not (ltb now (expires r topic id))
    && not (negative id)
    && not (is_full o r topic id)

is_backed_off-expires : (now : ℕ) (e : Option ℕ) → is_backed_off now e ≡ ltb now (or_zero e)
is_backed_off-expires now none = ground arith
is_backed_off-expires now (some e) = refl

module _ (o : Options) (now : ℕ) (negative : String → Bool) (id : String) where
  pub graft_unmeshed-accepted :
      (g : Grafted) (topic : String) (peers : List String)
      → Map.get g.router.mesh topic ≡ some peers
      → accepts o now negative g.router topic id ≡ true
      → graft_unmeshed o now negative id g topic peers
        ≡ record g { router = add_to_mesh g.router id topic }
  unfolding graft_unmeshed
  graft_unmeshed-accepted g topic peers e h =
      ground (arith, is_backed_off-expires now (backoff_expiry g.router topic id))

  -- A refusal may add a backoff, and asks for a PRUNE.
  pub graft_unmeshed-refused :
      (g : Grafted) (topic : String) (peers : List String)
      → Map.get g.router.mesh topic ≡ some peers
      → accepts o now negative g.router topic id ≡ false
      → ((graft_unmeshed o now negative id g topic peers).prune ≡ g.prune ++ (topic ∷ []))
        × (((graft_unmeshed o now negative id g topic peers).router ≡ g.router)
            ⊎ ((graft_unmeshed o now negative id g topic peers).router
                ≡ do_add_backoff now g.router id topic o.prune_backoff))
  unfolding graft_unmeshed graft_backed_off add_backoff
  graft_unmeshed-refused g topic peers e h =
      ground (arith, is_backed_off-expires now (backoff_expiry g.router topic id))

  -- What stays true of a topic once its GRAFT was refused.
  abbrev IsRefused : Router → String → Type 0
  IsRefused r topic = (in_mesh r topic id ≡ false) × (accepts o now negative r topic id ≡ false)

  -- The mesh is safe, and no topic that gets a PRUNE has the peer in its mesh.
  abbrev IsLoopSafe : Grafted → Type 0
  IsLoopSafe g = IsSafe now g.router × All (IsRefused g.router) g.prune

  backoff-IsRefused :
      (r : Router) (topic topic' : String) (ms : ℕ)
      → IsRefused r topic'
      → IsRefused (do_add_backoff now r id topic ms) topic'
  unfolding do_add_backoff
  backoff-IsRefused r topic topic' ms h =
      (h.0, ground (arith, expires-do_add_backoff-le now r id topic ms topic' id, h.1))

  -- A GRAFT that is taken is for another topic.
  add_to_mesh-IsRefused :
      (r : Router) (topic topic' : String)
      → accepts o now negative r topic id ≡ true
      → IsRefused r topic'
      → IsRefused (add_to_mesh r id topic) topic'
  unfolding add_to_mesh
  add_to_mesh-IsRefused r topic topic' h q = elim (Bool-cases (topic == topic')) [
    | inl e ↦
        let same : topic ≡ topic' = (string_eq.same_iff topic topic').0 e in
        let h' : accepts o now negative r topic' id ≡ true =
          subst (λ t. accepts o now negative r t id ≡ true) same h in
        absurd (cc (h', q.1))
    | inr e ↦ go (Map.get r.mesh topic) e
  ]
    where
      go :
          (x : Option (List String))
          → (topic == topic') ≡ false
          → IsRefused (add_to_peers r id topic x) topic'
      go none e = q
      go (some peers) e =
          let there : Map.get r.mesh topic' ≡ Map.get (Map.set r.mesh topic (add peers id)) topic' =
            ground (arith, Map.get-set r.mesh topic topic' (add peers id)) in
          (
            subst (λ y. contains (or_empty y) id ≡ false) there q.0,
            subst
                (λ y.
                  (not (contains r.direct id)
                    && not (ltb now (expires r topic' id))
                    && not (negative id)
                    && not (leb o.d_hi (length (or_empty y)) && not (is_outbound r id)))
                  ≡ false)
                there q.1,
          )

  loop-accepted :
      (g : Grafted) (topic : String)
      → accepts o now negative g.router topic id ≡ true
      → IsLoopSafe g
      → IsLoopSafe (record g { router = add_to_mesh g.router id topic })
  loop-accepted g topic h (s, q) = (
    add_to_mesh-IsSafe now g.router id topic (ground arith) s,
    All-map g.prune (λ t p. add_to_mesh-IsRefused g.router topic t h p) q,
  )

  loop-refused :
      (g g' : Grafted) (topic : String)
      → IsRefused g.router topic
      → g'.prune ≡ g.prune ++ (topic ∷ [])
      → (g'.router ≡ g.router) ⊎ (g'.router ≡ do_add_backoff now g.router id topic o.prune_backoff)
      → IsLoopSafe g
      → IsLoopSafe g'
  loop-refused g g' topic r p (inl e) (s, q) = (
    subst (IsSafe now) (sym e) s,
    subst (λ x. All (IsRefused x) g'.prune) (sym e)
        (subst (All (IsRefused g.router)) (sym p)
          (All-append (IsRefused g.router) g.prune (topic ∷ []) q (r, tt))),
  )
  loop-refused g g' topic r p (inr e) (s, q) =
      let after = do_add_backoff now g.router id topic o.prune_backoff in
      let kept : All (IsRefused after) (g.prune ++ (topic ∷ [])) =
        All-map (g.prune ++ (topic ∷ []))
          (λ t h. backoff-IsRefused g.router topic t o.prune_backoff h)
          (All-append (IsRefused g.router) g.prune (topic ∷ []) q (r, tt)) in
      (
        subst (IsSafe now) (sym e)
            (do_add_backoff-IsSafe now now g.router id topic o.prune_backoff r.0 s),
        subst (λ x. All (IsRefused x) g'.prune) (sym e)
            (subst (All (IsRefused after)) (sym p) kept),
      )

  graft_topic-IsLoopSafe :
      (g : Grafted) (topic : String)
      → IsLoopSafe g
      → IsLoopSafe (graft_topic o now negative id g topic)
  unfolding graft_topic
  graft_topic-IsLoopSafe g topic p = go (Map.get g.router.mesh topic) refl
    where
      go :
          (x : Option (List String))
          → Map.get g.router.mesh topic ≡ x
          → IsLoopSafe (graft_in o now negative id g topic x)
      go none e = p
      go (some peers) e = elim (Bool-cases (contains peers id)) [
        | inl c ↦
            subst
              (λ b. IsLoopSafe (if b then g else graft_unmeshed o now negative id g topic peers))
              (sym c) p
        | inr c ↦
            subst
              (λ b. IsLoopSafe (if b then g else graft_unmeshed o now negative id g topic peers))
              (sym c)
              (elim (Bool-cases (accepts o now negative g.router topic id)) [
                | inl a ↦
                    subst IsLoopSafe (sym (graft_unmeshed-accepted g topic peers e a))
                      (loop-accepted g topic a p)
                | inr a ↦
                    let (q, r) = graft_unmeshed-refused g topic peers e a in
                    loop-refused g (graft_unmeshed o now negative id g topic peers) topic
                      (subst (λ y. contains (or_empty y) id ≡ false) (sym e) c, a) q r p
              ])
      ]

  graft_topics-IsLoopSafe :
      (g : Grafted) (topics : List String)
      → IsLoopSafe g
      → IsLoopSafe (graft_topics o now negative id g topics)
  unfolding graft_topics
  graft_topics-IsLoopSafe g [] p = p
  graft_topics-IsLoopSafe g (topic ∷ topics) p =
      graft_topics-IsLoopSafe (graft_topic o now negative id g topic) topics
        (graft_topic-IsLoopSafe g topic p)

  -- A safe router with the meshes of another one.
  abbrev pub IsPruned : Router → Router → Type 0
  IsPruned r r' = IsSafe now r' × (r'.mesh ≡ r.mesh)

  pub make_prune-IsPruned :
      (r : Router) (topic : String) (do_px on_unsubscribe : Bool)
      → in_mesh r topic id ≡ false
      → IsSafe now r
      → IsPruned r (make_prune o now r id topic do_px on_unsubscribe).0
  unfolding make_prune do_add_backoff
  make_prune-IsPruned r topic do_px on_unsubscribe h s =
      let ms = if on_unsubscribe then o.unsubscribe_backoff else o.prune_backoff in
      if_both (λ (x : Router × ControlPrune). IsPruned r x.0) (speaks_v10 r id) (s, refl)
        (do_add_backoff-IsSafe now now r id topic ms h s, refl)

  make_prunes-IsSafe :
      (topics : List String) (r : Router) (do_px : Bool)
      → All (λ t. in_mesh r t id ≡ false) topics
      → IsSafe now r
      → IsSafe now (make_prunes o now r id topics do_px).0
  unfolding make_prunes
  make_prunes-IsSafe [] r do_px h s = s
  make_prunes-IsSafe (topic ∷ topics) r do_px h s =
      let (s', e) = make_prune-IsPruned r topic do_px false h.0 s in
      make_prunes-IsSafe topics (make_prune o now r id topic do_px false).0 do_px
        (subst (λ m. All (λ t. contains (or_empty (Map.get m t)) id ≡ false) topics) (sym e) h.1) s'

  pub handle_graft-IsSafe :
      (r : Router) (topics : List String)
      → IsSafe now r
      → IsSafe now (handle_graft o now negative r id topics).0
  unfolding handle_graft
  handle_graft-IsSafe r topics s =
      let start : Grafted = record { router = r; prune = []; do_px = o.do_px; penalties = 0 } in
      let (s', q) = graft_topics-IsLoopSafe start topics (s, tt) in
      let g = graft_topics o now negative id start topics in
      make_prunes-IsSafe g.prune g.router g.do_px (All-map g.prune (λ t p. p.0) q) s'

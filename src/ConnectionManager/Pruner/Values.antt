-- ===== src/ConnectionManager/Pruner/Values.antt =====
-- packages/libp2p/src/connection-manager/connection-pruner.ts: the values that connections are sorted by
use mathlib.Core.Option.{some_inj}
use Prim.Native.String.{String}
use js_libp2p.Base.{
  ℕ, ◌≡◌, ap, sym, subst, ◌∙◌, Bool, true, false, Option, none, some, List, [], ◌∷◌, if◌then◌else◌,
  All, if_both, ◌==◌, string_eq, Bool-cases, inl, inr, Option-cases,
}
use js_libp2p.Base.Map
use js_libp2p.Base.Map.{Map}
use js_libp2p.ConnectionManager.Pruner.{
  Connection, Components, value_in, peer_values, value_of_tags,
}

module _ {A N : Type 0} (env : Components A N) where
  -- The sum of the values of the tags of the connection's peer.
  abbrev value_for : Connection A → ℕ
  value_for c = value_of_tags env (env.tags_of c.remote_peer)

  -- One step of the loop; `b` is whether the peer has a value.
  abbrev with_value_if : Bool → Map String ℕ → Connection A → Map String ℕ
  with_value_if b values c = if b then values else Map.set values c.remote_peer (value_for c)

  abbrev with_value : Map String ℕ → Connection A → Map String ℕ
  with_value values c = with_value_if (Map.has values c.remote_peer) values c

  -- The value of a peer in the map is the one that its tags have.
  abbrev HasTrueValues : Map String ℕ → Type 0
  HasTrueValues values =
      (p : String) (v : ℕ) → Map.get values p ≡ some v → v ≡ value_of_tags env (env.tags_of p)

  get-with_value :
      (values : Map String ℕ) (c : Connection A) (p : String) (v : ℕ)
      → Map.get values p ≡ some v
      → Map.get (with_value values c) p ≡ some v
  get-with_value values c p v h = elim (Bool-cases (Map.has values c.remote_peer)) [
    | inl e ↦ subst (λ b. Map.get (with_value_if b values c) p ≡ some v) (sym e) h
    | inr e ↦
        subst (λ b. Map.get (with_value_if b values c) p ≡ some v) (sym e)
          (Map.get-set-other values c.remote_peer p (value_for c) (other e) ∙ h)
  ]
    where
      other : Map.has values c.remote_peer ≡ false → (c.remote_peer == p) ≡ false
      other e = elim (Bool-cases (c.remote_peer == p)) [
        | inl q ↦
            absurd (cc (e, Map.has_of_get values p v h, (string_eq.same_iff c.remote_peer p).0 q))
        | inr q ↦ q
      ]

  with_value-HasTrueValues :
      (values : Map String ℕ) (c : Connection A)
      → HasTrueValues values
      → HasTrueValues (with_value values c)
  with_value-HasTrueValues values c h =
      if_both HasTrueValues (Map.has values c.remote_peer) h (λ p v g.
        elim (Bool-cases (c.remote_peer == p)) [
          | inl q ↦
              let same : c.remote_peer ≡ p = (string_eq.same_iff c.remote_peer p).0 q in
              let set : some (value_for c) ≡ some v =
                sym (Map.get-set-own values c.remote_peer (value_for c))
                ∙ ap (Map.get (Map.set values c.remote_peer (value_for c))) same
                ∙ g in
              sym (some_inj.0 set) ∙ ap (λ x. value_of_tags env (env.tags_of x)) same
          | inr q ↦ h p v (sym (Map.get-set-other values c.remote_peer p (value_for c) q) ∙ g)
        ])

  get-peer_values :
      (cs : List (Connection A)) (values : Map String ℕ) (p : String) (v : ℕ)
      → Map.get values p ≡ some v
      → Map.get (peer_values env cs values) p ≡ some v
  unfolding peer_values
  get-peer_values [] values p v h = h
  get-peer_values (c ∷ cs) values p v h =
      get-peer_values cs (with_value values c) p v (get-with_value values c p v h)

  -- The peer of the connection has a value after its step.
  has-with_value :
      (values : Map String ℕ) (c : Connection A)
      → Map.has (with_value values c) c.remote_peer ≡ true
  has-with_value values c = elim (Bool-cases (Map.has values c.remote_peer)) [
    | inl e ↦ subst (λ b. Map.has (with_value_if b values c) c.remote_peer ≡ true) (sym e) e
    | inr e ↦
        subst (λ b. Map.has (with_value_if b values c) c.remote_peer ≡ true) (sym e)
          (Map.has_of_get _ c.remote_peer (value_for c)
            (Map.get-set-own values c.remote_peer (value_for c)))
  ]

  -- The value that a connection is sorted by is the sum of the values of its peer's tags.
  abbrev pub HasTrueValue : Map String ℕ → Connection A → Type 0
  HasTrueValue values c = value_in values c ≡ value_of_tags env (env.tags_of c.remote_peer)

  pub peer_values-All :
      (cs : List (Connection A)) (values : Map String ℕ)
      → HasTrueValues values
      → All (HasTrueValue (peer_values env cs values)) cs
  unfolding peer_values
  peer_values-All [] values h = tt
  peer_values-All (c ∷ cs) values h =
      let values' = with_value values c in
      let true' = with_value-HasTrueValues values c h in
      (
        elim (Option-cases (Map.get values' c.remote_peer)) [
          | inl g ↦ absurd (cc (has-with_value values c, Map.has_of_none values' c.remote_peer g))
          | inr (v, g) ↦
              ap (λ (o : Option ℕ). elim o [ none ↦ 0 | some w ↦ w ])
                (get-peer_values cs values' c.remote_peer v g)
              ∙ true' c.remote_peer v g
        ],
        peer_values-All cs values' true',
      )

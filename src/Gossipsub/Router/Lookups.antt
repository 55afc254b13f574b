-- ===== src/Gossipsub/Router/Lookups.antt =====
-- packages/gossipsub/src/gossipsub.ts: what a change of the mesh or of the backoffs means for the one
-- peer and the one topic that is looked up
use Prim.Native.String.{String}
use js_libp2p.Base.{
  ℕ, ◌+◌, ◌≤◌, ◌≡◌, ◌⊎◌, refl, ap, sym, subst, ◌∙◌, Bool, true, false, ◌&&◌, ◌||◌, Option, none,
  some, List, [], ◌∷◌, ◌++◌, if◌then◌else◌, ltb, filter, ◌==◌, ==_refl, string_eq, arith, inl, inr,
  Bool-cases, All, if_both,
}
use js_libp2p.Base.Map
use js_libp2p.Base.Map.{Map}
use js_libp2p.Gossipsub.MessageCache.{contains, add}
use js_libp2p.Gossipsub.Router.{
  Router, or_zero, or_empty, remove, later, do_add_backoff, add_to_mesh, add_to_peers,
  backoff_expiry,
}

abbrev pub in_mesh : Router → String → String → Bool
in_mesh r topic id = contains (or_empty (Map.get r.mesh topic)) id

-- When the backoff expires, 0 where there is none.
abbrev pub expires : Router → String → String → ℕ
expires r topic id = or_zero (backoff_expiry r topic id)

-- No peer of a mesh is backed off.
unfoldable pub IsSafe : ℕ → Router → Type 0
IsSafe now r = (topic id : String) → in_mesh r topic id ≡ true → expires r topic id ≤ now

pub contains-append :
    (xs : List String) (y x : String) → contains (xs ++ (y ∷ [])) x ≡ (contains xs x || y == x)
contains-append [] y x = ground arith
contains-append (z ∷ zs) y x = ground (arith, contains-append zs y x)

pub contains-add :
    (xs : List String) (y x : String)
    → contains (add xs y) x ≡ true
    → (contains xs x ≡ true) ⊎ (y ≡ x)
contains-add xs y x h = elim (Bool-cases (y == x)) [
  | inl e ↦ inr ((string_eq.same_iff y x).0 e)
  | inr e ↦ inl (ground (arith, contains-append xs y x))
]

pub contains-filter :
    (p : String → Bool) (xs : List String) (x : String)
    → contains (filter p xs) x ≡ true
    → contains xs x ≡ true
contains-filter p [] x h = h
contains-filter p (y ∷ ys) x h = ground (arith, contains-filter p ys x)

pub contains-remove : (xs : List String) (y : String) → contains (remove xs y) y ≡ false
contains-remove [] y = refl
contains-remove (x ∷ xs) y = ground (arith, contains-remove xs y)

pub contains-All :
    (P : String → Type 0) (xs : List String) (x : String) → All P xs → contains xs x ≡ true → P x
contains-All P [] x a h = cc
contains-All P (y ∷ ys) x a h = elim (Bool-cases (y == x)) [
  | inl e ↦ subst P ((string_eq.same_iff y x).0 e) a.0
  | inr e ↦ contains-All P ys x a.1 (ground arith)
]

pub expires-do_add_backoff :
    (now : ℕ) (r : Router) (id topic : String) (ms : ℕ) (topic' id' : String)
    → (topic == topic' && id == id') ≡ false
    → expires (do_add_backoff now r id topic ms) topic' id' ≡ expires r topic' id'
unfolding do_add_backoff
expires-do_add_backoff now r id topic ms topic' id' h =
    let m = or_empty (Map.get r.backoff topic) in
    let new = later (now + ms) m id (or_zero (Map.get m id)) in
    elim (Bool-cases (topic == topic')) [
      | inl e ↦
          let same : topic ≡ topic' = (string_eq.same_iff topic topic').0 e in
          let there : Map.get (Map.set r.backoff topic new) topic' ≡ some new =
            Map.get-set r.backoff topic topic' new
            ∙ ap (λ b. if b then some new else Map.get r.backoff topic') e in
          let kept : Map.get new id' ≡ Map.get m id' =
            if_both (λ (x : Map String ℕ). Map.get x id' ≡ Map.get m id')
              (ltb (or_zero (Map.get m id)) (now + ms))
              (ground (arith, Map.get-set m id id' (now + ms))) refl in
          ap (λ x. or_zero (Map.get (or_empty x) id')) there
          ∙ ap or_zero kept
          ∙ ap (λ x. or_zero (Map.get (or_empty (Map.get r.backoff x)) id')) same
      | inr e ↦
          ap (λ x. or_zero (Map.get (or_empty x) id'))
            (Map.get-set r.backoff topic topic' new
              ∙ ap (λ b. if b then some new else Map.get r.backoff topic') e)
    ]

-- For the peer itself, the later of the two times.
pub expires-at-max :
    (now : ℕ) (r : Router) (id topic : String) (ms : ℕ)
    → expires (do_add_backoff now r id topic ms) topic id
      ≡ (if ltb (expires r topic id) (now + ms) then now + ms else expires r topic id)
unfolding do_add_backoff
expires-at-max now r id topic ms =
    let m = or_empty (Map.get r.backoff topic) in
    let new = later (now + ms) m id (or_zero (Map.get m id)) in
    let there : Map.get (Map.set r.backoff topic new) topic ≡ some new =
      ground (arith, Map.get-set r.backoff topic topic new, ==_refl topic) in
    let found : or_zero (Map.get new id)
        ≡ (if ltb (or_zero (Map.get m id)) (now + ms) then now + ms else or_zero (Map.get m id)) =
      ground (arith, Map.get-set m id id (now + ms), ==_refl id) in
    ap (λ x. or_zero (Map.get (or_empty x) id)) there ∙ found

expires-at :
    (now : ℕ) (r : Router) (id topic : String) (ms : ℕ)
    → expires r topic id ≤ expires (do_add_backoff now r id topic ms) topic id
expires-at now r id topic ms =
    subst (λ x. expires r topic id ≤ x) (sym (expires-at-max now r id topic ms)) (ground arith)

-- A backoff never gets shorter.
pub expires-do_add_backoff-le :
    (now : ℕ) (r : Router) (id topic : String) (ms : ℕ) (topic' id' : String)
    → expires r topic' id' ≤ expires (do_add_backoff now r id topic ms) topic' id'
expires-do_add_backoff-le now r id topic ms topic' id' =
    elim (Bool-cases (topic == topic' && id == id')) [
      | inl e ↦
          let t : topic ≡ topic' = (string_eq.same_iff topic topic').0 (ground arith) in
          let i : id ≡ id' = (string_eq.same_iff id id').0 (ground arith) in
          subst (λ x. expires r x id' ≤ expires (do_add_backoff now r id topic ms) x id') t
            (subst (λ x. expires r topic x ≤ expires (do_add_backoff now r id topic ms) topic x) i
              (expires-at now r id topic ms))
      | inr e ↦
          subst (λ x. expires r topic' id' ≤ x)
            (sym (expires-do_add_backoff now r id topic ms topic' id' e)) (omega arith)
    ]

-- A mesh with other peers for one topic.
pub in_mesh-set :
    (m : Map String (List String)) (topic : String) (peers : List String) (topic' id' : String)
    → contains (or_empty (Map.get (Map.set m topic peers) topic')) id' ≡ true
    → ((topic ≡ topic') × (contains peers id' ≡ true))
      ⊎ (contains (or_empty (Map.get m topic')) id' ≡ true)
in_mesh-set m topic peers topic' id' h = elim (Bool-cases (topic == topic')) [
  | inl e ↦ inl (
    (string_eq.same_iff topic topic').0 e,
    sym (
          ap (λ x. contains (or_empty x) id')
            (Map.get-set m topic topic' peers
              ∙ ap (λ b. if b then some peers else Map.get m topic') e))
        ∙ h,
  )
  | inr e ↦ inr (
      sym (
        ap (λ x. contains (or_empty x) id')
          (Map.get-set m topic topic' peers
            ∙ ap (λ b. if b then some peers else Map.get m topic') e))
      ∙ h)
]

pub in_mesh-delete :
    (m : Map String (List String)) (topic topic' id' : String)
    → contains (or_empty (Map.get (Map.delete m topic) topic')) id' ≡ true
    → ((topic == topic') ≡ false) × (contains (or_empty (Map.get m topic')) id' ≡ true)
in_mesh-delete m topic topic' id' h = ground (arith, Map.get-delete m topic topic')

-- A state that has fewer peers and shorter backoffs.
pub smaller-IsSafe :
    (now now' : ℕ) (r r' : Router)
    → now ≤ now'
    → ((topic id : String) → in_mesh r' topic id ≡ true → in_mesh r topic id ≡ true)
    → ((topic id : String) → expires r' topic id ≤ expires r topic id)
    → IsSafe now r
    → IsSafe now' r'
unfolding IsSafe
smaller-IsSafe now now' r r' h f g s topic id m =
    let a = s topic id (f topic id m) in let b = g topic id in omega arith

pub do_add_backoff-IsSafe :
    (now at_time : ℕ) (r : Router) (id topic : String) (ms : ℕ)
    → in_mesh r topic id ≡ false
    → IsSafe now r
    → IsSafe now (do_add_backoff at_time r id topic ms)
unfolding IsSafe
do_add_backoff-IsSafe now at_time r id topic ms n s topic' id' m =
    let m' : in_mesh r topic' id' ≡ true = unfold do_add_backoff in m in
    elim (Bool-cases (topic == topic' && id == id')) [
      | inl e ↦
          let t : topic ≡ topic' = (string_eq.same_iff topic topic').0 (ground arith) in
          let i : id ≡ id' = (string_eq.same_iff id id').0 (ground arith) in
          absurd (cc (n, m', t, i))
      | inr e ↦
          subst (λ x. x ≤ now) (sym (expires-do_add_backoff at_time r id topic ms topic' id' e))
            (s topic' id' m')
    ]

pub set-IsSafe :
    (now : ℕ) (r : Router) (topic : String) (peers : List String)
    → ((id : String) → contains peers id ≡ true → expires r topic id ≤ now)
    → IsSafe now r
    → IsSafe now (record r { mesh = Map.set r.mesh topic peers })
unfolding IsSafe
set-IsSafe now r topic peers f s topic' id' m = elim (in_mesh-set r.mesh topic peers topic' id' m) [
  | inl (e, c) ↦ subst (λ x. expires r x id' ≤ now) e (f id' c)
  | inr c ↦ s topic' id' c
]

pub add_to_mesh-IsSafe :
    (now : ℕ) (r : Router) (id topic : String)
    → expires r topic id ≤ now
    → IsSafe now r
    → IsSafe now (add_to_mesh r id topic)
unfolding add_to_mesh
add_to_mesh-IsSafe now r id topic h s = go (Map.get r.mesh topic) refl
  where
    go :
        (o : Option (List String))
        → Map.get r.mesh topic ≡ o
        → IsSafe now (add_to_peers r id topic o)
    go none e = s
    go (some peers) e =
        set-IsSafe now r topic (add peers id)
          (λ x c. elim (contains-add peers id x c) [
            | inl c' ↦
                unfold IsSafe in s topic x (subst (λ y. contains (or_empty y) x ≡ true) (sym e) c')
            | inr q ↦ subst (λ y. expires r topic y ≤ now) q h
          ])
          s

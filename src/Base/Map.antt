-- ===== src/Base/Map.antt =====
-- JavaScript's `Map`, in the order of insertion: `set` on a key that is there keeps its place.
use js_libp2p.Base.Tests.{
  suc, ◌≤◌, ◌≡◌, refl, sym, ap, ◌∙◌, Bool-cases, inl, inr, Bool, true, false, Option, none, some,
  List, [], ◌∷◌, arith, if◌then◌else◌,
}
use js_libp2p.Base.Lists.{length}
use js_libp2p.Base.Equality.{Eq, ◌==◌, ==_refl}

abbrev pub Map {ℓ κ} : Type ℓ → Type κ → Type (ℓ ⊔ κ)
Map K V = List (K × V)

module _ {ℓ κ} {K : Type ℓ} {V : Type κ} ⦃e : Eq K⦄ where
  -- m.get(k)
  unfoldable pub get : Map K V → K → Option V
  get [] k = none
  get ((j, v) ∷ m) k = if j == k then some v else get m k

  -- m.has(k)
  unfoldable pub has : Map K V → K → Bool
  has [] k = false
  has ((j, v) ∷ m) k = if j == k then true else has m k

  -- m.set(k, v)
  unfoldable pub set : Map K V → K → V → Map K V
  set [] k v = (k, v) ∷ []
  set ((j, w) ∷ m) k v = if j == k then (j, v) ∷ m else (j, w) ∷ set m k v

  -- m.delete(k)
  unfoldable pub delete : Map K V → K → Map K V
  delete [] k = []
  delete ((j, w) ∷ m) k = let rest = delete m k in if j == k then rest else (j, w) ∷ rest

  -- No key stands twice.
  abbrev pub IsDistinct : Map K V → Type 0
  IsDistinct [] = Unit {0}
  IsDistinct ((k, v) ∷ m) = (has m k ≡ false) × IsDistinct m

  pub get-set :
      (m : Map K V) (k j : K) (v : V) → get (set m k v) j ≡ (if k == j then some v else get m j)
  unfolding get set
  get-set [] k j v = refl
  get-set ((i, w) ∷ m) k j v =
      ground (arith, e.same_iff k j, e.same_iff i k, e.same_iff i j, get-set m k j v)

  pub get-delete : (m : Map K V) (k j : K) → get (delete m k) j ≡ (if k == j then none else get m j)
  unfolding get delete
  get-delete [] k j = ground arith
  get-delete ((i, w) ∷ m) k j =
      ground (arith, e.same_iff k j, e.same_iff i k, e.same_iff i j, get-delete m k j)

  pub has-set :
      (m : Map K V) (k j : K) (v : V) → has (set m k v) j ≡ (if k == j then true else has m j)
  unfolding has set
  has-set [] k j v = refl
  has-set ((i, w) ∷ m) k j v =
      ground (arith, e.same_iff k j, e.same_iff i k, e.same_iff i j, has-set m k j v)

  pub has-delete :
      (m : Map K V) (k j : K) → has (delete m k) j ≡ (if k == j then false else has m j)
  unfolding has delete
  has-delete [] k j = ground arith
  has-delete ((i, w) ∷ m) k j =
      ground (arith, e.same_iff k j, e.same_iff i k, e.same_iff i j, has-delete m k j)

  pub has_of_get : (m : Map K V) (k : K) (v : V) → get m k ≡ some v → has m k ≡ true
  unfolding get has
  has_of_get [] k v h = ground arith
  has_of_get ((i, w) ∷ m) k v h = ground (arith, has_of_get m k v)

  pub has_of_none : (m : Map K V) (k : K) → get m k ≡ none → has m k ≡ false
  unfolding get has
  has_of_none [] k h = refl
  has_of_none ((i, w) ∷ m) k h = ground (arith, has_of_none m k)

  pub has_absent : (m : Map K V) (k : K) → has m k ≡ false → get m k ≡ none
  unfolding get has
  has_absent [] k h = refl
  has_absent ((i, w) ∷ m) k h = ground (arith, has_absent m k)

  pub set-IsDistinct : (m : Map K V) (k : K) (v : V) → IsDistinct m → IsDistinct (set m k v)
  unfolding set has
  set-IsDistinct [] k v h = (refl, tt)
  set-IsDistinct ((i, w) ∷ m) k v h =
      ground (arith, e.same_iff i k, e.same_iff k i, has-set m k i v, set-IsDistinct m k v h.1)

  pub delete-IsDistinct : (m : Map K V) (k : K) → IsDistinct m → IsDistinct (delete m k)
  unfolding delete has
  delete-IsDistinct [] k h = tt
  delete-IsDistinct ((i, w) ∷ m) k h = ground (arith, has-delete m k i, delete-IsDistinct m k h.1)

  -- m.size after a write
  pub length-set :
      (m : Map K V) (k : K) (v : V)
      → length (set m k v) ≡ (if has m k then length m else suc (length m))
  unfolding set has
  length-set [] k v = refl
  length-set ((i, w) ∷ m) k v = ground (arith, length-set m k v)

  pub delete_absent : (m : Map K V) (k : K) → has m k ≡ false → delete m k ≡ m
  unfolding delete has
  delete_absent [] k h = refl
  delete_absent ((i, w) ∷ m) k h = ground (arith, delete_absent m k)

  pub length-delete :
      (m : Map K V) (k : K) → IsDistinct m → has m k ≡ true → suc (length (delete m k)) ≡ length m
  unfolding delete has
  length-delete [] k d h = ground arith
  length-delete ((i, w) ∷ m) k d h =
      ground (arith, e.same_iff i k, length-delete m k d.1, delete_absent m k)

  pub length-delete-le : (m : Map K V) (k : K) → length (delete m k) ≤ length m
  unfolding delete
  length-delete-le [] k = omega arith
  length-delete-le ((i, w) ∷ m) k = ground (arith, length-delete-le m k)

module _ {ℓ κ} {K : Type ℓ} {V : Type κ} ⦃e : Eq K⦄ where
  pub get-set-own : (m : Map K V) (k : K) (v : V) → get (set m k v) k ≡ some v
  get-set-own m k v = get-set m k k v ∙ ap (λ b. if b then some v else get m k) (==_refl k)

  pub get-set-other :
      (m : Map K V) (k j : K) (v : V) → (k == j) ≡ false → get (set m k v) j ≡ get m j
  get-set-other m k j v h = get-set m k j v ∙ ap (λ b. if b then some v else get m j) h

  pub get-delete-other : (m : Map K V) (k j : K) → (k == j) ≡ false → get (delete m k) j ≡ get m j
  get-delete-other m k j h = get-delete m k j ∙ ap (λ b. if b then none else get m j) h

  -- What is still found after a deletion was there, and under another key.
  pub get-delete-found :
      (m : Map K V) (k j : K) (v : V)
      → get (delete m k) j ≡ some v
      → ((k == j) ≡ false) × (get m j ≡ some v)
  get-delete-found m k j v h = elim (Bool-cases (k == j)) [
    | inl q ↦ cc (sym (get-delete m k j ∙ ap (λ b. if b then none else get m j) q) ∙ h)
    | inr q ↦ (q, sym (get-delete-other m k j q) ∙ h)
  ]

pub ruleset map_laws = (get-set, get-delete, has-set, has-delete)

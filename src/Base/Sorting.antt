-- ===== src/Base/Sorting.antt =====
-- JavaScript's stable `sort`, by insertion. `before y x` is that y has to come before x, which a
-- comparator says by a negative number for y and x, and a positive one for x and y.
use js_libp2p.Base.Tests.{
  ℕ, zero, suc, ◌≡◌, refl, sym, ap, subst, ◌∙◌, Bool, true, false, not, ◌&&◌, ◌||◌, List, [], ◌∷◌,
  ◌++◌, arith, if◌then◌else◌, Bool-cases, inl, inr, if_both,
}
use js_libp2p.Base.Lists.{
  All, All-append, All-map, All-filter, All-drop, filter, take, drop, length,
}

module _ {ℓ} {A : Type ℓ} where
  unfoldable pub insert_by : (A → A → Bool) → A → List A → List A
  insert_by before x [] = x ∷ []
  insert_by before x (y ∷ ys) =
      let rest = insert_by before x ys in if before y x then y ∷ rest else x ∷ y ∷ ys

  unfoldable pub sort_by : (A → A → Bool) → List A → List A
  sort_by before [] = []
  sort_by before (x ∷ xs) = insert_by before x (sort_by before xs)

  insert_by-All {κ} :
      (P : A → Type κ) (before : A → A → Bool) (x : A) (xs : List A)
      → P x
      → All P xs
      → All P (insert_by before x xs)
  unfolding insert_by
  insert_by-All P before x [] p h = (p, h)
  insert_by-All P before x (y ∷ ys) p h =
      if_both (All P) (before y x) (h.0, insert_by-All P before x ys p h.1) (p, h)

  pub sort_by-All {κ} :
      (P : A → Type κ) (before : A → A → Bool) (xs : List A) → All P xs → All P (sort_by before xs)
  unfolding sort_by
  sort_by-All P before [] h = h
  sort_by-All P before (x ∷ xs) h =
      insert_by-All P before x (sort_by before xs) h.0 (sort_by-All P before xs h.1)

  -- Each element stands before none that has to come before it.
  abbrev pub IsSortedBy : (A → A → Bool) → List A → Type 0
  IsSortedBy before [] = Unit {0}
  IsSortedBy before (x ∷ xs) = All (λ y. before y x ≡ false) xs × IsSortedBy before xs

  -- What a comparator keeps to.
  pub record IsOrder (before : A → A → Bool) : Type ℓ where
    pub asymmetric : (a b : A) → before a b ≡ true → before b a ≡ false
    pub transitive : (a b c : A) → before a b ≡ false → before b c ≡ false → before a c ≡ false

  -- First by the one comparator, then by the other.
  abbrev pub by_both : (A → A → Bool) → (A → A → Bool) → A → A → Bool
  by_both first second a b = first a b || (not (first b a) && second a b)

  insert_by-IsSortedBy :
      (first second : A → A → Bool)
      → IsOrder first
      → (x : A) (xs : List A)
      → All (λ y. (not (first y x) && (not (first x y) && second y x)) ≡ false) xs
      → IsSortedBy (by_both first second) xs
      → IsSortedBy (by_both first second) (insert_by first x xs)
  unfolding insert_by
  insert_by-IsSortedBy first second o x [] l s = (tt, tt)
  insert_by-IsSortedBy first second o x (y ∷ ys) l (a, s) = elim (Bool-cases (first y x)) [
    | inl e ↦
        let back : by_both first second x y ≡ false = ground (arith, o.asymmetric y x e, e) in
        subst
          (λ b.
            IsSortedBy (by_both first second) (if b then y ∷ insert_by first x ys else x ∷ y ∷ ys))
          (sym e)
          (
            insert_by-All (λ z. by_both first second z y ≡ false) first x ys back a,
            insert_by-IsSortedBy first second o x ys l.1 s,
          )
    | inr e ↦
        subst
          (λ b.
            IsSortedBy (by_both first second) (if b then y ∷ insert_by first x ys else x ∷ y ∷ ys))
          (sym e) ((ground (arith, e, l.0), later ys l.1 a e), (a, s))
  ]
    where
      later :
          (zs : List A)
          → All (λ z. (not (first z x) && (not (first x z) && second z x)) ≡ false) zs
          → All (λ z. by_both first second z y ≡ false) zs
          → first y x ≡ false
          → All (λ z. by_both first second z x ≡ false) zs
      later [] l a e = tt
      later (z ∷ zs) l a e =
          let f : first z y ≡ false = ground (arith, a.0) in
          let g : first z x ≡ false = o.transitive z y x f e in
          (ground (arith, g, l.0), later zs l.1 a.1 e)

  -- A stable sort keeps the order that there was, where the comparator does not decide.
  pub sort_by-stable :
      (first second : A → A → Bool)
      → IsOrder first
      → (xs : List A) → IsSortedBy second xs
      → IsSortedBy (by_both first second) (sort_by first xs)
  unfolding sort_by
  sort_by-stable first second o [] s = tt
  sort_by-stable first second o (x ∷ xs) (l, s) =
      insert_by-IsSortedBy first second o x (sort_by first xs)
        (sort_by-All (λ y. (not (first y x) && (not (first x y) && second y x)) ≡ false) first xs
          (All-map xs (λ y e. ground (arith, e)) l))
        (sort_by-stable first second o xs s)

  -- A sorted list with one element more, which by itself would come last.
  pub sort_by-append :
      (first second : A → A → Bool)
      → IsOrder first
      → (xs : List A) (z : A) → All (λ x. second z x ≡ false) xs
      → IsSortedBy (by_both first second) xs
      → IsSortedBy (by_both first second) (sort_by first (xs ++ (z ∷ [])))
  unfolding sort_by insert_by
  sort_by-append first second o [] z l s = (tt, tt)
  sort_by-append first second o (x ∷ xs) z l (a, s) =
      insert_by-IsSortedBy first second o x (sort_by first (xs ++ (z ∷ [])))
        (sort_by-All (λ y. (not (first y x) && (not (first x y) && second y x)) ≡ false) first
          (xs ++ (z ∷ []))
          (All-append (λ y. (not (first y x) && (not (first x y) && second y x)) ≡ false) xs
            (z ∷ []) (All-map xs (λ y e. ground (arith, e)) a) (ground (arith, l.0), tt)))
        (sort_by-append first second o xs z l.1 s)

  -- What holds of any two elements holds of them in any order.
  insert_by-pairs :
      (before r : A → A → Bool)
      → ((a b : A) → r a b ≡ false → r b a ≡ false)
      → (x : A) (xs : List A) → All (λ y. r y x ≡ false) xs
      → IsSortedBy r xs
      → IsSortedBy r (insert_by before x xs)
  unfolding insert_by
  insert_by-pairs before r swap x [] l s = (tt, tt)
  insert_by-pairs before r swap x (y ∷ ys) l (a, s) =
      if_both (IsSortedBy r) (before y x)
        (
          insert_by-All (λ z. r z y ≡ false) before x ys (swap y x l.0) a,
          insert_by-pairs before r swap x ys l.1 s,
        )
        (l, (a, s))

  pub sort_by-pairs :
      (before r : A → A → Bool)
      → ((a b : A) → r a b ≡ false → r b a ≡ false)
      → (xs : List A) → IsSortedBy r xs
      → IsSortedBy r (sort_by before xs)
  unfolding sort_by
  sort_by-pairs before r swap [] s = s
  sort_by-pairs before r swap (x ∷ xs) (a, s) =
      insert_by-pairs before r swap x (sort_by before xs)
        (sort_by-All (λ y. r y x ≡ false) before xs a) (sort_by-pairs before r swap xs s)

  length-insert_by :
      (before : A → A → Bool) (x : A) (xs : List A)
      → length (insert_by before x xs) ≡ suc (length xs)
  unfolding insert_by
  length-insert_by before x [] = refl
  length-insert_by before x (y ∷ ys) = ground (arith, length-insert_by before x ys)

  pub length-sort_by :
      (before : A → A → Bool) (xs : List A) → length (sort_by before xs) ≡ length xs
  unfolding sort_by
  length-sort_by before [] = refl
  length-sort_by before (x ∷ xs) =
      length-insert_by before x (sort_by before xs) ∙ ap suc (length-sort_by before xs)

  -- One element more, to which all others are so as well.
  pub IsSortedBy-append :
      (before : A → A → Bool) (xs : List A) (z : A)
      → All (λ x. before z x ≡ false) xs
      → IsSortedBy before xs
      → IsSortedBy before (xs ++ (z ∷ []))
  IsSortedBy-append before [] z l h = (tt, tt)
  IsSortedBy-append before (x ∷ xs) z l (a, h) = (
    All-append (λ y. before y x ≡ false) xs (z ∷ []) a (l.0, tt),
    IsSortedBy-append before xs z l.1 h,
  )

  pub IsSortedBy-weaken :
      (r s : A → A → Bool)
      → ((a b : A) → r a b ≡ false → s a b ≡ false)
      → (xs : List A) → IsSortedBy r xs
      → IsSortedBy s xs
  IsSortedBy-weaken r s f [] h = h
  IsSortedBy-weaken r s f (x ∷ xs) (a, h) =
      (All-map xs (λ y e. f y x e) a, IsSortedBy-weaken r s f xs h)

  never-IsSortedBy : (xs : List A) → IsSortedBy (λ a b. false) xs
  never-IsSortedBy [] = tt
  never-IsSortedBy (x ∷ xs) = (all xs, never-IsSortedBy xs)
    where
      all : (ys : List A) → All (λ y. false ≡ false) ys
      all [] = tt
      all (y ∷ ys) = (refl, all ys)

  pub sort_by-IsSortedBy :
      (before : A → A → Bool)
      → IsOrder before
      → (xs : List A) → IsSortedBy before (sort_by before xs)
  sort_by-IsSortedBy before o xs =
      IsSortedBy-weaken (by_both before (λ a b. false)) before (λ a b h. ground arith)
        (sort_by before xs) (sort_by-stable before (λ a b. false) o xs (never-IsSortedBy xs))

  pub filter-IsSortedBy :
      (before : A → A → Bool) (p : A → Bool) (xs : List A)
      → IsSortedBy before xs
      → IsSortedBy before (filter p xs)
  filter-IsSortedBy before p [] h = h
  filter-IsSortedBy before p (x ∷ xs) (a, h) =
      if_both (IsSortedBy before) (p x)
        (All-filter (λ y. before y x ≡ false) p xs a, filter-IsSortedBy before p xs h)
        (filter-IsSortedBy before p xs h)

  -- Whatever is behind a place comes before nothing in front of it.
  pub split-IsSortedBy :
      (before : A → A → Bool) (n : ℕ) (xs : List A)
      → IsSortedBy before xs
      → All (λ x. All (λ y. before y x ≡ false) (drop n xs)) (take n xs)
  split-IsSortedBy before zero xs h = tt
  split-IsSortedBy before (suc n) [] h = tt
  split-IsSortedBy before (suc n) (x ∷ xs) (a, h) =
      (All-drop (λ y. before y x ≡ false) n xs a, split-IsSortedBy before n xs h)

-- ===== src/KadDht/PeerDistanceList/Closest.antt =====
-- Which of the peers that it was offered peer-distance-list.ts holds.
use mathlib.Core.List.{Memᴰ, append-nil, append_assoc}
use mathlib.Core.List.Memᴰ.{head, tail, append_left, append_right}
use js_libp2p.Base.{
  ℕ, zero, suc, ◌≤◌, ◌≡◌, ◌≢◌, refl, sym, subst, ap, ◌⊎◌, inl, inr, true, false, Option, none, some,
  List, [], ◌∷◌, arith, length, take, All, All-map, All-append, ◌++◌, map, Bool-cases, Option-cases,
  Eq, ◌==◌, ◌∙◌,
}
use js_libp2p.KadDht.PeerDistanceList.{
  XorMetric, PeerDistance, PeerDistanceList, init, is_closer_sign, has_peer, insert, last, refuses,
  refuses_after, add_with_kad_id,
}
use js_libp2p.KadDht.PeerDistanceList.Sorted.{
  IsOrder, IsAtMost, IsSorted, All-at, All-take, All-insert, length-take-le, take_of_le,
  length-insert, insert-Memᴰ, insert-el, insert-IsSorted, take-IsSorted, take-or-All, last-farthest,
  last-none,
}

module _ {P I : Type 0} ⦃e : Eq P⦄ (metric : XorMetric) (dht_key : P → List ℕ) where
  -- `add` for one peer after another, with the key that `convertPeerId` gives for it.
  unfoldable pub add_all : PeerDistanceList P I → List (P × I) → PeerDistanceList P I
  add_all l [] = l
  add_all l ((p, i) ∷ ps) = add_all (add_with_kad_id metric l p i (dht_key p)) ps

  -- The peer is in the list, or the list is full and no peer in it is farther.
  abbrev pub IsCovered : List ℕ → ℕ → List (PeerDistance P I) → P → Type 0
  IsCovered key capacity xs p =
      ((y : PeerDistance P I) × Memᴰ y xs × (y.peer ≡ p))
      ⊎ ((capacity ≤ length xs)
          × All (λ x. IsAtMost metric x.distance (metric.xor key (dht_key p))) xs)

  -- Each entry has the distance of its peer.
  abbrev pub IsOwn : List ℕ → PeerDistance P I → Type 0
  IsOwn key x = x.distance ≡ metric.xor key (dht_key x.peer)

  abbrev pub IsDistinct : List (PeerDistance P I) → Type 0
  IsDistinct [] = Unit {0}
  IsDistinct (x ∷ xs) = All (λ y. x.peer ≢ y.peer) xs × IsDistinct xs

  pub record IsClosest (l : PeerDistanceList P I) (offered : List P) : Type 0 where
    pub sorted : IsSorted metric l.peer_distances
    pub bounded : length l.peer_distances ≤ l.capacity
    pub distinct : IsDistinct l.peer_distances
    pub own : All (IsOwn l.origin_dht_key) l.peer_distances
    pub was_offered : All (λ x. Memᴰ x.peer offered) l.peer_distances
    pub covered : All (IsCovered l.origin_dht_key l.capacity l.peer_distances) offered

  has_peer-Memᴰ :
      (xs : List (PeerDistance P I)) (p : P)
      → has_peer xs p ≡ true
      → (y : PeerDistance P I) × Memᴰ y xs × (y.peer ≡ p)
  unfolding has_peer
  has_peer-Memᴰ [] p h = cc
  has_peer-Memᴰ (x ∷ xs) p h = elim (Bool-cases (x.peer == p)) [
    | inl s ↦ (x, head refl, (e.same_iff x.peer p).0 s)
    | inr s ↦ let (y, m, q) = has_peer-Memᴰ xs p (rw s at h) in (y, tail m, q)
  ]

  has_peer-none :
      (xs : List (PeerDistance P I)) (p : P) → has_peer xs p ≡ false → All (λ y. y.peer ≢ p) xs
  unfolding has_peer
  has_peer-none [] p h = tt
  has_peer-none (x ∷ xs) p h = elim (Bool-cases (x.peer == p)) [
    | inl s ↦ cc (rw s at h)
    | inr s ↦ (λ q. cc (s, (e.same_iff x.peer p).1 q), has_peer-none xs p (rw s at h))
  ]

  insert-IsDistinct :
      (xs : List (PeerDistance P I)) (el : PeerDistance P I)
      → All (λ y. y.peer ≢ el.peer) xs
      → IsDistinct xs
      → IsDistinct (insert metric xs el)
  unfolding insert
  insert-IsDistinct [] el n d = (tt, tt)
  insert-IsDistinct (x ∷ xs) el n d =
      elim (Bool-cases (is_closer_sign (metric.compare x.distance el.distance))) [
        | inl c ↦ rw c (
          All-insert metric (λ y. x.peer ≢ y.peer) xs el n.0 d.0,
          insert-IsDistinct xs el n.1 d.1,
        )
        | inr c ↦ rw c ((λ q. n.0 (sym q), All-map xs (λ y k q. k (sym q)) n.1), d)
      ]

  take-IsDistinct : (n : ℕ) (xs : List (PeerDistance P I)) → IsDistinct xs → IsDistinct (take n xs)
  take-IsDistinct zero xs d = tt
  take-IsDistinct (suc n) [] d = tt
  take-IsDistinct (suc n) (x ∷ xs) d =
      (All-take (λ y. x.peer ≢ y.peer) n xs d.0, take-IsDistinct n xs d.1)

  init-IsClosest : (key : List ℕ) (capacity : ℕ) → IsClosest (init key capacity) []
  init-IsClosest key capacity = record {
    sorted = tt;
    bounded = omega arith;
    distinct = tt;
    own = tt;
    was_offered = tt;
    covered = tt;
  }

  refuses-true :
      (capacity : ℕ) (xs : List (PeerDistance P I)) (d : List ℕ)
      → refuses metric capacity xs d ≡ true
      → (length xs ≡ capacity)
        × ((z : PeerDistance P I) × (last xs ≡ some z)
            × (is_closer_sign (metric.compare d z.distance) ≡ false))
  refuses-true capacity xs d h =
      let at_last : (o : Option (PeerDistance P I))
          → last xs ≡ o
          → refuses_after metric capacity (length xs) d o ≡ true =
        λ o s. subst (λ o. refuses_after metric capacity (length xs) d o ≡ true) s h in
      elim (Option-cases (last xs)) [
        | inl n ↦ cc (at_last none n)
        | inr (z, s) ↦ let h' = at_last (some z) s in (ground arith, (z, s, ground arith))
      ]

  refuses-false :
      (capacity : ℕ) (xs : List (PeerDistance P I)) (d : List ℕ)
      → refuses metric capacity xs d ≡ false
      → length xs ≡ capacity
      → (capacity ≡ 0)
        ⊎ ((z : PeerDistance P I) × (last xs ≡ some z)
            × (is_closer_sign (metric.compare d z.distance) ≡ true))
  refuses-false capacity xs d h k =
      let at_last : (o : Option (PeerDistance P I))
          → last xs ≡ o
          → refuses_after metric capacity (length xs) d o ≡ false =
        λ o s. subst (λ o. refuses_after metric capacity (length xs) d o ≡ false) s h in
      elim (Option-cases (last xs)) [
        | inl n ↦ inl (sym k ∙ last-none xs n)
        | inr (z, s) ↦ let h' = at_last (some z) s in inr (z, s, ground arith)
      ]

  module _ (order : IsOrder metric) where
    -- A new peer that the list takes leaves the peers covered that were.
    insert-IsCovered :
        (key : List ℕ) (capacity : ℕ) (xs : List (PeerDistance P I)) (el : PeerDistance P I) (p : P)
        → IsSorted metric xs
        → length xs ≤ capacity
        → All (IsOwn key) (insert metric xs el)
        → refuses metric capacity xs el.distance ≡ false
        → IsCovered key capacity xs p
        → IsCovered key capacity (take capacity (insert metric xs el)) p
    insert-IsCovered key capacity xs el p sorted bounded own r (inl (y, m, q)) =
        elim (take-or-All metric order capacity (insert metric xs el) y
          (insert-IsSorted metric order xs el sorted) (insert-Memᴰ metric xs el y m)) [
            | inl k ↦ inl (y, k, q)
            | inr (l, b) ↦
                let far : y.distance ≡ metric.xor key (dht_key p) =
                  All-at (IsOwn key) (insert metric xs el) y own (insert-Memᴰ metric xs el y m)
                  ∙ ap (λ o. metric.xor key (dht_key o)) q in
                inr (
                  l,
                  subst
                      (λ d.
                        All (λ x. IsAtMost metric x.distance d)
                          (take capacity (insert metric xs el)))
                      far b,
                )
          ]
    insert-IsCovered key capacity xs el p sorted bounded own r (inr (c, a)) =
        let full : capacity ≤ length (insert metric xs el) =
          omega (arith, length-insert metric xs el) in
        let target = metric.xor key (dht_key p) in
        let near : (IsAtMost metric el.distance target)
            → IsCovered key capacity (take capacity (insert metric xs el)) p =
          λ n. inr (
            take_of_le capacity (insert metric xs el) full,
            All-take (λ x. IsAtMost metric x.distance target) capacity (insert metric xs el)
                (All-insert metric (λ x. IsAtMost metric x.distance target) xs el n a),
          ) in
        elim (refuses-false capacity xs el.distance r (omega arith)) [
          | inl zero_capacity ↦ inr (
            take_of_le capacity (insert metric xs el) full,
            subst (λ n. All (λ x. IsAtMost metric x.distance target) (take n (insert metric xs el)))
                (sym zero_capacity) tt,
          )
          | inr (z, s, close) ↦
              let (behind, there) = last-farthest metric order xs z sorted s in
              near (
                order.chain el.distance z.distance target
                  (order.not_both el.distance z.distance close)
                  (All-at (λ x. IsAtMost metric x.distance target) xs z a there))
        ]

    refused-IsCovered :
        (key : List ℕ) (capacity : ℕ) (xs : List (PeerDistance P I)) (p : P)
        → IsSorted metric xs
        → refuses metric capacity xs (metric.xor key (dht_key p)) ≡ true
        → IsCovered key capacity xs p
    refused-IsCovered key capacity xs p sorted r =
        let target = metric.xor key (dht_key p) in
        let (full, (z, s, far)) = refuses-true capacity xs target r in
        let (behind, there) = last-farthest metric order xs z sorted s in
        inr (
          omega (arith, full),
          All-map xs (λ x k. order.chain x.distance z.distance target k far) behind,
        )

    taken-IsCovered :
        (key : List ℕ) (capacity : ℕ) (xs : List (PeerDistance P I)) (p : P) (i : I)
        → IsSorted metric xs
        → IsCovered key capacity
            (take capacity (
              insert metric xs
                (record { peer = p; details = i; distance = metric.xor key (dht_key p) })))
            p
    taken-IsCovered key capacity xs p i sorted =
        let el : PeerDistance P I = record {
          peer = p;
          details = i;
          distance = metric.xor key (dht_key p);
        } in
        elim (take-or-All metric order capacity (insert metric xs el) el
          (insert-IsSorted metric order xs el sorted) (insert-el metric xs el)) [
            | inl k ↦ inl (el, k, refl)
            | inr (l, b) ↦ inr (l, b)
          ]

    kept-IsClosest :
        (l : PeerDistanceList P I) (offered : List P) (p : P)
        → IsClosest l offered
        → IsCovered l.origin_dht_key l.capacity l.peer_distances p
        → IsClosest l (offered ++ (p ∷ []))
    kept-IsClosest l offered p c k = record {
      sorted = c.sorted;
      bounded = c.bounded;
      distinct = c.distinct;
      own = c.own;
      was_offered = All-map l.peer_distances (λ x m. append_left (p ∷ []) m) c.was_offered;
      covered = All-append _ offered (p ∷ []) c.covered (k, tt);
    }

    taken-IsClosest :
        (l : PeerDistanceList P I) (offered : List P) (p : P) (i : I)
        → IsClosest l offered
        → has_peer l.peer_distances p ≡ false
        → refuses metric l.capacity l.peer_distances (metric.xor l.origin_dht_key (dht_key p))
          ≡ false
        → IsClosest
            (record l {
              peer_distances = take l.capacity (
                  insert metric l.peer_distances (record {
                    peer = p;
                    details = i;
                    distance = metric.xor l.origin_dht_key (dht_key p);
                  }));
            })
            (offered ++ (p ∷ []))
    taken-IsClosest l offered p i c new r =
        let el : PeerDistance P I = record {
          peer = p;
          details = i;
          distance = metric.xor l.origin_dht_key (dht_key p);
        } in
        let xs = l.peer_distances in
        let own : All (IsOwn l.origin_dht_key) (insert metric xs el) =
          All-insert metric (IsOwn l.origin_dht_key) xs el refl c.own in
        record {
          sorted =
              take-IsSorted metric order l.capacity (insert metric xs el)
                (insert-IsSorted metric order xs el c.sorted);
          bounded = length-take-le l.capacity (insert metric xs el);
          distinct =
              take-IsDistinct l.capacity (insert metric xs el)
                (insert-IsDistinct xs el (has_peer-none xs p new) c.distinct);
          own = All-take (IsOwn l.origin_dht_key) l.capacity (insert metric xs el) own;
          was_offered =
              All-take (λ x. Memᴰ x.peer (offered ++ (p ∷ []))) l.capacity (insert metric xs el)
                (All-insert metric (λ x. Memᴰ x.peer (offered ++ (p ∷ []))) xs el
                  (append_right offered (head refl))
                  (All-map xs (λ x m. append_left (p ∷ []) m) c.was_offered));
          covered =
              All-append _ offered (p ∷ [])
                (All-map offered
                  (λ o k.
                    insert-IsCovered l.origin_dht_key l.capacity xs el o c.sorted c.bounded own r k)
                  c.covered)
                (taken-IsCovered l.origin_dht_key l.capacity xs p i c.sorted, tt);
        }

    add-IsClosest :
        (l : PeerDistanceList P I) (offered : List P) (p : P) (i : I)
        → IsClosest l offered
        → IsClosest (add_with_kad_id metric l p i (dht_key p)) (offered ++ (p ∷ []))
    unfolding add_with_kad_id
    add-IsClosest l offered p i c = elim (Bool-cases (has_peer l.peer_distances p)) [
      | inl old ↦ rw old (kept-IsClosest l offered p c (inl (has_peer-Memᴰ l.peer_distances p old)))
      | inr new ↦
          elim (Bool-cases (
            refuses metric l.capacity l.peer_distances (metric.xor l.origin_dht_key (dht_key p)))) [
              | inl r ↦
                  rw (new, r)
                    (kept-IsClosest l offered p c
                      (refused-IsCovered l.origin_dht_key l.capacity l.peer_distances p c.sorted r))
              | inr r ↦ rw (new, r) (taken-IsClosest l offered p i c new r)
            ]
    ]

    run-IsClosest :
        (l : PeerDistanceList P I) (offered : List P) (ps : List (P × I))
        → IsClosest l offered
        → IsClosest (add_all l ps) (offered ++ map (λ o. o.0) ps)
    unfolding add_all
    run-IsClosest l offered [] c = rw (append-nil offered) c
    run-IsClosest l offered ((p, i) ∷ ps) c =
        subst (IsClosest (add_all (add_with_kad_id metric l p i (dht_key p)) ps))
          (append_assoc offered (p ∷ []) (map (λ o. o.0) ps))
          (run-IsClosest (add_with_kad_id metric l p i (dht_key p)) (offered ++ (p ∷ [])) ps
            (add-IsClosest l offered p i c))

    -- After any peers were added to a new list, it is sorted by distance from the key, holds at most
    -- `capacity` peers, no peer twice and only peers that were added, each with its own distance; and
    -- an added peer that it does not hold is at least as far as every peer in it, and it is full.
    pub add_all-IsClosest :
        (key : List ℕ) (capacity : ℕ) (ps : List (P × I))
        → IsClosest (add_all (init key capacity) ps) (map (λ o. o.0) ps)
    add_all-IsClosest key capacity ps =
        run-IsClosest (init key capacity) [] ps (init-IsClosest key capacity)

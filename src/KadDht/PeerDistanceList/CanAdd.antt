-- ===== src/KadDht/PeerDistanceList/CanAdd.antt =====
-- canAddKadId of peer-distance-list.ts against addWithKadId.
use mathlib.Core.List.{Memᴰ}
use mathlib.Core.List.Memᴰ.{head, tail}
use js_libp2p.Base.{
  ℕ, zero, suc, ◌≤◌, ◌<◌, ◌≡◌, ◌≢◌, refl, sym, ap, ◌∙◌, subst, inl, inr, true, false, Option, none,
  some, List, [], ◌∷◌, arith, length, take, ltb, Bool-cases, Option-cases, Eq, ==_refl,
}
use js_libp2p.KadDht.PeerDistanceList.{
  XorMetric, PeerDistance, PeerDistanceList, is_closer_sign, has_peer, insert, last, refuses,
  refuses_after, add_with_kad_id, can_add_kad_id,
}
use js_libp2p.KadDht.PeerDistanceList.Sorted.{IsOrder, length-insert, insert-el, last-none}

take_all {ℓ} : {A : Type ℓ} (n : ℕ) (xs : List A) → length xs ≤ n → take n xs ≡ xs
take_all zero [] h = refl
take_all zero (x ∷ xs) h = absurd (omega arith)
take_all (suc n) [] h = refl
take_all (suc n) (x ∷ xs) h = ap (◌∷◌ x) (take_all n xs (omega arith))

module _ {P I : Type 0} (metric : XorMetric) where
  closer_than_only :
      (x el z : PeerDistance P I)
      → some x ≡ some z
      → is_closer_sign (metric.compare el.distance z.distance) ≡ true
      → is_closer_sign (metric.compare el.distance x.distance) ≡ true
  closer_than_only x el z s c = cc

module _ {P I : Type 0} (metric : XorMetric) (order : IsOrder metric) where
  -- What is closer than the last peer goes before it.
  insert_before_last :
      (xs : List (PeerDistance P I)) (el z : PeerDistance P I)
      → last xs ≡ some z
      → is_closer_sign (metric.compare el.distance z.distance) ≡ true
      → Memᴰ el (take (length xs) (insert metric xs el))
  unfolding insert
  insert_before_last [] el z s c = cc
  insert_before_last (x ∷ []) el z s c =
      let not_before : is_closer_sign (metric.compare x.distance el.distance) ≡ false =
        order.not_both el.distance x.distance (closer_than_only metric x el z s c) in
      rw not_before (head refl)
  insert_before_last (x ∷ y ∷ ys) el z s c =
      elim (Bool-cases (is_closer_sign (metric.compare x.distance el.distance))) [
        | inl b ↦ rw b (tail (insert_before_last (y ∷ ys) el z s c))
        | inr b ↦ rw b (head refl)
      ]

module _ {P I : Type 0} ⦃e : Eq P⦄ where
  has_peer-of :
      (xs : List (PeerDistance P I)) (y : PeerDistance P I) → Memᴰ y xs → has_peer xs y.peer ≡ true
  unfolding has_peer
  has_peer-of [] y m = elim m [ ]
  has_peer-of (x ∷ xs) y (head q) = rw (sym q) (rw (==_refl y.peer) refl)
  has_peer-of (x ∷ xs) y (tail m) = ground (arith, has_peer-of xs y m)

not_empty : (n capacity : ℕ) → ltb n capacity ≡ false → 0 < capacity → n ≢ 0
not_empty n capacity h pos e = ground arith

module _ {P I : Type 0} (metric : XorMetric) where
  roomy :
      (capacity size : ℕ) (d : List ℕ) (o : Option (PeerDistance P I))
      → size < capacity
      → refuses_after metric capacity size d o ≡ false
  roomy capacity size d none h = refl
  roomy capacity size d (some z) h = ground arith

module _ {P I : Type 0} ⦃e : Eq P⦄ (metric : XorMetric) (order : IsOrder metric) where
  add_refused :
      (l : PeerDistanceList P I) (p : P) (i : I) (kad_id : List ℕ)
      → refuses metric l.capacity l.peer_distances (metric.xor l.origin_dht_key kad_id) ≡ true
      → (add_with_kad_id metric l p i kad_id).peer_distances ≡ l.peer_distances
  unfolding add_with_kad_id
  add_refused l p i kad_id r = elim (Bool-cases (has_peer l.peer_distances p)) [
    | inl old ↦ rw (add_with_kad_id, old) refl
    | inr new ↦ rw (add_with_kad_id, new, r) refl
  ]

  add_taken :
      (l : PeerDistanceList P I) (p : P) (i : I) (kad_id : List ℕ)
      → has_peer l.peer_distances p ≡ false
      → refuses metric l.capacity l.peer_distances (metric.xor l.origin_dht_key kad_id) ≡ false
      → Memᴰ
          (record { peer = p; details = i; distance = metric.xor l.origin_dht_key kad_id })
          (take l.capacity (
            insert metric l.peer_distances
              (record { peer = p; details = i; distance = metric.xor l.origin_dht_key kad_id })))
      → has_peer (add_with_kad_id metric l p i kad_id).peer_distances p ≡ true
  unfolding add_with_kad_id
  add_taken l p i kad_id new r m =
      rw (add_with_kad_id, new, r)
        (has_peer-of
          (take l.capacity (
            insert metric l.peer_distances
              (record { peer = p; details = i; distance = metric.xor l.origin_dht_key kad_id })))
          (record { peer = p; details = i; distance = metric.xor l.origin_dht_key kad_id }) m)

  -- For a list of at most `capacity` peers, which is not 0, and a peer that is not in it,
  -- `canAddKadId` returns whether the peer is in the list after `addWithKadId`.
  pub can_add_kad_id-add :
      (l : PeerDistanceList P I) (p : P) (i : I) (kad_id : List ℕ)
      → length l.peer_distances ≤ l.capacity
      → 0 < l.capacity
      → has_peer l.peer_distances p ≡ false
      → can_add_kad_id metric l kad_id
        ≡ some (has_peer (add_with_kad_id metric l p i kad_id).peer_distances p)
  unfolding can_add_kad_id
  can_add_kad_id-add l p i kad_id bounded pos new =
      let d = metric.xor l.origin_dht_key kad_id in
      let xs = l.peer_distances in
      let el : PeerDistance P I = record { peer = p; details = i; distance = d } in
      elim (Bool-cases (ltb (length xs) l.capacity)) [
        | inl room ↦
            let all : take l.capacity (insert metric xs el) ≡ insert metric xs el =
              take_all l.capacity (insert metric xs el)
                (ground (arith, length-insert metric xs el)) in
            let r : refuses metric l.capacity xs d ≡ false =
              roomy metric l.capacity (length xs) d (last xs) (ground arith) in
            rw (can_add_kad_id, room)
              (ap some (
                sym (
                  add_taken l p i kad_id new r
                    (subst (Memᴰ el) (sym all) (insert-el metric xs el)))))
        | inr full ↦ elim (Option-cases (last xs)) [
          | inl n ↦ absurd (not_empty (length xs) l.capacity full pos (last-none xs n))
          | inr (z, s) ↦
              let size : length xs ≡ l.capacity = ground arith in
              elim (Bool-cases (is_closer_sign (metric.compare d z.distance))) [
                | inl c ↦
                    let r : refuses metric l.capacity xs d ≡ false =
                      subst (λ o. refuses_after metric l.capacity (length xs) d o ≡ false) (sym s)
                        (ground arith) in
                    rw (can_add_kad_id, full, s, c)
                      (ap some (
                        sym (
                          add_taken l p i kad_id new r (
                            subst (λ n. Memᴰ el (take n (insert metric xs el))) size
                              (insert_before_last metric order xs el z s c)))))
                | inr c ↦
                    let r : refuses metric l.capacity xs d ≡ true =
                      subst (λ o. refuses_after metric l.capacity (length xs) d o ≡ true) (sym s)
                        (ground arith) in
                    rw (can_add_kad_id, full, s, c)
                      (ap some (sym (ap (λ ys. has_peer ys p) (add_refused l p i kad_id r) ∙ new)))
              ]
        ]
      ]

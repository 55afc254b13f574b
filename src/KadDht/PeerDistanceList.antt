-- ===== src/KadDht/PeerDistanceList.antt =====
-- packages/kad-dht/src/peer-distance-list.ts
-- `P` is the type of peer ids, which `equals` compares, and `I` is what is kept with a peer unread: the
-- rest of its PeerInfo, and its path. `xor` and `xorCompare`
-- are the functions of the package uint8arrays, on byte lists.
pub mod Sorted
pub mod Closest
pub mod CanAdd
use js_libp2p.Base.{
  ℕ, suc, ◌+◌, ◌<◌, ◌≡◌, Bool, true, false, not, Option, none, some, List, [], ◌∷◌, ◌++◌,
  if◌then◌else◌, ltb, length, nat_beq, take, ◌==◌, Eq,
}

-- What `xorCompare` returns: -1, 0 or 1.
pub data Comparison : Type 0 where
  closer same_distance farther : Comparison

abbrev pub is_closer_sign : Comparison → Bool
is_closer_sign closer = true
is_closer_sign _ = false

pub record XorMetric : Type 0 where
  pub xor : List ℕ → List ℕ → List ℕ
  pub compare : List ℕ → List ℕ → Comparison

pub record PeerDistance (P I : Type 0) : Type 0 where
  pub peer : P
  pub details : I
  pub distance : List ℕ

pub record PeerDistanceList (P I : Type 0) : Type 0 where
  pub origin_dht_key : List ℕ
  pub capacity : ℕ
  pub peer_distances : List (PeerDistance P I)

module _ {P I : Type 0} where
  abbrev pub init : List ℕ → ℕ → PeerDistanceList P I
  init key capacity = record { origin_dht_key = key; capacity = capacity; peer_distances = [] }

  -- `this.peerDistances[this.peerDistances.length - 1]`
  abbrev pub last : List (PeerDistance P I) → Option (PeerDistance P I)
  last [] = none
  last (x ∷ []) = some x
  last (x ∷ y ∷ ys) = last (y ∷ ys)

module _ {P I : Type 0} (metric : XorMetric) where
  -- The element goes before the first that is not closer than it, or at the end.
  unfoldable pub insert : List (PeerDistance P I) → PeerDistance P I → List (PeerDistance P I)
  insert [] el = el ∷ []
  insert (x ∷ xs) el =
      let rest = insert xs el in
      if is_closer_sign (metric.compare x.distance el.distance) then x ∷ rest else el ∷ x ∷ xs

  -- The list, of which these are the length and the last peer, is full, and that peer is not farther
  -- than the new one.
  abbrev pub refuses_after : ℕ → ℕ → List ℕ → Option (PeerDistance P I) → Bool
  refuses_after capacity size distance none = false
  refuses_after capacity size distance (some x) =
      if nat_beq size capacity
      then not (is_closer_sign (metric.compare distance x.distance))
      else false

  abbrev pub refuses : ℕ → List (PeerDistance P I) → List ℕ → Bool
  refuses capacity xs distance = refuses_after capacity (length xs) distance (last xs)

  -- With a capacity of 0 the furthest peer of the empty list does not exist, and reading its
  -- distance throws: `none`.
  unfoldable pub can_add_kad_id : PeerDistanceList P I → List ℕ → Option Bool
  can_add_kad_id l kad_id =
      if ltb (length l.peer_distances) l.capacity then some true else elim (last l.peer_distances) [
        | none ↦ none
        | some x ↦
            some (is_closer_sign (metric.compare (metric.xor l.origin_dht_key kad_id) x.distance))
      ]

  -- `isCloser` of the key that `convertPeerId` gives.
  unfoldable pub is_closer : PeerDistanceList P I → List ℕ → Bool
  is_closer l dht_key = elim (last l.peer_distances) [
    | none ↦ true
    | some x ↦ is_closer_sign (metric.compare (metric.xor dht_key l.origin_dht_key) x.distance)
  ]

module _ {P I : Type 0} ⦃e : Eq P⦄ where
  unfoldable pub has_peer : List (PeerDistance P I) → P → Bool
  has_peer [] p = false
  has_peer (x ∷ xs) p = if x.peer == p then true else has_peer xs p

  unfoldable pub add_with_kad_id :
      XorMetric → PeerDistanceList P I → P → I → List ℕ → PeerDistanceList P I
  add_with_kad_id metric l peer details kad_id =
      let distance = metric.xor l.origin_dht_key kad_id in
      if has_peer l.peer_distances peer
      then l
      else if refuses metric l.capacity l.peer_distances distance
      then l
      else record l {
        peer_distances = take l.capacity (
            insert metric l.peer_distances
              (record { peer = peer; details = details; distance = distance }));
      }

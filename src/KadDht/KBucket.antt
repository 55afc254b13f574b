-- ===== src/KadDht/KBucket.antt =====
-- packages/kad-dht/src/routing-table/k-bucket.ts
-- `P` is the type of peer ids. `to_base2` is `uint8ArrayToString(kadId, 'base2')` of the package
-- uint8arrays, as the list of the characters. A bucket changes in place: a function that changes a
-- leaf gives the trie with the new leaf. Calls are made one at a time: from the start of a call of
-- `add`, `remove` or `stop` to its end no other one runs, so that nothing comes between the awaits of
-- `onMove` in a split. The answers of `verify` and `ping` are the arguments of `add`.
pub mod Trie
pub mod Lookup
pub mod Added
use js_libp2p.Base.{
  ℕ, zero, suc, ◌+◌, ◌<◌, ◌≡◌, Bool, true, false, not, Option, none, some, List, [], ◌∷◌, ◌++◌,
  if◌then◌else◌, ltb, length, nat_beq, ◌&&◌, take, filter, ◌==◌, Eq, bytes_eq,
}

pub record Peer (P : Type 0) : Type 0 where
  pub kad_id : List ℕ
  pub peer_id : P
  pub last_ping : ℕ

pub record LeafBucket (P : Type 0) : Type 0 where
  pub prefix : List ℕ
  pub depth : ℕ
  pub peers : List (Peer P)

-- The prefix and the depth of an internal bucket are not read.
pub data Bucket (P : Type 0) : Type 0 where
  leaf : LeafBucket P → Bucket P
  internal : Bucket P → Bucket P → Bucket P

pub record KBucket (P : Type 0) : Type 0 where
  pub root : Bucket P
  pub local_peer : Option (Peer P)
  pub prefix_length : ℕ
  pub split_threshold : ℕ
  pub k_bucket_size : ℕ
  pub number_of_nodes_to_ping : ℕ
  pub last_ping_threshold : ℕ

-- `bitString[i] === '0'`, false beyond the end.
abbrev pub is_zero_at : List ℕ → ℕ → Bool
is_zero_at [] i = false
is_zero_at (c ∷ cs) zero = nat_beq c b'0'
is_zero_at (c ∷ cs) (suc i) = is_zero_at cs i

module _ {P : Type 0} where
  abbrev pub empty_root : Bucket P
  empty_root = leaf (record { prefix = []; depth = 0; peers = [] })

  unfoldable pub stop : KBucket P → KBucket P
  stop k = record k { root = empty_root }

  unfoldable pub find_bucket : List ℕ → Bucket P → ℕ → LeafBucket P
  find_bucket bits (leaf b) i = b
  find_bucket bits (internal left right) i =
      let a = find_bucket bits left (i + 1) in
      let b = find_bucket bits right (i + 1) in if is_zero_at bits i then a else b

  -- The trie in which the leaf that `find_bucket` gives is replaced.
  unfoldable pub change_bucket : (LeafBucket P → Bucket P) → List ℕ → Bucket P → ℕ → Bucket P
  change_bucket f bits (leaf b) i = f b
  change_bucket f bits (internal left right) i =
      let a = change_bucket f bits left (i + 1) in
      let b = change_bucket f bits right (i + 1) in
      if is_zero_at bits i then internal a right else internal left b

  -- `bucket.peers[this._indexOf(bucket, kadId)]`
  unfoldable pub peer_of : List (Peer P) → List ℕ → Option (Peer P)
  peer_of [] kad_id = none
  peer_of (p ∷ ps) kad_id = if p.kad_id == kad_id then some p else peer_of ps kad_id

  -- `bucket.peers.splice(index, 1)` where there is such an index
  unfoldable pub splice_out : List (Peer P) → List ℕ → List (Peer P)
  splice_out [] kad_id = []
  splice_out (p ∷ ps) kad_id = if p.kad_id == kad_id then ps else p ∷ splice_out ps kad_id

  unfoldable pub count_bucket : Bucket P → ℕ
  count_bucket (leaf b) = length b.peers
  count_bucket (internal left right) = count_bucket left + count_bucket right

  unfoldable pub iterate : Bucket P → List (Peer P)
  iterate (leaf b) = b.peers
  iterate (internal left right) = iterate left ++ iterate right

  abbrev pub needs_ping : ℕ → Peer P → ℕ → Bool
  needs_ping now peer threshold = ltb (peer.last_ping + threshold) now

  -- A stable sort by `lastPing`, the oldest first.
  unfoldable pub insert_by_ping : Peer P → List (Peer P) → List (Peer P)
  insert_by_ping p [] = p ∷ []
  insert_by_ping p (q ∷ qs) =
      let rest = insert_by_ping p qs in if ltb q.last_ping p.last_ping then q ∷ rest else p ∷ q ∷ qs

  unfoldable pub sort_by_ping : List (Peer P) → List (Peer P)
  sort_by_ping [] = []
  sort_by_ping (p ∷ ps) = insert_by_ping p (sort_by_ping ps)

  abbrev pub push_peer : Peer P → LeafBucket P → Bucket P
  push_peer peer b = leaf (record b { peers = b.peers ++ (peer ∷ []) })

-- What one pass of `_add` comes to: it returns, tries again after a split, or waits for `verify` or
-- for `ping`.
pub data Next (P : Type 0) : Type 0 where
  returns : Next P
  tries_again : Next P
  verifies : Next P
  pings : List (Peer P) → Next P

module _ {P : Type 0} (to_base2 : List ℕ → List ℕ) where
  abbrev pub determine_bucket : KBucket P → List ℕ → LeafBucket P
  determine_bucket k kad_id = find_bucket (to_base2 kad_id) k.root 0

  unfoldable pub get : KBucket P → List ℕ → Option (Peer P)
  get k kad_id = peer_of (determine_bucket k kad_id).peers kad_id

  unfoldable pub remove : KBucket P → List ℕ → KBucket P
  remove k kad_id = record k {
    root =
        change_bucket (λ b. leaf (record b { peers = splice_out b.peers kad_id })) (to_base2 kad_id)
          k.root 0;
  }

  -- The whole of `_split`, where no other call runs while it awaits `onMove`. The bit that decides
  -- the half of a peer is the one at the depth of the bucket.
  unfoldable pub split : LeafBucket P → Bucket P
  split b =
      internal
        (leaf (record {
          prefix = b'0' ∷ [];
          depth = b.depth + 1;
          peers = filter (λ p. is_zero_at (to_base2 p.kad_id) b.depth) b.peers;
        }))
        (leaf (record {
          prefix = b'1' ∷ [];
          depth = b.depth + 1;
          peers = filter (λ p. not (is_zero_at (to_base2 p.kad_id) b.depth)) b.peers;
        }))

module _ {P : Type 0} ⦃e : Eq P⦄ (to_base2 : List ℕ → List ℕ) where
  abbrev pub is_local : Option (Peer P) → Peer P → Bool
  is_local none peer = false
  is_local (some l) peer = peer.peer_id == l.peer_id

  -- The peers of a full bucket that are pinged before one of them makes room.
  unfoldable pub peers_to_ping : ℕ → KBucket P → List (Peer P) → List (Peer P)
  peers_to_ping now k peers = take k.number_of_nodes_to_ping (
      sort_by_ping (
        filter
          (λ p.
            if is_local k.local_peer p
            then false
            else not (ltb now (p.last_ping + k.last_ping_threshold)))
          peers))

  -- `_add` up to its return, the end of its split, or the answer that it waits for.
  unfoldable pub add_pass : ℕ → KBucket P → Peer P → KBucket P × Next P
  add_pass now k peer =
      let b = determine_bucket to_base2 k peer.kad_id in
      elim (peer_of b.peers peer.kad_id) [
        | some old ↦ (k, returns)
        | none ↦
            if nat_beq (length b.peers) k.split_threshold && ltb b.depth k.prefix_length
            then (
              record k { root = change_bucket (split to_base2) (to_base2 peer.kad_id) k.root 0 },
              tries_again,
            )
            else if ltb (length b.peers) k.k_bucket_size
            then if needs_ping now peer k.last_ping_threshold then (k, verifies) else (
              record k { root = change_bucket (push_peer peer) (to_base2 peer.kad_id) k.root 0 },
              returns,
            )
            else (k, pings (peers_to_ping now k b.peers))
      ]

-- What a pass meets: the time at its start, the answer of `verify` and the time when it comes, and
-- the peers that `ping` yields.
pub record Turn (P : Type 0) : Type 0 where
  pub now : ℕ
  pub verified : Bool
  pub verified_at : ℕ
  pub to_evict : List (Peer P)

module _ {P : Type 0} ⦃e : Eq P⦄ (to_base2 : List ℕ → List ℕ) where
  unfoldable pub remove_all : KBucket P → List (Peer P) → KBucket P
  remove_all k [] = k
  remove_all k (p ∷ ps) = remove_all (remove to_base2 k p.kad_id) ps

  -- `_add` with all that it calls, a turn for each of its passes. A call for which the turns end
  -- before it returns is left there, as by an abort.
  unfoldable pub add_turns : List (Turn P) → KBucket P → Peer P → KBucket P
  add_turns [] k peer = k
  add_turns (t ∷ ts) k peer =
      let pass = add_pass to_base2 t.now k peer in
      let again = add_turns ts pass.0 peer in
      let verified = add_turns ts pass.0 (record peer { last_ping = t.verified_at }) in
      let evicted = add_turns ts (remove_all pass.0 t.to_evict) peer in
      elim pass.1 [
        | returns ↦ pass.0
        | tries_again ↦ again
        | verifies ↦ if t.verified then verified else pass.0
        | pings _ ↦ elim t.to_evict [ [] ↦ pass.0 | _ ∷ _ ↦ evicted ]
      ]

  -- `add`, where it has no promise for the same peer: a new peer has no ping yet.
  unfoldable pub add : List (Turn P) → KBucket P → List ℕ → P → KBucket P
  add turns k kad_id peer_id =
      add_turns turns k (record { kad_id = kad_id; peer_id = peer_id; last_ping = 0 })

-- ===== src/KadDht/KBucket/Trie.antt =====
-- The shape of the trie of k-bucket.ts, and its operations.
use js_libp2p.Base.{
  ℕ, ◌+◌, ◌≤◌, ◌<◌, ◌≡◌, ◌≢◌, refl, subst, ap, inl, inr, Bool, true, false, not, none, List, [],
  ◌∷◌, ◌++◌, arith, length, length-append, length-filter-le, filter, All, All-map, All-append,
  All-filter, Bool-cases, ◌==◌, bytes_eq,
}
use js_libp2p.KadDht.KBucket.{
  Peer, LeafBucket, Bucket, leaf, internal, is_zero_at, change_bucket, find_bucket, peer_of,
  splice_out, push_peer, split,
}

not-true : (b : Bool) → not b ≡ true → b ≡ false
not-true true h = cc
not-true false h = refl

module _ {P : Type 0} where
  -- No two peers with one Kademlia id.
  abbrev pub IsUnique : List (Peer P) → Type 0
  IsUnique [] = Unit {0}
  IsUnique (p ∷ ps) = All (λ q. p.kad_id ≢ q.kad_id) ps × IsUnique ps

module _ {P : Type 0} (to_base2 : List ℕ → List ℕ) (prefix_length size : ℕ) where
  -- A trie below `d` bits, of peers whose ids satisfy `Q`: a leaf holds at most `size` peers, of
  -- different ids, its depth is where it stands, at most `prefix_length`, and an internal bucket has
  -- the ids with the next bit 0 on the left and the others on the right.
  abbrev pub IsTrie : ℕ → (List ℕ → Type 0) → Bucket P → Type 0
  IsTrie d Q (leaf b) =
      (b.depth ≡ d)
      × (d ≤ prefix_length)
      × (length b.peers ≤ size)
      × All (λ p. Q p.kad_id) b.peers
      × IsUnique b.peers
  IsTrie d Q (internal left right) =
      IsTrie (d + 1) (λ k. Q k × (is_zero_at (to_base2 k) d ≡ true)) left
      × IsTrie (d + 1) (λ k. Q k × (is_zero_at (to_base2 k) d ≡ false)) right

  -- A change of the leaf for an id, known to satisfy `R`, that keeps a trie keeps the whole trie.
  pub change-IsTrie :
      (f : LeafBucket P → Bucket P) (kad_id : List ℕ) (R : LeafBucket P → Type 0)
      → ((b : LeafBucket P) (d : ℕ) (Q : List ℕ → Type 0)
          → Q kad_id
          → R b
          → IsTrie d Q (leaf b)
          → IsTrie d Q (f b))
      → (t : Bucket P) (d : ℕ) (Q : List ℕ → Type 0) → Q kad_id
      → R (find_bucket (to_base2 kad_id) t d)
      → IsTrie d Q t
      → IsTrie d Q (change_bucket f (to_base2 kad_id) t d)
  unfolding change_bucket find_bucket
  change-IsTrie f kad_id R keep (leaf b) d Q q r h = keep b d Q q r h
  change-IsTrie f kad_id R keep (internal left right) d Q q r h =
      elim (Bool-cases (is_zero_at (to_base2 kad_id) d)) [
        | inl z ↦ rw z (
          change-IsTrie f kad_id R keep left (d + 1) (λ k. Q k × (is_zero_at (to_base2 k) d ≡ true))
              (q, z) (rw z at r) h.0,
          h.1,
        )
        | inr z ↦ rw z (
          h.0,
          change-IsTrie f kad_id R keep right (d + 1)
              (λ k. Q k × (is_zero_at (to_base2 k) d ≡ false)) (q, z) (rw z at r) h.1,
        )
      ]

  All-filter_both :
      (Q : List ℕ → Type 0) (keep : Peer P → Bool) (ps : List (Peer P))
      → All (λ p. Q p.kad_id) ps
      → All (λ p. Q p.kad_id × (keep p ≡ true)) (filter keep ps)
  All-filter_both Q keep [] h = tt
  All-filter_both Q keep (p ∷ ps) h = elim (Bool-cases (keep p)) [
    | inl k ↦ rw k ((h.0, k), All-filter_both Q keep ps h.1)
    | inr k ↦ rw k (All-filter_both Q keep ps h.1)
  ]

  filter-IsUnique :
      (keep : Peer P → Bool) (ps : List (Peer P)) → IsUnique ps → IsUnique (filter keep ps)
  filter-IsUnique keep [] h = tt
  filter-IsUnique keep (p ∷ ps) h = elim (Bool-cases (keep p)) [
    | inl k ↦ rw k (All-filter (λ q. p.kad_id ≢ q.kad_id) keep ps h.0, filter-IsUnique keep ps h.1)
    | inr k ↦ rw k (filter-IsUnique keep ps h.1)
  ]

  pub split-IsTrie :
      (b : LeafBucket P) (d : ℕ) (Q : List ℕ → Type 0)
      → b.depth < prefix_length
      → IsTrie d Q (leaf b)
      → IsTrie d Q (split to_base2 b)
  unfolding split
  split-IsTrie b d Q deeper (depth, lo, size_ok, on_path, unique) =
      let bit : Peer P → Bool = λ p. is_zero_at (to_base2 p.kad_id) b.depth in
      (
        (
          ap (λ n. n + 1) depth,
          omega (arith, depth),
          omega (arith, length-filter-le bit b.peers),
          subst
              (λ n.
                All (λ p. Q p.kad_id × (is_zero_at (to_base2 p.kad_id) n ≡ true))
                  (filter bit b.peers))
              depth (All-filter_both Q bit b.peers on_path),
          filter-IsUnique bit b.peers unique,
        ),
        (
          ap (λ n. n + 1) depth,
          omega (arith, depth),
          omega (arith, length-filter-le (λ p. not (bit p)) b.peers),
          subst
              (λ n.
                All (λ p. Q p.kad_id × (is_zero_at (to_base2 p.kad_id) n ≡ false))
                  (filter (λ p. not (bit p)) b.peers))
              depth
              (All-map (filter (λ p. not (bit p)) b.peers) (λ p q. (q.0, not-true (bit p) q.1))
                (All-filter_both Q (λ p. not (bit p)) b.peers on_path)),
          filter-IsUnique (λ p. not (bit p)) b.peers unique,
        ),
      )

  peer_of-none :
      (ps : List (Peer P)) (kad_id : List ℕ)
      → peer_of ps kad_id ≡ none
      → All (λ q. q.kad_id ≢ kad_id) ps
  unfolding peer_of
  peer_of-none [] kad_id h = tt
  peer_of-none (p ∷ ps) kad_id h = elim (Bool-cases (p.kad_id == kad_id)) [
    | inl k ↦ cc (rw k at h)
    | inr k ↦
        (λ q. cc (k, (bytes_eq.same_iff p.kad_id kad_id).1 q), peer_of-none ps kad_id (rw k at h))
  ]

  snoc-IsUnique :
      (ps : List (Peer P)) (p : Peer P)
      → All (λ q. q.kad_id ≢ p.kad_id) ps
      → IsUnique ps
      → IsUnique (ps ++ (p ∷ []))
  snoc-IsUnique [] p n u = (tt, tt)
  snoc-IsUnique (q ∷ qs) p n u =
      (All-append (λ x. q.kad_id ≢ x.kad_id) qs (p ∷ []) u.0 (n.0, tt), snoc-IsUnique qs p n.1 u.1)

  pub push-IsTrie :
      (peer : Peer P) (b : LeafBucket P) (d : ℕ) (Q : List ℕ → Type 0)
      → Q peer.kad_id
      → (peer_of b.peers peer.kad_id ≡ none) × (length b.peers < size)
      → IsTrie d Q (leaf b)
      → IsTrie d Q (push_peer peer b)
  push-IsTrie peer b d Q q (new, room) (depth, lo, size_ok, on_path, unique) = (
    depth,
    lo,
    omega (arith, length-append b.peers (peer ∷ [])),
    All-append (λ p. Q p.kad_id) b.peers (peer ∷ []) on_path (q, tt),
    snoc-IsUnique b.peers peer (peer_of-none b.peers peer.kad_id new) unique,
  )

  All-splice_out :
      (R : Peer P → Type 0) (ps : List (Peer P)) (kad_id : List ℕ)
      → All R ps
      → All R (splice_out ps kad_id)
  unfolding splice_out
  All-splice_out R [] kad_id h = tt
  All-splice_out R (p ∷ ps) kad_id h = elim (Bool-cases (p.kad_id == kad_id)) [
    | inl k ↦ rw k h.1
    | inr k ↦ rw k (h.0, All-splice_out R ps kad_id h.1)
  ]

  length-splice_out :
      (ps : List (Peer P)) (kad_id : List ℕ) → length (splice_out ps kad_id) ≤ length ps
  unfolding splice_out
  length-splice_out [] kad_id = omega arith
  length-splice_out (p ∷ ps) kad_id = ground (arith, length-splice_out ps kad_id)

  splice_out-IsUnique :
      (ps : List (Peer P)) (kad_id : List ℕ) → IsUnique ps → IsUnique (splice_out ps kad_id)
  unfolding splice_out
  splice_out-IsUnique [] kad_id u = tt
  splice_out-IsUnique (p ∷ ps) kad_id u = elim (Bool-cases (p.kad_id == kad_id)) [
    | inl k ↦ rw k u.1
    | inr k ↦
        rw k (
          All-splice_out (λ q. p.kad_id ≢ q.kad_id) ps kad_id u.0,
          splice_out-IsUnique ps kad_id u.1,
        )
  ]

  pub splice-IsTrie :
      (kad_id : List ℕ) (b : LeafBucket P) (d : ℕ) (Q : List ℕ → Type 0)
      → IsTrie d Q (leaf b)
      → IsTrie d Q (leaf (record b { peers = splice_out b.peers kad_id }))
  splice-IsTrie kad_id b d Q (depth, lo, size_ok, on_path, unique) = (
    depth,
    lo,
    omega (arith, length-splice_out b.peers kad_id),
    All-splice_out (λ p. Q p.kad_id) b.peers kad_id on_path,
    splice_out-IsUnique b.peers kad_id unique,
  )

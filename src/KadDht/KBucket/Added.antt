-- ===== src/KadDht/KBucket/Added.antt =====
-- k-bucket.ts: what a call of `add` comes to with enough turns.
use js_libp2p.Base.{
  ℕ, zero, suc, ◌+◌, ◌-◌, ◌<◌, ◌≤◌, ◌≡◌, ◌≢◌, ◌⊎◌, refl, inl, inr, Bool, true, false, none, some,
  List, [], ◌∷◌, ◌++◌, arith, length, ltb, Bool-cases, Option-cases, Eq, ◌==◌, ==_refl, bytes_eq,
  nat_beq, ◌&&◌, if◌then◌else◌,
}
use js_libp2p.KadDht.KBucket.{
  Turn, Next, returns, tries_again, verifies, pings, add_turns, add, split, Peer, Bucket, leaf,
  internal, KBucket, is_zero_at, find_bucket, change_bucket, peer_of, push_peer, add_pass, get,
  determine_bucket, needs_ping,
}

module _ {P : Type 0} (to_base2 : List ℕ → List ℕ) where
  find-split :
      (bits : List ℕ) (t : Bucket P) (i : ℕ)
      → (find_bucket bits (change_bucket (split to_base2) bits t i) i).depth
        ≡ (find_bucket bits t i).depth + 1
  unfolding find_bucket change_bucket split
  find-split bits (leaf b) i = ground arith
  find-split bits (internal left right) i = elim (Bool-cases (is_zero_at bits i)) [
    | inl z ↦ rw z (rw z (find-split bits left (i + 1)))
    | inr z ↦ rw z (rw z (find-split bits right (i + 1)))
  ]

module _ {P : Type 0} where
  find-push :
      (bits : List ℕ) (peer : Peer P) (t : Bucket P) (i : ℕ)
      → (find_bucket bits (change_bucket (push_peer peer) bits t i) i).peers
        ≡ (find_bucket bits t i).peers ++ (peer ∷ [])
  unfolding find_bucket change_bucket
  find-push bits peer (leaf b) i = refl
  find-push bits peer (internal left right) i = elim (Bool-cases (is_zero_at bits i)) [
    | inl z ↦ rw z (rw z (find-push bits peer left (i + 1)))
    | inr z ↦ rw z (rw z (find-push bits peer right (i + 1)))
  ]

  peer_of-push :
      (ps : List (Peer P)) (peer : Peer P)
      → peer_of ps peer.kad_id ≡ none
      → peer_of (ps ++ (peer ∷ [])) peer.kad_id ≢ none
  unfolding peer_of
  peer_of-push [] peer h = rw (==_refl peer.kad_id) (λ q. cc)
  peer_of-push (p ∷ ps) peer h = go (p.kad_id == peer.kad_id) h (peer_of-push ps peer)
    where
      go :
          (b : Bool)
          → (if b then some p else peer_of ps peer.kad_id) ≡ none
          → (peer_of ps peer.kad_id ≡ none → peer_of (ps ++ (peer ∷ [])) peer.kad_id ≢ none)
          → (if b then some p else peer_of (ps ++ (peer ∷ [])) peer.kad_id) ≢ none
      go true h later = λ q. cc
      go false h later = later h

module _ {P : Type 0} where
  abbrev turn_at : ℕ → Turn P
  turn_at now = record { now = now; verified = true; verified_at = now; to_evict = [] }

  -- `n` turns at one time, in which `verify` succeeds and all pinged peers respond.
  abbrev pub answering : ℕ → ℕ → List (Turn P)
  answering now zero = []
  answering now (suc n) = turn_at now ∷ answering now n

module _ {P : Type 0} ⦃e : Eq P⦄ (to_base2 : List ℕ → List ℕ) where
  -- The peer is in the table, or its bucket is full.
  abbrev pub IsSettled : KBucket P → List ℕ → Type 0
  IsSettled k kad_id =
      (get to_base2 k kad_id ≢ none)
      ⊎ (k.k_bucket_size ≤ length (determine_bucket to_base2 k kad_id).peers)

  abbrev depth_of : KBucket P → Peer P → ℕ
  depth_of k peer = (determine_bucket to_base2 k peer.kad_id).depth

  abbrev verifications : ℕ → KBucket P → Peer P → ℕ
  verifications now k peer = if needs_ping now peer k.last_ping_threshold then 1 else 0

  -- What a pass comes to, and how much is left to do after it.
  Leads : ℕ → KBucket P → Peer P → KBucket P × Next P → Type 0
  Leads now k peer (k', returns) = IsSettled k' peer.kad_id
  Leads now k peer (k', pings _) = IsSettled k' peer.kad_id
  Leads now k peer (k', verifies) = (k' ≡ k) × (needs_ping now peer k.last_ping_threshold ≡ true)
  Leads now k peer (k', tries_again) =
      (depth_of k' peer ≡ depth_of k peer + 1)
      × (depth_of k peer < k.prefix_length)
      × (k'.prefix_length ≡ k.prefix_length)
      × (k'.last_ping_threshold ≡ k.last_ping_threshold)

  add_pass-Leads :
      (now : ℕ) (k : KBucket P) (peer : Peer P) → Leads now k peer (add_pass to_base2 now k peer)
  unfolding add_pass get Leads
  add_pass-Leads now k peer =
      let b = determine_bucket to_base2 k peer.kad_id in
      elim (Option-cases (peer_of b.peers peer.kad_id)) [
        | inr (old, f) ↦ rw (add_pass, f) (inl (λ q. cc (q, f)))
        | inl new ↦
            elim (Bool-cases
              (nat_beq (length b.peers) k.split_threshold && ltb b.depth k.prefix_length)) [
                | inl s ↦
                    rw (add_pass, new, s)
                      (
                        find-split to_base2 (to_base2 peer.kad_id) k.root 0,
                        ground arith,
                        refl,
                        refl,
                      )
                | inr s ↦ elim (Bool-cases (ltb (length b.peers) k.k_bucket_size)) [
                  | inl room ↦ elim (Bool-cases (needs_ping now peer k.last_ping_threshold)) [
                    | inl n ↦ rw (add_pass, new, s, room, n) (refl, n)
                    | inr n ↦
                        rw (add_pass, new, s, room, n)
                          (inl (
                            rw (find-push (to_base2 peer.kad_id) peer k.root 0)
                              (peer_of-push b.peers peer new)))
                  ]
                  | inr full ↦ rw (add_pass, new, s, full) (inr (ground arith))
                ]
              ]
      ]

  again-lt :
      (now n : ℕ) (k k' : KBucket P) (peer : Peer P)
      → depth_of k' peer ≡ depth_of k peer + 1
      → depth_of k peer < k.prefix_length
      → k'.prefix_length ≡ k.prefix_length
      → k'.last_ping_threshold ≡ k.last_ping_threshold
      → k.prefix_length - depth_of k peer + verifications now k peer < suc n
      → k'.prefix_length - depth_of k' peer + verifications now k' peer < n
  again-lt now n k k' peer d l p t h = rw (d, p, t) (omega (arith, l, h))

  add_turns-IsSettled :
      (now n : ℕ) (k : KBucket P) (peer : Peer P)
      → k.prefix_length - depth_of k peer + verifications now k peer < n
      → IsSettled (add_turns to_base2 (answering now n) k peer) peer.kad_id
  unfolding add_turns Leads
  add_turns-IsSettled now zero k peer h = absurd (omega (arith, h))
  add_turns-IsSettled now (suc n) k peer h =
      go (add_pass to_base2 now k peer) (add_pass-Leads now k peer)
        (λ k' peer' h'. add_turns-IsSettled now n k' peer' h')
    where
      go :
          (pass : KBucket P × Next P)
          → Leads now k peer pass
          → ((k' : KBucket P) (peer' : Peer P)
              → k'.prefix_length - depth_of k' peer' + verifications now k' peer' < n
              → IsSettled (add_turns to_base2 (answering now n) k' peer') peer'.kad_id)
          → IsSettled
              (elim pass.1 [
                | returns ↦ pass.0
                | tries_again ↦ add_turns to_base2 (answering now n) pass.0 peer
                | verifies ↦
                    add_turns to_base2 (answering now n) pass.0 (record peer { last_ping = now })
                | pings _ ↦ pass.0
              ])
              peer.kad_id
      go (k', returns) l ih = l
      go (k', pings ps) l ih = l
      go (k', tries_again) (d, lt, p, t) ih = ih k' peer (again-lt now n k k' peer d lt p t h)
      go (k', verifies) (same, stale) ih =
          rw same (ih k (record peer { last_ping = now }) (ground (arith, h, stale)))

  -- After two passes more than `prefixLength` at the most, a call of `add` for which `verify` succeeds
  -- and every pinged peer responds, all at one time, has left a table that has a peer under the id of
  -- the new one, or whose bucket for this id is full.
  pub add-IsSettled :
      (now : ℕ) (k : KBucket P) (kad_id : List ℕ) (peer_id : P)
      → IsSettled (add to_base2 (answering now (k.prefix_length + 2)) k kad_id peer_id) kad_id
  unfolding add
  add-IsSettled now k kad_id peer_id =
      add_turns-IsSettled now (k.prefix_length + 2) k
        (record { kad_id = kad_id; peer_id = peer_id; last_ping = 0 }) (ground arith)

-- ===== src/KadDht/KBucket/Lookup.antt =====
-- k-bucket.ts after any calls, one at a time: the trie, and `get` against `toIterable`.
use js_libp2p.Base.{
  if◌then◌else◌, ℕ, ◌+◌, ◌<◌, ◌≡◌, ◌≢◌, refl, sym, subst, inl, inr, true, false, none, some, List,
  [], ◌∷◌, arith, length, ltb, All, All-map, All-append, Bool-cases, Option-cases, Eq, ◌==◌,
  ==_refl, bytes_eq, nat_beq, ◌&&◌,
}
use js_libp2p.KadDht.KBucket.{
  Peer, Bucket, leaf, internal, KBucket, is_zero_at, find_bucket, peer_of, splice_out, push_peer,
  Turn, Next, returns, tries_again, verifies, pings, remove_all, add_turns, add, split, remove,
  add_pass, get, determine_bucket, empty_root, iterate, stop, needs_ping,
}
use js_libp2p.KadDht.KBucket.Trie.{
  IsTrie, IsUnique, change-IsTrie, split-IsTrie, push-IsTrie, splice-IsTrie,
}

All-both {ℓ κ μ} :
    {A : Type ℓ} (Q : A → Type κ) (R : A → Type μ) (xs : List A)
    → All Q xs
    → All R xs
    → All (λ x. Q x × R x) xs
All-both Q R [] h k = tt
All-both Q R (x ∷ xs) h k = ((h.0, k.0), All-both Q R xs h.1 k.1)

module _ {P : Type 0} where
  peer_of_first : (p : Peer P) (ps : List (Peer P)) → peer_of (p ∷ ps) p.kad_id ≡ some p
  unfolding peer_of
  peer_of_first p ps = rw (==_refl p.kad_id) refl

  peer_of_later :
      (p q : Peer P) (ps : List (Peer P))
      → p.kad_id ≢ q.kad_id
      → peer_of ps q.kad_id ≡ some q
      → peer_of (p ∷ ps) q.kad_id ≡ some q
  unfolding peer_of
  peer_of_later p q ps n h = elim (Bool-cases (p.kad_id == q.kad_id)) [
    | inl k ↦ absurd (n ((bytes_eq.same_iff p.kad_id q.kad_id).0 k))
    | inr k ↦ rw k h
  ]

  peer_of-IsUnique : (ps : List (Peer P)) → IsUnique ps → All (λ p. peer_of ps p.kad_id ≡ some p) ps
  peer_of-IsUnique [] u = tt
  peer_of-IsUnique (p ∷ ps) u = (
    peer_of_first p ps,
    All-map ps (λ q h. peer_of_later p q ps h.0 h.1)
        (All-both (λ q. p.kad_id ≢ q.kad_id) (λ q. peer_of ps q.kad_id ≡ some q) ps u.0
          (peer_of-IsUnique ps u.1)),
  )

-- The calls of the operations of the table, each of which ends before the next begins.
pub data Step (P : Type 0) : Type 0 where
  adds : List (Turn P) → List ℕ → P → Step P
  removes : List ℕ → Step P
  stops : Step P

module _ {P : Type 0} (to_base2 : List ℕ → List ℕ) where
  abbrev pub IsTable : KBucket P → Type 0
  IsTable k = IsTrie to_base2 k.prefix_length k.k_bucket_size 0 (λ id. Unit {0}) k.root

  iterate-All :
      (n size d : ℕ) (Q : List ℕ → Type 0) (t : Bucket P)
      → IsTrie to_base2 n size d Q t
      → All (λ p. Q p.kad_id) (iterate t)
  unfolding iterate
  iterate-All n size d Q (leaf b) (depth, lo, size_ok, on_path, unique) = on_path
  iterate-All n size d Q (internal left right) h =
      All-append (λ p. Q p.kad_id) (iterate left) (iterate right)
        (All-map (iterate left) (λ p q. q.0)
          (iterate-All n size (d + 1) (λ k. Q k × (is_zero_at (to_base2 k) d ≡ true)) left h.0))
        (All-map (iterate right) (λ p q. q.0)
          (iterate-All n size (d + 1) (λ k. Q k × (is_zero_at (to_base2 k) d ≡ false)) right h.1))

  -- The peer is found where the bits of its id lead.
  abbrev IsFound : Bucket P → ℕ → Peer P → Type 0
  IsFound t d p = peer_of (find_bucket (to_base2 p.kad_id) t d).peers p.kad_id ≡ some p

  iterate-IsFound :
      (n size d : ℕ) (Q : List ℕ → Type 0) (t : Bucket P)
      → IsTrie to_base2 n size d Q t
      → All (IsFound t d) (iterate t)
  unfolding iterate find_bucket
  iterate-IsFound n size d Q (leaf b) (depth, lo, size_ok, on_path, unique) =
      peer_of-IsUnique b.peers unique
  iterate-IsFound n size d Q (internal left right) h =
      let Left : List ℕ → Type 0 = λ k. Q k × (is_zero_at (to_base2 k) d ≡ true) in
      let Right : List ℕ → Type 0 = λ k. Q k × (is_zero_at (to_base2 k) d ≡ false) in
      All-append (IsFound (internal left right) d) (iterate left) (iterate right)
        (All-map (iterate left) (λ p f. rw (f.1.1) f.0)
          (All-both (IsFound left (d + 1)) (λ p. Left p.kad_id) (iterate left)
            (iterate-IsFound n size (d + 1) Left left h.0)
            (iterate-All n size (d + 1) Left left h.0)))
        (All-map (iterate right) (λ p f. rw (f.1.1) f.0)
          (All-both (IsFound right (d + 1)) (λ p. Right p.kad_id) (iterate right)
            (iterate-IsFound n size (d + 1) Right right h.1)
            (iterate-All n size (d + 1) Right right h.1)))

  remove-IsTable :
      (k : KBucket P) (kad_id : List ℕ) → IsTable k → IsTable (remove to_base2 k kad_id)
  unfolding remove
  remove-IsTable k kad_id h =
      change-IsTrie to_base2 k.prefix_length k.k_bucket_size
        (λ b. leaf (record b { peers = splice_out b.peers kad_id })) kad_id (λ b. Unit {0})
        (λ b d Q q r t. splice-IsTrie to_base2 k.prefix_length k.k_bucket_size kad_id b d Q t)
        k.root 0 (λ id. Unit {0}) tt tt h

module _ {P : Type 0} ⦃e : Eq P⦄ (to_base2 : List ℕ → List ℕ) where
  add_pass-IsTable :
      (now : ℕ) (k : KBucket P) (peer : Peer P)
      → IsTable to_base2 k
      → IsTable to_base2 (add_pass to_base2 now k peer).0
  unfolding add_pass
  add_pass-IsTable now k peer h =
      let b = determine_bucket to_base2 k peer.kad_id in
      elim (Option-cases (peer_of b.peers peer.kad_id)) [
        | inr (old, f) ↦ rw (add_pass, f) h
        | inl new ↦
            elim (Bool-cases
              (nat_beq (length b.peers) k.split_threshold && ltb b.depth k.prefix_length)) [
                | inl s ↦
                    rw (add_pass, new, s)
                      (change-IsTrie to_base2 k.prefix_length k.k_bucket_size (split to_base2)
                        peer.kad_id (λ b. b.depth < k.prefix_length)
                        (λ b d Q q r t.
                          split-IsTrie to_base2 k.prefix_length k.k_bucket_size b d Q r t)
                        k.root 0 (λ id. Unit {0}) tt (ground arith) h)
                | inr s ↦ elim (Bool-cases (ltb (length b.peers) k.k_bucket_size)) [
                  | inl room ↦ elim (Bool-cases (needs_ping now peer k.last_ping_threshold)) [
                    | inl n ↦ rw (add_pass, new, s, room, n) h
                    | inr n ↦
                        rw (add_pass, new, s, room, n)
                          (change-IsTrie to_base2 k.prefix_length k.k_bucket_size (push_peer peer)
                            peer.kad_id
                            (λ b.
                              (peer_of b.peers peer.kad_id ≡ none)
                              × (length b.peers < k.k_bucket_size))
                            (λ b d Q q r t.
                              push-IsTrie to_base2 k.prefix_length k.k_bucket_size peer b d Q q r t)
                            k.root 0 (λ id. Unit {0}) tt (new, ground arith) h)
                  ]
                  | inr full ↦ rw (add_pass, new, s, full) h
                ]
              ]
      ]

  remove_all-IsTable :
      (k : KBucket P) (ps : List (Peer P))
      → IsTable to_base2 k
      → IsTable to_base2 (remove_all to_base2 k ps)
  unfolding remove_all
  remove_all-IsTable k [] h = h
  remove_all-IsTable k (p ∷ ps) h =
      remove_all-IsTable (remove to_base2 k p.kad_id) ps (remove-IsTable to_base2 k p.kad_id h)

  add_turns-IsTable :
      (ts : List (Turn P)) (k : KBucket P) (peer : Peer P)
      → IsTable to_base2 k
      → IsTable to_base2 (add_turns to_base2 ts k peer)
  unfolding add_turns
  add_turns-IsTable [] k peer h = h
  add_turns-IsTable (t ∷ ts) k peer h =
      go (add_pass to_base2 t.now k peer) (add_pass-IsTable t.now k peer h)
        (λ k' peer' h'. add_turns-IsTable ts k' peer' h')
    where
      go :
          (pass : KBucket P × Next P)
          → IsTable to_base2 pass.0
          → ((k' : KBucket P) (peer' : Peer P)
              → IsTable to_base2 k'
              → IsTable to_base2 (add_turns to_base2 ts k' peer'))
          → IsTable to_base2 (elim pass.1 [
            | returns ↦ pass.0
            | tries_again ↦ add_turns to_base2 ts pass.0 peer
            | verifies ↦
                if t.verified
                then add_turns to_base2 ts pass.0 (record peer { last_ping = t.verified_at })
                else pass.0
            | pings _ ↦ elim t.to_evict [
              | [] ↦ pass.0
              | _ ∷ _ ↦ add_turns to_base2 ts (remove_all to_base2 pass.0 t.to_evict) peer
            ]
          ])
      go (k', returns) h' ih = h'
      go (k', tries_again) h' ih = ih k' peer h'
      go (k', verifies) h' ih = elim (Bool-cases t.verified) [
        | inl v ↦ rw v (ih k' (record peer { last_ping = t.verified_at }) h')
        | inr v ↦ rw v h'
      ]
      go (k', pings ps) h' ih = evicts t.to_evict
        where
          evicts :
              (es : List (Peer P))
              → IsTable to_base2 (elim es [
                | [] ↦ k'
                | _ ∷ _ ↦ add_turns to_base2 ts (remove_all to_base2 k' t.to_evict) peer
              ])
          evicts [] = h'
          evicts (x ∷ es) =
              ih (remove_all to_base2 k' t.to_evict) peer (remove_all-IsTable k' t.to_evict h')

  unfoldable pub run : KBucket P → List (Step P) → KBucket P
  run k [] = k
  run k (adds turns kad_id peer_id ∷ steps) = run (add to_base2 turns k kad_id peer_id) steps
  run k (removes kad_id ∷ steps) = run (remove to_base2 k kad_id) steps
  run k (stops ∷ steps) = run (stop k) steps

  run-IsTable_lem :
      (k : KBucket P) (steps : List (Step P)) → IsTable to_base2 k → IsTable to_base2 (run k steps)
  unfolding run stop add
  run-IsTable_lem k [] h = h
  run-IsTable_lem k (adds turns kad_id peer_id ∷ steps) h =
      run-IsTable_lem (add to_base2 turns k kad_id peer_id) steps
        (add_turns-IsTable turns k (record { kad_id = kad_id; peer_id = peer_id; last_ping = 0 }) h)
  run-IsTable_lem k (removes kad_id ∷ steps) h =
      run-IsTable_lem (remove to_base2 k kad_id) steps (remove-IsTable to_base2 k kad_id h)
  run-IsTable_lem k (stops ∷ steps) h =
      run-IsTable_lem (stop k) steps (refl, omega arith, omega arith, tt, tt)

  -- After any calls of `add`, `remove` and `stop` on a new table, each of which ends before the next
  -- begins, and whatever `verify` and `ping` answer, the root is a trie: each leaf holds at most
  -- `kBucketSize` peers, of different ids, all with the leaf's bits, at a depth of at most
  -- `prefixLength`.
  pub run-IsTable :
      (k : KBucket P) (steps : List (Step P)) → k.root ≡ empty_root → IsTable to_base2 (run k steps)
  run-IsTable k steps h = run-IsTable_lem k steps (
      subst (IsTrie to_base2 k.prefix_length k.k_bucket_size 0 (λ id. Unit {0})) (sym h)
        (refl, omega arith, omega arith, tt, tt))

  -- After any calls of `add`, `remove` and `stop` on a new table, each of which ends before the next
  -- begins, and whatever `verify` and `ping` answer, `get` finds every peer of `toIterable` under its
  -- Kademlia id.
  pub get-iterate :
      (k : KBucket P) (steps : List (Step P))
      → k.root ≡ empty_root
      → All (λ p. get to_base2 (run k steps) p.kad_id ≡ some p) (iterate (run k steps).root)
  unfolding get
  get-iterate k steps h =
      let k' = run k steps in
      iterate-IsFound to_base2 k'.prefix_length k'.k_bucket_size 0 (λ id. Unit {0}) k'.root
        (run-IsTable k steps h)

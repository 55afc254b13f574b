-- ===== src/KadDht/Runs.antt =====
-- Runs of the parts of kad-dht, and their theorems at concrete inputs.
use Prim.Native.Nat.{bit_xor}
use js_libp2p.Base.{
  ℕ, zero, suc, ◌/◌, ◌%◌, ◌^◌, ◌++◌, none, some, All, ◌+◌, ◌≡◌, refl, true, false, List, [], ◌∷◌,
  map, arith, if◌then◌else◌, ltb, nat_eq,
}
use js_libp2p.KadDht.KBucket.{
  leaf, KBucket, Peer, Turn, add, add_turns, remove_all, peers_to_ping, sort_by_ping,
  insert_by_ping, empty_root, get, remove, add_pass, change_bucket, find_bucket, peer_of,
  splice_out, split, iterate,
}
use js_libp2p.KadDht.KBucket.Added.{answering, IsSettled, add-IsSettled}
use js_libp2p.KadDht.KBucket.Lookup.{Step, adds, removes, run, IsTable, run-IsTable, get-iterate}
use js_libp2p.KadDht.PeerDistanceList.{
  XorMetric, Comparison, closer, same_distance, farther, is_closer_sign, init, insert, has_peer,
  add_with_kad_id,
}
use js_libp2p.KadDht.PeerDistanceList.Sorted.{IsOrder}
use js_libp2p.KadDht.PeerDistanceList.{PeerDistanceList, can_add_kad_id}
use js_libp2p.KadDht.PeerDistanceList.CanAdd.{can_add_kad_id-add}
use js_libp2p.KadDht.PeerDistanceList.Closest.{add_all, IsClosest, add_all-IsClosest}

xor_bytes : List ℕ → List ℕ → List ℕ
xor_bytes [] bs = []
xor_bytes (a ∷ as') [] = []
xor_bytes (a ∷ as') (b ∷ bs) = bit_xor a b ∷ xor_bytes as' bs

compare_bytes : List ℕ → List ℕ → Comparison
compare_bytes [] [] = same_distance
compare_bytes [] (b ∷ bs) = closer
compare_bytes (a ∷ as') [] = farther
compare_bytes (a ∷ as') (b ∷ bs) =
    let rest = compare_bytes as' bs in if ltb a b then closer else if ltb b a then farther else rest

abbrev bytes_metric : XorMetric
bytes_metric = record { xor = xor_bytes; compare = compare_bytes }

not_itself : (a : List ℕ) → is_closer_sign (compare_bytes a a) ≡ false
unfolding compare_bytes
not_itself [] = refl
not_itself (x ∷ xs) = ground (arith, not_itself xs)

not_both :
    (a b : List ℕ)
    → is_closer_sign (compare_bytes a b) ≡ true
    → is_closer_sign (compare_bytes b a) ≡ false
unfolding compare_bytes
not_both [] [] h = refl
not_both [] (b ∷ bs) h = refl
not_both (a ∷ as') [] h = cc
not_both (a ∷ as') (b ∷ bs) h = ground (arith, not_both as' bs)

chain :
    (a b c : List ℕ)
    → is_closer_sign (compare_bytes b a) ≡ false
    → is_closer_sign (compare_bytes c b) ≡ false
    → is_closer_sign (compare_bytes c a) ≡ false
unfolding compare_bytes
chain [] [] c h k = k
chain [] (b ∷ bs) [] h k = cc
chain [] (b ∷ bs) (c ∷ cs) h k = refl
chain (a ∷ as') [] c h k = cc
chain (a ∷ as') (b ∷ bs) [] h k = cc
chain (a ∷ as') (b ∷ bs) (c ∷ cs) h k = ground (arith, chain as' bs cs)

bytes_metric-IsOrder : IsOrder bytes_metric
bytes_metric-IsOrder = record { not_itself = not_itself; not_both = not_both; chain = chain }

-- The key of peer `n` is the byte `n`.
abbrev key_of : ℕ → List ℕ
key_of n = n ∷ []

abbrev four_peers : List (ℕ × List ℕ)
four_peers = (9, []) ∷ (1, []) ∷ (9, []) ∷ (6, []) ∷ []

add_all-IsClosest_example :
    IsClosest bytes_metric key_of
      (add_all bytes_metric key_of (init (4 ∷ []) 2) four_peers)
      (9 ∷ 1 ∷ 9 ∷ 6 ∷ [])
add_all-IsClosest_example =
    add_all-IsClosest bytes_metric key_of bytes_metric-IsOrder (4 ∷ []) 2 four_peers

-- The distances from 4 are 13, 5 and 2.
four_peers_kept :
    map (λ x. x.peer) (add_all bytes_metric key_of (init (4 ∷ []) 2) four_peers).peer_distances
    ≡ 6 ∷ 1 ∷ []
unfolding add_all add_with_kad_id has_peer insert xor_bytes compare_bytes
four_peers_kept = refl

-- The characters of the lowest `n` bits of a byte, the highest first.
bits : ℕ → ℕ → List ℕ
bits zero b = []
bits (suc n) b = (b / 2 ^ n % 2 + b'0') ∷ bits n b

to_base2 : List ℕ → List ℕ
to_base2 [] = []
to_base2 (b ∷ bs) = bits 8 b ++ to_base2 bs

abbrev small_table : KBucket ℕ
small_table = record {
  root = empty_root;
  local_peer = none;
  prefix_length = 2;
  split_threshold = 1;
  k_bucket_size = 1;
  number_of_nodes_to_ping = 3;
  last_ping_threshold = 10;
}

abbrev turn_at : ℕ → List (Peer ℕ) → Turn ℕ
turn_at n evicted = record { now = n; verified = true; verified_at = n; to_evict = evicted }

abbrev peer_at : ℕ → ℕ → Peer ℕ
peer_at n t = record { kad_id = n ∷ []; peer_id = n; last_ping = t }

-- The second peer finds its bucket full and comes into one of the halves when it tries again. The
-- fourth finds no room at the depth limit, and takes the place of the third, which does not answer.
abbrev four_steps : List (Step ℕ)
four_steps =
    adds (turn_at 100 [] ∷ turn_at 100 [] ∷ []) (3 ∷ []) 3
    ∷ adds (turn_at 101 [] ∷ turn_at 101 [] ∷ turn_at 101 [] ∷ []) (200 ∷ []) 200
    ∷ adds (turn_at 102 [] ∷ turn_at 102 [] ∷ turn_at 102 [] ∷ []) (130 ∷ []) 130
    ∷ adds (turn_at 120 (peer_at 130 102 ∷ []) ∷ turn_at 121 [] ∷ turn_at 122 [] ∷ []) (131 ∷ [])
        131
    ∷ removes (9 ∷ [])
    ∷ []

run-IsTable_example : IsTable to_base2 (run to_base2 small_table four_steps)
run-IsTable_example = run-IsTable to_base2 small_table four_steps refl

get-iterate_example :
    All
      (λ p. get to_base2 (run to_base2 small_table four_steps) p.kad_id ≡ some p)
      (iterate (run to_base2 small_table four_steps).root)
get-iterate_example = get-iterate to_base2 small_table four_steps refl

-- The bucket is full and is split twice, and the two peers come apart at the second bit.
abbrev full_table : KBucket ℕ
full_table = record small_table {
  root = leaf (record { prefix = []; depth = 0; peers = peer_at 3 100 ∷ [] });
}

add-IsSettled_example :
    IsSettled to_base2 (add to_base2 (answering 130 4) full_table (100 ∷ []) 100) (100 ∷ [])
add-IsSettled_example = add-IsSettled to_base2 130 full_table (100 ∷ []) 100

full_table_peers :
    iterate (add to_base2 (answering 130 4) full_table (100 ∷ []) 100).root
    ≡ peer_at 3 100 ∷ peer_at 100 130 ∷ []
unfolding add add_turns add_pass change_bucket find_bucket peer_of split iterate to_base2 bits
full_table_peers = refl

four_steps_peers :
    iterate (run to_base2 small_table four_steps).root
    ≡ peer_at 3 100 ∷ peer_at 131 121 ∷ peer_at 200 101 ∷ []
unfolding run add add_turns remove_all add_pass peers_to_ping sort_by_ping insert_by_ping remove
    change_bucket find_bucket peer_of splice_out split iterate to_base2 bits
four_steps_peers = refl

abbrev one_peer : PeerDistanceList ℕ (List ℕ)
one_peer = record {
  origin_dht_key = 4 ∷ [];
  capacity = 1;
  peer_distances = record { peer = 6; details = []; distance = 2 ∷ [] } ∷ [];
}

can_add_kad_id-add_example :
    can_add_kad_id bytes_metric one_peer (5 ∷ [])
    ≡ some (has_peer (add_with_kad_id bytes_metric one_peer 5 [] (5 ∷ [])).peer_distances 5)
can_add_kad_id-add_example =
    can_add_kad_id-add bytes_metric bytes_metric-IsOrder one_peer 5 [] (5 ∷ []) (omega arith)
      (omega arith) (unfold has_peer in refl)

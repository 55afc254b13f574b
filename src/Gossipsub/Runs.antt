-- ===== src/Gossipsub/Runs.antt =====
-- Runs of the gossipsub parts, and their theorems at concrete inputs.
use Prim.Native.String.{String}
use mathlib.Core.List.{flatten}
use js_libp2p.Base.{ℕ, ◌+◌, ◌≡◌, refl, true, false, some, List, [], ◌∷◌, take, arith, string_eq}
use js_libp2p.Base.{pos, filter}
use js_libp2p.Base.Map
use js_libp2p.Gossipsub.TimeCache
use js_libp2p.Gossipsub.TimeCache.Order
use js_libp2p.Base.Map.{Map}
use js_libp2p.Gossipsub.MessageCache.{
  MessageCache, MessageId, CacheEntry, init, put, observe_duplicate, validate, remove,
  get_gossip_ids,
}
use js_libp2p.Gossipsub.MessageCache.Counting.{count_unvalidated}
use js_libp2p.Gossipsub.MessageCache.Run.{
  Op, puts, observes, validates, removes, step, run, removed_unvalidated, not_validated_count-run,
}
use js_libp2p.Gossipsub.MessageCache.Retention.{shift_times, msgs-shift_times}
use js_libp2p.Gossipsub.MessageCache.Gossip.{ids_at, gossiped, get_gossip_ids-gossiped}

-- A message is its topic.
abbrev topic_of : String → String
topic_of m = m

abbrev id : ℕ → String → MessageId
id n s = record { msg_id = n ∷ []; msg_id_str = s }

abbrev five_ops : List (Op String)
five_ops =
    puts (id 1 "a") "news" false
    ∷ puts (id 2 "b") "news" false
    ∷ observes "a" "peer"
    ∷ validates "a"
    ∷ removes "b"
    ∷ []

not_validated_count-run_example :
    (run topic_of (init 2 3) five_ops).not_validated_count
    ≡ count_unvalidated (run topic_of (init 2 3) five_ops).msgs
      + removed_unvalidated topic_of (init 2 3) five_ops
not_validated_count-run_example = not_validated_count-run topic_of 2 3 five_ops (omega arith)

-- The removed message is counted still, with one validated message in the cache.
five_ops_count :
    ((run topic_of (init 2 3) five_ops).not_validated_count ≡ 1)
    × (count_unvalidated (run topic_of (init 2 3) five_ops).msgs ≡ 0)
unfolding run step init put observe_duplicate validate remove Map.get Map.set Map.delete Map.has
five_ops_count = (refl, refl)

msgs-shift_times_example : (shift_times topic_of 3 (run topic_of (init 2 3) five_ops)).msgs ≡ []
msgs-shift_times_example = msgs-shift_times topic_of 2 3 five_ops (omega arith)

abbrev entry : ℕ → String → String → CacheEntry
entry n s topic = record { msg_id = n ∷ []; msg_id_str = s; topic = topic }

abbrev cache : MessageCache String
cache = record {
  gossip = 1;
  msgs =
      (
        "a",
        record { message = "news"; validated = true; originating_peers = []; iwant_counts = [] },
      )
      ∷ [];
  history = (entry 1 "a" "news" ∷ []) ∷ [] ∷ [];
  not_validated_count = 0;
}

get_gossip_ids-gossiped_example :
    (m : Map String (List (List ℕ))) × (get_gossip_ids cache ("news" ∷ []) ≡ some m)
    × (ids_at m "news" ≡ gossiped cache ("news" ∷ []) "news" (flatten (take 1 cache.history)))
get_gossip_ids-gossiped_example = get_gossip_ids-gossiped cache ("news" ∷ []) "news" (omega arith)

abbrev four_times : List (Order.Op String ℕ)
four_times = Order.puts 5 "a" 1 ∷ Order.puts 8 "b" 2 ∷ Order.prunes 20 ∷ Order.puts 20 "c" 3 ∷ []

four_times-IsTimed : Order.IsTimed 0 four_times
unfolding Order.IsTimed
four_times-IsTimed = (omega arith, (omega arith, (omega arith, (omega arith, tt))))

prune-filter_example :
    (TimeCache.prune 40 (Order.run (TimeCache.init (pos 30)) four_times)).entries
    ≡ filter (Order.is_valid 40) (Order.run (TimeCache.init (pos 30)) four_times).entries
prune-filter_example = Order.prune-filter (pos 30) four_times 40 four_times-IsTimed

-- ===== src/ConnectionManager/Runs.antt =====
-- packages/libp2p/src/connection-manager: examples
use Prim.Native.String.{String}
use js_libp2p.Base.{
  ℕ, ◌-◌, ◌≡◌, refl, true, false, none, some, List, [], ◌∷◌, length, ltb, filter, not,
  if◌then◌else◌, ◌==◌, string_eq,
}
use js_libp2p.Base.Sorting.{sort_by, insert_by}
use js_libp2p.Base.Map
use js_libp2p.ConnectionManager.Pruner.{
  Connection, Components, peer_values, is_allowed, close_unused, collect, sort_connections,
  maybe_prune_connections,
}
use js_libp2p.ConnectionManager.Pruner.Order.{goes_before}
use js_libp2p.ConnectionManager.Pruner.Expected.{worth, is_exempt, is_unused, IsChosen}
use js_libp2p.ConnectionManager.Pruner.Pruned.{maybe_prune_connections-IsChosen}

-- Addresses are numbers, and a net contains those below it.
abbrev example_env : Components ℕ ℕ
example_env = record {
  tags_of =
      λ p. if p == "alice" then some (50 ∷ 20 ∷ []) else if p == "bob" then some (5 ∷ []) else none;
  is_network_address = λ a. true;
  net_contains = λ net a. ltb a net;
}

abbrev connection : String → String → ℕ → ℕ → Connection ℕ
connection id peer address opened_at = record {
  id = id;
  remote_peer = peer;
  remote_addr = address;
  opened_at = opened_at;
  is_outbound = false;
  streams = some "/ipfs/id/1.0.0" ∷ [];
}

abbrev connections : List (Connection ℕ)
connections =
    connection "1" "alice" 7 10
    ∷ connection "2" "bob" 8 20
    ∷ connection "3" "carol" 2 30
    ∷ connection "4" "bob" 9 40
    ∷ []

maybe_prune_connections-IsChosen_example :
    IsChosen
      (goes_before (worth example_env))
      (length connections - 2)
      (filter (λ c. not (is_exempt example_env (5 ∷ []) c)) connections)
      (maybe_prune_connections example_env (5 ∷ []) 2 connections).0
    × ((maybe_prune_connections example_env (5 ∷ []) 2 connections).1
        ≡ filter is_unused (maybe_prune_connections example_env (5 ∷ []) 2 connections).0)
maybe_prune_connections-IsChosen_example =
    maybe_prune_connections-IsChosen example_env (5 ∷ []) 2 connections

-- The newest connection of the peer of the lowest value goes first, the allowed one stays.
closed_example :
    (maybe_prune_connections example_env (5 ∷ []) 2 connections).1
    ≡ connection "4" "bob" 9 40 ∷ connection "2" "bob" 8 20 ∷ []
unfolding maybe_prune_connections close_unused collect is_allowed sort_connections peer_values
    sort_by insert_by Map.get Map.has Map.set
closed_example = refl

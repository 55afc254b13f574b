-- ===== src/ConnectionManager/Pruner.antt =====
-- packages/libp2p/src/connection-manager/connection-pruner.ts
-- The tags of a peer come from the peer store, the nets and addresses from other packages.
pub mod Choice
pub mod Order
pub mod Values
pub mod Expected
pub mod Pruned
use Prim.Native.String.{String}
use js_libp2p.Base.{
  ℕ, ◌+◌, ◌-◌, Bool, true, false, not, ◌&&◌, ◌||◌, Option, none, some, List, [], ◌∷◌, ◌++◌,
  if◌then◌else◌, ltb, leb, nat_beq, length, filter, ◌==◌, string_eq,
}
use js_libp2p.Base.Sorting.{sort_by}
use js_libp2p.Base.Map
use js_libp2p.Base.Map.{Map}

-- `streams` are the protocols of the streams, `none` before there is one.
pub record Connection (A : Type 0) : Type 0 where
  pub id : String
  pub remote_peer : String
  pub remote_addr : A
  pub opened_at : ℕ
  pub is_outbound : Bool
  pub streams : List (Option String)

-- What the pruner asks of others: the values of a peer's tags, `none` where the store throws; whether an
-- address is a network address; and whether a net of the allow list contains it.
pub record Components (A N : Type 0) : Type 0 where
  pub tags_of : String → Option (List ℕ)
  pub is_network_address : A → Bool
  pub net_contains : N → A → Bool

abbrev pub sum : List ℕ → ℕ
sum [] = 0
sum (n ∷ ns) = n + sum ns

module _ {A N : Type 0} (env : Components A N) where
  abbrev pub value_of_tags : Option (List ℕ) → ℕ
  value_of_tags none = 0
  value_of_tags (some tags) = sum tags

  -- The values of the peers, each worked out once.
  unfoldable pub peer_values : List (Connection A) → Map String ℕ → Map String ℕ
  peer_values [] values = values
  peer_values (c ∷ cs) values = peer_values cs (
      if Map.has values c.remote_peer
      then values
      else Map.set values c.remote_peer (value_of_tags (env.tags_of c.remote_peer)))

  -- `this.allow.some`
  unfoldable pub is_allowed : List N → Connection A → Bool
  is_allowed [] c = false
  is_allowed (net ∷ nets) c =
      (if env.is_network_address c.remote_addr then env.net_contains net c.remote_addr else true)
      || is_allowed nets c

module _ {A : Type 0} where
  -- `peerValues.get(remotePeer) ?? 0`
  abbrev pub value_in : Map String ℕ → Connection A → ℕ
  value_in values c = elim (Map.get values c.remote_peer) [ none ↦ 0 | some v ↦ v ]

  -- The four comparators: newest, incoming, with fewest streams, of the lowest value first.
  abbrev pub newer : Connection A → Connection A → Bool
  newer a b = ltb b.opened_at a.opened_at

  abbrev pub incoming_first : Connection A → Connection A → Bool
  incoming_first a b = not a.is_outbound && b.is_outbound

  abbrev pub fewer_streams : Connection A → Connection A → Bool
  fewer_streams a b = ltb (length a.streams) (length b.streams)

  abbrev pub lower_value : Map String ℕ → Connection A → Connection A → Bool
  lower_value values a b = ltb (value_in values a) (value_in values b)

  unfoldable pub sort_connections : List (Connection A) → Map String ℕ → List (Connection A)
  sort_connections connections values =
      sort_by (lower_value values)
        (sort_by fewer_streams (sort_by incoming_first (sort_by newer connections)))

  -- The loop that collects the connections to close, up to `to_prune` of them.
  unfoldable pub collect :
      (Connection A → Bool) → ℕ → List (Connection A) → List (Connection A) → List (Connection A)
  collect allowed to_prune [] to_close = to_close
  collect allowed to_prune (c ∷ cs) to_close =
      let to_close' = if allowed c then to_close else to_close ++ (c ∷ []) in
      let rest = collect allowed to_prune cs to_close' in
      if nat_beq (length to_close') to_prune then to_close' else rest

-- `DEFAULT_CLOSABLE_PROTOCOLS` of utils.ts
abbrev pub closable_protocols : List String
closable_protocols =
    "/ipfs/id/1.0.0" ∷ "/ipfs/id/push/1.0.0" ∷ "/libp2p/autonat/1.0.0" ∷ "/libp2p/dcutr" ∷ []

abbrev pub includes : List String → String → Bool
includes [] x = false
includes (y ∷ ys) x = if y == x then true else includes ys x

abbrev pub keeps_open : Option String → Bool
keeps_open none = false
keeps_open (some proto) = not (includes closable_protocols proto)

-- The connections that `safelyCloseConnectionIfUnused` of utils.ts closes.
unfoldable pub close_unused : {A : Type 0} → List (Connection A) → List (Connection A)
close_unused [] = []
close_unused (c ∷ cs) =
    let rest = close_unused cs in
    if ltb 0 (length (filter keeps_open c.streams)) then rest else c ∷ rest

module _ {A N : Type 0} (env : Components A N) where
  -- The connections that the prune event names, and those of them that are closed.
  unfoldable pub maybe_prune_connections :
      List N → ℕ → List (Connection A) → List (Connection A) × List (Connection A)
  maybe_prune_connections allow max_connections connections =
      let values = peer_values env connections [] in
      if leb (length connections) max_connections
      then ([], [])
      else let to_close =
          collect (is_allowed env allow) (length connections - max_connections)
            (sort_connections connections values) [] in
        (to_close, close_unused to_close)

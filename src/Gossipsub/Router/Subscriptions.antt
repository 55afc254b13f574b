-- ===== src/Gossipsub/Router/Subscriptions.antt =====
-- packages/gossipsub/src/gossipsub.ts: joining and leaving topics, peers that subscribe and peers that go
-- `pick` are the random draws of `shuffle`.
use Prim.Native.String.{String}
use js_libp2p.Base.{
  ℕ, ◌+◌, ◌*◌, ◌%◌, Bool, true, false, not, ◌&&◌, ◌||◌, Option, none, some, List, [], ◌∷◌,
  if◌then◌else◌, ltb, nat_beq, length, filter, take, string_eq,
}
use js_libp2p.Base.Map
use js_libp2p.Base.Map.{Map}
use js_libp2p.Gossipsub.MessageCache.{contains, add}
use js_libp2p.Gossipsub.Shuffle.{shuffle}
use js_libp2p.Gossipsub.Router.{
  Options, Router, or_empty, prune_backoff_ticks, backoff_slack, remove, has_backoff, speaks_ours,
  add_to_mesh, make_prune,
}

abbrev pub cut_to : ℕ → List String → List String
cut_to count peers = if ltb 0 count && ltb count (length peers) then take count peers else peers

abbrev pub random_peers :
    (ℕ → ℕ) → Options → Router → ℕ → (String → Bool) → Option (List String) → List String
random_peers pick o r count accepts none = []
random_peers pick o r count accepts (some peers) =
    cut_to count (shuffle pick (filter (λ id. speaks_ours o r id && accepts id) peers))

unfoldable pub get_random_gossip_peers :
    (ℕ → ℕ) → Options → Router → String → ℕ → (String → Bool) → List String
get_random_gossip_peers pick o r topic count accepts =
    random_peers pick o r count accepts (Map.get r.topics topic)

-- The filter of `join`, for the peers of the fanout and the random ones.
abbrev pub may_join : (String → Bool) → Router → String → String → Bool
may_join negative r topic id =
    not (contains r.direct id) && not (negative id) && not (has_backoff r topic id)

unfoldable pub add_all : List String → List String → List String
add_all xs [] = xs
add_all xs (y ∷ ys) = add_all (add xs y) ys

abbrev pub fanout_to_add : (String → Bool) → Router → String → List String
fanout_to_add negative r topic =
    filter (may_join negative r topic) (or_empty (Map.get r.fanout topic))

-- The peers of the new mesh.
unfoldable pub peers_to_join : (ℕ → ℕ) → Options → (String → Bool) → Router → String → List String
peers_to_join pick o negative r topic =
    let to_add = fanout_to_add negative r topic in
    if ltb (length to_add) o.d
    then add_all to_add (
        get_random_gossip_peers pick o r topic o.d
          (λ id. not (contains to_add id) && may_join negative r topic id))
    else to_add

-- The fanout entry is removed, with the last published time.
abbrev pub joined : Router → String → List String → Router
joined r topic peers = record r {
  mesh = Map.set r.mesh topic peers;
  fanout = Map.delete r.fanout topic;
  fanout_lastpub =
      if Map.has r.fanout topic then Map.delete r.fanout_lastpub topic else r.fanout_lastpub;
}

-- `none` where gossipsub has not started, an error.
unfoldable pub join : (ℕ → ℕ) → Options → (String → Bool) → Router → String → Option Router
join pick o negative r topic =
    if not r.started
    then none
    else if Map.has r.mesh topic
    then some r
    else some (joined r topic (peers_to_join pick o negative r topic))

-- The PRUNEs that `leave` sends, one to each peer of the mesh.
unfoldable pub send_prunes : Options → ℕ → Router → String → List String → Router
send_prunes o now r topic [] = r
send_prunes o now r topic (id ∷ ids) =
    send_prunes o now (make_prune o now r id topic o.do_px true).0 topic ids

abbrev pub leave_mesh : Options → ℕ → Router → String → Option (List String) → Router
leave_mesh o now r topic none = r
leave_mesh o now r topic (some peers) =
    let pruned = send_prunes o now r topic peers in
    record pruned { mesh = Map.delete pruned.mesh topic }

unfoldable pub leave : Options → ℕ → Router → String → Option Router
leave o now r topic =
    if not r.started then none else some (leave_mesh o now r topic (Map.get r.mesh topic))

abbrev pub may_graft_on_subscribe :
    Options → (String → Bool) → Router → String → String → List String → Bool
may_graft_on_subscribe o negative r id topic mesh =
    not (contains mesh id)
    && ltb (length mesh) o.d_lo
    && speaks_ours o r id
    && not (contains r.direct id || negative id || has_backoff r topic id)

abbrev pub graft_if : Router → String → String → Bool → Router × Bool
graft_if r id topic true = (add_to_mesh r id topic, true)
graft_if r id topic false = (r, false)

-- The result says whether the peer was grafted.
unfoldable pub graft_on_subscribe :
    Options → (String → Bool) → Router → String → String → Router × Bool
graft_on_subscribe o negative r id topic = graft_if r id topic (
    Map.has r.mesh topic
    && may_graft_on_subscribe o negative r id topic (or_empty (Map.get r.mesh topic)))

-- Every set of a map without the peer.
unfoldable pub remove_from_all : Map String (List String) → String → Map String (List String)
remove_from_all [] id = []
remove_from_all ((topic, peers) ∷ m) id = (topic, remove peers id) ∷ remove_from_all m id

-- The topics that still have peers.
unfoldable pub without_empty : Map String (List String) → Map String (List String)
without_empty [] = []
without_empty ((topic, peers) ∷ m) =
    let rest = without_empty m in if nat_beq (length peers) 0 then rest else (topic, peers) ∷ rest

-- A peer that is known; its streams and its other entries go too.
unfoldable pub remove_peer : Router → String → Router
remove_peer r id = record r {
  streams_outbound = Map.delete r.streams_outbound id;
  topics = without_empty (remove_from_all r.topics id);
  mesh = remove_from_all r.mesh id;
  fanout = remove_from_all r.fanout id;
  outbound = Map.delete r.outbound id;
}

-- The entries of a topic one after the other: what has expired, with some slack, is deleted.
unfoldable pub unexpired : ℕ → ℕ → Map String ℕ → Map String ℕ → Map String ℕ
unexpired now slack [] backoff = backoff
unexpired now slack ((id, expire) ∷ entries) backoff =
    unexpired now slack entries
      (if ltb (expire + slack) now then Map.delete backoff id else backoff)

-- The topics one after the other; one that is left without entries is deleted.
unfoldable pub unexpired_topics :
    ℕ → ℕ → Map String (Map String ℕ) → Map String (Map String ℕ) → Map String (Map String ℕ)
unexpired_topics now slack [] m = m
unexpired_topics now slack ((topic, _) ∷ entries) m =
    let backoff = or_empty (Map.get m topic) in
    let kept = unexpired now slack backoff backoff in
    unexpired_topics now slack entries
      (if nat_beq (length kept) 0 then Map.delete m topic else Map.set m topic kept)

unfoldable pub clear_backoff : Options → ℕ → Router → Router
clear_backoff o now r =
    if nat_beq (r.heartbeat_ticks % prune_backoff_ticks) 0
    then record r {
      backoff = unexpired_topics now (backoff_slack * o.heartbeat_interval) r.backoff r.backoff;
    }
    else r

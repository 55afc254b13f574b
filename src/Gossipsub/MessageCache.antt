-- ===== src/Gossipsub/MessageCache.antt =====
-- packages/gossipsub/src/message-cache.ts
-- The message type and `msg.topic` are parameters: they come from the generated message/rpc.ts.
pub mod Counting
pub mod Run
pub mod Gossip
pub mod Windows
pub mod Tracked
pub mod Retention
use Prim.Native.String.{String}
use mathlib.Core.Option
use js_libp2p.Base.{
  ℕ, zero, suc, ◌+◌, ◌-◌, ◌<◌, ◌≡◌, Bool, true, false, not, ◌&&◌, Option, none, some, List, [], ◌∷◌,
  ◌++◌, if◌then◌else◌, ltb, leb, length, take, ◌==◌, string_eq,
}
use js_libp2p.Base.Map
use js_libp2p.Base.Map.{Map}

-- A JavaScript Set of strings, in the order of insertion.
abbrev pub contains : List String → String → Bool
contains [] x = false
contains (y ∷ ys) x = if y == x then true else contains ys x

abbrev pub add : List String → String → List String
add xs x = if contains xs x then xs else xs ++ (x ∷ [])

pub record CacheEntry : Type 0 where
  pub msg_id : List ℕ
  pub msg_id_str : String
  pub topic : String

pub record MessageCacheEntry (M : Type 0) : Type 0 where
  pub message : M
  pub validated : Bool
  pub originating_peers : List String
  pub iwant_counts : Map String ℕ

pub record MessageCache (M : Type 0) : Type 0 where
  pub gossip : ℕ
  pub msgs : Map String (MessageCacheEntry M)
  pub history : List (List CacheEntry)
  pub not_validated_count : ℕ

-- MessageId of types.ts.
pub record MessageId : Type 0 where
  pub msg_id : List ℕ
  pub msg_id_str : String

abbrev pub empty_windows : ℕ → List (List CacheEntry)
empty_windows zero = []
empty_windows (suc n) = [] ∷ empty_windows n

abbrev pub push_first : List (List CacheEntry) → CacheEntry → List (List CacheEntry)
push_first [] entry = []
push_first (window ∷ windows) entry = (window ++ (entry ∷ [])) ∷ windows

abbrev pub or_zero : Option ℕ → ℕ
or_zero none = 0
or_zero (some n) = n

abbrev pub push_id : Map String (List (List ℕ)) → CacheEntry → Map String (List (List ℕ))
push_id by_topic entry = elim (Map.get by_topic entry.topic) [
  | none ↦ Map.set by_topic entry.topic (entry.msg_id ∷ [])
  | some ids ↦ Map.set by_topic entry.topic (ids ++ (entry.msg_id ∷ []))
]

-- `this.history[this.history.length - 1]`
abbrev pub last : List CacheEntry → List (List CacheEntry) → List CacheEntry
last window [] = window
last window (w ∷ ws) = last w ws

-- What `this.history.pop()` leaves.
abbrev pub all_but_last : List CacheEntry → List (List CacheEntry) → List (List CacheEntry)
all_but_last window [] = []
all_but_last window (w ∷ ws) = window ∷ all_but_last w ws

module _ {M : Type 0} where
  -- The constructor, with `historyCapacity` windows.
  unfoldable pub init : ℕ → ℕ → MessageCache M
  init gossip history_capacity = record {
    gossip = gossip;
    msgs = [];
    history = empty_windows history_capacity;
    not_validated_count = 0;
  }

  abbrev pub new_entry : M → Bool → MessageCacheEntry M
  new_entry msg validated = record {
    message = msg;
    validated = validated;
    originating_peers = [];
    iwant_counts = [];
  }

  -- `none`: with no window, `this.history[0].push` throws a TypeError after the message was stored.
  unfoldable pub put :
      (M → String) → MessageCache M → MessageId → M → Bool → MessageCache M × Option Bool
  put topic_of c id msg validated =
      let stored = Map.set c.msgs id.msg_id_str (new_entry msg validated) in
      let entry : CacheEntry = record {
        msg_id = id.msg_id;
        msg_id_str = id.msg_id_str;
        topic = topic_of msg;
      } in
      if Map.has c.msgs id.msg_id_str then (c, some false) else elim c.history [
        | [] ↦ (record c { msgs = stored }, none)
        | _ ∷ _ ↦ (
          record c {
            msgs = stored;
            history = push_first c.history entry;
            not_validated_count =
                if validated then c.not_validated_count else c.not_validated_count + 1;
          },
          some true,
        )
      ]

  abbrev pub observe : MessageCacheEntry M → String → MessageCacheEntry M
  observe e peer =
      if e.validated then e else record e { originating_peers = add e.originating_peers peer }

  unfoldable pub observe_duplicate : MessageCache M → String → String → MessageCache M
  observe_duplicate c id from = elim (Map.get c.msgs id) [
    | none ↦ c
    | some e ↦ record c { msgs = Map.set c.msgs id (observe e from) }
  ]

  unfoldable pub get : (List ℕ → String) → MessageCache M → List ℕ → Option M
  get msg_id_to_str c id = Option.map (λ e. e.message) (Map.get c.msgs (msg_id_to_str id))

  abbrev pub asked : MessageCacheEntry M → String → MessageCacheEntry M
  asked e peer = record e {
    iwant_counts = Map.set e.iwant_counts peer (or_zero (Map.get e.iwant_counts peer) + 1);
  }

  -- The message, and how often the peer has asked for it, this time included.
  unfoldable pub get_with_iwant_count :
      MessageCache M → String → String → MessageCache M × Option (M × ℕ)
  get_with_iwant_count c id peer = elim (Map.get c.msgs id) [
    | none ↦ (c, none)
    | some e ↦ (
      record c { msgs = Map.set c.msgs id (asked e peer) },
      some (e.message, or_zero (Map.get e.iwant_counts peer) + 1),
    )
  ]

  -- `(msg?.validated ?? false) && topics.has(entry.topic)`
  abbrev pub is_gossiped : MessageCache M → List String → CacheEntry → Bool
  is_gossiped c topics entry =
      (elim (Map.get c.msgs entry.msg_id_str) [ none ↦ false | some e ↦ e.validated ])
      && contains topics entry.topic

  unfoldable pub gossip_window :
      MessageCache M
      → List String
      → List CacheEntry
      → Map String (List (List ℕ))
      → Map String (List (List ℕ))
  gossip_window c topics [] by_topic = by_topic
  gossip_window c topics (entry ∷ entries) by_topic =
      gossip_window c topics entries
        (if is_gossiped c topics entry then push_id by_topic entry else by_topic)

  -- `none`: `this.history[i]` is undefined where `gossip` is more than the number of windows.
  unfoldable pub gossip_windows :
      MessageCache M
      → List String
      → ℕ
      → List (List CacheEntry)
      → Map String (List (List ℕ))
      → Option (Map String (List (List ℕ)))
  gossip_windows c topics zero windows by_topic = some by_topic
  gossip_windows c topics (suc n) [] by_topic = none
  gossip_windows c topics (suc n) (window ∷ windows) by_topic =
      gossip_windows c topics n windows (gossip_window c topics window by_topic)

  unfoldable pub get_gossip_ids : MessageCache M → List String → Option (Map String (List (List ℕ)))
  get_gossip_ids c topics = gossip_windows c topics c.gossip c.history []

  -- The message, and the peers that have sent it so far.
  unfoldable pub validate : MessageCache M → String → MessageCache M × Option (M × List String)
  validate c id = elim (Map.get c.msgs id) [
    | none ↦ (c, none)
    | some e ↦ (
      record c {
        msgs = Map.set c.msgs id (record e { validated = true; originating_peers = [] });
        not_validated_count =
            if e.validated then c.not_validated_count else c.not_validated_count - 1;
      },
      some (e.message, e.originating_peers),
    )
  ]

  -- One entry of the window that is dropped.
  unfoldable pub drop_entry : MessageCache M → CacheEntry → MessageCache M
  drop_entry c entry = elim (Map.get c.msgs entry.msg_id_str) [
    | none ↦ c
    | some e ↦ record c {
      msgs = Map.delete c.msgs entry.msg_id_str;
      not_validated_count =
          if e.validated then c.not_validated_count else c.not_validated_count - 1;
    }
  ]

  unfoldable pub drop_window : MessageCache M → List CacheEntry → MessageCache M
  drop_window c [] = c
  drop_window c (entry ∷ entries) = drop_window (drop_entry c entry) entries

  -- `none`: with no window, `lastCacheEntries.forEach` throws a TypeError.
  unfoldable pub shift : MessageCache M → Option (MessageCache M)
  shift c = elim c.history [
    | [] ↦ none
    | w ∷ ws ↦ some (record (drop_window c (last w ws)) { history = [] ∷ all_but_last w ws })
  ]

  -- The entry stays in its window of the history.
  unfoldable pub remove : MessageCache M → String → MessageCache M × Option (M × List String)
  remove c id = elim (Map.get c.msgs id) [
    | none ↦ (c, none)
    | some e ↦ (record c { msgs = Map.delete c.msgs id }, some (e.message, e.originating_peers))
  ]

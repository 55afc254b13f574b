-- ===== src/Gossipsub/MessageCache/Gossip.antt =====
-- `getGossipIDs` of message-cache.ts against a filter over the windows.
use Prim.Native.String.{String}
use mathlib.Core.List.{flatten, append-nil, append_assoc, map-append}
use js_libp2p.Base.{
  ℕ, zero, suc, ◌≤◌, ◌≡◌, refl, sym, ap, ◌∙◌, Bool, true, false, ◌&&◌, none, some, List, [], ◌∷◌,
  ◌++◌, map, if◌then◌else◌, filter, filter-append, length, take, ◌==◌, string_eq, arith,
  Option-cases, inl, inr, Bool-cases,
}
use js_libp2p.Base.Map
use js_libp2p.Base.Map.{Map}
use js_libp2p.Gossipsub.MessageCache.{
  MessageCache, CacheEntry, contains, is_gossiped, push_id, gossip_window, gossip_windows,
  get_gossip_ids,
}

-- The ids collected for a topic so far, none where the topic is no key.
abbrev pub ids_at : Map String (List (List ℕ)) → String → List (List ℕ)
ids_at m topic = elim (Map.get m topic) [ none ↦ [] | some ids ↦ ids ]

ids_at-push_id :
    (m : Map String (List (List ℕ))) (e : CacheEntry) (topic : String)
    → ids_at (push_id m e) topic
      ≡ (if e.topic == topic then ids_at m topic ++ (e.msg_id ∷ []) else ids_at m topic)
ids_at-push_id m e topic = elim (Option-cases (Map.get m e.topic)) [
  | inl n ↦
      ground
        (arith, n, string_eq.same_iff e.topic topic, Map.get-set m e.topic topic (e.msg_id ∷ []))
  | inr (ids, n) ↦ ground (
    arith,
    n,
    string_eq.same_iff e.topic topic,
    Map.get-set m e.topic topic (ids ++ (e.msg_id ∷ [])),
  )
]

ids_at-push_if :
    (b : Bool) (m : Map String (List (List ℕ))) (e : CacheEntry) (topic : String)
    → ids_at (if b then push_id m e else m) topic
      ≡ ids_at m topic ++ (if (e.topic == topic) && b then e.msg_id ∷ [] else [])
ids_at-push_if true m e topic = elim (Bool-cases (e.topic == topic)) [
  | inl t ↦ ids_at-push_id m e topic ∙ rw t
  | inr t ↦ ids_at-push_id m e topic ∙ rw t (sym (append-nil (ids_at m topic)))
]
ids_at-push_if false m e topic = elim (Bool-cases (e.topic == topic)) [
  | inl t ↦ rw t (sym (append-nil (ids_at m topic)))
  | inr t ↦ rw t (sym (append-nil (ids_at m topic)))
]

map-if :
    (b : Bool) (e : CacheEntry) (es : List CacheEntry)
    → (if b then e.msg_id ∷ [] else []) ++ map (λ x. x.msg_id) es
      ≡ map (λ x. x.msg_id) (if b then e ∷ es else es)
map-if true e es = refl
map-if false e es = refl

-- The message is in the cache and validated.
abbrev pub is_valid : {M : Type 0} → MessageCache M → String → Bool
is_valid c id = elim (Map.get c.msgs id) [ none ↦ false | some e ↦ e.validated ]

abbrev pub is_among : List String → String → Bool
is_among [] x = false
is_among (y ∷ ys) x = if y == x then true else is_among ys x

contains-among : (xs : List String) (x : String) → contains xs x ≡ is_among xs x
contains-among [] x = refl
contains-among (y ∷ ys) x = ap (λ b. if y == x then true else b) (contains-among ys x)

module _ {M : Type 0} (c : MessageCache M) (topics : List String) where
  -- An entry whose message is in the cache and validated, for a topic that was asked for.
  abbrev is_wanted : CacheEntry → Bool
  is_wanted e = is_valid c e.msg_id_str && is_among topics e.topic

  is_gossiped-wanted : (e : CacheEntry) → is_gossiped c topics e ≡ is_wanted e
  is_gossiped-wanted e = ap (λ b. is_valid c e.msg_id_str && b) (contains-among topics e.topic)

  -- What the function promises for a topic: the ids of its entries in the windows, in order, of
  -- which the message is in the cache and validated, if the topic was asked for.
  abbrev pub gossiped : String → List CacheEntry → List (List ℕ)
  gossiped topic entries =
      map (λ e. e.msg_id)
        (filter (λ e. (e.topic == topic) && (is_valid c e.msg_id_str && is_among topics e.topic))
          entries)

  ids_at-gossip_window :
      (entries : List CacheEntry) (m : Map String (List (List ℕ))) (topic : String)
      → ids_at (gossip_window c topics entries m) topic ≡ ids_at m topic ++ gossiped topic entries
  unfolding gossip_window
  ids_at-gossip_window [] m topic = sym (append-nil _)
  ids_at-gossip_window (e ∷ es) m topic =
      let b = is_wanted e in
      let rest = filter (λ x. (x.topic == topic) && is_wanted x) es in
      ap (λ b. ids_at (gossip_window c topics es (if b then push_id m e else m)) topic)
        (is_gossiped-wanted e)
      ∙ ids_at-gossip_window es (if b then push_id m e else m) topic
      ∙ ap (λ l. l ++ gossiped topic es) (ids_at-push_if b m e topic)
      ∙ append_assoc (ids_at m topic) _ (gossiped topic es)
      ∙ ap (◌++◌ (ids_at m topic)) (map-if ((e.topic == topic) && b) e rest)

  gossiped-append :
      (topic : String) (v w : List CacheEntry)
      → gossiped topic (v ++ w) ≡ gossiped topic v ++ gossiped topic w
  gossiped-append topic v w =
      rw (filter-append (λ x. (x.topic == topic) && is_wanted x) v w) (map-append _ _ _)

  gossip_windows_lem :
      (n : ℕ) (windows : List (List CacheEntry)) (m : Map String (List (List ℕ))) (topic : String)
      → n ≤ length windows
      → (m' : Map String (List (List ℕ))) × (gossip_windows c topics n windows m ≡ some m')
        × (ids_at m' topic ≡ ids_at m topic ++ gossiped topic (flatten (take n windows)))
  unfolding gossip_windows flatten
  gossip_windows_lem zero windows m topic h = (m, refl, sym (append-nil (ids_at m topic)))
  gossip_windows_lem (suc n) [] m topic h = absurd (omega arith)
  gossip_windows_lem (suc n) (w ∷ ws) m topic h =
      let (m', e, f) = gossip_windows_lem n ws (gossip_window c topics w m) topic (omega arith) in
      (
        m',
        e,
        f
            ∙ ap (λ l. l ++ gossiped topic (flatten (take n ws))) (ids_at-gossip_window w m topic)
            ∙ append_assoc (ids_at m topic) (gossiped topic w) _
            ∙ ap (◌++◌ (ids_at m topic)) (sym (gossiped-append topic w (flatten (take n ws)))),
      )

  -- `getGossipIDs` throws where `gossip` is more than the number of windows, and otherwise returns,
  -- for each topic, the ids that it promises over the first `gossip` windows.
  pub get_gossip_ids-gossiped :
      (topic : String)
      → c.gossip ≤ length c.history
      → (m : Map String (List (List ℕ))) × (get_gossip_ids c topics ≡ some m)
        × (ids_at m topic ≡ gossiped topic (flatten (take c.gossip c.history)))
  unfolding get_gossip_ids Map.get
  get_gossip_ids-gossiped topic h = gossip_windows_lem c.gossip c.history [] topic h

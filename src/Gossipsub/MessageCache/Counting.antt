-- ===== src/Gossipsub/MessageCache/Counting.antt =====
-- `notValidatedCount` of message-cache.ts against the messages that are not validated.
use Prim.Native.String.{String}
use js_libp2p.Base.{
  ℕ, ◌+◌, ◌≡◌, refl, Bool, true, Option, none, some, List, [], ◌∷◌, if◌then◌else◌, string_eq, arith,
  Option-cases, inl, inr, ◌≢◌,
}
use js_libp2p.Base.Map
use js_libp2p.Base.Map.{Map, IsDistinct}
use js_libp2p.Gossipsub.MessageCache.{
  MessageCache, MessageCacheEntry, MessageId, CacheEntry, put, observe_duplicate,
  get_with_iwant_count, validate, shift, remove, drop_entry, drop_window, last, observe, new_entry,
  asked,
}

module _ {M : Type 0} where
  abbrev pub unvalidated : MessageCacheEntry M → ℕ
  unvalidated e = if e.validated then 0 else 1

  abbrev pub unvalidated_at : Option (MessageCacheEntry M) → ℕ
  unvalidated_at none = 0
  unvalidated_at (some e) = unvalidated e

  abbrev pub count_unvalidated : Map String (MessageCacheEntry M) → ℕ
  count_unvalidated [] = 0
  count_unvalidated ((id, e) ∷ m) = unvalidated e + count_unvalidated m

  count-set :
      (m : Map String (MessageCacheEntry M)) (id : String) (e : MessageCacheEntry M)
      → count_unvalidated (Map.set m id e) + unvalidated_at (Map.get m id)
        ≡ count_unvalidated m + unvalidated e
  unfolding Map.set Map.get
  count-set [] id e = omega arith
  count-set ((j, f) ∷ m) id e = ground (arith, count-set m id e)

  count-delete :
      (m : Map String (MessageCacheEntry M)) (id : String)
      → IsDistinct m
      → count_unvalidated (Map.delete m id) + unvalidated_at (Map.get m id) ≡ count_unvalidated m
  unfolding Map.delete Map.get
  count-delete [] id d = omega arith
  count-delete ((j, f) ∷ m) id d =
      ground (arith, string_eq.same_iff j id, count-delete m id d.1, Map.delete_absent m id)

  -- The cache has a window, and the count is that of the messages not validated, and `n` more.
  pub record Counts (n : ℕ) (c : MessageCache M) : Type 0 where
    pub shaped : c.history ≢ []
    pub distinct : IsDistinct c.msgs
    pub counted : c.not_validated_count ≡ count_unvalidated c.msgs + n

  pub put-Counts :
      (topic_of : M → String) (n : ℕ) (c : MessageCache M) (id : MessageId) (msg : M)
      (validated : Bool)
      → Counts n c
      → Counts n (put topic_of c id msg validated).0
  unfolding put
  put-Counts topic_of n c id msg validated k =
      let e = new_entry msg validated in
      ground (
        arith,
        Map.set-IsDistinct c.msgs id.msg_id_str e,
        count-set c.msgs id.msg_id_str e,
        Map.has_absent c.msgs id.msg_id_str,
      )

  pub observe-Counts :
      (n : ℕ) (c : MessageCache M) (id from : String)
      → Counts n c
      → Counts n (observe_duplicate c id from)
  unfolding observe_duplicate
  observe-Counts n c id from k = elim (Option-cases (Map.get c.msgs id)) [
    | inl e ↦ ground arith
    | inr (x, e) ↦
        ground (
          arith,
          Map.set-IsDistinct c.msgs id (observe x from),
          count-set c.msgs id (observe x from),
        )
  ]

  pub ask-Counts :
      (n : ℕ) (c : MessageCache M) (id peer : String)
      → Counts n c
      → Counts n (get_with_iwant_count c id peer).0
  unfolding get_with_iwant_count
  ask-Counts n c id peer k = elim (Option-cases (Map.get c.msgs id)) [
    | inl e ↦ ground arith
    | inr (x, e) ↦
        let x' = asked x peer in
        ground (arith, Map.set-IsDistinct c.msgs id x', count-set c.msgs id x')
  ]

  pub validate-Counts :
      (n : ℕ) (c : MessageCache M) (id : String) → Counts n c → Counts n (validate c id).0
  unfolding validate
  validate-Counts n c id k = elim (Option-cases (Map.get c.msgs id)) [
    | inl e ↦ ground arith
    | inr (x, e) ↦
        let x' = record x { validated = true; originating_peers = [] } in
        ground (arith, Map.set-IsDistinct c.msgs id x', count-set c.msgs id x')
  ]

  pub drop_entry-Counts :
      (n : ℕ) (c : MessageCache M) (entry : CacheEntry) → Counts n c → Counts n (drop_entry c entry)
  unfolding drop_entry
  drop_entry-Counts n c entry k =
      ground
        (arith, Map.delete-IsDistinct c.msgs entry.msg_id_str, count-delete c.msgs entry.msg_id_str)

  pub drop_window-Counts :
      (n : ℕ) (c : MessageCache M) (window : List CacheEntry)
      → Counts n c
      → Counts n (drop_window c window)
  unfolding drop_window
  drop_window-Counts n c [] k = k
  drop_window-Counts n c (entry ∷ entries) k =
      drop_window-Counts n (drop_entry c entry) entries (drop_entry-Counts n c entry k)

  pub remove-Counts :
      (n : ℕ) (c : MessageCache M) (id : String)
      → Counts n c
      → Counts (n + unvalidated_at (Map.get c.msgs id)) (remove c id).0
  unfolding remove
  remove-Counts n c id k = ground (arith, Map.delete-IsDistinct c.msgs id, count-delete c.msgs id)

  pub shift-Counts : (n : ℕ) (c c' : MessageCache M) → Counts n c → shift c ≡ some c' → Counts n c'
  unfolding shift
  shift-Counts n c c' k = go c.history refl
    where
      go : (h : List (List CacheEntry)) → c.history ≡ h → shift c ≡ some c' → Counts n c'
      go [] e p = absurd (k.shaped e)
      go (w ∷ ws) e p = ground (arith, e, p, drop_window-Counts n c (last w ws) k)

-- ===== src/Gossipsub/MessageCache/Tracked.antt =====
-- Where the messages of message-cache.ts stand in its windows.
use Prim.Native.String.{String}
use js_libp2p.Base.{
  ℕ, suc, ◌<◌, ◌≡◌, refl, ap, ◌∙◌, Bool, true, false, none, some, List, [], ◌∷◌, if◌then◌else◌,
  length, drop, ◌==◌, string_eq, arith, Option-cases, inl, inr,
}
use js_libp2p.Base.Map
use js_libp2p.Base.Map.{Map}
use js_libp2p.Gossipsub.MessageCache.{
  MessageCache, MessageCacheEntry, MessageId, CacheEntry, put, observe_duplicate,
  get_with_iwant_count, validate, shift, remove, drop_entry, drop_window, last, all_but_last,
  observe, asked, new_entry,
}
use js_libp2p.Gossipsub.MessageCache.Windows.{
  in_window, in_history, in_history-all_but_last, length-all_but_last, push_first-in_history,
  length-push_first,
}

module _ {M : Type 0} where
  -- Every message in the cache stands in window `j` or a later one.
  abbrev pub IsTrackedFrom : ℕ → MessageCache M → Type 0
  IsTrackedFrom j c =
      (k : String) → Map.has c.msgs k ≡ true → in_history k (drop j c.history) ≡ true

  has-drop_entry :
      (c : MessageCache M) (e : CacheEntry) (k : String)
      → Map.has (drop_entry c e).msgs k ≡ (if e.msg_id_str == k then false else Map.has c.msgs k)
  unfolding drop_entry
  has-drop_entry c e k = ground (
    arith,
    Map.has-delete c.msgs e.msg_id_str k,
    string_eq.same_iff e.msg_id_str k,
    Map.has_of_none c.msgs e.msg_id_str,
  )

  has-drop_window :
      (c : MessageCache M) (es : List CacheEntry) (k : String)
      → Map.has (drop_window c es).msgs k ≡ (if in_window k es then false else Map.has c.msgs k)
  unfolding drop_window
  has-drop_window c [] k = refl
  has-drop_window c (e ∷ es) k =
      has-drop_window (drop_entry c e) es k ∙ ground (arith, has-drop_entry c e k)

  -- What `shift` leaves of a cache with a window.
  shift_parts :
      (c c' : MessageCache M)
      → shift c ≡ some c'
      → (w : List CacheEntry) × (ws : List (List CacheEntry)) × (c.history ≡ w ∷ ws)
        × (c'.history ≡ [] ∷ all_but_last w ws)
        × (c'.msgs ≡ (drop_window c (last w ws)).msgs)
  unfolding shift
  shift_parts c c' = go c.history refl
    where
      go :
          (h : List (List CacheEntry))
          → c.history ≡ h
          → shift c ≡ some c'
          → (w : List CacheEntry) × (ws : List (List CacheEntry)) × (c.history ≡ w ∷ ws)
            × (c'.history ≡ [] ∷ all_but_last w ws)
            × (c'.msgs ≡ (drop_window c (last w ws)).msgs)
      go [] e p = ground arith
      go (w ∷ ws) e p = (w, ws, e, ground arith, ground arith)

  pub shift-none : (c : MessageCache M) → shift c ≡ none → c.history ≡ []
  unfolding shift
  shift-none c p = ground (arith, p)

  pub length-history-shift :
      (c c' : MessageCache M) → shift c ≡ some c' → length c'.history ≡ length c.history
  length-history-shift c c' p =
      let (w, ws, e, h, m) = shift_parts c c' p in
      omega (arith, ap length e, ap length h, length-all_but_last w ws)

  pub shift-IsTrackedFrom :
      (j : ℕ) (c c' : MessageCache M)
      → IsTrackedFrom j c
      → shift c ≡ some c'
      → IsTrackedFrom (suc j) c'
  shift-IsTrackedFrom j c c' t p k there =
      let (w, ws, e, h, m) = shift_parts c c' p in
      let kept : Map.has (drop_window c (last w ws)).msgs k ≡ true = rw m at there in
      let n = has-drop_window c (last w ws) k in
      let here : Map.has c.msgs k ≡ true = ground (arith, kept, n) in
      let gone : in_window k (last w ws) ≡ false = ground (arith, kept, n) in
      rw h (in_history-all_but_last j k w ws (rw e at (t k here)) gone)

  -- A cache in use: it has `n` windows, and every message stands in one.
  pub record IsTracked (n : ℕ) (c : MessageCache M) : Type 0 where
    pub windows : length c.history ≡ n
    pub tracked : IsTrackedFrom 0 c

  pub put-IsTracked :
      (topic_of : M → String) (n : ℕ) (c : MessageCache M) (id : MessageId) (msg : M)
      (validated : Bool)
      → 0 < n
      → IsTracked n c
      → IsTracked n (put topic_of c id msg validated).0
  unfolding put
  put-IsTracked topic_of n c id msg validated pos t =
      let e : CacheEntry = record {
        msg_id = id.msg_id;
        msg_id_str = id.msg_id_str;
        topic = topic_of msg;
      } in
      record {
        windows = ground (arith, t.windows, length-push_first c.history e);
        tracked = λ k h. ground (
          arith,
          h,
          t.windows,
          t.tracked k,
          push_first-in_history c.history e k,
          Map.has-set c.msgs id.msg_id_str k (new_entry msg validated),
        );
      }

  -- Writing an entry that is there adds no key.
  has-set_there :
      (c : MessageCache M) (id k : String) (e e' : MessageCacheEntry M)
      → Map.get c.msgs id ≡ some e
      → Map.has (Map.set c.msgs id e') k ≡ Map.has c.msgs k
  has-set_there c id k e e' g =
      ground
        (arith, Map.has-set c.msgs id k e', Map.has_of_get c.msgs id e, string_eq.same_iff id k)

  pub observe-IsTracked :
      (n : ℕ) (c : MessageCache M) (id from : String)
      → IsTracked n c
      → IsTracked n (observe_duplicate c id from)
  unfolding observe_duplicate
  observe-IsTracked n c id from t = record {
    windows = ground (arith, t.windows);
    tracked = λ k h. elim (Option-cases (Map.get c.msgs id)) [
      | inl e ↦ ground (arith, h, t.tracked k)
      | inr (x, e) ↦ ground (arith, h, t.tracked k, has-set_there c id k x (observe x from) e)
    ];
  }

  pub ask-IsTracked :
      (n : ℕ) (c : MessageCache M) (id peer : String)
      → IsTracked n c
      → IsTracked n (get_with_iwant_count c id peer).0
  unfolding get_with_iwant_count
  ask-IsTracked n c id peer t = record {
    windows = ground (arith, t.windows);
    tracked = λ k h. elim (Option-cases (Map.get c.msgs id)) [
      | inl e ↦ ground (arith, h, t.tracked k)
      | inr (x, e) ↦ ground (arith, h, t.tracked k, has-set_there c id k x (asked x peer) e)
    ];
  }

  pub validate-IsTracked :
      (n : ℕ) (c : MessageCache M) (id : String) → IsTracked n c → IsTracked n (validate c id).0
  unfolding validate
  validate-IsTracked n c id t = record {
    windows = ground (arith, t.windows);
    tracked = λ k h. elim (Option-cases (Map.get c.msgs id)) [
      | inl e ↦ ground (arith, h, t.tracked k)
      | inr (x, e) ↦
          let x' = record x { validated = true; originating_peers = [] } in
          ground (arith, h, t.tracked k, has-set_there c id k x x' e)
    ];
  }

  pub remove-IsTracked :
      (n : ℕ) (c : MessageCache M) (id : String) → IsTracked n c → IsTracked n (remove c id).0
  unfolding remove
  remove-IsTracked n c id t = record {
    windows = ground (arith, t.windows);
    tracked = λ k h. ground (arith, h, t.tracked k, Map.has-delete c.msgs id k);
  }

-- ===== src/Gossipsub/MessageCache/Windows.antt =====
-- The list of windows of message-cache.ts.
use Prim.Native.String.{String}
use js_libp2p.Base.{
  ℕ, zero, suc, ◌≤◌, ◌≡◌, ◌≢◌, refl, sym, ap, ◌∙◌, Bool, true, false, List, [], ◌∷◌, ◌++◌,
  if◌then◌else◌, length, drop, drop-append, ◌==◌, string_eq, arith, inl, inr, Bool-cases, leb,
}
use js_libp2p.Gossipsub.MessageCache.{CacheEntry, last, all_but_last, push_first}

abbrev pub in_window : String → List CacheEntry → Bool
in_window k [] = false
in_window k (e ∷ es) = if e.msg_id_str == k then true else in_window k es

abbrev pub in_history : String → List (List CacheEntry) → Bool
in_history k [] = false
in_history k (w ∷ ws) = if in_window k w then true else in_history k ws

in_window-append :
    (k : String) (v w : List CacheEntry)
    → in_window k (v ++ w) ≡ (if in_window k v then true else in_window k w)
in_window-append k [] w = refl
in_window-append k (e ∷ es) w = ground (arith, in_window-append k es w)

in_history-append :
    (k : String) (v w : List (List CacheEntry))
    → in_history k (v ++ w) ≡ (if in_history k v then true else in_history k w)
in_history-append k [] w = refl
in_history-append k (e ∷ es) w = ground (arith, in_history-append k es w)

pub all_but_last-last :
    (w : List CacheEntry) (ws : List (List CacheEntry))
    → all_but_last w ws ++ (last w ws ∷ []) ≡ w ∷ ws
all_but_last-last w [] = refl
all_but_last-last w (v ∷ vs) = ap (◌∷◌ w) (all_but_last-last v vs)

pub length-all_but_last :
    (w : List CacheEntry) (ws : List (List CacheEntry)) → length (all_but_last w ws) ≡ length ws
length-all_but_last w [] = refl
length-all_but_last w (v ∷ vs) = ap suc (length-all_but_last v vs)

pub drop_beyond :
    (j : ℕ) (k : String) (xs : List (List CacheEntry))
    → length xs ≤ j
    → in_history k (drop j xs) ≡ false
drop_beyond zero k [] h = refl
drop_beyond zero k (x ∷ xs) h = absurd (omega arith)
drop_beyond (suc j) k [] h = refl
drop_beyond (suc j) k (x ∷ xs) h = drop_beyond j k xs (omega arith)

-- What stands from window `j` on and not in the last one stands before the last one.
pub in_history-all_but_last :
    (j : ℕ) (k : String) (w : List CacheEntry) (ws : List (List CacheEntry))
    → in_history k (drop j (w ∷ ws)) ≡ true
    → in_window k (last w ws) ≡ false
    → in_history k (drop j (all_but_last w ws)) ≡ true
in_history-all_but_last j k w ws h n = elim (Bool-cases (leb j (length (all_but_last w ws)))) [
  | inl le ↦
      let e : drop j (w ∷ ws) ≡ drop j (all_but_last w ws) ++ (last w ws ∷ []) =
        ap (drop j) (sym (all_but_last-last w ws))
        ∙ drop-append j (all_but_last w ws) _ (ground arith) in
      ground (
        arith,
        h,
        n,
        ap (in_history k) e,
        in_history-append k (drop j (all_but_last w ws)) (last w ws ∷ []),
      )
  | inr gt ↦ ground (arith, h, drop_beyond j k (w ∷ ws), length-all_but_last w ws)
]

pub push_first-in_history :
    (h : List (List CacheEntry)) (e : CacheEntry) (k : String)
    → h ≢ []
    → in_history k (push_first h e) ≡ (if e.msg_id_str == k then true else in_history k h)
push_first-in_history [] e k n = absurd (n refl)
push_first-in_history (w ∷ ws) e k n = ground (arith, in_window-append k w (e ∷ []))

pub length-push_first :
    (h : List (List CacheEntry)) (e : CacheEntry) → length (push_first h e) ≡ length h
length-push_first [] e = refl
length-push_first (w ∷ ws) e = refl

-- ===== src/Utils/MemoryStorage.antt =====
-- packages/utils/src/rate-limiter.ts, class MemoryStorage
-- Times are in milliseconds, `now` is the clock at the call, and durations are whole seconds. A key
-- is the list of its characters. A timer that fires is a call of `expire`.
use js_libp2p.Base.{
  ℕ, ◌+◌, ◌*◌, Bool, true, false, Option, none, some, List, if◌then◌else◌, ltb, bytes_eq, ℤ, pos,
  negsuc, sub_ℕ, ◌+ℤ◌,
}
use js_libp2p.Base.Map
use js_libp2p.Base.Map.{Map}

pub record RateLimiterResult : Type 0 where
  pub remaining_points : ℕ
  pub ms_before_next : ℤ
  pub consumed_points : ℤ
  pub is_first_in_duration : Bool

pub record RateRecord : Type 0 where
  pub value : ℤ
  pub expires_at : Option ℕ

abbrev pub Storage : Type 0
Storage = Map (List ℕ) RateRecord

abbrev pub ms_before_expires : RateRecord → ℕ → ℤ
ms_before_expires r now = elim r.expires_at [ none ↦ negsuc 0 | some t ↦ sub_ℕ t now ]

-- `existing.expiresAt == null || msBeforeExpires > 0`
abbrev pub is_live : RateRecord → ℕ → Bool
is_live r now = elim r.expires_at [ none ↦ true | some t ↦ ltb now t ]

-- `setTimeout` with a duration of 0 is not called, and the record never expires.
unfoldable pub set : ℕ → Storage → List ℕ → ℤ → ℕ → Storage × RateLimiterResult
set now s key value duration_sec =
    let duration_ms = duration_sec * 1000 in
    let r : RateRecord = record {
      value = value;
      expires_at = if ltb 0 duration_ms then some (now + duration_ms) else none;
    } in
    (
      Map.set s key r,
      record {
        remaining_points = 0;
        ms_before_next = if ltb 0 duration_ms then pos duration_ms else negsuc 0;
        consumed_points = value;
        is_first_in_duration = true;
      },
    )

unfoldable pub incrby : ℕ → Storage → List ℕ → ℤ → ℕ → Storage × RateLimiterResult
incrby now s key value duration_sec = elim (Map.get s key) [
  | none ↦ set now s key value duration_sec
  | some r ↦
      if is_live r now
      then (
        Map.set s key (record r { value = r.value +ℤ value }),
        record {
          remaining_points = 0;
          ms_before_next = ms_before_expires r now;
          consumed_points = r.value +ℤ value;
          is_first_in_duration = false;
        },
      )
      else set now s key value duration_sec
]

unfoldable pub get : ℕ → Storage → List ℕ → Option RateLimiterResult
get now s key = elim (Map.get s key) [
  | none ↦ none
  | some r ↦ some (record {
    remaining_points = 0;
    ms_before_next = ms_before_expires r now;
    consumed_points = r.value;
    is_first_in_duration = false;
  })
]

unfoldable pub delete : Storage → List ℕ → Storage × Bool
delete s key = elim (Map.get s key) [ none ↦ (s, false) | some r ↦ (Map.delete s key, true) ]

-- The timer that `set` started.
unfoldable pub expire : Storage → List ℕ → Storage
expire s key = Map.delete s key

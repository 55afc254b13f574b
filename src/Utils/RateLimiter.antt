-- ===== src/Utils/RateLimiter.antt =====
-- packages/utils/src/rate-limiter.ts
-- The limiter over `Utils.MemoryStorage`.
pub mod Window
pub mod Keys
use js_libp2p.Base.{
  ℕ, ◌+◌, ◌*◌, ◌<◌, ◌≡◌, Bool, true, false, ◌&&◌, ◌||◌, Option, none, some, List, [], ◌∷◌, ◌++◌,
  if◌then◌else◌, ltb, leb, length, drop, bytes_eq, ℤ, pos, negsuc, pos_part, sub_ℕ, ◌+ℤ◌, neg,
  leb_ℤ, ltb_ℤ,
}
use js_libp2p.Base.Map
use js_libp2p.Base.Map.{Map}
use js_libp2p.Utils.MemoryStorage
use js_libp2p.Utils.MemoryStorage.{RateLimiterResult, Storage}

pub record RateLimiter : Type 0 where
  pub memory_storage : Storage
  pub points : ℕ
  pub duration : ℕ
  pub block_duration : ℕ
  pub key_prefix : List ℕ

abbrev pub colon : ℕ
colon = b':'

unfoldable pub get_key : List ℕ → List ℕ → List ℕ
get_key prefix key = if ltb 0 (length prefix) then prefix ++ (colon ∷ key) else key

unfoldable pub parse_key : List ℕ → List ℕ → List ℕ
parse_key prefix rl_key = drop (length prefix) rl_key

abbrev pub key_sec_duration : RateLimiter → Option ℕ → ℕ
key_sec_duration l custom = elim custom [ none ↦ l.duration | some d ↦ d ]

-- `Math.max(this.points - res.consumedPoints, 0)`
abbrev pub with_remaining : RateLimiter → RateLimiterResult → RateLimiterResult
with_remaining l res = record res {
  remaining_points = pos_part (pos l.points +ℤ neg res.consumed_points);
}

pub data Consumed : Type 0 where
  allowed : RateLimiterResult → Consumed
  rate_limit_error : RateLimiterResult → Consumed

-- What `consume` does with the storage's answer.
abbrev pub check_points :
    ℕ → RateLimiter → List ℕ → ℕ → Storage × RateLimiterResult → RateLimiter × Consumed
check_points now l rl_key n (s, res) =
    let over = ltb_ℤ (pos l.points) res.consumed_points in
    let blocks = ltb 0 l.block_duration && leb_ℤ res.consumed_points (pos (l.points + n)) in
    let (s', res') = MemoryStorage.set now s rl_key res.consumed_points l.block_duration in
    if over
    then if blocks
      then (record l { memory_storage = s' }, rate_limit_error res')
      else (record l { memory_storage = s }, rate_limit_error (with_remaining l res))
    else (record l { memory_storage = s }, allowed (with_remaining l res))

unfoldable pub consume : ℕ → RateLimiter → List ℕ → ℕ → Option ℕ → RateLimiter × Consumed
consume now l key n custom =
    let rl_key = get_key l.key_prefix key in
    check_points now l rl_key n
      (MemoryStorage.incrby now l.memory_storage rl_key (pos n) (key_sec_duration l custom))

unfoldable pub penalty : ℕ → RateLimiter → List ℕ → ℕ → Option ℕ → RateLimiter × RateLimiterResult
penalty now l key n custom =
    let (s, res) =
      MemoryStorage.incrby now l.memory_storage (get_key l.key_prefix key) (pos n)
        (key_sec_duration l custom) in
    (record l { memory_storage = s }, with_remaining l res)

unfoldable pub reward : ℕ → RateLimiter → List ℕ → ℕ → Option ℕ → RateLimiter × RateLimiterResult
reward now l key n custom =
    let (s, res) =
      MemoryStorage.incrby now l.memory_storage (get_key l.key_prefix key) (neg (pos n))
        (key_sec_duration l custom) in
    (record l { memory_storage = s }, with_remaining l res)

unfoldable pub block : ℕ → RateLimiter → List ℕ → ℕ → RateLimiter × RateLimiterResult
block now l key sec_duration =
    let ms_duration = sec_duration * 1000 in
    let init_points = pos (l.points + 1) in
    (
      record l {
        memory_storage =
            (MemoryStorage.set now l.memory_storage (get_key l.key_prefix key) init_points
              sec_duration).0;
      },
      record {
        remaining_points = 0;
        ms_before_next = if ltb 0 ms_duration then pos ms_duration else negsuc 0;
        consumed_points = init_points;
        is_first_in_duration = false;
      },
    )

unfoldable pub set : ℕ → RateLimiter → List ℕ → ℤ → ℕ → RateLimiter × RateLimiterResult
set now l key points sec_duration =
    let ms_duration = sec_duration * 1000 in
    (
      record l {
        memory_storage =
            (MemoryStorage.set now l.memory_storage (get_key l.key_prefix key) points
              sec_duration).0;
      },
      record {
        remaining_points = 0;
        ms_before_next = if ltb 0 ms_duration then pos ms_duration else negsuc 0;
        consumed_points = points;
        is_first_in_duration = false;
      },
    )

unfoldable pub get : ℕ → RateLimiter → List ℕ → Option RateLimiterResult
get now l key = elim (MemoryStorage.get now l.memory_storage (get_key l.key_prefix key)) [
  | none ↦ none
  | some res ↦ some (with_remaining l res)
]

unfoldable pub delete : RateLimiter → List ℕ → RateLimiter
delete l key = record l {
  memory_storage = (MemoryStorage.delete l.memory_storage (get_key l.key_prefix key)).0;
}

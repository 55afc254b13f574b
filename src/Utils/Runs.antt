-- ===== src/Utils/Runs.antt =====
-- Runs of the parts of packages/utils, and their theorems at concrete inputs.
use js_libp2p.Base.{ℕ, ◌+◌, ◌*◌, ◌≡◌, ◌≢◌, refl, List, [], ◌∷◌, arith, leb}
use js_libp2p.Utils.RateLimiter.{RateLimiter, parse_key, get_key, colon}
use js_libp2p.Utils.RateLimiter.Keys.{parse_key-get_key}
use js_libp2p.Utils.RateLimiter.Window.{
  Call, call, run, is_allowed, asked, IsWithin, consume-window,
}

abbrev limiter : RateLimiter
limiter = record {
  memory_storage = [];
  points = 4;
  duration = 1;
  block_duration = 0;
  key_prefix = b'r' ∷ [];
}

abbrev call_at : ℕ → ℕ → ℕ → Call
call_at t k n = record { at_time = t; key = k ∷ []; points_to_consume = n }

abbrev three_calls : List Call
three_calls = call_at 10 1 2 ∷ call_at 20 2 9 ∷ call_at 30 1 1 ∷ []

three_calls-IsWithin : IsWithin 10 (10 + 1 * 1000) three_calls
unfolding IsWithin
three_calls-IsWithin =
    (omega arith, omega arith, (omega arith, omega arith, (omega arith, omega arith, tt)))

consume-window_example :
    is_allowed (call (run limiter three_calls) (call_at 900 1 2)).1
    ≡ leb (asked (1 ∷ []) three_calls + 2) 4
consume-window_example =
    consume-window 10 limiter three_calls (call_at 900 1 2) refl (omega arith) refl
      three_calls-IsWithin (omega arith) (omega arith)

parse_key-get_key_example :
    (parse_key (b'r' ∷ []) (get_key (b'r' ∷ []) (1 ∷ [])) ≡ colon ∷ 1 ∷ [])
    × (parse_key (b'r' ∷ []) (get_key (b'r' ∷ []) (1 ∷ [])) ≢ 1 ∷ [])
parse_key-get_key_example = parse_key-get_key (b'r') [] (1 ∷ [])

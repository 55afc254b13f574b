-- ===== src/Utils/RateLimiter/Window.antt =====
-- packages/utils/src/rate-limiter.ts, consume: the points that calls take within one duration
use js_libp2p.Base.{
  ℕ, ◌+◌, ◌*◌, ◌≤◌, ◌<◌, ◌≡◌, refl, ap, sym, subst, ◌∙◌, ◌+ℤ◌, Bool, true, false, Option, none,
  some, List, [], ◌∷◌, arith, if◌then◌else◌, ltb, leb, bytes_eq, ◌==◌, ==_refl, Option-cases,
  Bool-cases, inl, inr, ℤ, pos, +ℤ-pos,
}
use js_libp2p.Base.Map
use js_libp2p.Utils.MemoryStorage
use js_libp2p.Utils.MemoryStorage.{RateRecord, RateLimiterResult, Storage}
use js_libp2p.Utils.RateLimiter.{RateLimiter, Consumed, allowed, rate_limit_error, consume, get_key}
use js_libp2p.Utils.RateLimiter.Keys.{beq-get_key}

-- A call of `consume` with the default duration.
pub record Call : Type 0 where
  pub at_time : ℕ
  pub key : List ℕ
  pub points_to_consume : ℕ

abbrev pub call : RateLimiter → Call → RateLimiter × Consumed
call l c = consume c.at_time l c.key c.points_to_consume none

unfoldable pub run : RateLimiter → List Call → RateLimiter
run l [] = l
run l (c ∷ cs) = run (call l c).0 cs

abbrev pub is_allowed : Consumed → Bool
is_allowed (allowed r) = true
is_allowed (rate_limit_error r) = false

-- The points that the calls for one key ask for, the refused ones included.
unfoldable pub asked : List ℕ → List Call → ℕ
asked k [] = 0
asked k (c ∷ cs) = let rest = asked k cs in if c.key == k then c.points_to_consume + rest else rest

-- Every call comes before the end of the window that starts at `t`, and not before it.
unfoldable pub IsWithin : ℕ → ℕ → List Call → Type 0
IsWithin t e [] = Unit {0}
IsWithin t e (c ∷ cs) = (t ≤ c.at_time) × (c.at_time < e) × IsWithin t e cs

-- The record holds the sum n and lives up to e at least.
abbrev pub Holds : ℕ → ℕ → Option RateRecord → Type 0
Holds e n none = n ≡ 0
Holds e n (some r) = (r.value ≡ pos n) × ((f : ℕ) × (r.expires_at ≡ some f) × (e ≤ f))

get-set_same :
    (s : Storage) (key : List ℕ) (r : RateRecord) → Map.get (Map.set s key r) key ≡ some r
get-set_same s key r = ground (arith, Map.get-set s key key r, ==_refl key)

get-set_other :
    (s : Storage) (key j : List ℕ) (r : RateRecord)
    → (key == j) ≡ false
    → Map.get (Map.set s key r) j ≡ Map.get s j
get-set_other s key j r h = ground (arith, Map.get-set s key j r)

abbrev fresh : ℕ → ℕ → ℕ → RateRecord
fresh now n d = record { value = pos n; expires_at = some (now + d * 1000) }

incrby-absent :
    (now : ℕ) (s : Storage) (key : List ℕ) (n d : ℕ)
    → 0 < d
    → Map.get s key ≡ none
    → (Map.get (MemoryStorage.incrby now s key (pos n) d).0 key ≡ some (fresh now n d))
      × ((MemoryStorage.incrby now s key (pos n) d).1.consumed_points ≡ pos n)
unfolding MemoryStorage.incrby MemoryStorage.set
incrby-absent now s key n d h g = ground (arith, get-set_same s key (fresh now n d))

incrby-present :
    (now : ℕ) (s : Storage) (key : List ℕ) (n d m f : ℕ) (r : RateRecord)
    → r.value ≡ pos m
    → r.expires_at ≡ some f
    → now < f
    → Map.get s key ≡ some r
    → (Map.get (MemoryStorage.incrby now s key (pos n) d).0 key
        ≡ some (record { value = pos (m + n); expires_at = some f }))
      × ((MemoryStorage.incrby now s key (pos n) d).1.consumed_points ≡ pos (m + n))
unfolding MemoryStorage.incrby
incrby-present now s key n d m f r v x h g =
    ground
      (arith, +ℤ-pos m n, get-set_same s key (record { value = pos (m + n); expires_at = some f }))

incrby-other :
    (now : ℕ) (s : Storage) (key j : List ℕ) (v : ℤ) (d : ℕ)
    → (key == j) ≡ false
    → Map.get (MemoryStorage.incrby now s key v d).0 j ≡ Map.get s j
unfolding MemoryStorage.incrby MemoryStorage.set
incrby-other now s key j v d h =
    let first : RateRecord = record {
      value = v;
      expires_at = if ltb 0 (d * 1000) then some (now + d * 1000) else none;
    } in
    elim (Option-cases (Map.get s key)) [
      | inl g ↦ ground (arith, get-set_other s key j first h)
      | inr (r, g) ↦ ground (
        arith,
        get-set_other s key j first h,
        get-set_other s key j (record r { value = r.value +ℤ v }) h,
      )
    ]

-- What a call does to the limiter that blocks no key.
consume-storage :
    (now : ℕ) (l : RateLimiter) (key : List ℕ) (n : ℕ)
    → l.block_duration ≡ 0
    → (consume now l key n none).0 ≡ record l {
      memory_storage =
          (MemoryStorage.incrby now l.memory_storage
            (get_key l.key_prefix key)
            (pos n)
            l.duration).0;
    }
unfolding consume
consume-storage now l key n h = ground arith

consume-allowed :
    (now : ℕ) (l : RateLimiter) (key : List ℕ) (n total : ℕ)
    → l.block_duration ≡ 0
    → (MemoryStorage.incrby now l.memory_storage
        (get_key l.key_prefix key)
        (pos n)
        l.duration).1.consumed_points
      ≡ pos total
    → is_allowed (consume now l key n none).1 ≡ leb total l.points
unfolding consume
consume-allowed now l key n total h k = ground arith

-- Every key's record holds what was asked for it, up to the end of the window.
unfoldable IsCounted : ℕ → RateLimiter → (List ℕ → ℕ) → Type 0
IsCounted e l total =
    (k : List ℕ) → Holds e (total k) (Map.get l.memory_storage (get_key l.key_prefix k))

incrby-Holds :
    (now e : ℕ) (s : Storage) (key : List ℕ) (n d m : ℕ)
    → 0 < d
    → now < e
    → e ≤ now + d * 1000
    → Holds e m (Map.get s key)
    → (Holds e (m + n) (Map.get (MemoryStorage.incrby now s key (pos n) d).0 key))
      × ((MemoryStorage.incrby now s key (pos n) d).1.consumed_points ≡ pos (m + n))
incrby-Holds now e s key n d m z h k held = elim (Option-cases (Map.get s key)) [
  | inl g ↦
      let (a, b) = incrby-absent now s key n d z g in
      let w : m ≡ 0 = subst (Holds e m) g held in
      (
        subst (Holds e (m + n)) (sym a) (ap pos (omega arith), (now + d * 1000, refl, k)),
        b ∙ ap pos (omega arith),
      )
  | inr (r, g) ↦
      let (v, (f, x, y)) = subst (Holds e m) g held in
      let (a, b) = incrby-present now s key n d m f r v x (omega arith) g in
      (subst (Holds e (m + n)) (sym a) (refl, (f, refl, y)), b)
]

-- The counts of a call are for its key alone.
abbrev with_call : Call → (List ℕ → ℕ) → List ℕ → ℕ
with_call c total k = if c.key == k then total k + c.points_to_consume else total k

storage-Holds :
    (t e : ℕ) (l : RateLimiter) (c : Call) (total : List ℕ → ℕ)
    → 0 < l.duration
    → e ≤ t + l.duration * 1000
    → t ≤ c.at_time
    → c.at_time < e
    → IsCounted e l total
    → (k : List ℕ)
    → Holds e (with_call c total k) (
        Map.get
          (MemoryStorage.incrby c.at_time l.memory_storage
            (get_key l.key_prefix c.key)
            (pos c.points_to_consume)
            l.duration).0
          (get_key l.key_prefix k))
unfolding IsCounted
storage-Holds t e l c total z w lo hi counted k =
    let at_key : List ℕ → Option RateRecord = λ j.
      Map.get
        (MemoryStorage.incrby c.at_time l.memory_storage (get_key l.key_prefix c.key)
          (pos c.points_to_consume) l.duration).0
        (get_key l.key_prefix j) in
    elim (Bool-cases (c.key == k)) [
      | inl h ↦
          let same : c.key ≡ k = (bytes_eq.same_iff c.key k).0 h in
          let held =
            incrby-Holds c.at_time e l.memory_storage (get_key l.key_prefix c.key)
              c.points_to_consume l.duration (total c.key) z hi (omega arith) (counted c.key) in
          let sum : total c.key + c.points_to_consume ≡ with_call c total c.key =
            ground (arith, ==_refl c.key) in
          subst (λ j. Holds e (with_call c total j) (at_key j)) same
            (subst (λ n. Holds e n (at_key c.key)) sum held.0)
      | inr h ↦
          let kept : at_key k ≡ Map.get l.memory_storage (get_key l.key_prefix k) =
            incrby-other c.at_time l.memory_storage (get_key l.key_prefix c.key)
              (get_key l.key_prefix k) (pos c.points_to_consume) l.duration
              (beq-get_key l.key_prefix c.key k ∙ h) in
          let sum : with_call c total k ≡ total k = ground arith in
          subst (λ n. Holds e n (at_key k)) (sym sum)
            (subst (Holds e (total k)) (sym kept) (counted k))
    ]

run-window :
    (t e : ℕ) (l : RateLimiter) (cs : List Call) (c : Call) (total : List ℕ → ℕ)
    → l.block_duration ≡ 0
    → 0 < l.duration
    → e ≤ t + l.duration * 1000
    → IsWithin t e cs
    → t ≤ c.at_time
    → c.at_time < e
    → IsCounted e l total
    → is_allowed (call (run l cs) c).1
      ≡ leb (total c.key + (asked c.key cs + c.points_to_consume)) l.points
unfolding run asked IsWithin IsCounted
run-window t e l [] c total b z w h lo hi counted =
    consume-allowed c.at_time l c.key c.points_to_consume (total c.key + (0 + c.points_to_consume))
      b
      ((incrby-Holds c.at_time e l.memory_storage (get_key l.key_prefix c.key) c.points_to_consume
          l.duration (total c.key) z hi (omega arith) (counted c.key)).1
        ∙ ap pos (omega arith))
run-window t e l (d ∷ cs) c total b z w h lo hi counted =
    let after : RateLimiter = record l {
      memory_storage =
          (MemoryStorage.incrby d.at_time l.memory_storage (get_key l.key_prefix d.key)
            (pos d.points_to_consume) l.duration).0;
    } in
    let rest =
      run-window t e after cs c (with_call d total) b z w h.2 lo hi
        (storage-Holds t e l d total z w h.0 h.1 counted) in
    let sums : with_call d total c.key + (asked c.key cs + c.points_to_consume)
        ≡ total c.key + (asked c.key (d ∷ cs) + c.points_to_consume) =
      ground arith in
    ap (λ x. is_allowed (call (run x cs) c).1)
      (consume-storage d.at_time l d.key d.points_to_consume b)
    ∙ rest
    ∙ ap (λ x. leb x l.points) sums

-- On a limiter that blocks no key and holds no record, after any calls within one duration, for any
-- keys, a further call within it is let through exactly when all the points asked for its key, the
-- refused calls' included, and its own are at most the limit.
pub consume-window :
    (t : ℕ) (l : RateLimiter) (cs : List Call) (c : Call)
    → l.block_duration ≡ 0
    → 0 < l.duration
    → l.memory_storage ≡ []
    → IsWithin t (t + l.duration * 1000) cs
    → t ≤ c.at_time
    → c.at_time < t + l.duration * 1000
    → is_allowed (call (run l cs) c).1 ≡ leb (asked c.key cs + c.points_to_consume) l.points
unfolding IsCounted Map.get
consume-window t l cs c b z h w lo hi =
    let empty : IsCounted (t + l.duration * 1000) l (λ k. 0) = λ k.
      subst (λ s. Holds (t + l.duration * 1000) 0 (Map.get s (get_key l.key_prefix k))) (sym h)
        refl in
    run-window t (t + l.duration * 1000) l cs c (λ k. 0) b z (omega arith) w lo hi empty
    ∙ ap (λ n. leb n l.points) (omega arith)

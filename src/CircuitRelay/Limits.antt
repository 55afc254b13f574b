-- ===== src/CircuitRelay/Limits.antt =====
-- packages/transport-circuit-relay-v2/src/utils.ts: the limits of a relayed connection, as the relay counts
-- the bytes of its two streams and as the client tells what is left
use js_libp2p.Base.{
  ℕ, ◌-◌, ◌*◌, ◌+◌, ◌≡◌, ap, ◌∙◌, Bool, false, ◌||◌, Option, none, some, List, [], ◌∷◌,
  if◌then◌else◌, ltb, nat_beq, arith, ℤ, pos, ltb_ℤ, sub_ℕ, pos_part, neg_part,
}
use js_libp2p.CircuitRelay.ReservationStore.{Limit}

-- What both streams of a relayed connection may still carry, and whether one of them was aborted for it.
pub record DataLimit : Type 0 where
  pub remaining : ℤ
  pub is_exceeded : Bool

abbrev fresh : ℕ → DataLimit
fresh size = record { remaining = pos size; is_exceeded = false }

abbrev data_limit_of : Option ℕ → Option DataLimit
data_limit_of none = none
data_limit_of (some size) = some (fresh size)

-- The data limit of createLimitedRelay.
unfoldable pub relay_data_limit : Option Limit → Option DataLimit
relay_data_limit none = none
relay_data_limit (some limit) = data_limit_of limit.data_limit

-- a - n
abbrev minus : ℤ → ℕ → ℤ
minus a n = sub_ℕ (pos_part a) (neg_part a + n)

-- A message of so many bytes on one of the streams.
abbrev count : DataLimit → ℕ → DataLimit
count limit length =
    let remaining = minus limit.remaining length in
    record { remaining = remaining; is_exceeded = limit.is_exceeded || ltb_ℤ remaining (pos 0) }

unfoldable pub count_message : Option DataLimit → ℕ → Option DataLimit
count_message none length = none
count_message (some limit) length = some (count limit length)

unfoldable pub count_messages : Option DataLimit → List ℕ → Option DataLimit
count_messages limit [] = limit
count_messages limit (n ∷ ns) = count_messages (count_message limit n) ns

pub record LimitTracker : Type 0 where
  pub expires : Option ℕ
  pub bytes : Option ℕ

-- A duration of 0, and data of 0 bytes, are no limit.
abbrev expiry_of : ℕ → Option ℕ → Option ℕ
expiry_of now none = none
expiry_of now (some duration) = if nat_beq duration 0 then none else some (now + duration * 1000)

abbrev bytes_of : Option ℕ → Option ℕ
bytes_of none = none
bytes_of (some n) = if nat_beq n 0 then none else some n

unfoldable pub new_tracker : ℕ → Option Limit → LimitTracker
new_tracker now none = record { expires = none; bytes = none }
new_tracker now (some limit) = record {
  expires = expiry_of now limit.duration;
  bytes = bytes_of limit.data_limit;
}

abbrev less : ℕ → Option ℕ → Option ℕ
less length none = none
less length (some bytes) = some (if ltb bytes length then 0 else bytes - length)

unfoldable pub on_data : LimitTracker → ℕ → LimitTracker
on_data tracker length = record tracker { bytes = less length tracker.bytes }

unfoldable pub on_messages : LimitTracker → List ℕ → LimitTracker
on_messages tracker [] = tracker
on_messages tracker (n ∷ ns) = on_messages (on_data tracker n) ns

abbrev pub total : List ℕ → ℕ
total [] = 0
total (n ∷ ns) = n + total ns

-- So many bytes of the limit have been counted.
abbrev pub counted : ℕ → ℕ → DataLimit
counted size n = record { remaining = sub_ℕ size n; is_exceeded = ltb size n }

count_messages-counted :
    (ns : List ℕ) (size before : ℕ)
    → count_messages (some (counted size before)) ns ≡ some (counted size (before + total ns))
unfolding count_messages count_message
count_messages-counted [] size before =
    let none_more : before ≡ before + 0 = omega arith in ap (λ n. some (counted size n)) none_more
count_messages-counted (n ∷ ns) size before =
    let all_of : before + n + total ns ≡ before + (n + total ns) = omega arith in
    ap (λ l. count_messages (some l) ns) (counts size before n)
    ∙ count_messages-counted ns size (before + n)
    ∙ ap (λ n. some (counted size n)) all_of
  where
    counts : (size before n : ℕ) → count (counted size before) n ≡ counted size (before + n)
    counts size before n = ground arith

on_messages-bytes :
    (ns : List ℕ) (expires : Option ℕ) (bytes : ℕ)
    → on_messages (record { expires = expires; bytes = some bytes }) ns
      ≡ record { expires = expires; bytes = some (bytes - total ns) }
unfolding on_messages on_data
on_messages-bytes [] expires bytes =
    let same : bytes ≡ bytes - 0 = omega arith in
    ap (λ b. record { expires = expires; bytes = some b }) same
on_messages-bytes (n ∷ ns) expires bytes =
    on_messages-bytes ns expires (if ltb bytes n then 0 else bytes - n)
    ∙ ap (λ b. record { expires = expires; bytes = some b }) (rest bytes n (total ns))
  where
    rest : (bytes n m : ℕ) → (if ltb bytes n then 0 else bytes - n) - m ≡ bytes - (n + m)
    rest bytes n m = ground arith

-- With a data limit that is not 0, after messages of any sizes on the two streams: the relay has aborted the
-- connection exactly where they hold more bytes than the limit, and the client is told what the messages have
-- left of it, or 0.
pub limits-agree :
    (now size : ℕ) (duration : Option ℕ) (ns : List ℕ)
    → nat_beq size 0 ≡ false
    → (count_messages
          (relay_data_limit (some (record { data_limit = some size; duration = duration })))
          ns
        ≡ some (counted size (total ns)))
      × ((on_messages
            (new_tracker now (some (record { data_limit = some size; duration = duration })))
            ns).bytes
          ≡ some (size - total ns))
unfolding relay_data_limit new_tracker
limits-agree now size duration ns h = (
  ap (λ l. count_messages (some l) ns) (starts size)
      ∙ count_messages-counted ns size 0
      ∙ ap (λ n. some (counted size n)) none_before,
  ap
        (λ b.
          (on_messages
            (record { expires = expiry_of now duration; bytes = if b then none else some size })
            ns).bytes)
        h
      ∙ ap (λ (t : LimitTracker). t.bytes) (on_messages-bytes ns (expiry_of now duration) size),
)
  where
    starts : (size : ℕ) → fresh size ≡ counted size 0
    starts size = ground arith

    none_before : 0 + total ns ≡ total ns
    none_before = omega arith

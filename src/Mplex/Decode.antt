-- ===== src/Mplex/Decode.antt =====
-- packages/stream-multiplexer-mplex/src/decode.ts
-- A byte is a number below 256, and the Uint8ArrayList of the source is the list of its bytes.
pub mod Header
pub mod Loop
pub mod Growth
pub mod Joined
pub mod Chunks
pub mod ReadBack
use Prim.Native.Nat.{bit_and}
use js_libp2p.Base.{
  ℤ, pos, negsuc, ℕ, zero, suc, ◌+◌, ◌-◌, ◌*◌, ◌/◌, ◌%◌, ◌^◌, ◌≡◌, refl, Bool, true, false, Option,
  none, some, List, [], ◌∷◌, ◌++◌, if◌then◌else◌, ltb, leb, length, take, drop,
}
use js_libp2p.Mplex.MessageTypes.{MessageTypes, type_of_code, carries_data, Message}

abbrev pub max_msg_size : ℕ
max_msg_size = 2 ^ 20

abbrev pub max_msg_queue_size : ℕ
max_msg_queue_size = 4 * 2 ^ 20

pub data Error : Type 0 where
  -- RangeError of `readVarInt`
  could_not_decode : Error
  -- plain Error of `_decodeHeader`
  invalid_type : ℕ → Error
  -- the two InvalidMessageErrors
  message_too_large queue_too_large : Error

-- `err.name === 'InvalidMessageError'`
abbrev pub is_invalid_message : Error → Bool
is_invalid_message message_too_large = true
is_invalid_message queue_too_large = true
is_invalid_message _ = false

-- `out_of_fuel` is no outcome of the source: the loop of `write` ran out of rounds.
pub data Result {ℓ} (A : Type ℓ) : Type ℓ where
  ok : A → Result A
  err : Error → Result A
  out_of_fuel : Result A

infixl 5 ◌>>=◌
abbrev pub ◌>>=◌ {ℓ κ} : {A : Type ℓ} {B : Type κ} → Result A → (A → Result B) → Result B
ok a >>= f = f a
err e >>= f = err e
out_of_fuel >>= f = out_of_fuel

abbrev pub or_throw {ℓ} : {A : Type ℓ} → Option A → Error → Result A
or_throw none e = err e
or_throw (some a) e = ok a

pub record MessageHeader : Type 0 where
  pub id : ℤ
  pub type : MessageTypes
  pub offset : ℕ
  pub length : ℕ

pub record Decoder : Type 0 where
  pub buffer : List ℕ
  pub header_info : Option MessageHeader
  pub max_message_size : ℕ
  pub max_unprocessed_message_queue_size : ℕ

abbrev pub init : ℕ → ℕ → Decoder
init m q = record {
  buffer = [];
  header_info = none;
  max_message_size = m;
  max_unprocessed_message_queue_size = q;
}

-- A number rounded to a multiple of `unit`, ties to the even multiple.
abbrev round_to : ℕ → ℕ → ℕ
round_to unit n =
    let q = n / unit in
    let r = n % unit in
    if ltb (2 * r) unit
    then q * unit
    else if ltb unit (2 * r)
    then (q + 1) * unit
    else (q + q % 2) * unit

-- The JavaScript number nearest to `n`: every number below 2^53 is one. `readVarInt` stays below 2^56.
unfoldable pub number : ℕ → ℕ
number n =
    if ltb n (2 ^ 53)
    then n
    else if ltb n (2 ^ 54)
    then round_to 2 n
    else if ltb n (2 ^ 55)
    then round_to 4 n
    else round_to 8 n

-- `(b & REST) << shift` on 32 bits below shift 28 (at most 21 by sevens, so the sign bit stays
-- clear), and the product of numbers above.
unfoldable pub group : ℕ → ℕ → ℕ
group b shift =
    if ltb shift 28 then bit_and b 0x7f * 2 ^ shift % 2 ^ 32 else bit_and b 0x7f * 2 ^ shift

-- The bytes from `counter` on.
unfoldable pub read_loop : List ℕ → ℕ → ℕ → ℕ → Option (ℕ × ℕ)
read_loop [] res shift counter = none
read_loop (b ∷ bs) res shift counter =
    let res' = number (res + group b shift) in
    let more = read_loop bs res' (shift + 7) (counter + 1) in
    if ltb 49 shift then none else if leb 0x80 b then more else some (res', counter + 1)

-- The value, and how many bytes it took.
unfoldable pub read_var_int : List ℕ → Option (ℕ × ℕ)
read_var_int buf = read_loop buf 0 0 0

-- `h >> 3`, on the 32 low bits of `h`, with their sign.
unfoldable pub shift_id : ℕ → ℤ
shift_id h =
    let w = h % 2 ^ 32 in if ltb w (2 ^ 31) then pos (w / 8) else negsuc ((2 ^ 32 - w - 1) / 8)

-- `length > this._maxMessageSize`
abbrev check_size : ℕ → MessageHeader → Result MessageHeader
check_size max h = if ltb max h.length then err message_too_large else ok h

unfoldable pub decode_header : ℕ → List ℕ → Result MessageHeader
decode_header max_message_size bytes = do
  (h, offset) ← or_throw (read_var_int bytes) could_not_decode
  (len, end) ← or_throw (read_var_int (drop offset bytes)) could_not_decode
  type ← or_throw (type_of_code (h % 8)) (invalid_type (h % 8))
  check_size max_message_size
      (record { id = shift_id h; type = type; offset = offset + end; length = len })

-- The header of the message at the front, from the last call or decoded now.
unfoldable pub header_of : Decoder → Result MessageHeader
header_of d = elim d.header_info [
  | some h ↦ ok h
  | none ↦ decode_header d.max_message_size d.buffer
]

abbrev pub message : MessageHeader → List ℕ → Message
message h buffer = record {
  id = h.id;
  type = h.type;
  payload = if carries_data h.type then some (take h.length (drop h.offset buffer)) else none;
}

-- One round of the loop: it throws, breaks, or takes a message off the buffer.
pub data Round : Type 0 where
  throws : Error → Round
  breaks : Decoder → Round
  takes : Message → Decoder → Round

-- The test is `bufferedDataLength < length` with the offset on the other side.
abbrev pub with_header : Decoder → Result MessageHeader → Round
with_header d (err e) = if is_invalid_message e then throws e else breaks d
with_header d out_of_fuel = breaks d
with_header d (ok h) =
    if ltb (length d.buffer) (h.offset + h.length)
    then breaks (record d { header_info = some h })
    else takes (message h d.buffer)
        (record d { buffer = drop (h.offset + h.length) d.buffer; header_info = none })

unfoldable pub round : Decoder → Round
unfolding header_of
round d = with_header d (header_of d)

-- What `write` returns or throws, and the decoder that it leaves.
abbrev pub Outcome : Type 0
Outcome = Result (List Message) × Decoder

unfoldable pub loop : ℕ → Decoder → List Message → Outcome
loop zero d msgs = (out_of_fuel, d)
loop (suc fuel) d msgs = elim d.buffer [
  | [] ↦ (ok msgs, d)
  | _ ∷ _ ↦ elim (round d) [
    | throws e ↦ (err e, d)
    | breaks d' ↦ (ok msgs, d')
    | takes m d' ↦ loop fuel d' (msgs ++ (m ∷ []))
  ]
]

-- The whole loop: a round that takes a message takes at least one byte, so this fuel is enough.
unfoldable pub drain : Decoder → List Message → Outcome
drain d msgs = loop (suc (length d.buffer)) d msgs

unfoldable pub append : Decoder → List ℕ → Decoder
append d chunk = record d { buffer = d.buffer ++ chunk }

unfoldable pub write : Decoder → List ℕ → Outcome
unfolding append loop drain
write d [] = (ok [], d)
write d (b ∷ bs) =
    let d' = append d (b ∷ bs) in
    if ltb d'.max_unprocessed_message_queue_size (length d'.buffer)
    then (err queue_too_large, d')
    else drain d' []

abbrev pub prepend : List Message → Outcome → Outcome
prepend xs (ok ys, d) = (ok (xs ++ ys), d)
prepend xs (err e, d) = (err e, d)
prepend xs (out_of_fuel, d) = (out_of_fuel, d)

-- The messages that were handled, how the last call ended, and the decoder that it left.
abbrev pub Handled : Type 0
Handled = List Message × (Result (Unit {0}) × Decoder)

-- The messages of a call are handled, and `next` runs on the decoder that it left; after an error
-- it does not run.
abbrev pub and_then : Outcome → (Decoder → Handled) → Handled
and_then (ok xs, d) next = let rest = next d in (xs ++ rest.0, rest.1)
and_then (err e, d) next = ([], (err e, d))
and_then (out_of_fuel, d) next = ([], (out_of_fuel, d))

-- `onData` of mplex.ts calls `write` once for each chunk and handles the messages that it returns
-- before the next chunk; an error ends the connection.
unfoldable pub write_all : Decoder → List (List ℕ) → Handled
write_all d [] = ([], (ok tt, d))
write_all d (chunk ∷ chunks) = and_then (write d chunk) (λ d'. write_all d' chunks)

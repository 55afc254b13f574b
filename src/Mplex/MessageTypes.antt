-- ===== src/Mplex/MessageTypes.antt =====
-- packages/stream-multiplexer-mplex/src/message-types.ts
use js_libp2p.Base.{
  ℤ, ℕ, zero, suc, ◌≡◌, refl, Bool, true, false, Option, none, some, List, arith, ◌<◌,
}

pub data MessageTypes : Type 0 where
  new_stream message_receiver message_initiator close_receiver : MessageTypes
  close_initiator reset_receiver reset_initiator : MessageTypes

-- The value of the enum's member.
abbrev pub code : MessageTypes → ℕ
code new_stream = 0
code message_receiver = 1
code message_initiator = 2
code close_receiver = 3
code close_initiator = 4
code reset_receiver = 5
code reset_initiator = 6

-- `MessageTypeNames[type]`, `none` where that is undefined.
abbrev pub type_of_code : ℕ → Option MessageTypes
type_of_code zero = some new_stream
type_of_code (suc zero) = some message_receiver
type_of_code (suc (suc zero)) = some message_initiator
type_of_code (suc (suc (suc zero))) = some close_receiver
type_of_code (suc (suc (suc (suc zero)))) = some close_initiator
type_of_code (suc (suc (suc (suc (suc zero))))) = some reset_receiver
type_of_code (suc (suc (suc (suc (suc (suc zero)))))) = some reset_initiator
type_of_code (suc (suc (suc (suc (suc (suc (suc n))))))) = none

-- The three types that carry data.
abbrev pub carries_data : MessageTypes → Bool
carries_data new_stream = true
carries_data message_initiator = true
carries_data message_receiver = true
carries_data _ = false

-- `payload` is the `data` of the message, absent for the types that have none.
pub record Message : Type 0 where
  pub id : ℤ
  pub type : MessageTypes
  pub payload : Option (List ℕ)

pub type_of_code-code : (t : MessageTypes) → type_of_code (code t) ≡ some t
type_of_code-code new_stream = refl
type_of_code-code _ = refl

pub code-lt : (t : MessageTypes) → code t < 7
code-lt new_stream = omega arith
code-lt _ = omega arith

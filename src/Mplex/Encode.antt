-- ===== src/Mplex/Encode.antt =====
-- packages/stream-multiplexer-mplex/src/encode.ts
-- The buffers that headers are written to are shared: `memory p i` is byte `i` of pool `p`, and a
-- list holds views of a pool beside the data of the messages.
pub mod Memory
pub mod Pool
use js_libp2p.Base.{
  ℤ, pos, negsuc, ℕ, zero, suc, ◌+◌, ◌-◌, ◌*◌, ◌%◌, ◌^◌, ◌<◌, ◌≤◌, ◌≡◌, Bool, ◌&&◌, Option, none,
  some, List, [], ◌∷◌, ◌++◌, ◌/◌, if◌then◌else◌, ltb, nat_beq, length,
}
use mathlib.Core.List.{flatten, flat_map}
use js_libp2p.Mplex.Varint.{Varint}
use js_libp2p.Mplex.MessageTypes.{MessageTypes, code, carries_data, Message}

abbrev pub pool_size : ℕ
pool_size = 10 * 1024

-- ToInt32 and ToUint32 of the operators `<<` and `|`.
abbrev pub to_uint32 : ℤ → ℕ
to_uint32 (pos n) = n % 2 ^ 32
to_uint32 (negsuc n) = 2 ^ 32 - 1 - n % 2 ^ 32

abbrev pub to_int32 : ℕ → ℤ
to_int32 n = let w = n % 2 ^ 32 in if ltb w (2 ^ 31) then pos w else negsuc (2 ^ 32 - 1 - w)

-- `msg.id << 3 | msg.type`: the three low bits of the shifted id are clear, so `|` adds the type.
unfoldable pub head_word : Message → ℤ
head_word msg = to_int32 (to_uint32 msg.id * 8 % 2 ^ 32 + code msg.type)

abbrev pub Memory : Type 0
Memory = ℕ → ℕ → ℕ

pub record Encoder : Type 0 where
  pub memory : Memory
  pub pool : ℕ
  pub pool_offset : ℕ

-- What a Uint8ArrayList holds: `pool.subarray(start, end)`, or the bytes of a message.
pub data Chunk : Type 0 where
  view : ℕ → ℕ → ℕ → Chunk
  bytes : List ℕ → Chunk

abbrev pub poke : Memory → ℕ → ℕ → ℕ → Memory
poke m p i b q j = if nat_beq q p && nat_beq j i then b else m q j

-- Bytes written to pool `p` from offset `i` on.
unfoldable pub put_bytes : Memory → ℕ → ℕ → List ℕ → Memory
put_bytes m p i [] = m
put_bytes m p i (b ∷ bs) = put_bytes (poke m p i b) p (i + 1) bs

-- `n` bytes of pool `p` from offset `i` on.
unfoldable pub peek : Memory → ℕ → ℕ → ℕ → List ℕ
peek m p i zero = []
peek m p i (suc n) = m p i ∷ peek m p (i + 1) n

unfoldable pub contents : Memory → Chunk → List ℕ
contents m (view p start end) = peek m p start (end - start)
contents m (bytes bs) = bs

-- The data that is sent with a message: `msg.data`, for the types that carry it, if it is not null.
abbrev pub sent_data : Message → Option (List ℕ)
sent_data msg = if carries_data msg.type then msg.payload else none

abbrev pub data_length : Option (List ℕ) → ℕ
data_length none = 0
data_length (some bs) = length bs

abbrev pub data_or_nothing : Option (List ℕ) → List ℕ
data_or_nothing none = []
data_or_nothing (some bs) = bs

abbrev pub append_data : Option (List ℕ) → List Chunk
append_data none = []
append_data (some bs) = bytes bs ∷ []

-- `if (POOL_SIZE - offset < 100)` a new pool is taken, whose bytes are not initialised.
unfoldable pub advance : Encoder → ℕ → Encoder
advance e offset =
    if ltb pool_size (offset + 100)
    then record e { pool = suc e.pool; pool_offset = 0 }
    else record e { pool_offset = offset }

module _ (varint : Varint) where
  -- The encoder after the call, and what the call appends to the list.
  unfoldable pub write : Encoder → Message → Encoder × List Chunk
  unfolding advance
  write e msg =
      let word = head_word msg in
      let data_size = pos (data_length (sent_data msg)) in
      let after_word = e.pool_offset + varint.encoding_length word in
      let offset = after_word + varint.encoding_length data_size in
      let memory =
        put_bytes (put_bytes e.memory e.pool e.pool_offset (varint.encode word)) e.pool after_word
          (varint.encode data_size) in
      (
        advance (record e { memory = memory }) offset,
        view e.pool e.pool_offset offset ∷ append_data (sent_data msg),
      )

  -- `encode` for one message after another: the lists are read later, in the memory at the end.
  unfoldable pub write_messages : Encoder → List Message → Encoder × List Chunk
  write_messages e [] = (e, [])
  write_messages e (msg ∷ msgs) =
      let (e', chunks) = write e msg in
      let (e'', more) = write_messages e' msgs in (e'', chunks ++ more)

  -- The bytes that a message stands for on the wire.
  unfoldable pub wire : Message → List ℕ
  wire msg =
      varint.encode (head_word msg)
      ++ (varint.encode (pos (data_length (sent_data msg))) ++ data_or_nothing (sent_data msg))

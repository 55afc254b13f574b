-- ===== src/Mplex/Encode/Pool.antt =====
-- The shared pool of encode.ts, and the headers that were handed out when later messages follow.
use mathlib.Core.Path.{ap₂}
use mathlib.Core.List.{flat_map, append_assoc, append-nil}
use js_libp2p.Base.{
  pos, ℕ, suc, ◌+◌, ◌-◌, ◌^◌, ◌<◌, ◌≤◌, ◌≡◌, refl, sym, ap, ◌∙◌, none, some, Option, List, [], ◌∷◌,
  ◌++◌, ◌⊎◌, arith, length, flat_map-append, All, subst,
}
use js_libp2p.Mplex.MessageTypes.{Message}
use js_libp2p.Mplex.Varint.{Varint, IsLeb128, length-encode}
use js_libp2p.Mplex.Encode.Memory.{put_bytes_other, peek_agree, peek-put_two}
use js_libp2p.Mplex.Encode.{
  Memory, Encoder, Chunk, view, bytes, pool_size, put_bytes, contents, head_word, sent_data,
  data_length, data_or_nothing, append_data, advance, write, write_messages, wire,
}

-- There is room for the next header.
pub record IsReady (e : Encoder) : Type 0 where
  pub room : e.pool_offset + 100 ≤ pool_size

-- Byte `j` of pool `q` was written before the encoder got to where it stands.
abbrev Before : Encoder → ℕ → ℕ → Type 0
Before e q j = (q < e.pool) ⊎ ((q ≡ e.pool) × (j < e.pool_offset))

abbrev IsBehind : Encoder → Chunk → Type 0
IsBehind e (view p start end) = (j : ℕ) → j < end → Before e p j
IsBehind e (bytes bs) = Unit {0}

-- Later writes leave what was written before.
record Extends (e e' : Encoder) : Type 0 where
  keeps : (q j : ℕ) → Before e q j → e'.memory q j ≡ e.memory q j
  moves : (q j : ℕ) → Before e q j → Before e' q j

-- One message whose id and length are in the range of the format: `n` is its first varint.
module _ (varint : Varint) (laws : IsLeb128 varint) (e : Encoder) (msg : Message)
    (ready : IsReady e) (n : ℕ) (word : head_word msg ≡ pos n) (word_fits : n < 2 ^ 31)
    (size_fits : data_length (sent_data msg) < 2 ^ 49) where
  word_bytes : List ℕ
  word_bytes = varint.encode (head_word msg)

  size_bytes : List ℕ
  size_bytes = varint.encode (pos (data_length (sent_data msg)))

  word_length :
      (varint.encoding_length (head_word msg) ≡ length word_bytes) × (length word_bytes ≤ 5)
  unfolding word_bytes
  word_length = (
    ap varint.encoding_length word
        ∙ laws.same_length n (omega arith)
        ∙ ap (λ w. length (varint.encode w)) (sym word),
    subst (λ w. length (varint.encode w) ≤ 5) (sym word)
        (length-encode varint laws 4 n (omega arith) (omega arith)),
  )

  size_length :
      (varint.encoding_length (pos (data_length (sent_data msg))) ≡ length size_bytes)
      × (length size_bytes ≤ 7)
  unfolding size_bytes
  size_length =
      (laws.same_length _ (omega arith), length-encode varint laws 6 _ (omega arith) (omega arith))

  abbrev after : Encoder
  after = (write varint e msg).0

  header_end : ℕ
  header_end = e.pool_offset + length word_bytes + length size_bytes

  -- The header's bytes fit the pool that they are written to.
  header_in_pool : header_end ≤ pool_size
  unfolding header_end
  header_in_pool = omega (arith, word_length, size_length, ready.room)

  memory-after :
      after.memory
      ≡ put_bytes
          (put_bytes e.memory e.pool e.pool_offset word_bytes)
          e.pool
          (e.pool_offset + length word_bytes)
          size_bytes
  unfolding write advance word_bytes size_bytes
  memory-after = ground (arith, word_length)

  place-after :
      ((after.pool ≡ e.pool) × (after.pool_offset ≡ header_end) × (header_end + 100 ≤ pool_size))
      ⊎ ((after.pool ≡ suc e.pool) × (after.pool_offset ≡ 0))
  unfolding write advance header_end
  place-after = ground (arith, word_length, size_length)

  chunks-after :
      (write varint e msg).1 ≡ view e.pool e.pool_offset header_end ∷ append_data (sent_data msg)
  unfolding write header_end
  chunks-after = ground (arith, word_length, size_length)

  write-IsReady : IsReady after
  write-IsReady = record { room = ground (arith, place-after) }

  write-Extends : Extends e after
  unfolding header_end
  write-Extends = record {
    keeps = λ q j b. rw memory-after (
        ground (
          arith,
          b,
          put_bytes_other (put_bytes e.memory e.pool e.pool_offset word_bytes) e.pool
              (e.pool_offset + length word_bytes) size_bytes q j,
          put_bytes_other e.memory e.pool e.pool_offset word_bytes q j,
        ));
    moves = λ q j b. ground (arith, b, place-after);
  }

  append_data-IsBehind : (o : Option (List ℕ)) → All (IsBehind after) (append_data o)
  append_data-IsBehind none = tt
  append_data-IsBehind (some bs) = (tt, tt)

  write-IsBehind : All (IsBehind after) (write varint e msg).1
  write-IsBehind =
      rw chunks-after ((λ j h. ground (arith, place-after)), append_data-IsBehind (sent_data msg))

  data-contents :
      (m : Memory) (o : Option (List ℕ)) → flat_map (contents m) (append_data o) ≡ data_or_nothing o
  unfolding flat_map contents
  data-contents m none = refl
  data-contents m (some bs) = append-nil bs

  header-contents :
      contents after.memory (view e.pool e.pool_offset header_end) ≡ word_bytes ++ size_bytes
  unfolding contents header_end
  header-contents =
      let size : header_end - e.pool_offset ≡ length word_bytes + length size_bytes = omega arith in
      rw (memory-after, size) (peek-put_two e.memory e.pool e.pool_offset word_bytes size_bytes)

  write-contents : flat_map (contents after.memory) (write varint e msg).1 ≡ wire varint msg
  unfolding flat_map wire word_bytes size_bytes
  write-contents =
      rw (chunks-after, header-contents, data-contents after.memory (sent_data msg))
        (append_assoc word_bytes size_bytes (data_or_nothing (sent_data msg)))

-- What is behind the encoder reads the same after later writes.
contents-Extends :
    (e e' : Encoder) (c : Chunk)
    → Extends e e'
    → IsBehind e c
    → contents e'.memory c ≡ contents e.memory c
unfolding contents
contents-Extends e e' (view p start end) x b =
    peek_agree e'.memory e.memory p start (end - start) (λ j l h. x.keeps p j (b j (omega arith)))
contents-Extends e e' (bytes bs) x b = refl

flat_map-contents-Extends :
    (e e' : Encoder) (cs : List Chunk)
    → Extends e e'
    → All (IsBehind e) cs
    → flat_map (contents e'.memory) cs ≡ flat_map (contents e.memory) cs
unfolding flat_map
flat_map-contents-Extends e e' [] x b = refl
flat_map-contents-Extends e e' (c ∷ cs) x b =
    ap₂ ◌++◌ (contents-Extends e e' c x b.0) (flat_map-contents-Extends e e' cs x b.1)

Extends-refl : (e : Encoder) → Extends e e
Extends-refl e = record { keeps = λ q j b. refl; moves = λ q j b. b }

Extends-trans : (a b c : Encoder) → Extends a b → Extends b c → Extends a c
Extends-trans a b c x y = record {
  keeps = λ q j h. y.keeps q j (x.moves q j h) ∙ x.keeps q j h;
  moves = λ q j h. y.moves q j (x.moves q j h);
}

-- A message whose first varint and data length are in the range of the format.
pub record IsEncodable (msg : Message) : Type 0 where
  pub number : ℕ
  pub word : head_word msg ≡ pos number
  pub word_fits : number < 2 ^ 31
  pub size_fits : data_length (sent_data msg) < 2 ^ 49

module _ (varint : Varint) (laws : IsLeb128 varint) where
  write_messages-Extends :
      (e : Encoder) (msgs : List Message)
      → IsReady e
      → All IsEncodable msgs
      → Extends e (write_messages varint e msgs).0
  unfolding write_messages
  write_messages-Extends e [] r h = Extends-refl e
  write_messages-Extends e (msg ∷ msgs) r (s, h) =
      let w = write-Extends varint laws e msg r s.number s.word s.word_fits s.size_fits in
      let r' = write-IsReady varint laws e msg r s.number s.word s.word_fits s.size_fits in
      Extends-trans e (write varint e msg).0 _ w
        (write_messages-Extends (write varint e msg).0 msgs r' h)

  -- From an encoder with room in its pool for a header, for messages whose first varint is not
  -- negative and below 2^31, as of an id below 2^28, and whose data have less than 2^49 bytes: read at
  -- the end, in the memory that all the writes have left, the lists hold the wire bytes of the
  -- messages in turn.
  pub write_messages-wire :
      (e : Encoder) (msgs : List Message)
      → IsReady e
      → All IsEncodable msgs
      → flat_map (contents (write_messages varint e msgs).0.memory) (write_messages varint e msgs).1
        ≡ flat_map (wire varint) msgs
  unfolding write_messages flat_map
  write_messages-wire e [] r h = refl
  write_messages-wire e (msg ∷ msgs) r (s, h) =
      let e' = (write varint e msg).0 in
      let e'' = (write_messages varint e' msgs).0 in
      let r' = write-IsReady varint laws e msg r s.number s.word s.word_fits s.size_fits in
      flat_map-append (contents e''.memory) (write varint e msg).1 (write_messages varint e' msgs).1
      ∙ ap₂ ◌++◌
          (flat_map-contents-Extends e' e'' (write varint e msg).1
              (write_messages-Extends e' msgs r' h)
              (write-IsBehind varint laws e msg r s.number s.word s.word_fits s.size_fits)
            ∙ write-contents varint laws e msg r s.number s.word s.word_fits s.size_fits)
          (write_messages-wire e' msgs r' h)

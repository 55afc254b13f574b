-- ===== src/Mplex/OneMessage.antt =====
-- decode.ts on the bytes that encode.ts writes for one message, with any bytes behind.
use mathlib.Core.List.{append_assoc}
use js_libp2p.Base.{
  pos, ℕ, ◌+◌, ◌*◌, ◌%◌, ◌^◌, ◌<◌, ◌≤◌, ◌≡◌, ◌≢◌, refl, ap, true, none, some, if◌then◌else◌,
  drop-drop, Option, List, ◌++◌, arith, length, length-append, take, drop, drop_length-append,
  take_length-append,
}
use js_libp2p.Mplex.MessageTypes.{
  code, type_of_code, carries_data, Message, type_of_code-code, code-lt,
}
use js_libp2p.Mplex.Varint.{Varint, IsLeb128}
use js_libp2p.Mplex.Decode.{
  ok, Decoder, decode_header, read_var_int, MessageHeader, shift_id, takes, with_header,
}
use js_libp2p.Mplex.Decode.ReadBack.{read_var_int-encode}
use js_libp2p.Mplex.Encode.{head_word, sent_data, data_length, data_or_nothing, wire}

-- An id that survives the 32-bit shifts, data exactly where the type has it, within the limit.
pub record IsSendable (max : ℕ) (msg : Message) : Type 0 where
  pub number : ℕ
  pub id_eq : msg.id ≡ pos number
  pub id_fits : number < 2 ^ 28
  pub data_if : sent_data msg ≡ msg.payload
  pub data_there : carries_data msg.type ≡ true → msg.payload ≢ none
  pub size_fits : data_length (sent_data msg) ≤ max

length-data_or_nothing : (o : Option (List ℕ)) → length (data_or_nothing o) ≡ data_length o
length-data_or_nothing none = refl
length-data_or_nothing (some bs) = refl

module _ (max : ℕ) (msg : Message) (s : IsSendable max msg) where
  pub head_number : ℕ
  head_number = s.number * 8 + code msg.type

  pub head_bounds : head_number < 2 ^ 31
  unfolding head_number
  head_bounds = omega (arith, s.id_fits, code-lt msg.type)

  pub head_word-eq : head_word msg ≡ pos head_number
  unfolding head_number head_word
  head_word-eq = ground (arith, s.id_eq, s.id_fits, code-lt msg.type)

  shift_id-head : shift_id head_number ≡ msg.id
  unfolding head_number shift_id
  shift_id-head = ground (arith, s.id_fits, s.id_eq, code-lt msg.type)

  type-head : type_of_code (head_number % 8) ≡ some msg.type
  unfolding head_number
  type-head =
      let e : (s.number * 8 + code msg.type) % 8 ≡ code msg.type =
        omega (arith, code-lt msg.type) in
      rw e (type_of_code-code msg.type)

  -- The two varints of the header, the data, and the bytes that follow.
  module _ (varint : Varint) (laws : IsLeb128 varint) (max_fits : max < 2 ^ 49)
      (rest : List ℕ) where
    head_bytes : List ℕ
    head_bytes = varint.encode (head_word msg)

    length_bytes : List ℕ
    length_bytes = varint.encode (pos (data_length (sent_data msg)))

    data_bytes : List ℕ
    data_bytes = data_or_nothing (sent_data msg)

    wire-append : wire varint msg ++ rest ≡ head_bytes ++ (length_bytes ++ (data_bytes ++ rest))
    unfolding wire head_bytes length_bytes data_bytes
    wire-append = simp append_assoc

    head_bytes-eq : head_bytes ≡ varint.encode (pos head_number)
    unfolding head_bytes
    head_bytes-eq = ap varint.encode head_word-eq

    read-head :
        (y : List ℕ) → read_var_int (head_bytes ++ y) ≡ some (head_number, length head_bytes)
    read-head y =
        rw head_bytes-eq
          (read_var_int-encode varint laws head_number y (omega (arith, head_bounds)))

    read-length :
        (y : List ℕ)
        → read_var_int (length_bytes ++ y) ≡ some (data_length (sent_data msg), length length_bytes)
    unfolding length_bytes
    read-length y = read_var_int-encode varint laws _ y (omega (arith, s.size_fits))

    pub wire_header : MessageHeader
    wire_header = record {
      id = msg.id;
      type = msg.type;
      offset = length head_bytes + length length_bytes;
      length = data_length (sent_data msg);
    }

    pub decode_header-wire : decode_header max (wire varint msg ++ rest) ≡ ok wire_header
    unfolding decode_header wire_header
    decode_header-wire =
        let y : List ℕ = length_bytes ++ (data_bytes ++ rest) in
        rw
          (
            wire-append,
            read-head y,
            drop_length-append head_bytes y,
            read-length (data_bytes ++ rest),
            type-head,
            shift_id-head,
          )
          (ground (arith, s.size_fits))

    length-data_bytes : length data_bytes ≡ data_length (sent_data msg)
    unfolding data_bytes
    length-data_bytes = length-data_or_nothing (sent_data msg)

    header_length : ℕ
    header_length = length head_bytes + length length_bytes

    buffer_size :
        length (wire varint msg ++ rest) ≡ header_length + data_length (sent_data msg) + length rest
    unfolding header_length
    buffer_size = omega (
      arith,
      ap length wire-append,
      length-append head_bytes (length_bytes ++ (data_bytes ++ rest)),
      length-append length_bytes (data_bytes ++ rest),
      length-append data_bytes rest,
      length-data_bytes,
    )

    drop_header : drop header_length (wire varint msg ++ rest) ≡ data_bytes ++ rest
    unfolding header_length
    drop_header =
        rw
          (
            wire-append,
            ← append_assoc head_bytes length_bytes (data_bytes ++ rest),
            ← length-append head_bytes length_bytes,
          )
          (drop_length-append (head_bytes ++ length_bytes) (data_bytes ++ rest))

    drop_message :
        drop (header_length + data_length (sent_data msg)) (wire varint msg ++ rest) ≡ rest
    drop_message =
        rw
          (
            ← drop-drop (data_length (sent_data msg)) header_length (wire varint msg ++ rest),
            drop_header,
            ← length-data_bytes,
          )
          (drop_length-append data_bytes rest)

    take_data :
        take (data_length (sent_data msg)) (drop header_length (wire varint msg ++ rest))
        ≡ data_bytes
    take_data = rw (drop_header, ← length-data_bytes) (take_length-append data_bytes rest)

    payload-data_bytes : (if carries_data msg.type then some data_bytes else none) ≡ msg.payload
    unfolding data_bytes
    payload-data_bytes = ground (arith, s.data_if, s.data_there)

    -- The message comes off the front of the buffer, and the bytes that follow it stay.
    pub takes-wire :
        (d : Decoder)
        → d.buffer ≡ wire varint msg ++ rest
        → with_header d (ok wire_header)
          ≡ takes msg (record d { buffer = rest; header_info = none })
    unfolding wire_header header_length
    takes-wire d e = ground (arith, e, buffer_size, drop_message, take_data, payload-data_bytes)

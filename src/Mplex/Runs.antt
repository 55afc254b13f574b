-- ===== src/Mplex/Runs.antt =====
-- Runs of the mplex codec, and its theorems at concrete inputs.
use mathlib.Core.List.{flatten, flat_map}
use js_libp2p.Base.{
  ℤ, pos, negsuc, ℕ, zero, suc, ◌+◌, ◌-◌, ◌/◌, ◌%◌, ◌^◌, ◌<◌, ◌≡◌, refl, none, some, List, [], ◌∷◌,
  arith, length, ltb, All, map, if◌then◌else◌,
}
use js_libp2p.Mplex.MessageTypes.{Message, MessageTypes}
use js_libp2p.Mplex.Varint.{Varint, IsLeb128}
use js_libp2p.Mplex.Decode.{
  ok, err, message_too_large, loop, drain, round, header_of, Decoder, init, write, write_all,
  append, decode_header, read_var_int, read_loop, group, number, shift_id,
}
use js_libp2p.Mplex.Decode.Loop.{IsCoherent-none}
use js_libp2p.Mplex.Decode.Chunks.{Same, write_all-Same}
use js_libp2p.Mplex.Encode.{
  Encoder, write_messages, contents, wire, view, peek, put_bytes, advance, head_word,
}
use js_libp2p.Mplex.Encode
use js_libp2p.Mplex.Encode.Pool.{IsEncodable, write_messages-wire}
use js_libp2p.Mplex.OneMessage.{IsSendable}
use js_libp2p.Mplex.RoundTrip.{decode-encode}
use js_libp2p.Mplex.Stalls.{write_all_stuck}
use js_libp2p.Mplex.Stream.{MplexStream, Direction, send_data, data_message}
use js_libp2p.Mplex.Stream.Slices.{IsSlice, send_data_total}

leb_bytes : ℕ → ℕ → List ℕ
leb_bytes zero v = v ∷ []
leb_bytes (suc k) v =
    let rest = leb_bytes k (v / 128) in if ltb v 128 then v ∷ [] else (v % 128 + 128) ∷ rest

leb_bytes_more : (k v : ℕ) → v < 128 ^ suc k → leb_bytes (suc k) v ≡ leb_bytes k v
unfolding leb_bytes
leb_bytes_more zero v h = ground arith
leb_bytes_more (suc k) v h = ground (arith, leb_bytes_more k (v / 128) (omega arith))

abbrev leb128_bytes : ℤ → List ℕ
leb128_bytes (pos v) = leb_bytes 7 v
leb128_bytes (negsuc v) = []

abbrev leb128 : Varint
leb128 = record { encode = leb128_bytes; encoding_length = λ z. length (leb128_bytes z) }

leb128-IsLeb128 : IsLeb128 leb128
unfolding leb_bytes
leb128-IsLeb128 = record {
  last_byte = λ v h. ground arith;
  inner_byte = λ v h b. ground (arith, leb_bytes_more 6 (v / 128));
  same_length = λ v h. refl;
}

abbrev start : Encoder
start = record { memory = λ p i. 0; pool = 0; pool_offset = 0 }

abbrev two_messages : List Message
two_messages =
    record { id = pos 3; type = MessageTypes.message_initiator; payload = some (7 ∷ 8 ∷ []) }
    ∷ record { id = pos 300; type = MessageTypes.close_initiator; payload = none }
    ∷ []

two_messages-IsSendable : All (IsSendable 100) two_messages
two_messages-IsSendable = (
  record {
    number = 3;
    id_eq = refl;
    id_fits = omega arith;
    data_if = refl;
    data_there = λ _ e. cc;
    size_fits = omega arith;
  },
  (
    record {
      number = 300;
      id_eq = refl;
      id_fits = omega arith;
      data_if = refl;
      data_there = λ e. cc;
      size_fits = omega arith;
    },
    tt,
  ),
)

abbrev three_chunks : List (List ℕ)
three_chunks = (26 ∷ []) ∷ (2 ∷ 7 ∷ 8 ∷ 228 ∷ []) ∷ (18 ∷ 0 ∷ []) ∷ []

two_messages_wire :
    flatten three_chunks
    ≡ flat_map
        (contents (write_messages leb128 start two_messages).0.memory)
        (write_messages leb128 start two_messages).1
unfolding flatten flat_map contents peek write_messages Encode.write head_word advance put_bytes
    leb_bytes
two_messages_wire = refl

decode-encode_example :
    write_all (init 100 1000) three_chunks ≡ (two_messages, (ok tt, init 100 1000))
decode-encode_example =
    decode-encode leb128 100 1000 start two_messages three_chunks leb128-IsLeb128 (omega arith)
      (record { room = omega arith }) two_messages-IsSendable two_messages_wire
      (unfold flatten in omega arith)

two_messages-IsEncodable : All IsEncodable two_messages
unfolding head_word
two_messages-IsEncodable = (
  record { number = 26; word = refl; word_fits = omega arith; size_fits = omega arith },
  (record { number = 2404; word = refl; word_fits = omega arith; size_fits = omega arith }, tt),
)

write_messages-wire_example :
    flat_map
      (contents (write_messages leb128 start two_messages).0.memory)
      (write_messages leb128 start two_messages).1
    ≡ flat_map (wire leb128) two_messages
write_messages-wire_example =
    write_messages-wire leb128 leb128-IsLeb128 start two_messages (record { room = omega arith })
      two_messages-IsEncodable

-- The first message comes in two chunks; the next has more data than the limit.
abbrev failing_chunks : List (List ℕ)
failing_chunks = (26 ∷ []) ∷ (2 ∷ 7 ∷ 8 ∷ []) ∷ (26 ∷ 200 ∷ 1 ∷ []) ∷ (26 ∷ []) ∷ []

write_all-Same_example :
    Same (init 100 1000) failing_chunks (write_all (init 100 1000) failing_chunks)
write_all-Same_example =
    write_all-Same (init 100 1000) failing_chunks (IsCoherent-none (init 100 1000) refl)
      (unfold flatten in omega arith)

failing_chunks_handled : write_all (init 100 1000) failing_chunks ≡ (
  record { id = pos 3; type = MessageTypes.message_initiator; payload = some (7 ∷ 8 ∷ []) } ∷ [],
  (err message_too_large, record (init 100 1000) { buffer = 26 ∷ 200 ∷ 1 ∷ [] }),
)
unfolding write_all write append drain loop round header_of decode_header read_var_int read_loop
    group number shift_id
failing_chunks_handled = refl

-- Type 7 with no data, and a whole message behind it.
abbrev stuck_decoder : Decoder
stuck_decoder = record (init 100 1000) { buffer = 15 ∷ 0 ∷ [] }

write_all_stuck_example :
    write_all stuck_decoder three_chunks
    ≡ ([], (ok tt, append stuck_decoder (flatten three_chunks)))
unfolding decode_header read_var_int read_loop group number
write_all_stuck_example =
    write_all_stuck stuck_decoder three_chunks 15 (0 ∷ [])
      (record { bare = refl; type = 7; unknown = refl }) refl (unfold flatten in omega arith)

abbrev stream_5 : MplexStream
stream_5 = record { stream_id = pos 5; direction = Direction.outbound; max_data_size = 2 }

send_data_total_example :
    (ss : List (List ℕ)) × (send_data stream_5 (1 ∷ 2 ∷ 3 ∷ [])
      ≡ some (map (data_message stream_5) ss))
    × (flatten ss ≡ 1 ∷ 2 ∷ 3 ∷ [])
    × All (IsSlice 2) ss
send_data_total_example = send_data_total stream_5 (1 ∷ 2 ∷ 3 ∷ []) (omega arith)

-- An id of 2^28 does not survive `>> 3`: it comes back negative.
shift_id_wraps : shift_id (2 ^ 31) ≡ negsuc (2 ^ 28 - 1)
unfolding shift_id
shift_id_wraps = refl

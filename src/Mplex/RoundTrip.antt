-- ===== src/Mplex/RoundTrip.antt =====
-- decode.ts on what encode.ts writes, cut into chunks.
use mathlib.Core.List.{append_assoc, append-nil, flatten, flat_map}
use mathlib.Core.Path.{ap₂}
use js_libp2p.Base.{
  ℕ, ◌^◌, ◌<◌, ◌≤◌, ◌≡◌, refl, sym, ap, ◌∙◌, none, List, [], ◌∷◌, ◌++◌, arith, length, All,
}
use js_libp2p.Mplex.MessageTypes.{Message}
use js_libp2p.Mplex.Varint.{Varint, IsLeb128}
use js_libp2p.Mplex.Decode.{
  ok, Decoder, init, decode_header, round, takes, with_header, drain, write, write_all, append,
}
use js_libp2p.Mplex.Decode.Loop.{round-eq, drain_drained, drain_takes, IsCoherent, IsCoherent-none}
use js_libp2p.Mplex.Decode.Joined.{write-eq_drain, write_nil}
use js_libp2p.Mplex.Decode.Chunks.{Same-ok, write_all-Same}
use js_libp2p.Mplex.Encode.{contents, write_messages, Encoder, wire}
use js_libp2p.Mplex.Encode.Pool.{IsReady, IsEncodable, write_messages-wire}
use js_libp2p.Mplex.OneMessage.{
  IsSendable, decode_header-wire, takes-wire, head_word-eq, head_number, head_bounds,
}

module _ (varint : Varint) (laws : IsLeb128 varint) (max : ℕ) (max_fits : max < 2 ^ 49) where
  drain-wire :
      (d : Decoder) (done msgs : List Message)
      → d.max_message_size ≡ max
      → d.header_info ≡ none
      → d.buffer ≡ flat_map (wire varint) msgs
      → All (IsSendable max) msgs
      → drain d done ≡ (ok (done ++ msgs), record d { buffer = []; header_info = none })
  unfolding flat_map
  drain-wire d done [] m n b h = rw (append-nil done) (drain_drained d done b ∙ ground arith)
  drain-wire d done (msg ∷ msgs) m n b (s, h) =
      let rest : List ℕ = flat_map (wire varint) msgs in
      let d' : Decoder = record d { buffer = rest; header_info = none } in
      let c : IsCoherent d = IsCoherent-none d n in
      let q : round d ≡ takes msg d' =
        round-eq d c
        ∙ ap (with_header d)
            (ap₂ decode_header m b ∙ decode_header-wire max msg s varint laws max_fits rest)
        ∙ takes-wire max msg s varint laws max_fits rest d b in
      drain_takes d d' msg done c q
      ∙ drain-wire d' (done ++ (msg ∷ [])) msgs m refl refl h
      ∙ ap (λ l. (ok l, record d { buffer = []; header_info = none }))
          (append_assoc done (msg ∷ []) msgs)

  write-wire :
      (queue : ℕ) (msgs : List Message)
      → All (IsSendable max) msgs
      → length (flat_map (wire varint) msgs) ≤ queue
      → write (init max queue) (flat_map (wire varint) msgs) ≡ (ok msgs, init max queue)
  unfolding append
  write-wire queue msgs h fits = go (flat_map (wire varint) msgs) refl
    where
      go :
          (b : List ℕ)
          → flat_map (wire varint) msgs ≡ b
          → write (init max queue) b ≡ (ok msgs, init max queue)
      go [] e =
          write_nil (init max queue)
          ∙ sym (drain_drained (init max queue) [] refl)
          ∙ drain-wire (init max queue) [] msgs refl refl (sym e) h
      go (x ∷ xs) e =
          write-eq_drain (init max queue) (x ∷ xs) (IsCoherent-none (init max queue) refl)
            (omega (arith, ap length e)) (λ p. cc)
          ∙ drain-wire (append (init max queue) (x ∷ xs)) [] msgs refl refl (sym e) h

  -- Whatever the chunks in which the bytes arrive, the messages come out as they were sent, and the
  -- decoder is ready for the next.
  pub write_all-wire :
      (queue : ℕ) (msgs : List Message) (chunks : List (List ℕ))
      → All (IsSendable max) msgs
      → flatten chunks ≡ flat_map (wire varint) msgs
      → length (flat_map (wire varint) msgs) ≤ queue
      → write_all (init max queue) chunks ≡ (msgs, (ok tt, init max queue))
  write_all-wire queue msgs chunks h e fits =
      Same-ok (write_all (init max queue) chunks) (init max queue) chunks msgs (init max queue)
        (write_all-Same (init max queue) chunks (IsCoherent-none (init max queue) refl)
          (omega (arith, ap length e)))
        (ap (write (init max queue)) e ∙ write-wire queue msgs h fits)

IsSendable-IsEncodable :
    (max : ℕ) (msgs : List Message)
    → max < 2 ^ 49
    → All (IsSendable max) msgs
    → All IsEncodable msgs
IsSendable-IsEncodable max [] f h = tt
IsSendable-IsEncodable max (msg ∷ msgs) f (s, h) = (
  record {
    number = head_number max msg s;
    word = head_word-eq max msg s;
    word_fits = head_bounds max msg s;
    size_fits = omega (arith, s.size_fits);
  },
  IsSendable-IsEncodable max msgs f h,
)

-- Messages with ids below 2^28, with data exactly where their type has it, and with no more data
-- than the receiver's limit, are encoded one after the other; the bytes of the lists, read when all
-- have been encoded, arrive cut into any chunks, within the receiver's queue limit in all: its
-- decoder returns the messages as they were, and is left as it was at the start.
pub decode-encode :
    (varint : Varint) (max queue : ℕ) (e : Encoder) (msgs : List Message) (chunks : List (List ℕ))
    → IsLeb128 varint
    → max < 2 ^ 49
    → IsReady e
    → All (IsSendable max) msgs
    → flatten chunks
      ≡ flat_map (contents (write_messages varint e msgs).0.memory) (write_messages varint e msgs).1
    → length (flatten chunks) ≤ queue
    → write_all (init max queue) chunks ≡ (msgs, (ok tt, init max queue))
decode-encode varint max queue e msgs chunks laws f r h bytes fits =
    let w = write_messages-wire varint laws e msgs r (IsSendable-IsEncodable max msgs f h) in
    write_all-wire varint laws max f queue msgs chunks h (bytes ∙ w)
      (omega (arith, ap length (bytes ∙ w)))

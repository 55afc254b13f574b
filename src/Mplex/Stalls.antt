-- ===== src/Mplex/Stalls.antt =====
-- decode.ts on a header that is there in full and has a type that mplex does not know.
use mathlib.Core.List.{flatten, append-nil}
use js_libp2p.Base.{
  ℕ, ◌+◌, ◌≤◌, ◌≡◌, sym, ap, ◌∙◌, List, [], ◌∷◌, ◌++◌, arith, length, length-append, none,
}
use js_libp2p.Mplex.Decode.{
  ok, err, invalid_type, Decoder, breaks, with_header, round, decode_header, drain, append, write,
  write_all,
}
use js_libp2p.Mplex.Decode.Header.{decode_header-append}
use js_libp2p.Mplex.Decode.Loop.{IsCoherent-none, round-eq, drain_broke}
use js_libp2p.Mplex.Decode.Joined.{write-eq_drain, write_nil, append-append}
use js_libp2p.Mplex.Decode.Growth.{append-eq_cons}

-- The buffer starts with both varints of a header whose type is not one of the seven.
pub record IsStuck (d : Decoder) : Type 0 where
  pub bare : d.header_info ≡ none
  pub type : ℕ
  pub unknown : decode_header d.max_message_size d.buffer ≡ err (invalid_type type)

append-IsStuck : (d : Decoder) (more : List ℕ) → IsStuck d → IsStuck (append d more)
unfolding append
append-IsStuck d more s = record {
  bare = s.bare;
  type = s.type;
  unknown = decode_header-append d.max_message_size d.buffer more (λ e. cc (s.unknown)) ∙ s.unknown;
}

round_stuck : (d : Decoder) → IsStuck d → round d ≡ breaks d
round_stuck d s = round-eq d (IsCoherent-none d s.bare) ∙ ap (with_header d) s.unknown

drain_stuck :
    (d : Decoder) {x : ℕ} {xs : List ℕ} → IsStuck d → d.buffer ≡ x ∷ xs → drain d [] ≡ (ok [], d)
drain_stuck d {x} {xs} s e = drain_broke d [] x xs d e (round_stuck d s)

write_stuck :
    (d : Decoder) (chunk : List ℕ) {x : ℕ} {xs : List ℕ}
    → IsStuck d
    → d.buffer ≡ x ∷ xs
    → length d.buffer + length chunk ≤ d.max_unprocessed_message_queue_size
    → write d chunk ≡ (ok [], append d chunk)
unfolding append
write_stuck d [] s e h =
    write_nil d ∙ ap (λ b. (ok [], record d { buffer = b })) (sym (append-nil d.buffer))
write_stuck d (b ∷ bs) s e h =
    write-eq_drain d (b ∷ bs) (IsCoherent-none d s.bare) h (λ e. cc)
    ∙ drain_stuck (append d (b ∷ bs)) (append-IsStuck d (b ∷ bs) s) (append-eq_cons d (b ∷ bs) e)

-- From then on no bytes, in whatever chunks, bring a message or an error until the queue limit is
-- passed: the decoder only piles them up.
pub write_all_stuck :
    (d : Decoder) (chunks : List (List ℕ)) (x : ℕ) (xs : List ℕ)
    → IsStuck d
    → d.buffer ≡ x ∷ xs
    → length d.buffer + length (flatten chunks) ≤ d.max_unprocessed_message_queue_size
    → write_all d chunks ≡ ([], (ok tt, append d (flatten chunks)))
unfolding write_all flatten append
write_all_stuck d [] x xs s e h =
    ap (λ b. ([], (ok tt, record d { buffer = b }))) (sym (append-nil d.buffer))
write_all_stuck d (c ∷ cs) x xs s e h =
    let sizes = length-append c (flatten cs) in
    let fits : length d.buffer + length c ≤ d.max_unprocessed_message_queue_size =
      omega (arith, sizes) in
    rw (write_stuck d c s e fits) (
      write_all_stuck (append d c) cs x (xs ++ c) (append-IsStuck d c s) (append-eq_cons d c e)
        (omega (arith, sizes, length-append d.buffer c))
      ∙ ap (λ k. ([], (ok tt, k))) (append-append d c (flatten cs)))

-- ===== src/Mplex/Decode/Growth.antt =====
-- The loop of `Decoder.write` of decode.ts on a buffer that is longer at its end.
use js_libp2p.Base.{
  ℕ, zero, suc, ◌+◌, ◌<◌, ◌≡◌, ◌≢◌, refl, sym, ap, ◌∙◌, List, [], ◌∷◌, ◌++◌, arith, length, drop,
  length-append, length-drop, drop-append, take-append, ltb, Bool-cases, inl, inr, ◌⊎◌, false, some,
  none,
}
use js_libp2p.Mplex.MessageTypes.{Message}
use js_libp2p.Mplex.Decode.{
  Error, could_not_decode, invalid_type, message_too_large, queue_too_large, message, Result, ok,
  err, out_of_fuel, MessageHeader, Decoder, decode_header, with_header, Round, throws, breaks,
  takes, round, Outcome, drain, append,
}
use js_libp2p.Mplex.Decode.Header.{decode_header-append}
use js_libp2p.Mplex.Decode.Loop.{
  IsCoherent, round-eq, round_takes, round_breaks, drained, threw, broke, took, loop_case,
  drain_drained, drain_threw, drain_broke, drain_took, IsCoherent-none,
}

-- `r` is the header as the shorter buffer gives it, `r'` as the longer one does.
pub append-IsCoherent : (d : Decoder) (more : List ℕ) → IsCoherent d → IsCoherent (append d more)
unfolding append
append-IsCoherent d more c h e =
    decode_header-append d.max_message_size d.buffer more (λ p. cc (c h e)) ∙ c h e

abbrev Grows : Decoder → List ℕ → Round → Type 0
Grows d more (throws e) = round (append d more) ≡ throws e
Grows d more (breaks d') = round (append d more) ≡ round (append d' more)
Grows d more (takes m d') = round (append d more) ≡ takes m (append d' more)

-- The round on the longer buffer, in terms of the header that it reads.
round-append :
    (d : Decoder) (more : List ℕ)
    → IsCoherent d
    → decode_header d.max_message_size d.buffer ≢ err could_not_decode
    → round (append d more)
      ≡ with_header (append d more) (decode_header d.max_message_size d.buffer)
unfolding append
round-append d more c n =
    round-eq (append d more) (append-IsCoherent d more c)
    ∙ ap (with_header (append d more)) (decode_header-append d.max_message_size d.buffer more n)

takes-append :
    (d : Decoder) (more : List ℕ) (h : MessageHeader)
    → ltb (length d.buffer) (h.offset + h.length) ≡ false
    → with_header (append d more) (ok h)
      ≡ takes (message h d.buffer) (
          append
            (record d { buffer = drop (h.offset + h.length) d.buffer; header_info = none })
            more)
unfolding append
takes-append d more h e = ground (
  arith,
  length-append d.buffer more,
  drop-append (h.offset + h.length) d.buffer more,
  drop-append h.offset d.buffer more,
  length-drop h.offset d.buffer,
  take-append h.length (drop h.offset d.buffer) more,
)

with_header-append_kept :
    (d : Decoder) (more : List ℕ) (h : MessageHeader)
    → with_header (append d more) (ok h)
      ≡ with_header (append (record d { header_info = some h }) more) (ok h)
unfolding append
with_header-append_kept d more h = refl

with_header-Grows :
    (d : Decoder) (more : List ℕ) (r : Result MessageHeader)
    → IsCoherent d
    → decode_header d.max_message_size d.buffer ≡ r
    → Grows d more (with_header d r)
with_header-Grows d more (err could_not_decode) c q = refl
with_header-Grows d more (err (invalid_type n)) c q = refl
with_header-Grows d more (err message_too_large) c q =
    round-append d more c (λ p. cc) ∙ ap (with_header (append d more)) q
with_header-Grows d more (err queue_too_large) c q =
    round-append d more c (λ p. cc) ∙ ap (with_header (append d more)) q
with_header-Grows d more out_of_fuel c q = refl
with_header-Grows d more (ok h) c q =
    elim (Bool-cases (ltb (length d.buffer) (h.offset + h.length))) [
      | inl short ↦
          let d' : Decoder = record d { header_info = some h } in
          let c' : IsCoherent d' = λ h' p. cc in
          rw short (
            round-append d more c (λ p. cc)
            ∙ ap (with_header (append d more)) q
            ∙ with_header-append_kept d more h
            ∙ sym (round-append d' more c' (λ p. cc) ∙ ap (with_header (append d' more)) q))
      | inr enough ↦ rw enough (
          round-append d more c (λ p. cc)
          ∙ ap (with_header (append d more)) q
          ∙ takes-append d more h enough)
    ]

round-Grows : (d : Decoder) (more : List ℕ) → IsCoherent d → Grows d more (round d)
round-Grows d more c = rw (round-eq d c) (with_header-Grows d more _ c refl)

pub append-eq_cons :
    (d : Decoder) (more : List ℕ) {x : ℕ} {xs : List ℕ}
    → d.buffer ≡ x ∷ xs
    → (append d more).buffer ≡ x ∷ (xs ++ more)
unfolding append
append-eq_cons d more e = rw e

-- A round that breaks leaves the decoder as it was, or with a header, and then the longer buffer
-- throws nothing.
with_header_kept :
    (d d' : Decoder) (more : List ℕ) (r : Result MessageHeader)
    → IsCoherent d
    → decode_header d.max_message_size d.buffer ≡ r
    → with_header d r ≡ breaks d'
    → (d' ≡ d) ⊎ ((d'.buffer ≡ d.buffer) × ((e : Error) → round (append d more) ≢ throws e))
with_header_kept d d' more (err x) c q b = inl (ground arith)
with_header_kept d d' more out_of_fuel c q b = inl (ground arith)
with_header_kept d d' more (ok h) c q b = inr (
  ground arith,
  λ e t.
      let s : with_header (append d more) (ok h) ≡ throws e =
        ap (with_header (append d more)) (sym q) ∙ sym (round-append d more c (λ p. cc)) ∙ t in
      ground arith,
)

round_kept :
    (d d' : Decoder) (more : List ℕ)
    → IsCoherent d
    → round d ≡ breaks d'
    → (d' ≡ d) ⊎ ((d'.buffer ≡ d.buffer) × ((e : Error) → round (append d more) ≢ throws e))
round_kept d d' more c q = with_header_kept d d' more _ c refl (sym (round-eq d c) ∙ q)

-- Two decoders with the same bytes and the same next round drain alike.
drain_same :
    (d d' : Decoder) (msgs : List Message) {x : ℕ} {xs : List ℕ}
    → IsCoherent d
    → IsCoherent d'
    → d.buffer ≡ x ∷ xs
    → d'.buffer ≡ x ∷ xs
    → round d ≡ round d'
    → ((e : Error) → round d ≢ throws e)
    → drain d msgs ≡ drain d' msgs
drain_same d d' msgs {x} {xs} c c' p p' r n = go (round d') refl
  where
    go : (o : Round) → round d' ≡ o → drain d msgs ≡ drain d' msgs
    go (throws e) q = absurd (n e (r ∙ q))
    go (breaks d₁) q = drain_broke d msgs x xs d₁ p (r ∙ q) ∙ sym (drain_broke d' msgs x xs d₁ p' q)
    go (takes m d₁) q =
        drain_took d msgs x xs m d₁ c p (r ∙ q) ∙ sym (drain_took d' msgs x xs m d₁ c' p' q)

-- What the loop does on a longer buffer, in terms of what it did on the shorter one.
abbrev pub Resumes : Decoder → List ℕ → List Message → Outcome → Type 0
Resumes d more msgs (ok xs, d') = drain (append d more) msgs ≡ drain (append d' more) xs
Resumes d more msgs (err e, d') = (drain (append d more) msgs).0 ≡ err e
Resumes d more msgs (out_of_fuel, d') = ⊥

Resumes-from :
    (d d' : Decoder) (more : List ℕ) (msgs msgs' : List Message) (o : Outcome)
    → drain (append d more) msgs ≡ drain (append d' more) msgs'
    → Resumes d' more msgs' o
    → Resumes d more msgs o
Resumes-from d d' more msgs msgs' (ok xs, d₁) e h = e ∙ h
Resumes-from d d' more msgs msgs' (err x, d₁) e h = ap (λ o. o.0) e ∙ h
Resumes-from d d' more msgs msgs' (out_of_fuel, d₁) e h = h

pub drain-Resumes :
    (f : ℕ) (d : Decoder) (more : List ℕ) (msgs : List Message)
    → IsCoherent d
    → length d.buffer < f
    → Resumes d more msgs (drain d msgs)
drain-Resumes zero d more msgs c hf = absurd (omega arith)
drain-Resumes (suc f) d more msgs c hf = elim (loop_case d) [
  | drained p ↦ rw (drain_drained d msgs p) refl
  | threw x xs e p q ↦
      let r : round (append d more) ≡ throws e = rw q at (round-Grows d more c) in
      rw (drain_threw d msgs x xs e p q) (
        ap (λ (o : Outcome). o.0)
          (drain_threw (append d more) msgs x (xs ++ more) e (append-eq_cons d more p) r))
  | broke x xs d' p q ↦
      let r : round (append d more) ≡ round (append d' more) = rw q at (round-Grows d more c) in
      rw (drain_broke d msgs x xs d' p q) (elim (round_kept d d' more c q) [
        | inl same ↦ ap (λ k. drain (append k more) msgs) (sym same)
        | inr (same, n) ↦
            drain_same (append d more) (append d' more) msgs (append-IsCoherent d more c)
              (append-IsCoherent d' more (round_breaks d d' c q)) (append-eq_cons d more p)
              (append-eq_cons d' more (same ∙ p)) r n
      ])
  | took x xs m d' p q ↦
      let r : round (append d more) ≡ takes m (append d' more) = rw q at (round-Grows d more c) in
      let (shorter, bare, _) = round_takes d d' m c q in
      rw (drain_took d msgs x xs m d' c p q) (
        Resumes-from d d' more msgs (msgs ++ (m ∷ [])) _
          (drain_took (append d more) msgs x (xs ++ more) m (append d' more)
            (append-IsCoherent d more c) (append-eq_cons d more p) r)
          (drain-Resumes f d' more (msgs ++ (m ∷ [])) (IsCoherent-none d' bare) (omega arith)))
]

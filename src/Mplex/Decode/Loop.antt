-- ===== src/Mplex/Decode/Loop.antt =====
-- The loop of `write` of decode.ts: its rounds, its fuel and the messages so far.
use js_libp2p.Base.{
  ℕ, zero, suc, ◌+◌, ◌≤◌, ◌<◌, ◌≡◌, refl, sym, ap, subst, ◌∙◌, Option, none, some, List, [], ◌∷◌,
  ◌++◌, arith, length, length-drop,
}
use mathlib.Core.List.{append_assoc, append-nil}
use js_libp2p.Mplex.MessageTypes.{Message}
use js_libp2p.Mplex.Decode.{
  Error, Result, ok, err, out_of_fuel, MessageHeader, Decoder, decode_header, header_of, Round,
  throws, breaks, takes, with_header, round, Outcome, loop, drain, prepend,
}
use js_libp2p.Mplex.Decode.Header.{decode_header_bounds}

-- A header kept from an earlier call is the one that the buffer starts with.
abbrev pub IsCoherent : Decoder → Type 0
IsCoherent d =
    (h : MessageHeader) → d.header_info ≡ some h → decode_header d.max_message_size d.buffer ≡ ok h

pub header_of-eq :
    (d : Decoder) → IsCoherent d → header_of d ≡ decode_header d.max_message_size d.buffer
unfolding header_of
header_of-eq d c = go d.header_info refl
  where
    go :
        (o : Option MessageHeader)
        → d.header_info ≡ o
        → header_of d ≡ decode_header d.max_message_size d.buffer
    go none e = rw (e, header_of)
    go (some h) e = rw (e, header_of) (sym (c h e))

pub round-eq :
    (d : Decoder)
    → IsCoherent d
    → round d ≡ with_header d (decode_header d.max_message_size d.buffer)
unfolding round
round-eq d c = ap (with_header d) (header_of-eq d c)

with_header_takes :
    (d d' : Decoder) (m : Message) (r : Result MessageHeader)
    → ((h : MessageHeader)
        → r ≡ ok h
        → (0 < h.offset) × (h.offset ≤ length d.buffer) × (h.length ≤ d.max_message_size))
    → with_header d r ≡ takes m d'
    → (length d'.buffer < length d.buffer)
      × (d'.header_info ≡ none)
      × (d'.max_message_size ≡ d.max_message_size)
with_header_takes d d' m (err x) b e = ground arith
with_header_takes d d' m out_of_fuel b e = ground arith
with_header_takes d d' m (ok h) b e =
    ground (arith, b h refl, length-drop (h.offset + h.length) d.buffer)

-- A round that takes a message shortens the buffer and leaves no header behind.
pub round_takes :
    (d d' : Decoder) (m : Message)
    → IsCoherent d
    → round d ≡ takes m d'
    → (length d'.buffer < length d.buffer)
      × (d'.header_info ≡ none)
      × (d'.max_message_size ≡ d.max_message_size)
round_takes d d' m c e =
    with_header_takes d d' m _ (λ h p. decode_header_bounds d.max_message_size d.buffer h p)
      (sym (round-eq d c) ∙ e)

pub IsCoherent-none : (d : Decoder) → d.header_info ≡ none → IsCoherent d
IsCoherent-none d e h p = cc

with_header_breaks :
    (d d' : Decoder) (r : Result MessageHeader)
    → decode_header d.max_message_size d.buffer ≡ r
    → IsCoherent d
    → with_header d r ≡ breaks d'
    → IsCoherent d'
with_header_breaks d d' (err x) q c e = subst IsCoherent {x = d} {y = d'} (ground arith) c
with_header_breaks d d' out_of_fuel q c e = subst IsCoherent {x = d} {y = d'} (ground arith) c
with_header_breaks d d' (ok h) q c e = λ h' p. ground arith

pub round_breaks : (d d' : Decoder) → IsCoherent d → round d ≡ breaks d' → IsCoherent d'
round_breaks d d' c e = with_header_breaks d d' _ refl c (sym (round-eq d c) ∙ e)

-- The ways in which a round of the loop can go.
pub data LoopCase (d : Decoder) : Type 0 where
  drained : d.buffer ≡ [] → LoopCase d
  threw : (x : ℕ) (xs : List ℕ) (e : Error) → d.buffer ≡ x ∷ xs → round d ≡ throws e → LoopCase d
  broke :
      (x : ℕ) (xs : List ℕ) (d' : Decoder) → d.buffer ≡ x ∷ xs → round d ≡ breaks d' → LoopCase d
  took :
      (x : ℕ) (xs : List ℕ) (m : Message) (d' : Decoder)
      → d.buffer ≡ x ∷ xs
      → round d ≡ takes m d'
      → LoopCase d

LoopCase-loop : (d : Decoder) (b : List ℕ) (r : Round) → d.buffer ≡ b → round d ≡ r → LoopCase d
LoopCase-loop d [] r p q = drained p
LoopCase-loop d (x ∷ xs) (throws e) p q = threw x xs e p q
LoopCase-loop d (x ∷ xs) (breaks d') p q = broke x xs d' p q
LoopCase-loop d (x ∷ xs) (takes m d') p q = took x xs m d' p q

pub loop_case : (d : Decoder) → LoopCase d
loop_case d = LoopCase-loop d d.buffer (round d) refl refl

module _ (f : ℕ) (d : Decoder) (msgs : List Message) where
  pub loop_drained : d.buffer ≡ [] → loop (suc f) d msgs ≡ (ok msgs, d)
  unfolding loop
  loop_drained p = ground (arith, p)

  pub loop_threw :
      (x : ℕ) (xs : List ℕ) (e : Error)
      → d.buffer ≡ x ∷ xs
      → round d ≡ throws e
      → loop (suc f) d msgs ≡ (err e, d)
  unfolding loop
  loop_threw x xs e p q = ground (arith, p, q)

  pub loop_broke :
      (x : ℕ) (xs : List ℕ) (d' : Decoder)
      → d.buffer ≡ x ∷ xs
      → round d ≡ breaks d'
      → loop (suc f) d msgs ≡ (ok msgs, d')
  unfolding loop
  loop_broke x xs d' p q = ground (arith, p, q)

  pub loop_took :
      (x : ℕ) (xs : List ℕ) (m : Message) (d' : Decoder)
      → d.buffer ≡ x ∷ xs
      → round d ≡ takes m d'
      → loop (suc f) d msgs ≡ loop f d' (msgs ++ (m ∷ []))
  unfolding loop
  loop_took x xs m d' p q = ground (arith, p, q)

-- With more fuel than bytes in the buffer the loop ends, and more fuel changes nothing.
pub loop_fuel :
    (f g : ℕ) (d : Decoder) (msgs : List Message)
    → IsCoherent d
    → length d.buffer < f
    → length d.buffer < g
    → loop f d msgs ≡ loop g d msgs
unfolding loop
loop_fuel zero g d msgs c hf hg = absurd (omega arith)
loop_fuel (suc f) zero d msgs c hf hg = absurd (omega arith)
loop_fuel (suc f) (suc g) d msgs c hf hg = elim (loop_case d) [
  | drained p ↦ rw (p, loop)
  | threw x xs e p q ↦ rw (p, q, loop)
  | broke x xs d' p q ↦ rw (p, q, loop)
  | took x xs m d' p q ↦
      let (shorter, bare, _) = round_takes d d' m c q in
      rw (p, q, loop)
        (loop_fuel f g d' (msgs ++ (m ∷ [])) (IsCoherent-none d' bare) (omega arith) (omega arith))
]

module _ (d : Decoder) (msgs : List Message) where
  pub drain_drained : d.buffer ≡ [] → drain d msgs ≡ (ok msgs, d)
  unfolding drain
  drain_drained p = loop_drained (length d.buffer) d msgs p

  pub drain_threw :
      (x : ℕ) (xs : List ℕ) (e : Error)
      → d.buffer ≡ x ∷ xs
      → round d ≡ throws e
      → drain d msgs ≡ (err e, d)
  unfolding drain
  drain_threw x xs e p q = loop_threw (length d.buffer) d msgs x xs e p q

  pub drain_broke :
      (x : ℕ) (xs : List ℕ) (d' : Decoder)
      → d.buffer ≡ x ∷ xs
      → round d ≡ breaks d'
      → drain d msgs ≡ (ok msgs, d')
  unfolding drain
  drain_broke x xs d' p q = loop_broke (length d.buffer) d msgs x xs d' p q

  pub drain_took :
      (x : ℕ) (xs : List ℕ) (m : Message) (d' : Decoder)
      → IsCoherent d
      → d.buffer ≡ x ∷ xs
      → round d ≡ takes m d'
      → drain d msgs ≡ drain d' (msgs ++ (m ∷ []))
  unfolding drain
  drain_took x xs m d' c p q =
      let (shorter, bare, _) = round_takes d d' m c q in
      loop_took (length d.buffer) d msgs x xs m d' p q
      ∙ loop_fuel (length d.buffer) (suc (length d'.buffer)) d' (msgs ++ (m ∷ []))
          (IsCoherent-none d' bare) shorter (omega arith)

pub drain_takes :
    (d d' : Decoder) (m : Message) (msgs : List Message)
    → IsCoherent d
    → round d ≡ takes m d'
    → drain d msgs ≡ drain d' (msgs ++ (m ∷ []))
drain_takes d d' m msgs c q = go d.buffer refl
  where
    go : (b : List ℕ) → d.buffer ≡ b → drain d msgs ≡ drain d' (msgs ++ (m ∷ []))
    go [] p = absurd (omega (arith, ap length p, round_takes d d' m c q))
    go (x ∷ xs) p = drain_took d msgs x xs m d' c p q

-- The loop only adds to the messages so far.
prepend-prepend :
    (xs ys : List Message) (o : Outcome) → prepend xs (prepend ys o) ≡ prepend (xs ++ ys) o
prepend-prepend xs ys (ok zs, d) = ground (arith, append_assoc xs ys zs)
prepend-prepend xs ys (err e, d) = refl
prepend-prepend xs ys (out_of_fuel, d) = refl

pub loop-prepend :
    (f : ℕ) (d : Decoder) (xs ys : List Message) → loop f d (xs ++ ys) ≡ prepend xs (loop f d ys)
unfolding loop
loop-prepend zero d xs ys = refl
loop-prepend (suc f) d xs ys = elim (loop_case d) [
  | drained p ↦ rw (p, loop)
  | threw x r e p q ↦ rw (p, q, loop)
  | broke x r d' p q ↦ rw (p, q, loop)
  | took x r m d' p q ↦ rw (p, q, loop) (rw append_assoc (loop-prepend f d' xs (ys ++ (m ∷ []))))
]

pub drain-prepend : (d : Decoder) (xs : List Message) → drain d xs ≡ prepend xs (drain d [])
unfolding drain
drain-prepend d xs = rw (append-nil xs) at (loop-prepend (suc (length d.buffer)) d xs [])

with_header_config :
    (d d' : Decoder) (r : Result MessageHeader)
    → (with_header d r ≡ breaks d')
    → (d'.buffer ≡ d.buffer)
      × (d'.max_unprocessed_message_queue_size ≡ d.max_unprocessed_message_queue_size)
with_header_config d d' (err x) e = ground arith
with_header_config d d' out_of_fuel e = ground arith
with_header_config d d' (ok h) e = ground arith

with_header_takes_config :
    (d d' : Decoder) (m : Message) (r : Result MessageHeader)
    → with_header d r ≡ takes m d'
    → d'.max_unprocessed_message_queue_size ≡ d.max_unprocessed_message_queue_size
with_header_takes_config d d' m (err x) e = ground arith
with_header_takes_config d d' m out_of_fuel e = ground arith
with_header_takes_config d d' m (ok h) e = ground arith

-- It ends in a decoder whose kept header, if any, fits its buffer, with no more bytes than before
-- and the same queue limit, and never for lack of fuel.
pub record Follows (d d' : Decoder) : Type 0 where
  pub coherent : IsCoherent d'
  pub shorter : length d'.buffer ≤ length d.buffer
  pub same_limit : d'.max_unprocessed_message_queue_size ≡ d.max_unprocessed_message_queue_size

abbrev pub Ends : Decoder → Outcome → Type 0
Ends d (ok xs, d') = Follows d d'
Ends d (err e, d') = Unit {0}
Ends d (out_of_fuel, d') = ⊥

Ends-from :
    (d d' : Decoder) (o : Outcome)
    → length d'.buffer ≤ length d.buffer
    → d'.max_unprocessed_message_queue_size ≡ d.max_unprocessed_message_queue_size
    → Ends d' o
    → Ends d o
Ends-from d d' (ok xs, d₁) l q h = record {
  coherent = h.coherent;
  shorter = omega arith;
  same_limit = h.same_limit ∙ q;
}
Ends-from d d' (err e, d₁) l q h = tt
Ends-from d d' (out_of_fuel, d₁) l q h = h

loop-Ends :
    (f : ℕ) (d : Decoder) (msgs : List Message)
    → IsCoherent d
    → length d.buffer < f
    → Ends d (loop f d msgs)
loop-Ends zero d msgs c h = absurd (omega arith)
loop-Ends (suc f) d msgs c h = elim (loop_case d) [
  | drained p ↦
      rw (loop_drained f d msgs p)
        (record { coherent = c; shorter = omega arith; same_limit = refl })
  | threw x r e p q ↦ rw (loop_threw f d msgs x r e p q) tt
  | broke x r d' p q ↦
      let (same, limit) = with_header_config d d' _ (sym (round-eq d c) ∙ q) in
      rw (loop_broke f d msgs x r d' p q) (record {
        coherent = round_breaks d d' c q;
        shorter = omega (arith, ap length same);
        same_limit = limit;
      })
  | took x r m d' p q ↦
      let (shorter, bare, _) = round_takes d d' m c q in
      rw (loop_took f d msgs x r m d' p q) (
        Ends-from d d' _ (omega arith) (with_header_takes_config d d' m _ (sym (round-eq d c) ∙ q))
          (loop-Ends f d' (msgs ++ (m ∷ [])) (IsCoherent-none d' bare) (omega arith)))
]

pub drain-Ends : (d : Decoder) (msgs : List Message) → IsCoherent d → Ends d (drain d msgs)
unfolding drain
drain-Ends d msgs c = loop-Ends (suc (length d.buffer)) d msgs c (omega arith)

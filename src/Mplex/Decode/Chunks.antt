-- ===== src/Mplex/Decode/Chunks.antt =====
-- `Decoder.write` of decode.ts on bytes that are cut into chunks.
use js_libp2p.Base.{
  ℕ, ◌+◌, ◌≤◌, ◌≡◌, refl, sym, ap, ◌∙◌, List, [], ◌∷◌, ◌++◌, arith, length, length-append, subst,
}
use mathlib.Core.List.{flatten}
use js_libp2p.Mplex.MessageTypes.{Message}
use js_libp2p.Mplex.Decode.{
  ok, err, out_of_fuel, Decoder, Outcome, Handled, Error, write, write_all, and_then,
}
use js_libp2p.Mplex.Decode.Loop.{IsCoherent}
use js_libp2p.Mplex.Decode.Joined.{Joined, write_all-Joined}

-- A call that handled `xs` and failed: what it handled is what one `write` of the chunks before the
-- failing one returns, and `write` of the failing one throws the error.
pub record IsCut (d : Decoder) (chunks : List (List ℕ)) (xs : List Message) (e : Error)
    (d' : Decoder) : Type 0 where
  pub before : List (List ℕ)
  pub failing : List ℕ
  pub after : List (List ℕ)
  pub reached : Decoder
  pub all_chunks : chunks ≡ before ++ (failing ∷ after)
  pub handled : write d (flatten before) ≡ (ok xs, reached)
  pub fails : write reached failing ≡ (err e, d')

-- With all the bytes in one call: the same messages and the same decoder, or the same error, at
-- which the calls on the chunks have handled the messages of the chunks before it.
abbrev pub Same : Decoder → List (List ℕ) → Handled → Type 0
Same d chunks (xs, (ok u, d')) = write d (flatten chunks) ≡ (ok xs, d')
Same d chunks (xs, (err e, d')) = ((write d (flatten chunks)).0 ≡ err e) × IsCut d chunks xs e d'
Same d chunks (xs, (out_of_fuel, d')) = ⊥

-- Where the calls fail, the ones before the failing one are the calls on the chunks before it.
abbrev Failed : Decoder → List (List ℕ) → List Message → Error → Decoder → Type 0
Failed d chunks xs e d' =
    (before : List (List ℕ)) × (failing : List ℕ) × (after : List (List ℕ)) × (reached : Decoder)
    × (chunks ≡ before ++ (failing ∷ after))
    × (write_all d before ≡ (xs, (ok tt, reached)))
    × (write reached failing ≡ (err e, d'))

write_all-Failed :
    (d : Decoder) (chunks : List (List ℕ)) (xs : List Message) (e : Error) (d' : Decoder)
    → write_all d chunks ≡ (xs, (err e, d'))
    → Failed d chunks xs e d'
unfolding write_all
write_all-Failed d [] xs e d' h = cc
write_all-Failed d (c ∷ cs) xs e d' h =
    go (write d c) refl (λ d1 ys k. write_all-Failed d1 cs ys e d' k)
  where
    go :
        (o : Outcome)
        → write d c ≡ o
        → ((d1 : Decoder) (ys : List Message)
            → write_all d1 cs ≡ (ys, (err e, d'))
            → Failed d1 cs ys e d')
        → Failed d (c ∷ cs) xs e d'
    go (ok ys, d1) w ih =
        let tail : (write_all d1 cs).1 ≡ (err e, d') = ap (λ p. p.1) (at w ∙ h) in
        let heads : ys ++ (write_all d1 cs).0 ≡ xs = ap (λ p. p.0) (at w ∙ h) in
        let (before, failing, after, reached, q, m, f) =
          ih d1 (write_all d1 cs).0 (ap (λ r. ((write_all d1 cs).0, r)) tail) in
        (
          c ∷ before,
          failing,
          after,
          reached,
          ap (λ l. c ∷ l) q,
          rw (w, m) (ap (λ l. (l, (ok tt, reached))) heads),
          f,
        )
      where
        at :
            write d c ≡ (ok ys, d1)
            → (ys ++ (write_all d1 cs).0, (write_all d1 cs).1)
              ≡ and_then (write d c) (λ d'. write_all d' cs)
        at w = sym (ap (λ o. and_then o (λ d'. write_all d' cs)) w)
    go (err y, d1) w ih =
        let stop : ([], (err y, d1)) ≡ (xs, (err e, d')) =
          ap (λ o. and_then o (λ d'. write_all d' cs)) (sym w) ∙ h in
        ([], c, cs, d, refl, ap (λ l. (l, (ok tt, d))) (ap (λ p. p.0) stop), w ∙ cc (stop))
    go (out_of_fuel, d1) w ih = cc (w, h)

before_shorter :
    (before : List (List ℕ)) (rest : List (List ℕ))
    → length (flatten before) ≤ length (flatten (before ++ rest))
unfolding flatten
before_shorter [] rest = omega arith
before_shorter (b ∷ bs) rest = omega (
  arith,
  length-append b (flatten bs),
  length-append b (flatten (bs ++ rest)),
  before_shorter bs rest,
)

-- From any decoder whose stored header is the one its buffer starts with, and within the queue
-- limit: where the writes of the chunks end without an error, one write of all their bytes gives the
-- same messages and the same decoder; where one of them fails, one write of all the bytes fails with
-- the same error, and the messages that were handled are those that one write of the chunks before
-- the failing one returns.
pub write_all-Same :
    (d : Decoder) (chunks : List (List ℕ))
    → IsCoherent d
    → length d.buffer + length (flatten chunks) ≤ d.max_unprocessed_message_queue_size
    → Same d chunks (write_all d chunks)
write_all-Same d chunks c f = go (write_all d chunks) refl (write_all-Joined d chunks c f)
  where
    go :
        (h : Handled)
        → write_all d chunks ≡ h
        → Joined h (write d (flatten chunks))
        → Same d chunks h
    go (xs, (ok u, d')) w j = j
    go (xs, (err e, d')) w j =
        let (before, failing, after, reached, q, m, f') = write_all-Failed d chunks xs e d' w in
        (
          j,
          record {
            before = before;
            failing = failing;
            after = after;
            reached = reached;
            all_chunks = q;
            handled =
                subst (λ k. Joined k (write d (flatten before))) m
                  (write_all-Joined d before c (
                    omega (
                      arith,
                      before_shorter before (failing ∷ after),
                      ap (λ l. length (flatten l)) q,
                    )));
            fails = f';
          },
        )
    go (xs, (out_of_fuel, d')) w j = absurd j

pub Same-ok :
    (h : Handled) (d : Decoder) (chunks : List (List ℕ)) (xs : List Message) (d' : Decoder)
    → Same d chunks h
    → write d (flatten chunks) ≡ (ok xs, d')
    → h ≡ (xs, (ok tt, d'))
Same-ok (ys, (ok u, d1)) d chunks xs d' h w = cc (h, w)
Same-ok (ys, (err e, d1)) d chunks xs d' (h, c) w = cc (h, w)
Same-ok (ys, (out_of_fuel, d1)) d chunks xs d' h w = absurd h

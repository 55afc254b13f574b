-- ===== src/Mplex/Decode/Joined.antt =====
-- `Decoder.write` of decode.ts on one chunk and then on the rest: how the calls join up.
use js_libp2p.Base.{
  ℕ, suc, ◌+◌, ◌≤◌, ◌≡◌, ◌≢◌, refl, sym, ap, ◌∙◌, List, [], ◌∷◌, ◌++◌, arith, length, length-append,
}
use mathlib.Core.List.{append_assoc, append-nil, flatten}
use js_libp2p.Mplex.MessageTypes.{Message}
use js_libp2p.Mplex.Decode.{
  ok, err, out_of_fuel, Decoder, Outcome, Handled, drain, append, write, write_all, prepend,
  and_then,
}
use js_libp2p.Mplex.Decode.Loop.{IsCoherent, Ends, Follows, drain-Ends, drain-prepend}
use js_libp2p.Mplex.Decode.Growth.{append-IsCoherent, Resumes, drain-Resumes}

-- How `write` of chunks from `d`, which gave the first, ends, `write` of all the bytes ends too.
abbrev pub Joined : Handled → Outcome → Type 0
Joined (xs, (ok u, d)) o = o ≡ (ok xs, d)
Joined (xs, (err e, d)) o = o.0 ≡ err e
Joined (xs, (out_of_fuel, d)) o = ⊥

pub write-eq_drain :
    (d : Decoder) (chunk : List ℕ)
    → IsCoherent d
    → length d.buffer + length chunk ≤ d.max_unprocessed_message_queue_size
    → chunk ≢ []
    → write d chunk ≡ drain (append d chunk) []
unfolding write append
write-eq_drain d [] c h n = absurd (n refl)
write-eq_drain d (b ∷ bs) c h n = ground (arith, length-append d.buffer (b ∷ bs))

pub append-append : (d : Decoder) (a b : List ℕ) → append (append d a) b ≡ append d (a ++ b)
unfolding append
append-append d a b = ground (arith, append_assoc d.buffer a b)

Joined-prepend :
    (xs : List Message) (h : Handled) (o : Outcome)
    → Joined h o
    → Joined (xs ++ h.0, h.1) (prepend xs o)
Joined-prepend xs (ys, (ok u, d)) p h = rw h refl
Joined-prepend xs (ys, (err e, d)) (ok zs, d') h = cc
Joined-prepend xs (ys, (err e, d)) (err e', d') h = h
Joined-prepend xs (ys, (err e, d)) (out_of_fuel, d') h = cc
Joined-prepend xs (ys, (out_of_fuel, d)) p h = h

-- One chunk, and then the rest in one piece.
module _ (d : Decoder) (x : ℕ) (xs rest : List ℕ) (c : IsCoherent d)
    (fits : length d.buffer + length (x ∷ xs) + length rest
      ≤ d.max_unprocessed_message_queue_size) where
  write_first : write d (x ∷ xs) ≡ drain (append d (x ∷ xs)) []
  write_first = write-eq_drain d (x ∷ xs) c (omega arith) (λ e. cc)

  write_joined : write d ((x ∷ xs) ++ rest) ≡ drain (append (append d (x ∷ xs)) rest) []
  write_joined =
      write-eq_drain d ((x ∷ xs) ++ rest) c (omega (arith, length-append (x ∷ xs) rest)) (λ e. cc)
      ∙ ap (λ k. drain k []) (sym (append-append d (x ∷ xs) rest))

  first-IsCoherent : IsCoherent (append d (x ∷ xs))
  first-IsCoherent = append-IsCoherent d (x ∷ xs) c

  write-Ends : Ends (append d (x ∷ xs)) (write d (x ∷ xs))
  write-Ends = rw write_first (drain-Ends (append d (x ∷ xs)) [] first-IsCoherent)

  write-Resumes : Resumes (append d (x ∷ xs)) rest [] (write d (x ∷ xs))
  write-Resumes = rw write_first (
      drain-Resumes (suc (length (append d (x ∷ xs)).buffer)) (append d (x ∷ xs)) rest []
        first-IsCoherent (omega arith))

length-buffer_append :
    (d : Decoder) (a : List ℕ) → length (append d a).buffer ≡ length d.buffer + length a
unfolding append
length-buffer_append d a = length-append d.buffer a

limit-append :
    (d : Decoder) (a : List ℕ)
    → (append d a).max_unprocessed_message_queue_size ≡ d.max_unprocessed_message_queue_size
unfolding append
limit-append d a = refl

pub write_nil : (d : Decoder) → write d [] ≡ (ok [], d)
unfolding write
write_nil d = refl

-- After the first chunk: a call on what it left joins up with one call on both.
joins :
    (d d' : Decoder) (x : ℕ) (xs rest : List ℕ) (ys : List Message)
    → IsCoherent d
    → length d.buffer + length (x ∷ xs) + length rest ≤ d.max_unprocessed_message_queue_size
    → write d (x ∷ xs) ≡ (ok ys, d')
    → Follows (append d (x ∷ xs)) d'
    → Resumes (append d (x ∷ xs)) rest [] (ok ys, d')
    → write d ((x ∷ xs) ++ rest) ≡ prepend ys (write d' rest)
joins d d' x xs [] ys c f w e r =
    rw (append-nil (x ∷ xs)) (w ∙ rw (write_nil d') (ap (λ m. (ok m, d')) (sym (append-nil ys))))
joins d d' x xs (z ∷ zs) ys c f w e r =
    write_joined d x xs (z ∷ zs) c f
    ∙ r
    ∙ drain-prepend (append d' (z ∷ zs)) ys
    ∙ ap (prepend ys) (
        sym (
          write-eq_drain d' (z ∷ zs) e.coherent
            (omega (
              arith,
              e.shorter,
              e.same_limit,
              length-buffer_append d (x ∷ xs),
              limit-append d (x ∷ xs),
            ))
            (λ e. cc)))

pub write_all-Joined :
    (d : Decoder) (chunks : List (List ℕ))
    → IsCoherent d
    → length d.buffer + length (flatten chunks) ≤ d.max_unprocessed_message_queue_size
    → Joined (write_all d chunks) (write d (flatten chunks))
unfolding write_all flatten
write_all-Joined d [] c f = write_nil d
write_all-Joined d ([] ∷ cs) c f = rw (write_nil d) (write_all-Joined d cs c f)
write_all-Joined d ((x ∷ xs) ∷ cs) c f =
    go (write d (x ∷ xs)) refl (write-Ends d x xs (flatten cs) c size)
      (write-Resumes d x xs (flatten cs) c size)
      (λ d' e. write_all-Joined d' cs e.coherent (
        omega (
          arith,
          e.shorter,
          e.same_limit,
          length-buffer_append d (x ∷ xs),
          limit-append d (x ∷ xs),
          size,
        )))
  where
    size :
        length d.buffer + length (x ∷ xs) + length (flatten cs)
        ≤ d.max_unprocessed_message_queue_size
    size = omega (arith, length-append (x ∷ xs) (flatten cs))

    go :
        (o : Outcome)
        → write d (x ∷ xs) ≡ o
        → Ends (append d (x ∷ xs)) o
        → Resumes (append d (x ∷ xs)) (flatten cs) [] o
        → ((d' : Decoder)
            → Follows (append d (x ∷ xs)) d'
            → Joined (write_all d' cs) (write d' (flatten cs)))
        → Joined
            (and_then (write d (x ∷ xs)) (λ d'. write_all d' cs))
            (write d ((x ∷ xs) ++ flatten cs))
    go (ok ys, d') w e r ih =
        rw (w, joins d d' x xs (flatten cs) ys c size w e r) (Joined-prepend ys _ _ (ih d' e))
    go (err y, d') w e r ih = rw (w, write_joined d x xs (flatten cs) c size) r
    go (out_of_fuel, d') w e r ih = absurd e

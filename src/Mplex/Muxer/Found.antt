-- ===== src/Mplex/Muxer/Found.antt =====
-- packages/stream-multiplexer-mplex/src/mplex.ts, handleMessage: the stream that a message is for
use mathlib.Core.List.{Memᴰ}
use mathlib.Core.List.Memᴰ.{head, tail}
use js_libp2p.Base.{
  ℤ, pos, ℕ, suc, ◌≤◌, ◌<◌, ◌≡◌, ap, sym, subst, Bool, true, false, some, List, [], ◌∷◌,
  if◌then◌else◌, beq_ℤ, arith, ◌∙◌,
}
use js_libp2p.Mplex.MessageTypes.{Message}
use js_libp2p.Mplex.Decode.{Decoder}
use js_libp2p.Mplex.Stream.{Direction, inbound, outbound}
use js_libp2p.Mplex.Muxer.{
  MuxedStream, StreamOptions, has_id, find_stream, same_direction, new_muxer,
}
use js_libp2p.Mplex.Muxer.Steps.{Op, run}
use js_libp2p.Mplex.Muxer.Ids.{IsAscending, Joins, Joins-map, IsNumbered, run-IsNumbered}

-- An outbound stream with a number from lo on and below hi, which `find` finds.
abbrev pub FoundFrom : ℕ → List MuxedStream → ℕ → MuxedStream → Type 0
FoundFrom lo ss hi s =
    (k : ℕ) × (s.number ≡ pos k) × (lo ≤ k) × (k < hi) × (find_stream ss outbound s.number ≡ some s)

IsAscending-le : (lo : ℕ) (ss : List MuxedStream) (hi : ℕ) → IsAscending lo ss hi → lo ≤ hi
unfolding IsAscending
IsAscending-le lo [] hi p = p
IsAscending-le lo (s ∷ ss) hi p = le s.direction s.number (λ l q. IsAscending-le l ss hi q) p
  where
    le :
        (direction : Direction) (number : ℤ)
        → ((l : ℕ) → IsAscending l ss hi → l ≤ hi)
        → Joins lo direction number (λ l. IsAscending l ss hi)
        → lo ≤ hi
    le outbound number rest (k, e, h, q) = let r = rest (suc k) q in omega arith
    le inbound number rest q = rest lo q

Joins-outbound :
    (lo : ℕ) (direction : Direction) (number : ℤ) (P : ℕ → Type 0)
    → direction ≡ outbound
    → Joins lo direction number P
    → (k : ℕ) × (number ≡ pos k) × (lo ≤ k) × P (suc k)
Joins-outbound lo direction number P d p = subst (λ x. Joins lo x number P) d p

-- A stream before it in the list has another id.
FoundFrom-cons :
    (lo : ℕ) (t : MuxedStream) (ss : List MuxedStream) (hi : ℕ) (s : MuxedStream)
    → Joins lo t.direction t.number (λ l. FoundFrom l ss hi s)
    → FoundFrom lo (t ∷ ss) hi s
unfolding find_stream
FoundFrom-cons lo t ss hi s p = go t.direction t.number p
  where
    go :
        (direction : Direction) (number : ℤ)
        → Joins lo direction number (λ l. FoundFrom l ss hi s)
        → FoundFrom lo
            (record { direction = direction; number = number; stream = t.stream } ∷ ss)
            hi
            s
    go outbound number (j, e, h, (k, e', h', h'', f)) =
        let other : beq_ℤ number s.number ≡ false =
          subst (λ n. beq_ℤ n s.number ≡ false) (sym e)
            (subst (λ n. beq_ℤ (pos j) n ≡ false) (sym e') (ground arith)) in
        (k, e', omega arith, h'', ground (arith, other, f))
    go inbound number (k, e, h, h', f) = (k, e, h, h', f)

FoundFrom-head :
    (lo k : ℕ) (s : MuxedStream) (ss : List MuxedStream) (hi : ℕ)
    → s.direction ≡ outbound
    → s.number ≡ pos k
    → lo ≤ k
    → k < hi
    → FoundFrom lo (s ∷ ss) hi s
unfolding find_stream
FoundFrom-head lo k s ss hi d e h h' =
    let same : has_id s outbound s.number ≡ true =
      subst (λ n. (if same_direction s.direction outbound then beq_ℤ n n else false) ≡ true) (sym e)
        (subst (λ x. (if same_direction x outbound then beq_ℤ (pos k) (pos k) else false) ≡ true)
          (sym d) (ground arith)) in
    (k, e, h, h', ground (arith, same))

find-outbound :
    (lo : ℕ) (ss : List MuxedStream) (hi : ℕ) (s : MuxedStream)
    → IsAscending lo ss hi
    → Memᴰ s ss
    → s.direction ≡ outbound
    → FoundFrom lo ss hi s
unfolding IsAscending
find-outbound lo [] hi s p m d = elim m [ ]
find-outbound lo (t ∷ ss) hi s p (head e) d =
    let (k, n, h, q) =
      Joins-outbound lo t.direction t.number (λ l. IsAscending l ss hi)
        (ap (λ x. x.direction) (sym e) ∙ d) p in
    subst (λ x. FoundFrom lo (t ∷ ss) hi x) (sym e)
      (FoundFrom-head lo k t ss hi (ap (λ x. x.direction) (sym e) ∙ d) n h
        (IsAscending-le (suc k) ss hi q))
find-outbound lo (t ∷ ss) hi s p (tail m) d = FoundFrom-cons lo t ss hi s (
    Joins-map lo t.direction t.number (λ l. IsAscending l ss hi) (λ l. FoundFrom l ss hi s)
      (λ l q. find-outbound l ss hi s q m d) p)

-- After any events on a new muxer, each stream in its list that this side opened has a number below
-- the next one, and is the stream that is found by its id.
pub run-find_stream :
    {W : Type 0} (conn_send : W → List Message → W × Bool) (conn_abort : W → W) (w : W)
    (points max_early : ℕ) (options : StreamOptions) (decoder : Decoder) (ops : List Op)
    (s : MuxedStream)
    → Memᴰ s (run conn_send conn_abort (new_muxer w points max_early options decoder) ops).streams
    → s.direction ≡ outbound
    → FoundFrom 0
        (run conn_send conn_abort (new_muxer w points max_early options decoder) ops).streams
        (run conn_send conn_abort (new_muxer w points max_early options decoder) ops).next_stream_id
        s
unfolding IsNumbered IsAscending new_muxer
run-find_stream conn_send conn_abort w points max_early options decoder ops s m d =
    let start = new_muxer w points max_early options decoder in
    let last = run conn_send conn_abort start ops in
    find-outbound 0 last.streams last.next_stream_id s
      (run-IsNumbered conn_send conn_abort start ops (omega arith)) m d

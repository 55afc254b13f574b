-- ===== src/Utils/MessageStream/Limits.antt =====
-- The loop of processSendQueue ends, and the limit of the write buffer.
use js_libp2p.Base.{
  ℕ, zero, suc, ◌≤◌, ◌<◌, ◌≡◌, refl, ◌∙◌, subst, true, false, Option, none, some, List, [], ◌∷◌,
  ◌++◌, arith, inl, inr, Bool-cases, take, drop, length, nat_beq, if◌then◌else◌, if_both,
  length-drop, length-take,
}
use js_libp2p.Utils.MessageStream.{
  MessageStream, is_terminal, is_empty, abort, check_write_buffer_length, emit, idle,
  is_write_closed, writes_no_more,
}
use js_libp2p.Utils.MessageStream.Send.{
  SendAnswer, send_throws, send_result, LoopEnd, finished, threw, spins, RoundEnd, ends, goes_on,
  next_end, next_chunk, chunk_end, left_over, answered, SendOutcome, returned, hangs, state_error,
  send_error, send, process_send_queue, send_round, send_loop, after_loop,
}
use js_libp2p.Utils.MessageStream.Rounds.{RoundEnd-cases}

module _ {W : Type 0} (send_data : W → List ℕ → W × SendAnswer) where
  -- What SendResult asks of `sendData`: where it can take more, it took all that it was given.
  pub record TakesAll : Type 0 where
    pub all_taken :
        (w w' : W) (bytes : List ℕ) (n : ℕ)
        → send_data w bytes ≡ (w', send_result n true)
        → n ≡ length bytes

chunk_end-le : (max : Option ℕ) (size : ℕ) → chunk_end max size ≤ size
chunk_end-le none size = omega arith
chunk_end-le (some m) size = ground arith

-- A round that takes its whole chunk leaves a shorter buffer.
left_over-lt :
    (max : Option ℕ) (buffer : List ℕ) (n : ℕ)
    → nat_beq (chunk_end max (length buffer)) 0 ≡ false
    → n ≡ length (take (chunk_end max (length buffer)) buffer)
    → length (
        left_over n
          (take (chunk_end max (length buffer)) buffer)
          (drop (chunk_end max (length buffer)) buffer))
      < length buffer
left_over-lt max buffer n z e =
    let end = chunk_end max (length buffer) in
    ground (
      arith,
      chunk_end-le max (length buffer),
      length-take end buffer (chunk_end-le max (length buffer)),
      length-drop end buffer,
    )

-- How a stream that had not ended stands after the loop: nothing is left, or there is no more room.
abbrev LeftBy : MessageStream → MessageStream → LoopEnd → Type 0
LeftBy s s' threw = s'.write_buffer ≡ []
LeftBy s s' (finished true) = s'.write_buffer ≡ []
LeftBy s s' (finished false) =
    (is_terminal s'.status ≡ false) × (s'.max_write_buffer_length ≡ s.max_write_buffer_length)
LeftBy s s' spins = ⊥

-- And after a round.
abbrev LeftByRound : MessageStream → MessageStream → RoundEnd → Type 0
LeftByRound s s' (ends l) = LeftBy s s' l
LeftByRound s s' goes_on =
    (length s'.write_buffer < length s.write_buffer)
    × (is_terminal s'.status ≡ false)
    × (s'.max_write_buffer_length ≡ s.max_write_buffer_length)

LeftBy-first :
    (s t s' : MessageStream) (l : LoopEnd)
    → t.max_write_buffer_length ≡ s.max_write_buffer_length
    → LeftBy t s' l
    → LeftBy s s' l
LeftBy-first s t s' threw e h = h
LeftBy-first s t s' (finished true) e h = h
LeftBy-first s t s' (finished false) e h = (h.0, h.1 ∙ e)
LeftBy-first s t s' spins e h = h

empty_bytes : (bytes : List ℕ) → is_empty bytes ≡ true → bytes ≡ []
empty_bytes [] h = refl
empty_bytes (b ∷ bs) h = cc

module _ {W : Type 0} (send_data : W → List ℕ → W × SendAnswer)
    (contract : TakesAll send_data) where
  answered-LeftBy :
      (w : W) (s : MessageStream) (a : W × SendAnswer)
      → send_data w (next_chunk s) ≡ a
      → is_terminal s.status ≡ false
      → nat_beq (next_end s) 0 ≡ false
      → LeftByRound s (answered s a).1 (answered s a).2
  unfolding abort
  answered-LeftBy w s (w', send_throws) e lives z = ground arith
  answered-LeftBy w s (w', send_result n true) e lives z = (
    left_over-lt s.max_message_size s.write_buffer n z (contract.all_taken w w' (next_chunk s) n e),
    lives,
    refl,
  )
  answered-LeftBy w s (w', send_result n false) e lives z = (lives, refl)

  round-LeftBy :
      (w : W) (s : MessageStream)
      → is_terminal s.status ≡ false
      → LeftByRound s (send_round send_data w s).1 (send_round send_data w s).2
  unfolding send_round
  round-LeftBy w s lives = elim (Bool-cases (is_empty s.write_buffer)) [
    | inl e ↦ rw e (empty_bytes s.write_buffer e)
    | inr e ↦ elim (Bool-cases (nat_beq (next_end s) 0)) [
      | inl z ↦ rw (e, z) (lives, refl)
      | inr z ↦ rw (e, z) (answered-LeftBy w s (send_data w (next_chunk s)) refl lives z)
    ]
  ]

  loop-LeftBy :
      (fuel : ℕ) (w : W) (s : MessageStream)
      → length s.write_buffer < fuel
      → is_terminal s.status ≡ false
      → LeftBy s (send_loop send_data fuel w s).1 (send_loop send_data fuel w s).2
  unfolding send_loop
  loop-LeftBy zero w s f lives = absurd (omega arith)
  loop-LeftBy (suc fuel) w s f lives =
      let r = send_round send_data w s in
      let h = round-LeftBy w s lives in
      elim (RoundEnd-cases r.2) [
        | inl e ↦
            let (shorter, still, same) = subst (LeftByRound s r.1) e h in
            rw (send_loop, e)
              (LeftBy-first s r.1 (send_loop send_data fuel r.0 r.1).1
                (send_loop send_data fuel r.0 r.1).2 same
                (loop-LeftBy fuel r.0 r.1 (omega arith) still))
        | inr (l, e) ↦ rw (send_loop, e) (subst (LeftByRound s r.1) e h)
      ]

-- What `send` says, and what it leaves in the write buffer: `true` only if it is empty, and never more
-- than the limit.
abbrev pub IsWithin : Option ℕ → MessageStream → SendOutcome → Type 0
IsWithin max s (returned true) = s.write_buffer ≡ []
IsWithin none s (returned false) = Unit {0}
IsWithin (some m) s (returned false) = length s.write_buffer ≤ m
IsWithin max s send_error = s.write_buffer ≡ []
IsWithin max s state_error = Unit {0}
IsWithin max s hangs = ⊥

checked-IsWithin :
    (max : Option ℕ) (s : MessageStream)
    → is_terminal s.status ≡ false
    → s.max_write_buffer_length ≡ max
    → IsWithin max (check_write_buffer_length s) (returned false)
unfolding check_write_buffer_length abort
checked-IsWithin none s lives e = tt
checked-IsWithin (some m) s lives e = ground arith

idle-IsWithin :
    (max : Option ℕ) (s : MessageStream) (o : SendOutcome)
    → IsWithin max s o
    → IsWithin max
        (record (if is_empty s.write_buffer then emit idle s else s) { sending_data = false })
        o
idle-IsWithin max s (returned true) h = ground arith
idle-IsWithin none s (returned false) h = tt
idle-IsWithin (some m) s (returned false) h = ground arith
idle-IsWithin max s send_error h = ground arith
idle-IsWithin max s state_error h = tt
idle-IsWithin max s hangs h = h

after_loop-IsWithin :
    {W : Type 0} (max : Option ℕ) (s : MessageStream) (r : W × MessageStream × LoopEnd)
    → s.max_write_buffer_length ≡ max
    → LeftBy s r.1 r.2
    → IsWithin max (after_loop r).1 (after_loop r).2
after_loop-IsWithin max s (w, s', threw) e h = h
after_loop-IsWithin max s (w, s', spins) e h = h
after_loop-IsWithin max s (w, s', finished true) e h = idle-IsWithin max s' (returned true) h
after_loop-IsWithin max s (w, s', finished false) e h =
    let c = record s' { writable_needs_drain = true } in
    idle-IsWithin max (check_write_buffer_length c) (returned false)
      (checked-IsWithin max c h.0 (h.1 ∙ e))

module _ {W : Type 0} (send_data : W → List ℕ → W × SendAnswer)
    (contract : TakesAll send_data) where
  process-IsWithin :
      (w : W) (s : MessageStream)
      → is_terminal s.status ≡ false
      → s.sending_data ≡ false
      → is_write_closed s.write_status ≡ false
      → IsWithin s.max_write_buffer_length
          (process_send_queue send_data w s).1
          (process_send_queue send_data w s).2
  unfolding process_send_queue
  process-IsWithin w s lives still c =
      let P : W × MessageStream × SendOutcome → Type 0 =
        λ r. IsWithin s.max_write_buffer_length r.1 r.2 in
      let u : MessageStream = record s { sending_data = true } in
      if_both P s.writable_needs_drain (checked-IsWithin s.max_write_buffer_length s lives refl)
        (elim (Bool-cases (is_empty s.write_buffer)) [
          | inl e ↦ rw (e) (empty_bytes s.write_buffer e)
          | inr e ↦
              rw (e, still, c)
                (after_loop-IsWithin s.max_write_buffer_length u
                  (send_loop send_data (suc (length s.write_buffer)) w u) refl
                  (loop-LeftBy send_data contract (suc (length s.write_buffer)) w u (omega arith)
                    lives))
        ])

  -- A call of `send` on a stream that has not ended, which is not made from within a call of its
  -- `sendData`, and whose `sendData` keeps its contract, comes to an end. Where it returns true nothing
  -- is left in the write buffer, where it returns false no more than the limit where there is one, and
  -- where `sendData` throws nothing is left.
  pub send-IsWithin :
      (w : W) (s : MessageStream) (bytes : List ℕ)
      → is_terminal s.status ≡ false
      → s.sending_data ≡ false
      → IsWithin s.max_write_buffer_length (send send_data w s bytes).1 (send send_data w s bytes).2
  unfolding send
  send-IsWithin w s bytes lives still = elim (Bool-cases (writes_no_more s.write_status)) [
    | inl c ↦ rw (send, c) tt
    | inr c ↦
        rw (send, c)
          (process-IsWithin w (record s { write_buffer = s.write_buffer ++ bytes }) lives still
            (ground arith))
  ]

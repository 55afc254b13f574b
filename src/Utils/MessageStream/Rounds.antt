-- ===== src/Utils/MessageStream/Rounds.antt =====
-- The loop of processSendQueue: what each of its parts keeps, a step keeps.
use js_libp2p.Base.{
  ℕ, zero, suc, ◌≡◌, ◌⊎◌, refl, Bool, true, false, List, inl, inr, Bool-cases, Option-cases,
  if_both, length, nat_beq, if◌then◌else◌, ltb, ◌||◌,
}
use js_libp2p.Utils.MessageStream.{
  MessageStream, is_empty, abort, check_write_buffer_length, emit, idle, is_write_closed,
}
use js_libp2p.Utils.MessageStream.Send.{
  SendAnswer, send_throws, send_result, LoopEnd, finished, threw, spins, RoundEnd, ends, goes_on,
  taken, next_end, next_chunk, answered, SendOutcome, process_send_queue, send_round, send_loop,
  after_loop,
}

pub RoundEnd-cases : (e : RoundEnd) → (e ≡ goes_on) ⊎ ((l : LoopEnd) × (e ≡ ends l))
RoundEnd-cases goes_on = inl refl
RoundEnd-cases (ends l) = inr (l, refl)

-- The changes of the writing side that keep `Q`, where the stream may still send.
pub record KeptBySending (Q : MessageStream → Type 0) : Type 0 where
  pub aborts : (s : MessageStream) → Q s → Q (abort s)
  pub takes : (s : MessageStream) (n : ℕ) → Q s → Q (taken s n)
  pub flags :
      (s : MessageStream) (sending drains : Bool)
      → Q s
      → Q (record s { sending_data = sending; writable_needs_drain = drains })
  pub emits : (s : MessageStream) → Q s → Q (emit idle s)

module _ {W : Type 0} (send_data : W → List ℕ → W × SendAnswer) (Q : MessageStream → Type 0)
    (k : KeptBySending Q) where
  answered-keeps : (s : MessageStream) (a : W × SendAnswer) → Q s → Q (answered s a).1
  answered-keeps s (w, send_throws) q = k.aborts s q
  answered-keeps s (w, send_result n true) q = k.takes s n q
  answered-keeps s (w, send_result n false) q = k.takes s n q

  round-keeps : (w : W) (s : MessageStream) → Q s → Q (send_round send_data w s).1
  unfolding send_round
  round-keeps w s q = elim (Bool-cases (is_empty s.write_buffer)) [
    | inl e ↦ rw e q
    | inr e ↦ elim (Bool-cases (nat_beq (next_end s) 0)) [
      | inl z ↦ rw (e, z) q
      | inr z ↦ rw (e, z) (answered-keeps s (send_data w (next_chunk s)) q)
    ]
  ]

  loop-keeps : (fuel : ℕ) (w : W) (s : MessageStream) → Q s → Q (send_loop send_data fuel w s).1
  unfolding send_loop
  loop-keeps zero w s q = q
  loop-keeps (suc fuel) w s q =
      let q' = round-keeps w s q in
      elim (RoundEnd-cases (send_round send_data w s).2) [
        | inl e ↦
            rw (send_loop, e)
              (loop-keeps fuel (send_round send_data w s).0 (send_round send_data w s).1 q')
        | inr (l, e) ↦ rw (send_loop, e) q'
      ]

  check-keeps : (s : MessageStream) → Q s → Q (check_write_buffer_length s)
  unfolding check_write_buffer_length
  check-keeps s q = elim (Option-cases s.max_write_buffer_length) [
    | inl n ↦ rw (check_write_buffer_length, n) q
    | inr (max, n) ↦ elim (Bool-cases (ltb max (length s.write_buffer))) [
      | inl l ↦ rw (check_write_buffer_length, n, l) (k.aborts s q)
      | inr l ↦ rw (check_write_buffer_length, n, l) q
    ]
  ]

  idle-keeps : (s : MessageStream) → Q s → Q (if is_empty s.write_buffer then emit idle s else s)
  idle-keeps s q = elim (Bool-cases (is_empty s.write_buffer)) [
    | inl e ↦ rw e (k.emits s q)
    | inr e ↦ rw e q
  ]

  after_loop-keeps : (r : W × MessageStream × LoopEnd) → Q r.1 → Q (after_loop r).1
  after_loop-keeps (w, s, threw) q = k.flags s false s.writable_needs_drain q
  after_loop-keeps (w, s, spins) q = q
  after_loop-keeps (w, s, finished true) q =
      let t = if is_empty s.write_buffer then emit idle s else s in
      k.flags t false t.writable_needs_drain (idle-keeps s q)
  after_loop-keeps (w, s, finished false) q =
      let c = check_write_buffer_length (record s { writable_needs_drain = true }) in
      let t = if is_empty c.write_buffer then emit idle c else c in
      k.flags t false t.writable_needs_drain (
        idle-keeps c (
          check-keeps (record s { writable_needs_drain = true }) (k.flags s s.sending_data true q)))

  pub process-keeps : (w : W) (s : MessageStream) → Q s → Q (process_send_queue send_data w s).1
  unfolding process_send_queue
  process-keeps w s q =
      let P : W × MessageStream × SendOutcome → Type 0 = λ r. Q r.1 in
      let looped =
        send_loop send_data (suc (length s.write_buffer)) w (record s { sending_data = true }) in
      if_both P s.writable_needs_drain (check-keeps s q) (
        if_both P (is_empty s.write_buffer || s.sending_data) q (
          if_both P (is_write_closed s.write_status) q (
            after_loop-keeps looped (
              loop-keeps (suc (length s.write_buffer)) w (record s { sending_data = true })
                (k.flags s true s.writable_needs_drain q)))))

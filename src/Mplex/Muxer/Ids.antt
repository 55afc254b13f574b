-- ===== src/Mplex/Muxer/Ids.antt =====
-- packages/stream-multiplexer-mplex/src/mplex.ts, onCreateStream: the numbers of the streams that this
-- side opens
use js_libp2p.Base.{
  ℤ, pos, ℕ, suc, ◌+◌, ◌≤◌, ◌≡◌, refl, sym, subst, Bool, false, Option, none, some, List, [], ◌∷◌,
  ◌++◌, map, if◌then◌else◌, ltb, arith, if_both, nat_beq,
}
use js_libp2p.Mplex.MessageTypes.{Message}
use js_libp2p.Mplex.Decode.{Decoder, Result, ok, err, out_of_fuel}
use js_libp2p.Mplex.Decode as Decode
use js_libp2p.Mplex.Stream.{Direction, inbound, outbound, send_reset}
use js_libp2p.Utils.MessageStream.{MessageStream}
use js_libp2p.Utils.RateLimiter.{RateLimiter, Consumed, allowed, rate_limit_error, consume}
use js_libp2p.Mplex.Muxer.{
  Muxer, is_closed, has_reset, plain_stream, if_allowed, is_open, handle_found, handle_new_stream,
  is_new_stream, on_decoded, addressee, new_stream_key, missing_stream_key, add_stream_listener,
  call_of, MuxedStream, has_id, find_stream, settle_first, settle_all, has_just_ended,
  create_stream, on_drain, send_messages, send_resets, abort_muxer, transport_closed,
  on_remote_stream, deliver, handle_message, handle_messages, on_message, new_stream,
}
use js_libp2p.Utils.MessageStream as MessageStream
use js_libp2p.Mplex.Muxer.Steps.{Op, step, run, or_same}

-- The numbers of the outbound streams ascend from lo on and stay below hi.
unfoldable pub IsAscending : ℕ → List MuxedStream → ℕ → Type 0
IsAscending lo [] hi = lo ≤ hi
IsAscending lo (s ∷ ss) hi = elim s.direction [
  | outbound ↦ (k : ℕ) × (s.number ≡ pos k) × (lo ≤ k) × IsAscending (suc k) ss hi
  | inbound ↦ IsAscending lo ss hi
]

-- One stream with the numbers behind it.
abbrev pub Joins : ℕ → Direction → ℤ → (ℕ → Type 0) → Type 0
Joins lo direction number rest = elim direction [
  | outbound ↦ (k : ℕ) × (number ≡ pos k) × (lo ≤ k) × rest (suc k)
  | inbound ↦ rest lo
]

Joins-inbound :
    (lo : ℕ) (direction : Direction) (number : ℤ) (P : ℕ → Type 0)
    → direction ≡ inbound
    → P lo
    → Joins lo direction number P
Joins-inbound lo direction number P d p = subst (λ x. Joins lo x number P) (sym d) p

pub Joins-map :
    (lo : ℕ) (direction : Direction) (number : ℤ) (P Q : ℕ → Type 0)
    → ((l : ℕ) → P l → Q l)
    → Joins lo direction number P
    → Joins lo direction number Q
Joins-map lo outbound number P Q f (k, e, h, p) = (k, e, h, f (suc k) p)
Joins-map lo inbound number P Q f p = f lo p

Joins-lower :
    (lo lo' : ℕ) (direction : Direction) (number : ℤ) (P : ℕ → Type 0)
    → lo' ≤ lo
    → (P lo → P lo')
    → Joins lo direction number P
    → Joins lo' direction number P
Joins-lower lo lo' outbound number P h f (k, e, le, q) = (k, e, omega arith, q)
Joins-lower lo lo' inbound number P h f q = f q

IsAscending-lower :
    (lo lo' : ℕ) (ss : List MuxedStream) (hi : ℕ)
    → lo' ≤ lo
    → IsAscending lo ss hi
    → IsAscending lo' ss hi
unfolding IsAscending
IsAscending-lower lo lo' [] hi h p = omega arith
IsAscending-lower lo lo' (s ∷ ss) hi h p =
    Joins-lower lo lo' s.direction s.number (λ l. IsAscending l ss hi) h
      (IsAscending-lower lo lo' ss hi h) p

IsAscending-tail :
    (lo : ℕ) (s : MuxedStream) (ss : List MuxedStream) (hi : ℕ)
    → IsAscending lo (s ∷ ss) hi
    → IsAscending lo ss hi
unfolding IsAscending
IsAscending-tail lo s ss hi p = tail s.direction s.number p
  where
    tail :
        (direction : Direction) (number : ℤ)
        → Joins lo direction number (λ l. IsAscending l ss hi)
        → IsAscending lo ss hi
    tail outbound number (k, e, le, q) = IsAscending-lower (suc k) lo ss hi (omega arith) q
    tail inbound number q = q

settle_first-IsAscending :
    (f : MessageStream → MessageStream) (lo : ℕ) (ss : List MuxedStream) (direction : Direction)
    (number : ℤ) (hi : ℕ)
    → IsAscending lo ss hi
    → IsAscending lo (settle_first f ss direction number) hi
unfolding IsAscending settle_first
settle_first-IsAscending f lo [] direction number hi p = p
settle_first-IsAscending f lo (s ∷ ss) direction number hi p =
    if_both (λ (ts : List MuxedStream). IsAscending lo ts hi) (has_id s direction number)
      (if_both (λ (ts : List MuxedStream). IsAscending lo ts hi)
        (has_just_ended s.stream (f s.stream)) (IsAscending-tail lo s ss hi p) p)
      (Joins-map lo s.direction s.number (λ l. IsAscending l ss hi)
        (λ l. IsAscending l (settle_first f ss direction number) hi)
        (λ l q. settle_first-IsAscending f l ss direction number hi q) p)

settle_all-IsAscending :
    (f : MessageStream → MessageStream) (lo : ℕ) (ss : List MuxedStream) (hi : ℕ)
    → IsAscending lo ss hi
    → IsAscending lo (settle_all f ss) hi
unfolding IsAscending settle_all
settle_all-IsAscending f lo [] hi p = p
settle_all-IsAscending f lo (s ∷ ss) hi p =
    if_both (λ (ts : List MuxedStream). IsAscending lo ts hi) (has_just_ended s.stream (f s.stream))
      (settle_all-IsAscending f lo ss hi (IsAscending-tail lo s ss hi p))
      (Joins-map lo s.direction s.number (λ l. IsAscending l ss hi)
        (λ l. IsAscending l (settle_all f ss) hi) (λ l q. settle_all-IsAscending f l ss hi q) p)

abbrev with_call : (MessageStream → MessageStream) → MuxedStream → MuxedStream
with_call f s = record s { stream = f s.stream }

map_stream-IsAscending :
    (f : MessageStream → MessageStream) (lo : ℕ) (ss : List MuxedStream) (hi : ℕ)
    → IsAscending lo ss hi
    → IsAscending lo (map (with_call f) ss) hi
unfolding IsAscending
map_stream-IsAscending f lo [] hi p = p
map_stream-IsAscending f lo (s ∷ ss) hi p =
    Joins-map lo s.direction s.number (λ l. IsAscending l ss hi)
      (λ l. IsAscending l (map (with_call f) ss) hi) (λ l q. map_stream-IsAscending f l ss hi q) p

-- One more stream at the end.
append-IsAscending :
    (lo : ℕ) (ss : List MuxedStream) (s : MuxedStream) (hi hi' : ℕ)
    → IsAscending hi (s ∷ []) hi'
    → IsAscending lo ss hi
    → IsAscending lo (ss ++ (s ∷ [])) hi'
unfolding IsAscending
append-IsAscending lo [] s hi hi' q p = IsAscending-lower hi lo (s ∷ []) hi' p q
append-IsAscending lo (t ∷ ss) s hi hi' q p =
    Joins-map lo t.direction t.number (λ l. IsAscending l ss hi)
      (λ l. IsAscending l (ss ++ (s ∷ [])) hi') (λ l r. append-IsAscending l ss s hi hi' q r) p

module _ {W : Type 0} where
  -- The numbers of the streams opened here ascend, and the next one is above them all.
  unfoldable pub IsNumbered : Muxer W → Type 0
  IsNumbered m = IsAscending 0 m.streams m.next_stream_id

  create_stream-IsNumbered : (m : Muxer W) → IsNumbered m → IsNumbered (or_same m (create_stream m))
  unfolding IsNumbered IsAscending create_stream
  create_stream-IsNumbered m p =
      let opened =
        append-IsAscending 0 m.streams (new_stream m (pos m.next_stream_id) outbound)
          m.next_stream_id (m.next_stream_id + 1) (m.next_stream_id, refl, omega arith, omega arith)
          p in
      if_both
        (λ (m' : Option (Muxer W)).
          IsAscending 0 (or_same m m').streams (or_same m m').next_stream_id)
        (is_open m.status) opened p

module _ {W : Type 0} (conn_send : W → List Message → W × Bool) (conn_abort : W → W) where
  send_messages-IsNumbered :
      (m : Muxer W) (messages : List Message)
      → IsNumbered m
      → IsNumbered (send_messages conn_send m messages)
  unfolding IsNumbered send_messages
  send_messages-IsNumbered m messages p =
      if_both (λ (m' : Muxer W). IsAscending 0 m'.streams m'.next_stream_id)
        (conn_send m.connection messages).1 p
        (map_stream-IsAscending MessageStream.on_muxer_needs_drain 0 m.streams m.next_stream_id p)

  send_resets-IsNumbered :
      (m : Muxer W) (ss : List MuxedStream) → IsNumbered m → IsNumbered (send_resets conn_send m ss)
  unfolding send_resets
  send_resets-IsNumbered m [] p = p
  send_resets-IsNumbered m (s ∷ ss) p =
      send_resets-IsNumbered
        (if has_reset s.stream (MessageStream.abort s.stream)
          then send_messages conn_send m (send_reset (plain_stream m.options s) ∷ [])
          else m)
        ss
        (if_both IsNumbered (has_reset s.stream (MessageStream.abort s.stream))
          (send_messages-IsNumbered m (send_reset (plain_stream m.options s) ∷ []) p) p)

  abort_muxer-IsNumbered : (m : Muxer W) → IsNumbered m → IsNumbered (abort_muxer conn_send m)
  unfolding IsNumbered abort_muxer
  abort_muxer-IsNumbered m p =
      if_both (λ (m' : Muxer W). IsAscending 0 m'.streams m'.next_stream_id) (is_closed m.status) p
        (settle_all-IsAscending MessageStream.abort 0 _ _ (send_resets-IsNumbered m m.streams p))

  on_remote_stream-IsNumbered :
      (m : Muxer W) (s : MuxedStream)
      → s.direction ≡ inbound
      → IsNumbered m
      → IsNumbered (on_remote_stream conn_send m s)
  unfolding IsNumbered on_remote_stream IsAscending
  on_remote_stream-IsNumbered m s d p =
      let opened =
        append-IsAscending 0 m.streams s m.next_stream_id m.next_stream_id
          (Joins-inbound m.next_stream_id s.direction s.number (λ l. l ≤ m.next_stream_id) d
            (omega arith))
          p in
      if_both (λ (m' : Muxer W). IsAscending 0 m'.streams m'.next_stream_id)
        (nat_beq m.stream_listeners 0)
        (if_both (λ (m' : Muxer W). IsAscending 0 m'.streams m'.next_stream_id)
          (ltb m.max_early_streams (m.early_streams + 1))
          (abort_muxer-IsNumbered
            (record m { early_streams = m.early_streams + 1; streams = m.streams ++ (s ∷ []) })
            opened)
          opened)
        opened

  if_allowed-IsNumbered :
      (answer : RateLimiter × Consumed) (m : Muxer W) (next : Muxer W → Muxer W)
      → ((m' : Muxer W) → IsNumbered m' → IsNumbered (next m'))
      → IsNumbered m
      → IsNumbered (if_allowed conn_send answer m next)
  unfolding IsNumbered
  if_allowed-IsNumbered (l, allowed r) m next keeps p = keeps (record m { rate_limiter = l }) p
  if_allowed-IsNumbered (l, rate_limit_error r) m next keeps p =
      abort_muxer-IsNumbered (record m { rate_limiter = l }) p

  deliver-IsNumbered :
      (m : Muxer W) (s : MuxedStream) (message : Message)
      → IsNumbered m
      → IsNumbered (deliver conn_send m s message)
  unfolding IsNumbered deliver
  deliver-IsNumbered m s message p =
      let q =
        settle_first-IsAscending (call_of message) 0 m.streams s.direction s.number m.next_stream_id
          p in
      if_both (λ (m' : Muxer W). IsAscending 0 m'.streams m'.next_stream_id)
        (has_reset s.stream (call_of message s.stream))
        (send_messages-IsNumbered
          (record m { streams = settle_first (call_of message) m.streams s.direction s.number })
          (send_reset (plain_stream m.options s) ∷ []) q)
        q

  handle_found-IsNumbered :
      (now : ℕ) (m : Muxer W) (message : Message) (found : Option MuxedStream)
      → IsNumbered m
      → IsNumbered (handle_found conn_send now m message found)
  unfolding handle_found
  handle_found-IsNumbered now m message none p =
      if_allowed-IsNumbered (consume now m.rate_limiter missing_stream_key 1 none) m (λ m'. m')
        (λ m' q. q) p
  handle_found-IsNumbered now m message (some s) p = deliver-IsNumbered m s message p

  handle_message-IsNumbered :
      (now : ℕ) (m : Muxer W) (message : Message)
      → IsNumbered m
      → IsNumbered (handle_message conn_send now m message)
  unfolding handle_message handle_new_stream
  handle_message-IsNumbered now m message p =
      if_both (λ (m' : Muxer W). IsNumbered m') (is_new_stream message.type)
        (if_allowed-IsNumbered (consume now m.rate_limiter new_stream_key 1 none) m
          (λ m'. on_remote_stream conn_send m' (new_stream m message.id inbound))
          (λ m' q. on_remote_stream-IsNumbered m' (new_stream m message.id inbound) refl q) p)
        (handle_found-IsNumbered now m message
          (find_stream m.streams (addressee message.type) message.id) p)

  handle_messages-IsNumbered :
      (now : ℕ) (m : Muxer W) (messages : List Message)
      → IsNumbered m
      → IsNumbered (handle_messages conn_send now m messages)
  unfolding handle_messages
  handle_messages-IsNumbered now m [] p = p
  handle_messages-IsNumbered now m (message ∷ messages) p =
      handle_messages-IsNumbered now (handle_message conn_send now m message) messages
        (handle_message-IsNumbered now m message p)

  on_decoded-IsNumbered :
      (now : ℕ) (m : Muxer W) (r : Result (List Message))
      → IsNumbered m
      → IsNumbered (on_decoded conn_send conn_abort now m r)
  unfolding on_decoded IsNumbered
  on_decoded-IsNumbered now m (ok messages) p = handle_messages-IsNumbered now m messages p
  on_decoded-IsNumbered now m (err e) p = abort_muxer-IsNumbered m p
  on_decoded-IsNumbered now m out_of_fuel p = abort_muxer-IsNumbered m p

  step-IsNumbered :
      (m : Muxer W) (op : Op) → IsNumbered m → IsNumbered (step conn_send conn_abort m op)
  unfolding step on_message on_drain add_stream_listener transport_closed IsNumbered
  step-IsNumbered m Op.creates p = create_stream-IsNumbered m p
  step-IsNumbered m Op.drains p =
      map_stream-IsAscending MessageStream.on_muxer_drain 0 m.streams m.next_stream_id p
  step-IsNumbered m Op.listens p = p
  step-IsNumbered m Op.aborts p = abort_muxer-IsNumbered m p
  step-IsNumbered m Op.transport_closes p =
      settle_all-IsAscending (λ s. MessageStream.on_transport_closed s false) 0 m.streams
        m.next_stream_id p
  step-IsNumbered m (Op.sends messages) p = send_messages-IsNumbered m messages p
  step-IsNumbered m (Op.data_arrives now chunk) p =
      on_decoded-IsNumbered now (record m { decoder = (Decode.write m.decoder chunk).1 })
        (Decode.write m.decoder chunk).0 p
  step-IsNumbered m (Op.stream_acts f direction number) p =
      settle_first-IsAscending f 0 m.streams direction number m.next_stream_id p

  pub run-IsNumbered :
      (m : Muxer W) (ops : List Op) → IsNumbered m → IsNumbered (run conn_send conn_abort m ops)
  unfolding run
  run-IsNumbered m [] p = p
  run-IsNumbered m (op ∷ ops) p =
      run-IsNumbered (step conn_send conn_abort m op) ops (step-IsNumbered m op p)

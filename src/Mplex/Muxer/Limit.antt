-- ===== src/Mplex/Muxer/Limit.antt =====
-- packages/stream-multiplexer-mplex/src/mplex.ts, handleMessage with the rate limiter: how many streams
-- the remote may open within one second
use js_libp2p.Base.{
  ℕ, ◌+◌, ◌≤◌, ◌<◌, ◌≡◌, refl, ap, sym, subst, ◌∙◌, Bool, true, false, Option, none, some, List, [],
  ◌∷◌, ◌++◌, if◌then◌else◌, ltb, nat_beq, ◌==◌, bytes_eq, arith, Bool-cases, inl, inr, if_both, ◌⊎◌,
}
use js_libp2p.Mplex.MessageTypes.{Message}
use js_libp2p.Mplex.Stream.{inbound, send_reset}
use js_libp2p.Utils.MessageStream as MessageStream
use js_libp2p.Utils.RateLimiter.{RateLimiter, Consumed, allowed, rate_limit_error, consume}
use js_libp2p.Utils.RateLimiter.Window.{Call, call, run, is_allowed, asked, IsWithin}
use js_libp2p.Mplex.Muxer.{
  Muxer, MuxedStream, is_closed, has_reset, plain_stream, if_allowed, send_messages, send_resets,
  abort_muxer, on_remote_stream, deliver, call_of, handle_new_stream, handle_found, handle_message,
  is_new_stream, new_stream, new_stream_key, missing_stream_key, settle_first, settle_all,
  closed_status,
}

-- A message and the time at which it is handled.
abbrev pub Timed : Type 0
Timed = ℕ × Message

module _ {W : Type 0} (conn_send : W → List Message → W × Bool) where
  unfoldable pub handle_run : Muxer W → List Timed → Muxer W
  handle_run m [] = m
  handle_run m ((now, message) ∷ ms) = handle_run (handle_message conn_send now m message) ms

-- The messages that open a stream.
unfoldable pub count_new : List Timed → ℕ
count_new [] = 0
count_new ((now, message) ∷ ms) =
    let rest = count_new ms in if is_new_stream message.type then 1 + rest else rest

-- Every message is handled from t on and before e.
unfoldable pub AreWithin : ℕ → ℕ → List Timed → Type 0
AreWithin t e [] = Unit {0}
AreWithin t e ((now, message) ∷ ms) = (t ≤ now) × (now < e) × AreWithin t e ms

run-append :
    (l : RateLimiter) (cs : List Call) (c : Call) → run l (cs ++ (c ∷ [])) ≡ (call (run l cs) c).0
unfolding run
run-append l [] c = refl
run-append l (d ∷ cs) c = run-append (call l d).0 cs c

asked-append :
    (k : List ℕ) (cs : List Call) (c : Call)
    → asked k (cs ++ (c ∷ [])) ≡ asked k cs + (if c.key == k then c.points_to_consume else 0)
unfolding asked
asked-append k [] c = ground arith
asked-append k (d ∷ cs) c = ground (arith, asked-append k cs c)

IsWithin-append :
    (t e : ℕ) (cs : List Call) (c : Call)
    → IsWithin t e cs
    → t ≤ c.at_time
    → c.at_time < e
    → IsWithin t e (cs ++ (c ∷ []))
unfolding IsWithin
IsWithin-append t e [] c w h h' = (h, h', tt)
IsWithin-append t e (d ∷ cs) c w h h' = (w.0, w.1, IsWithin-append t e cs c w.2 h h')

module _ {W : Type 0} (conn_send : W → List Message → W × Bool) where
  -- The muxer has the limiter l, and is closed where b holds.
  abbrev pub Keeps : RateLimiter → Bool → Muxer W → Type 0
  Keeps l b m = (m.rate_limiter ≡ l) × (b ≡ true → is_closed m.status ≡ true)

  send_messages-Keeps :
      (l : RateLimiter) (b : Bool) (m : Muxer W) (messages : List Message)
      → Keeps l b m
      → Keeps l b (send_messages conn_send m messages)
  unfolding send_messages
  send_messages-Keeps l b m messages p =
      if_both (λ (m' : Muxer W). Keeps l b m') (conn_send m.connection messages).1 p p

  send_resets-Keeps :
      (l : RateLimiter) (b : Bool) (m : Muxer W) (ss : List MuxedStream)
      → Keeps l b m
      → Keeps l b (send_resets conn_send m ss)
  unfolding send_resets
  send_resets-Keeps l b m [] p = p
  send_resets-Keeps l b m (s ∷ ss) p =
      let sent = send_messages-Keeps l b m (send_reset (plain_stream m.options s) ∷ []) p in
      send_resets-Keeps l b
        (if has_reset s.stream (MessageStream.abort s.stream)
          then send_messages conn_send m (send_reset (plain_stream m.options s) ∷ [])
          else m)
        ss
        (if_both (λ (m' : Muxer W). Keeps l b m')
          (has_reset s.stream (MessageStream.abort s.stream)) sent p)

  -- An abort leaves the muxer closed.
  abort_muxer-Keeps :
      (l : RateLimiter) (m : Muxer W) → m.rate_limiter ≡ l → Keeps l true (abort_muxer conn_send m)
  unfolding abort_muxer
  abort_muxer-Keeps l m p =
      let aborted : Muxer W = record (send_resets conn_send m m.streams) {
        streams = settle_all MessageStream.abort (send_resets conn_send m m.streams).streams;
        status = closed_status;
      } in
      elim (Bool-cases (is_closed m.status)) [
        | inl h ↦ subst (λ b. Keeps l true (if b then m else aborted)) (sym h) (p, λ q. h)
        | inr h ↦
            subst (λ b. Keeps l true (if b then m else aborted)) (sym h)
              ((send_resets-Keeps l false m m.streams (p, λ q. cc)).0, λ q. refl)
      ]

  weaken : (l : RateLimiter) (b : Bool) (m : Muxer W) → Keeps l true m → Keeps l b m
  weaken l b m p = (p.0, λ q. p.1 refl)

  on_remote_stream-Keeps :
      (l : RateLimiter) (b : Bool) (m : Muxer W) (s : MuxedStream)
      → Keeps l b m
      → Keeps l b (on_remote_stream conn_send m s)
  unfolding on_remote_stream
  on_remote_stream-Keeps l b m s p =
      let early : Muxer W = record m {
        early_streams = m.early_streams + 1;
        streams = m.streams ++ (s ∷ []);
      } in
      if_both (λ (m' : Muxer W). Keeps l b m') (nat_beq m.stream_listeners 0)
        (if_both (λ (m' : Muxer W). Keeps l b m') (ltb m.max_early_streams (m.early_streams + 1))
          (weaken l b (abort_muxer conn_send early) (abort_muxer-Keeps l early p.0)) p)
        p

  deliver-Keeps :
      (l : RateLimiter) (b : Bool) (m : Muxer W) (s : MuxedStream) (message : Message)
      → Keeps l b m
      → Keeps l b (deliver conn_send m s message)
  unfolding deliver
  deliver-Keeps l b m s message p =
      if_both (λ (m' : Muxer W). Keeps l b m') (has_reset s.stream (call_of message s.stream))
        (send_messages-Keeps l b
          (record m { streams = settle_first (call_of message) m.streams s.direction s.number })
          (send_reset (plain_stream m.options s) ∷ []) p)
        p

  -- What a call of the limiter leaves.
  if_allowed-Keeps :
      (answer : RateLimiter × Consumed) (b : Bool) (m : Muxer W) (next : Muxer W → Muxer W)
      → ((m' : Muxer W) → Keeps answer.0 b m' → Keeps answer.0 b (next m'))
      → (b ≡ true → is_closed m.status ≡ true)
      → (Keeps answer.0 b (if_allowed conn_send answer m next))
        × (is_allowed answer.1 ≡ false
            → is_closed (if_allowed conn_send answer m next).status ≡ true)
  if_allowed-Keeps (l, allowed r) b m next keeps c =
      (keeps (record m { rate_limiter = l }) (refl, c), λ q. cc)
  if_allowed-Keeps (l, rate_limit_error r) b m next keeps c =
      let m' : Muxer W = record m { rate_limiter = l } in
      let shut = abort_muxer-Keeps l m' refl in
      (weaken l b (abort_muxer conn_send m') shut, λ q. shut.1 refl)

  pub handle_new_stream-Keeps :
      (now : ℕ) (b : Bool) (m : Muxer W) (message : Message)
      → (b ≡ true → is_closed m.status ≡ true)
      → (Keeps
          (consume now m.rate_limiter new_stream_key 1 none).0
          b
          (handle_new_stream conn_send now m message))
        × (is_allowed (consume now m.rate_limiter new_stream_key 1 none).1 ≡ false
            → is_closed (handle_new_stream conn_send now m message).status ≡ true)
  unfolding handle_new_stream
  handle_new_stream-Keeps now b m message c =
      let answer = consume now m.rate_limiter new_stream_key 1 none in
      if_allowed-Keeps answer b m
        (λ m'. on_remote_stream conn_send m' (new_stream m message.id inbound))
        (λ m' q. on_remote_stream-Keeps answer.0 b m' (new_stream m message.id inbound) q) c

  -- The limiter after a message that opens no stream: it was not called, or for the other key.
  pub handle_found-Keeps :
      (now : ℕ) (b : Bool) (m : Muxer W) (message : Message) (found : Option MuxedStream)
      → (b ≡ true → is_closed m.status ≡ true)
      → (Keeps m.rate_limiter b (handle_found conn_send now m message found))
        ⊎ (Keeps
            (consume now m.rate_limiter missing_stream_key 1 none).0
            b
            (handle_found conn_send now m message found))
  unfolding handle_found
  handle_found-Keeps now b m message none c =
      inr
        (if_allowed-Keeps (consume now m.rate_limiter missing_stream_key 1 none) b m (λ m'. m')
          (λ m' q. q) c).0
  handle_found-Keeps now b m message (some s) c =
      inl (deliver-Keeps m.rate_limiter b m s message (refl, c))

-- The limiter of the muxer is l after calls from t on and before e.
pub record IsCalled {W : Type 0} (t e : ℕ) (l : RateLimiter) (n : ℕ) (m : Muxer W) : Type 0 where
  pub calls : List Call
  pub are_within : IsWithin t e calls
  pub is_after : m.rate_limiter ≡ run l calls
  pub are_asked : asked new_stream_key calls ≡ n

pub IsCalled-more :
    {W : Type 0} (t e : ℕ) (l : RateLimiter) (n : ℕ) (m m' : Muxer W) (c : Call)
    → (p : IsCalled t e l n m) → t ≤ c.at_time
    → c.at_time < e
    → m'.rate_limiter ≡ (call m.rate_limiter c).0
    → IsCalled t e l (n + (if c.key == new_stream_key then c.points_to_consume else 0)) m'
IsCalled-more t e l n m m' c p h h' q = record {
  calls = p.calls ++ (c ∷ []);
  are_within = IsWithin-append t e p.calls c p.are_within h h';
  is_after = q ∙ ap (λ x. (call x c).0) p.is_after ∙ sym (run-append l p.calls c);
  are_asked =
      asked-append new_stream_key p.calls c
      ∙ ap (λ x. x + (if c.key == new_stream_key then c.points_to_consume else 0)) p.are_asked;
}

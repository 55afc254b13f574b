-- ===== src/Mplex/Muxer/Flood.antt =====
-- packages/stream-multiplexer-mplex/src/mplex.ts, handleMessage: a remote that opens too many streams
use js_libp2p.Base.{
  ℕ, ◌+◌, ◌*◌, ◌≤◌, ◌<◌, ◌≡◌, refl, ap, ◌∙◌, ◌⊎◌, Bool, true, false, Option, List, [], ◌∷◌,
  if◌then◌else◌, leb, arith, Bool-cases, inl, inr,
}
use js_libp2p.Mplex.MessageTypes.{Message}
use js_libp2p.Utils.RateLimiter.{RateLimiter}
use js_libp2p.Utils.RateLimiter.Window.{
  Call, call, run, is_allowed, asked, IsWithin, consume-window,
}
use js_libp2p.Mplex.Muxer.{
  Muxer, MuxedStream, is_closed, handle_new_stream, handle_found, handle_message, find_stream,
  addressee, is_new_stream, new_stream_key, missing_stream_key,
}
use js_libp2p.Mplex.Muxer.Limit.{
  Timed, handle_run, count_new, AreWithin, handle_new_stream-Keeps, handle_found-Keeps, IsCalled,
  IsCalled-more,
}

-- A limiter without records that blocks no key.
pub record IsFresh (l : RateLimiter) : Type 0 where
  pub blocks_none : l.block_duration ≡ 0
  pub lasts : 0 < l.duration
  pub is_empty : l.memory_storage ≡ []

abbrev pub window_end : ℕ → RateLimiter → ℕ
window_end t l = t + l.duration * 1000

abbrev opening : ℕ → Call
opening now = record { at_time = now; key = new_stream_key; points_to_consume = 1 }

abbrev missing : ℕ → Call
missing now = record { at_time = now; key = missing_stream_key; points_to_consume = 1 }

-- Either the muxer is closed, or n streams were within the limit.
abbrev WithinLimit : {W : Type 0} → RateLimiter → ℕ → Muxer W → Type 0
WithinLimit l n m = (is_closed m.status ≡ true) ⊎ (n ≤ l.points)

module _ {W : Type 0} (conn_send : W → List Message → W × Bool) where
  handle_new_stream-WithinLimit :
      (t : ℕ) (l : RateLimiter) (n now : ℕ) (m : Muxer W) (message : Message)
      → IsFresh l
      → IsCalled t (window_end t l) l n m
      → t ≤ now
      → now < window_end t l
      → (IsCalled t (window_end t l) l (n + 1) (handle_new_stream conn_send now m message))
        × (WithinLimit l (n + 1) (handle_new_stream conn_send now m message))
  handle_new_stream-WithinLimit t l n now m message f p h h' =
      let (k, refused) = handle_new_stream-Keeps conn_send now false m message (λ q. cc) in
      let answer : is_allowed (call m.rate_limiter (opening now)).1 ≡ leb (n + 1) l.points =
        ap (λ x. is_allowed (call x (opening now)).1) p.is_after
        ∙ consume-window t l p.calls (opening now) f.blocks_none f.lasts f.is_empty p.are_within h
            h'
        ∙ ap (λ x. leb (x + 1) l.points) p.are_asked in
      (
        IsCalled-more t (window_end t l) l n m (handle_new_stream conn_send now m message)
            (opening now) p h h' k.0,
        elim (Bool-cases (leb (n + 1) l.points)) [
          | inl e ↦ inr (ground arith)
          | inr e ↦ inl (refused (answer ∙ e))
        ],
      )

  handle_found-IsCalled :
      (t : ℕ) (l : RateLimiter) (n now : ℕ) (m : Muxer W) (message : Message)
      (found : Option MuxedStream)
      → IsCalled t (window_end t l) l n m
      → WithinLimit l n m
      → t ≤ now
      → now < window_end t l
      → (IsCalled t (window_end t l) l (n + 0) (handle_found conn_send now m message found))
        × (WithinLimit l (n + 0) (handle_found conn_send now m message found))
  handle_found-IsCalled t l n now m message found p w h h' =
      let m' = handle_found conn_send now m message found in
      let e = window_end t l in
      let within : WithinLimit l (n + 0) m' = elim w [
        | inl c ↦ elim (handle_found-Keeps conn_send now true m message found (λ q. c)) [
          | inl k ↦ inl (k.1 refl)
          | inr k ↦ inl (k.1 refl)
        ]
        | inr le ↦ inr (omega arith)
      ] in
      (
        elim (handle_found-Keeps conn_send now false m message found (λ q. cc)) [
          | inl k ↦ record {
            calls = p.calls;
            are_within = p.are_within;
            is_after = k.0 ∙ p.is_after;
            are_asked = p.are_asked ∙ omega arith;
          }
          | inr k ↦ IsCalled-more t e l n m m' (missing now) p h h' k.0
        ],
        within,
      )

  -- Whether the message opens a stream.
  handle_message-IsCalled :
      (t : ℕ) (l : RateLimiter) (n now : ℕ) (m : Muxer W) (message : Message)
      → IsFresh l
      → IsCalled t (window_end t l) l n m
      → WithinLimit l n m
      → t ≤ now
      → now < window_end t l
      → (IsCalled t
          (window_end t l)
          l
          (n + (if is_new_stream message.type then 1 else 0))
          (handle_message conn_send now m message))
        × (WithinLimit l
            (n + (if is_new_stream message.type then 1 else 0))
            (handle_message conn_send now m message))
  unfolding handle_message
  handle_message-IsCalled t l n now m message f p w h h' =
      go (is_new_stream message.type) (handle_new_stream-WithinLimit t l n now m message f p h h') (
        handle_found-IsCalled t l n now m message
          (find_stream m.streams (addressee message.type) message.id) p w h h')
    where
      go :
          {a c : Muxer W} (b : Bool)
          → (IsCalled t (window_end t l) l (n + 1) a) × (WithinLimit l (n + 1) a)
          → (IsCalled t (window_end t l) l (n + 0) c) × (WithinLimit l (n + 0) c)
          → (IsCalled t (window_end t l) l (n + (if b then 1 else 0)) (if b then a else c))
            × (WithinLimit l (n + (if b then 1 else 0)) (if b then a else c))
      go true x y = x
      go false x y = y

  handle_run-closed :
      (t : ℕ) (l : RateLimiter) (n : ℕ) (m : Muxer W) (ms : List Timed)
      → IsFresh l
      → IsCalled t (window_end t l) l n m
      → WithinLimit l n m
      → AreWithin t (window_end t l) ms
      → l.points < n + count_new ms
      → is_closed (handle_run conn_send m ms).status ≡ true
  unfolding handle_run count_new AreWithin
  handle_run-closed t l n m [] f p w a h = elim w [ inl c ↦ c | inr le ↦ absurd (omega arith) ]
  handle_run-closed t l n m ((now, message) ∷ ms) f p w a h =
      let (p', w') = handle_message-IsCalled t l n now m message f p w a.0 a.1 in
      handle_run-closed t l (n + (if is_new_stream message.type then 1 else 0))
        (handle_message conn_send now m message) ms f p' w' a.2 (ground arith)

  -- Where the rate limiter of a muxer holds no record and blocks no key, a remote that opens more
  -- streams than its points within one duration, among any other messages, leaves the muxer closed.
  pub handle_run-limit :
      (t : ℕ) (m : Muxer W) (ms : List Timed)
      → IsFresh m.rate_limiter
      → AreWithin t (window_end t m.rate_limiter) ms
      → m.rate_limiter.points < count_new ms
      → is_closed (handle_run conn_send m ms).status ≡ true
  handle_run-limit t m ms f a h =
      handle_run-closed t m.rate_limiter 0 m ms f
        (record {
          calls = [];
          are_within = unfold IsWithin in tt;
          is_after = unfold run in refl;
          are_asked = unfold asked in refl;
        })
        (inr (omega arith)) a (omega arith)

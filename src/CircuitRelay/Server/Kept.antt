-- ===== src/CircuitRelay/Server/Kept.antt =====
-- packages/transport-circuit-relay-v2/src/server: what the events keep
use Prim.Native.String.{String}
use js_libp2p.Base.{
  ℕ, ◌+◌, ◌≤◌, ◌<◌, ◌≡◌, refl, sym, subst, true, false, ◌&&◌, Option, none, some, List, [], ◌∷◌,
  if◌then◌else◌, leb, length, arith, ◌==◌, string_eq, nat_eq, Bool-cases, inl, inr, if_both, All,
}
use js_libp2p.Base.Map
use js_libp2p.Base.Map.{Map}
use js_libp2p.CircuitRelay.ReservationStore.{
  RelayReservation, ReservationStore, StoreInit, Reserved, Timer, reserve, is_none, clear, fire,
  on_abort, has_ended,
}
use js_libp2p.CircuitRelay.Server.{
  Components, Connection, untyped, reserve_message, connect, status_message, Answer, confirmed,
  on_hop, handle_reserve, reserved,
}
use js_libp2p.CircuitRelay.Server.Steps.{
  Step, hop_step, failed_step, fire_step, stop_step, step, run,
}
use js_libp2p.CircuitRelay.Server.Timers.{
  IsStore, IsOwned, IsHeld, written, written-IsStore, written-IsOwned, written-IsHeld,
  written_own-IsHeld,
}
use js_libp2p.CircuitRelay.Server.Effects.{
  IsGrant, reserve_with-granted, removed-IsStore, removed-IsOwned, removed-IsHeld, fired-IsStore,
  fired-IsOwned, fired-IsHeld,
}

module _ {A : Type 0} where
  -- The step neither stops the relay nor removes the reservation of `p` as one that could not be confirmed.
  abbrev pub Spares : String → Step A → Type 0
  Spares p (failed_step q) = (q == p) ≡ false
  Spares p stop_step = false ≡ true
  Spares p other = Unit {0}

  -- It comes after `t`, and before `d`.
  abbrev pub IsBetween : ℕ → ℕ → Step A → Type 0
  IsBetween t d (hop_step now connection message) = t ≤ now
  IsBetween t d (fire_step n now) = now < d
  IsBetween t d other = Unit {0}

module _ {A C : Type 0} (env : Components A C) (init : StoreInit) where
  -- A property that what a request writes keeps is kept by a request.
  request-kept :
      (P : ReservationStore A → Type 0) (now : ℕ) (connection : Connection A)
      (s : ReservationStore A)
      → IsStore s
      → P s
      → ((r : RelayReservation A) (next : ℕ)
          → IsGrant s connection.remote_peer r next
          → P (written connection.remote_peer r (now + init.reservation_ttl) next s))
      → P (handle_reserve env init now connection s).1
  unfolding handle_reserve reserve
  request-kept P now c s h p f =
      if_both (λ (r : Answer C × ReservationStore A). P r.1) (env.is_circuit c.remote_addr) p
        (if_both (λ (r : Answer C × ReservationStore A). P r.1)
          (env.denies_reservation c.remote_peer) p
          (if_both (λ (r : Reserved × ReservationStore A). P r.1)
            (leb init.max_reservations (length s.reservations)
              && is_none (Map.get s.reservations c.remote_peer))
            p
            (reserve_with-granted P init c.remote_peer c.remote_addr now s h f
              (Map.get s.reservations c.remote_peer) refl)))

  pub request-IsStore :
      (now : ℕ) (c : Connection A) (s : ReservationStore A)
      → IsStore s
      → IsStore (handle_reserve env init now c s).1
  request-IsStore now c s h = request-kept IsStore now c s h h (λ r next g.
      written-IsStore c.remote_peer r (now + init.reservation_ttl) next s g.own g.below g.above h)

  pub request-IsOwned :
      (p : String) (now : ℕ) (c : Connection A) (s : ReservationStore A)
      → IsStore s
      → IsOwned s p
      → IsOwned (handle_reserve env init now c s).1 p
  request-IsOwned p now c s h o =
      request-kept (λ s. IsOwned s p) now c s h o
        (λ r next g. written-IsOwned c.remote_peer p r (now + init.reservation_ttl) next s g.mine o)

  request-IsHeld :
      (p : String) (t now : ℕ) (c : Connection A) (s : ReservationStore A)
      → t ≤ now
      → IsStore s
      → IsHeld s p (t + init.reservation_ttl)
      → IsHeld (handle_reserve env init now c s).1 p (t + init.reservation_ttl)
  request-IsHeld p t now c s l h k =
      request-kept (λ s. IsHeld s p (t + init.reservation_ttl)) now c s h k
        (λ r next g.
          written-IsHeld c.remote_peer p r (now + init.reservation_ttl) next
            (t + init.reservation_ttl) s g.own (omega (arith, l)) k)

  -- A property that a timer's end keeps.
  fire-kept :
      (P : ReservationStore A → Type 0) (n now : ℕ) (s : ReservationStore A)
      → P s
      → ((t : Timer) → Map.get s.signals n ≡ some t → t.deadline ≤ now → P (on_abort n s (some t)))
      → P (fire n now s)
  unfolding fire
  fire-kept P n now s p f = timed (Map.get s.signals n) refl
    where
      timed :
          (o : Option Timer)
          → Map.get s.signals n ≡ o
          → P (if has_ended now o then on_abort n s o else s)
      timed none e = p
      timed (some t) e = elim (Bool-cases (leb t.deadline now)) [
        | inl l ↦
            subst (λ b. P (if b then on_abort n s (some t) else s)) (sym l)
              (f t e (ground (arith, l)))
        | inr l ↦ subst (λ b. P (if b then on_abort n s (some t) else s)) (sym l) p
      ]

  step-IsStore : (s : ReservationStore A) (e : Step A) → IsStore s → IsStore (step env init s e)
  unfolding step on_hop clear Map.get
  step-IsStore s (hop_step now c untyped) h = h
  step-IsStore s (hop_step now c reserve_message) h = request-IsStore now c s h
  step-IsStore s (hop_step now c (connect peer)) h = h
  step-IsStore s (hop_step now c status_message) h = h
  step-IsStore s (failed_step q) h = removed-IsStore q s h
  step-IsStore s (fire_step n now) h =
      fire-kept IsStore n now s h (λ t g l. fired-IsStore n t s g h)
  step-IsStore s stop_step h = record { fresh = h.fresh; linked = λ p r g. absurd (nothing p r g) }
    where
      nothing : (p : String) (r : RelayReservation A) → Map.get [] p ≡ some r → ⊥
      nothing p r g = cc g

  step-IsOwned :
      (p : String) (s : ReservationStore A) (e : Step A)
      → Spares p e
      → IsStore s
      → IsOwned s p
      → IsOwned (step env init s e) p
  unfolding step on_hop
  step-IsOwned p s (hop_step now c untyped) v h o = o
  step-IsOwned p s (hop_step now c reserve_message) v h o = request-IsOwned p now c s h o
  step-IsOwned p s (hop_step now c (connect peer)) v h o = o
  step-IsOwned p s (hop_step now c status_message) v h o = o
  step-IsOwned p s (failed_step q) v h o = removed-IsOwned q p s v o
  step-IsOwned p s (fire_step n now) v h o =
      fire-kept (λ s. IsOwned s p) n now s o (λ t g l. fired-IsOwned n t p s g o)
  step-IsOwned p s stop_step v h o = cc v

  step-IsHeld :
      (p : String) (t : ℕ) (s : ReservationStore A) (e : Step A)
      → Spares p e
      → IsBetween t (t + init.reservation_ttl) e
      → IsStore s
      → IsOwned s p
      → IsHeld s p (t + init.reservation_ttl)
      → IsHeld (step env init s e) p (t + init.reservation_ttl)
  unfolding step on_hop
  step-IsHeld p t s (hop_step now c untyped) v b h o k = k
  step-IsHeld p t s (hop_step now c reserve_message) v b h o k = request-IsHeld p t now c s b h k
  step-IsHeld p t s (hop_step now c (connect peer)) v b h o k = k
  step-IsHeld p t s (hop_step now c status_message) v b h o k = k
  step-IsHeld p t s (failed_step q) v b h o k = removed-IsHeld q p (t + init.reservation_ttl) s v k
  step-IsHeld p t s (fire_step n now) v b h o k =
      fire-kept (λ s. IsHeld s p (t + init.reservation_ttl)) n now s k
        (λ u g l. fired-IsHeld n now u p (t + init.reservation_ttl) s g l b o k)
  step-IsHeld p t s stop_step v b h o k = cc v

  pub steps-IsOwned :
      (p : String) (s : ReservationStore A) (es : List (Step A))
      → All (Spares p) es
      → IsStore s
      → IsOwned s p
      → IsStore (run env init s es) × IsOwned (run env init s es) p
  unfolding run
  steps-IsOwned p s [] v h o = (h, o)
  steps-IsOwned p s (e ∷ es) v h o =
      steps-IsOwned p (step env init s e) es v.1 (step-IsStore s e h) (step-IsOwned p s e v.0 h o)

  pub steps-IsHeld :
      (p : String) (t : ℕ) (s : ReservationStore A) (es : List (Step A))
      → All (Spares p) es
      → All (IsBetween t (t + init.reservation_ttl)) es
      → IsStore s
      → IsOwned s p
      → IsHeld s p (t + init.reservation_ttl)
      → IsHeld (run env init s es) p (t + init.reservation_ttl)
  unfolding run
  steps-IsHeld p t s [] v b h o k = k
  steps-IsHeld p t s (e ∷ es) v b h o k =
      steps-IsHeld p t (step env init s e) es v.1 b.1 (step-IsStore s e h)
        (step-IsOwned p s e v.0 h o) (step-IsHeld p t s e v.0 b.0 h o k)

  -- A confirmed request is one that was granted.
  pub confirmed-IsHeld :
      (t x : ℕ) (c : Connection A) (s : ReservationStore A)
      → IsStore s
      → (handle_reserve env init t c s).0 ≡ confirmed x
      → IsHeld (handle_reserve env init t c s).1 c.remote_peer (t + init.reservation_ttl)
  unfolding handle_reserve reserve
  confirmed-IsHeld t x c s h =
      if_both Granted (env.is_circuit c.remote_addr) (λ e. cc e)
        (if_both Granted (env.denies_reservation c.remote_peer) (λ e. cc e)
          (if_both (λ (r : Reserved × ReservationStore A). Granted (reserved env r.0, r.1))
            (leb init.max_reservations (length s.reservations)
              && is_none (Map.get s.reservations c.remote_peer))
            (λ e. cc e)
            (λ e.
              reserve_with-granted (λ s. IsHeld s c.remote_peer (t + init.reservation_ttl)) init
                c.remote_peer c.remote_addr t s h
                (λ r next g.
                  written_own-IsHeld c.remote_peer r (t + init.reservation_ttl) next
                    (t + init.reservation_ttl) s (omega arith))
                (Map.get s.reservations c.remote_peer) refl)))
    where
      Granted : Answer C × ReservationStore A → Type 0
      Granted r = r.0 ≡ confirmed x → IsHeld r.1 c.remote_peer (t + init.reservation_ttl)

-- ===== src/CircuitRelay/Server/Steps.antt =====
-- packages/transport-circuit-relay-v2/src/server: the events of a relay, and how many reservations it holds
use Prim.Native.String.{String}
use js_libp2p.Base.{
  ℕ, ◌+◌, ◌≤◌, ◌≡◌, refl, sym, subst, Bool, true, false, ◌&&◌, Option, none, some, List, [], ◌∷◌,
  if◌then◌else◌, leb, length, arith, string_eq, nat_eq, Bool-cases, inl, inr, if_both,
}
use js_libp2p.Base.Map
use js_libp2p.Base.Map.{Map}
use js_libp2p.CircuitRelay.ReservationStore.{
  RelayReservation, ReservationStore, StoreInit, Reserved, reservation_refused, ok, seconds,
  checked_limit, Timer, reserve, reserve_with, refresh, remove_reservation, clear, fire, on_abort,
  has_ended, new_store,
}
use js_libp2p.CircuitRelay.Server.{
  Components, Connection, Answer, HopMessage, untyped, reserve_message, connect, status_message,
  on_hop, handle_reserve,
}

-- A request comes in, the confirmation to a peer fails, a timer ends, the relay stops.
pub data Step (A : Type 0) : Type 0 where
  hop_step : ℕ → Connection A → HopMessage → Step A
  failed_step : String → Step A
  fire_step : ℕ → ℕ → Step A
  stop_step : Step A

module _ {A C : Type 0} (env : Components A C) (init : StoreInit) where
  unfoldable pub step : ReservationStore A → Step A → ReservationStore A
  step s (hop_step now connection message) = (on_hop env init now connection message s).1
  step s (failed_step peer) = remove_reservation peer s
  step s (fire_step n now) = fire n now s
  step s stop_step = clear s

  unfoldable pub run : ReservationStore A → List (Step A) → ReservationStore A
  run s [] = s
  run s (e ∷ es) = run (step s e) es

  abbrev HasRoom : ReservationStore A → Type 0
  HasRoom s = length s.reservations ≤ init.max_reservations

  reserve-HasRoom :
      (peer : String) (addr : A) (now : ℕ) (s : ReservationStore A)
      → HasRoom s
      → HasRoom (reserve init peer addr none now s).1
  unfolding reserve
  reserve-HasRoom peer addr now s h = tried (Map.get s.reservations peer) refl
    where
      refreshed : RelayReservation A → Bool → Reserved × ReservationStore A
      refreshed r b = if b then (reservation_refused, s) else (
        ok (seconds (now + init.reservation_ttl)),
        refresh init peer addr none now s (some r),
      )

      decided : Bool → Reserved × ReservationStore A
      decided b =
          if b && true
          then (reservation_refused, s)
          else (ok (seconds (now + init.reservation_ttl)), refresh init peer addr none now s none)

      made : RelayReservation A
      made = record {
        addr = addr;
        expiry = now + init.reservation_ttl;
        limit = checked_limit init none;
        signal = s.next_signal;
      }

      never : (b : Bool) → (b && false) ≡ false
      never true = refl
      never false = refl

      tried :
          (o : Option (RelayReservation A))
          → Map.get s.reservations peer ≡ o
          → HasRoom (reserve_with init peer addr none now s o).1
      tried none e =
          let absent : Map.has s.reservations peer ≡ false =
            Map.has_of_none s.reservations peer e in
          elim (Bool-cases (leb init.max_reservations (length s.reservations))) [
            | inl f ↦ subst (λ b. HasRoom (decided b).1) (sym f) h
            | inr f ↦
                subst (λ b. HasRoom (decided b).1) (sym f)
                  (ground (arith, f, Map.length-set s.reservations peer made, absent))
          ]
      tried (some r) e =
          let here : Map.has s.reservations peer ≡ true = Map.has_of_get s.reservations peer r e in
          subst (λ b. HasRoom (refreshed r b).1)
            (sym (never (leb init.max_reservations (length s.reservations))))
            (ground (arith, Map.length-set s.reservations peer r, here, h))

  handle_reserve-HasRoom :
      (now : ℕ) (connection : Connection A) (s : ReservationStore A)
      → HasRoom s
      → HasRoom (handle_reserve env init now connection s).1
  unfolding handle_reserve
  handle_reserve-HasRoom now connection s h =
      if_both (λ (r : Answer C × ReservationStore A). HasRoom r.1)
        (env.is_circuit connection.remote_addr) h
        (if_both (λ (r : Answer C × ReservationStore A). HasRoom r.1)
          (env.denies_reservation connection.remote_peer) h
          (reserve-HasRoom connection.remote_peer connection.remote_addr now s h))

  fire-HasRoom : (n now : ℕ) (s : ReservationStore A) → HasRoom s → HasRoom (fire n now s)
  unfolding fire
  fire-HasRoom n now s h =
      if_both HasRoom (has_ended now (Map.get s.signals n)) (gone (Map.get s.signals n)) h
    where
      gone : (o : Option Timer) → HasRoom (on_abort n s o)
      gone none = h
      gone (some t) = omega (arith, h, Map.length-delete-le s.reservations t.peer)

  step-HasRoom : (s : ReservationStore A) (e : Step A) → HasRoom s → HasRoom (step s e)
  unfolding step on_hop remove_reservation clear
  step-HasRoom s (hop_step now connection untyped) h = h
  step-HasRoom s (hop_step now connection reserve_message) h =
      handle_reserve-HasRoom now connection s h
  step-HasRoom s (hop_step now connection (connect peer)) h = h
  step-HasRoom s (hop_step now connection status_message) h = h
  step-HasRoom s (failed_step peer) h = omega (arith, h, Map.length-delete-le s.reservations peer)
  step-HasRoom s (fire_step n now) h = fire-HasRoom n now s h
  step-HasRoom s stop_step h = omega arith

  steps-HasRoom : (s : ReservationStore A) (es : List (Step A)) → HasRoom s → HasRoom (run s es)
  unfolding run
  steps-HasRoom s [] h = h
  steps-HasRoom s (e ∷ es) h = steps-HasRoom (step s e) es (step-HasRoom s e h)

  -- After any requests of any peers, failed confirmations, timers that end and stops, the relay holds at most
  -- `maxReservations` reservations.
  pub run-HasRoom :
      (es : List (Step A)) → length (run new_store es).reservations ≤ init.max_reservations
  unfolding new_store
  run-HasRoom es = steps-HasRoom new_store es (omega arith)

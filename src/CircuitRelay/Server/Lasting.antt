-- ===== src/CircuitRelay/Server/Lasting.antt =====
-- packages/transport-circuit-relay-v2/src/server: how long a reservation lasts
use Prim.Native.String.{String}
use js_libp2p.Base.{
  ℕ, ◌+◌, ◌≡◌, refl, ap, ◌∙◌, false, Option, some, List, ◌∷◌, if◌then◌else◌, string_eq, nat_eq, All,
}
use js_libp2p.Base.Map
use js_libp2p.Base.Map.{Map}
use js_libp2p.CircuitRelay.ReservationStore.{Limit, ReservationStore, StoreInit, new_store}
use js_libp2p.CircuitRelay.Server.{
  Components, Connection, reserve_message, connect, answered, confirmed, relayed, responds,
  permission_denied, ok_status, on_hop, handle_reserve, handle_connect, connect_to, relay_for,
  relay_to_first, relay_over,
}
use js_libp2p.CircuitRelay.Server.Steps.{Step, run}
use js_libp2p.CircuitRelay.Server.Timers.{IsStore, IsOwned, IsHeld}
use js_libp2p.CircuitRelay.Server.Kept.{
  Spares, IsBetween, steps-IsOwned, steps-IsHeld, request-IsStore, request-IsOwned,
  confirmed-IsHeld,
}

module _ {A C : Type 0} (env : Components A C) (init : StoreInit) where
  new_store-IsStore : IsStore (new_store {A = A})
  unfolding new_store Map.get
  new_store-IsStore = record { fresh = λ n k. refl; linked = λ p r g. cc g }

  new_store-IsOwned : (p : String) → IsOwned (new_store {A = A}) p
  unfolding new_store Map.get
  new_store-IsOwned p n d g = cc g

  -- The connection that is relayed, with a limit.
  pub record IsRelayed (k : C) (now : ℕ) (source : Connection A) (p : String)
      (s : ReservationStore A) : Type 0 where
    pub limit : Option Limit
    pub is_answer : (on_hop env init now source (connect (some p)) s).0 ≡ relayed k limit

  held-IsRelayed :
      (p : String) (d now : ℕ) (source : Connection A) (k : C) (ks : List C)
      (s : ReservationStore A)
      → env.has_circuit source.remote_addr ≡ false
      → env.denies_relayed source.remote_peer p ≡ false
      → env.connections_to p ≡ k ∷ ks
      → env.stop_answer k ≡ responds (some ok_status)
      → IsHeld s p d
      → IsRelayed k now source p s
  unfolding on_hop handle_connect
  held-IsRelayed p d now source k ks s e f g a h = record {
    limit = h.reservation.limit;
    is_answer =
        ap (λ b. if b then answered permission_denied else connect_to env source s (some p)) e
        ∙ ap (relay_for env source.remote_peer p) h.found
        ∙ ap
            (λ b.
              if b
              then answered permission_denied
              else relay_to_first env h.reservation.limit (env.connections_to p))
            f
        ∙ ap (relay_to_first env h.reservation.limit) g
        ∙ ap (relay_over env k h.reservation.limit) a;
  }

  -- Where the relay never stops and never fails to confirm a reservation of `p`, and answers a request of `p`
  -- at `t` with a confirmation: up to `reservationTtl` later, after any other requests, failures and timers,
  -- every connection to `p` that a direct peer asks for is relayed, if the gater does not deny it, there is a
  -- connection to `p` and `p` answers with OK.
  pub confirmed-IsRelayed :
      (es : List (Step A)) (t x : ℕ) (c : Connection A) (fs : List (Step A)) (now : ℕ)
      (source : Connection A) (k : C) (ks : List C)
      → All (Spares c.remote_peer) es
      → (on_hop env init t c reserve_message (run env init new_store es)).0 ≡ confirmed x
      → All (Spares c.remote_peer) fs
      → All (IsBetween t (t + init.reservation_ttl)) fs
      → env.has_circuit source.remote_addr ≡ false
      → env.denies_relayed source.remote_peer c.remote_peer ≡ false
      → env.connections_to c.remote_peer ≡ k ∷ ks
      → env.stop_answer k ≡ responds (some ok_status)
      → IsRelayed k now source c.remote_peer
          (run env init (on_hop env init t c reserve_message (run env init new_store es)).1 fs)
  unfolding on_hop
  confirmed-IsRelayed es t x c fs now source k ks v a w b e f g o =
      let s = run env init new_store es in
      let (h, own) =
        steps-IsOwned env init c.remote_peer new_store es v new_store-IsStore
          (new_store-IsOwned c.remote_peer) in
      held-IsRelayed c.remote_peer (t + init.reservation_ttl) now source k ks
        (run env init (handle_reserve env init t c s).1 fs) e f g o
        (steps-IsHeld env init c.remote_peer t (handle_reserve env init t c s).1 fs w b
          (request-IsStore env init t c s h) (request-IsOwned env init c.remote_peer t c s h own)
          (confirmed-IsHeld env init t x c s h a))

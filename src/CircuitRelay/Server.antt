-- ===== src/CircuitRelay/Server.antt =====
-- packages/transport-circuit-relay-v2/src/server/index.ts
-- The addresses' matchers, the connection gater and the connections are the environment's. The tags of the
-- peer store, the signing of the voucher and the messages' bytes are left out.
pub mod Steps
pub mod Timers
pub mod Effects
pub mod Kept
pub mod Lasting
use Prim.Native.String.{String}
use js_libp2p.Base.{
  ℕ, Bool, true, false, Option, none, some, List, [], ◌∷◌, if◌then◌else◌, string_eq,
}
use js_libp2p.Base.Map
use js_libp2p.Base.Map.{Map}
use js_libp2p.CircuitRelay.ReservationStore.{
  Limit, RelayReservation, ReservationStore, StoreInit, Reserved, reservation_refused, ok, reserve,
}

pub data Status : Type 0 where
  unused_status ok_status reservation_refused_status resource_limit_exceeded permission_denied
        connection_failed :
      Status
  no_reservation malformed_message unexpected_message : Status

pub record Connection (A : Type 0) : Type 0 where
  pub remote_peer : String
  pub remote_addr : A

-- What comes of `stopHop`: opening the stream or writing to it throws; there is no response that can be
-- read; or there is one, with a status.
pub data StopAnswer : Type 0 where
  stop_fails no_response : StopAnswer
  responds : Option Status → StopAnswer

pub record Components (A C : Type 0) : Type 0 where
  pub is_circuit : A → Bool
  pub has_circuit : A → Bool
  pub denies_reservation : String → Bool
  pub denies_relayed : String → String → Bool
  pub connections_to : String → List C
  pub stop_answer : C → StopAnswer

-- The message as it was decoded: `connect none` has no peer, or one that is not valid.
pub data HopMessage : Type 0 where
  untyped reserve_message status_message : HopMessage
  connect : Option String → HopMessage

-- What a request is answered with; a relayed connection has the limit of the reservation.
pub data Answer (C : Type 0) : Type 0 where
  answered : Status → Answer C
  confirmed : ℕ → Answer C
  relayed : C → Option Limit → Answer C

abbrev is_ok : Option Status → Bool
is_ok (some ok_status) = true
is_ok other = false

module _ {A C : Type 0} (env : Components A C) where
  abbrev reserved : Reserved → Answer C
  reserved reservation_refused = answered reservation_refused_status
  reserved (ok expire) = confirmed expire

  -- Up to the confirmation that is written.
  unfoldable pub handle_reserve :
      StoreInit → ℕ → Connection A → ReservationStore A → Answer C × ReservationStore A
  handle_reserve init now connection store =
      if env.is_circuit connection.remote_addr
      then (answered permission_denied, store)
      else if env.denies_reservation connection.remote_peer
      then (answered permission_denied, store)
      else let (result, store') =
          reserve init connection.remote_peer connection.remote_addr none now store in
        (reserved result, store')

  abbrev pub relay_over : C → Option Limit → StopAnswer → Answer C
  relay_over c limit stop_fails = answered malformed_message
  relay_over c limit no_response = answered connection_failed
  relay_over c limit (responds status) =
      if is_ok status then relayed c limit else answered connection_failed

  abbrev pub relay_to_first : Option Limit → List C → Answer C
  relay_to_first limit [] = answered no_reservation
  relay_to_first limit (c ∷ cs) = relay_over c limit (env.stop_answer c)

  abbrev pub relay_for : String → String → Option (RelayReservation A) → Answer C
  relay_for source destination none = answered no_reservation
  relay_for source destination (some reservation) =
      if env.denies_relayed source destination
      then answered permission_denied
      else relay_to_first reservation.limit (env.connections_to destination)

  abbrev pub connect_to : Connection A → ReservationStore A → Option String → Answer C
  connect_to connection store none = answered malformed_message
  connect_to connection store (some destination) =
      relay_for connection.remote_peer destination (Map.get store.reservations destination)

  unfoldable pub handle_connect : Connection A → Option String → ReservationStore A → Answer C
  handle_connect connection peer store =
      if env.has_circuit connection.remote_addr
      then answered permission_denied
      else connect_to connection store peer

  -- An exception of a handler is answered as a malformed message.
  unfoldable pub on_hop :
      StoreInit → ℕ → Connection A → HopMessage → ReservationStore A → Answer C × ReservationStore A
  on_hop init now connection untyped store = (answered malformed_message, store)
  on_hop init now connection reserve_message store = handle_reserve init now connection store
  on_hop init now connection (connect peer) store = (handle_connect connection peer store, store)
  on_hop init now connection status_message store = (answered unexpected_message, store)

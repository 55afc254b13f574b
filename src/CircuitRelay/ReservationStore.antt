-- ===== src/CircuitRelay/ReservationStore.antt =====
-- packages/transport-circuit-relay-v2/src/server/reservation-store.ts
-- The signals of the package retimeable-signal are objects with one timer each. `signals` holds those that
-- have not fired: the peer that its listener removes, which is the one that it was made for, and when the
-- timer ends; `reset` starts the timer again.
use Prim.Native.String.{String}
use js_libp2p.Base.{
  ℕ, suc, ◌+◌, ◌/◌, Bool, true, false, ◌&&◌, Option, none, some, [], if◌then◌else◌, leb, length,
  string_eq, nat_eq,
}
use js_libp2p.Base.Map
use js_libp2p.Base.Map.{Map}

pub record Limit : Type 0 where
  pub data_limit : Option ℕ
  pub duration : Option ℕ

pub record RelayReservation (A : Type 0) : Type 0 where
  pub addr : A
  pub expiry : ℕ
  pub limit : Option Limit
  pub signal : ℕ

pub record Timer : Type 0 where
  pub deadline : ℕ
  pub peer : String

pub record ReservationStore (A : Type 0) : Type 0 where
  pub reservations : Map String (RelayReservation A)
  pub signals : Map ℕ Timer
  pub next_signal : ℕ

pub record StoreInit : Type 0 where
  pub max_reservations : ℕ
  pub apply_default_limit : Bool
  pub reservation_ttl : ℕ
  pub default_duration_limit : ℕ
  pub default_data_limit : ℕ

-- The status, and the time at which the reservation expires, in seconds.
pub data Reserved : Type 0 where
  reservation_refused : Reserved
  ok : ℕ → Reserved

abbrev pub is_none : {A : Type 0} → Option A → Bool
is_none none = true
is_none (some x) = false

-- `Math.round(ms / 1000)`
abbrev pub seconds : ℕ → ℕ
seconds ms = (ms + 500) / 1000

abbrev pub checked_limit : StoreInit → Option Limit → Option Limit
checked_limit init none =
    if init.apply_default_limit
    then some (record {
      data_limit = some init.default_data_limit;
      duration = some init.default_duration_limit;
    })
    else none
checked_limit init (some limit) = if init.apply_default_limit then some limit else none

abbrev pub has_ended : ℕ → Option Timer → Bool
has_ended now none = false
has_ended now (some timer) = leb timer.deadline now

module _ {A : Type 0} where
  unfoldable pub new_store : ReservationStore A
  new_store = record { reservations = []; signals = []; next_signal = 0 }

  -- A new reservation, or one that is there and is refreshed.
  abbrev pub refresh :
      StoreInit
      → String
      → A
      → Option Limit
      → ℕ
      → ReservationStore A
      → Option (RelayReservation A)
      → ReservationStore A
  refresh init peer addr limit now store none = record {
    reservations = Map.set store.reservations peer (record {
      addr = addr;
      expiry = now + init.reservation_ttl;
      limit = checked_limit init limit;
      signal = store.next_signal;
    });
    signals =
        Map.set store.signals store.next_signal
          (record { deadline = now + init.reservation_ttl; peer = peer });
    next_signal = suc store.next_signal;
  }
  refresh init peer addr limit now store (some reservation) = record store {
    reservations = Map.set store.reservations peer reservation;
    signals =
        Map.set store.signals reservation.signal
          (record { deadline = now + init.reservation_ttl; peer = peer });
  }

  abbrev pub reserve_with :
      StoreInit
      → String
      → A
      → Option Limit
      → ℕ
      → ReservationStore A
      → Option (RelayReservation A)
      → Reserved × ReservationStore A
  reserve_with init peer addr limit now store reservation =
      if leb init.max_reservations (length store.reservations) && is_none reservation
      then (reservation_refused, store)
      else (
        ok (seconds (now + init.reservation_ttl)),
        refresh init peer addr limit now store reservation,
      )

  unfoldable pub reserve :
      StoreInit → String → A → Option Limit → ℕ → ReservationStore A → Reserved × ReservationStore A
  reserve init peer addr limit now store =
      reserve_with init peer addr limit now store (Map.get store.reservations peer)

  unfoldable pub remove_reservation : String → ReservationStore A → ReservationStore A
  remove_reservation peer store = record store { reservations = Map.delete store.reservations peer }

  unfoldable pub clear : ReservationStore A → ReservationStore A
  clear store = record store { reservations = [] }

  -- The listener of a signal, once its timer has ended.
  abbrev pub on_abort : ℕ → ReservationStore A → Option Timer → ReservationStore A
  on_abort n store none = store
  on_abort n store (some timer) = record store {
    reservations = Map.delete store.reservations timer.peer;
    signals = Map.delete store.signals n;
  }

  -- Timers may end late, but not early.
  unfoldable pub fire : ℕ → ℕ → ReservationStore A → ReservationStore A
  fire n now store =
      let timer = Map.get store.signals n in
      if has_ended now timer then on_abort n store timer else store

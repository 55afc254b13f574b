-- ===== src/CircuitRelay/Runs.antt =====
-- packages/transport-circuit-relay-v2/src: examples
use Prim.Native.String.{String}
use js_libp2p.Base.{
  ℕ, ◌≤◌, ◌≡◌, refl, arith, true, some, List, [], ◌∷◌, length, nat_beq, ◌==◌, string_eq, nat_eq,
}
use js_libp2p.Base.Map
use js_libp2p.CircuitRelay.ReservationStore.{
  StoreInit, new_store, reserve, remove_reservation, fire,
}
use js_libp2p.CircuitRelay.Server.{
  Components, Connection, reserve_message, connect, answered, confirmed, no_reservation, responds,
  ok_status, on_hop, handle_reserve, handle_connect,
}
use js_libp2p.CircuitRelay.Server.Steps.{
  Step, hop_step, failed_step, fire_step, step, run, run-HasRoom,
}
use js_libp2p.CircuitRelay.Server.Lasting.{IsRelayed, confirmed-IsRelayed}
use js_libp2p.CircuitRelay.Limits.{
  relay_data_limit, count_messages, counted, new_tracker, on_messages, limits-agree,
}

-- Addresses are numbers, and 0 is the one over a circuit.
abbrev example_env : Components ℕ ℕ
example_env = record {
  is_circuit = λ a. nat_beq a 0;
  has_circuit = λ a. nat_beq a 0;
  denies_reservation = λ p. p == "mallory";
  denies_relayed = λ p q. p == "mallory";
  connections_to = λ p. 7 ∷ [];
  stop_answer = λ c. responds (some ok_status);
}

abbrev example_init : StoreInit
example_init = record {
  max_reservations = 2;
  apply_default_limit = true;
  reservation_ttl = 1000;
  default_duration_limit = 120;
  default_data_limit = 1024;
}

abbrev from : String → Connection ℕ
from p = record { remote_peer = p; remote_addr = 1 }

abbrev earlier : List (Step ℕ)
earlier = hop_step 10 (from "bob") reserve_message ∷ failed_step "bob" ∷ []

abbrev later : List (Step ℕ)
later =
    hop_step 150 (from "bob") reserve_message
    ∷ hop_step 160 (from "mallory") reserve_message
    ∷ fire_step 0 1015
    ∷ []

run-HasRoom_example : length (run example_env example_init new_store earlier).reservations ≤ 2
run-HasRoom_example = run-HasRoom example_env example_init earlier

alice_confirmed :
    (on_hop example_env example_init 100
      (from "alice")
      reserve_message
      (run example_env example_init new_store earlier)).0
    ≡ confirmed 1
unfolding on_hop handle_reserve reserve run step remove_reservation new_store Map.get Map.set
    Map.delete
alice_confirmed = refl

confirmed-IsRelayed_example : IsRelayed example_env example_init 7 1050 (from "carol") "alice" (
    run example_env example_init
      (on_hop example_env example_init 100
        (from "alice")
        reserve_message
        (run example_env example_init new_store earlier)).1
      later)
confirmed-IsRelayed_example =
    confirmed-IsRelayed example_env example_init earlier 100 1 (from "alice") later 1050
      (from "carol") 7 [] (tt, (refl, tt)) alice_confirmed (tt, (tt, (tt, tt)))
      (omega arith, (omega arith, (omega arith, tt))) refl refl refl refl

limits-agree_example :
    (count_messages
        (relay_data_limit (some (record { data_limit = some 100; duration = some 5 })))
        (60 ∷ 50 ∷ [])
      ≡ some (counted 100 110))
    × ((on_messages
          (new_tracker 3 (some (record { data_limit = some 100; duration = some 5 })))
          (60 ∷ 50 ∷ [])).bytes
        ≡ some 0)
limits-agree_example = limits-agree 3 100 (some 5) (60 ∷ 50 ∷ []) refl

-- A confirmation to bob failed at first. His second reservation, of 900, is to last until 1900, but the
-- signal of the first one removes it at 1010.
stale_example :
    (on_hop example_env example_init 1020 (from "carol") (connect (some "bob")) (
      run example_env example_init new_store (
        hop_step 10 (from "bob") reserve_message
        ∷ failed_step "bob"
        ∷ hop_step 900 (from "bob") reserve_message
        ∷ fire_step 0 1010
        ∷ []))).0
    ≡ answered no_reservation
unfolding on_hop handle_reserve handle_connect reserve run step remove_reservation fire new_store
    Map.get Map.set Map.delete
stale_example = refl

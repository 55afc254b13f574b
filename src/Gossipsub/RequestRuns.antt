-- ===== src/Gossipsub/RequestRuns.antt =====
-- packages/gossipsub/src/gossipsub.ts: examples of requests
use Prim.Native.String.{String}
use js_libp2p.Base.{
  ℕ, ◌-◌, ◌≤◌, ◌≡◌, refl, true, false, some, List, [], ◌∷◌, if◌then◌else◌, All, ◌==◌, string_eq,
  bytes_eq,
}
use js_libp2p.Gossipsub.Responses
use js_libp2p.Gossipsub.Responses.{Sender, Wish, times_sent}
use js_libp2p.Gossipsub.Responses.Resent.{count_for, run-times_sent}
use js_libp2p.Gossipsub.Requests.{Call, handle_ihave}
use js_libp2p.Gossipsub.Requests.Offered.{handle_ihave-offered}
use js_libp2p.Gossipsub.Requests.Asked.{run, cleared, asked_of, run-asked}

abbrev id_str : List ℕ → String
id_str m = if m == (1 ∷ []) then "one" else if m == (2 ∷ []) then "two" else "other"

-- The message one has been seen, and there is a mesh for the topic news only.
abbrev call : String → Call
call id = record {
  id = id;
  ihave =
      record { topic_id = some "news"; message_ids = some ((1 ∷ []) ∷ (2 ∷ []) ∷ []) }
      ∷ record { topic_id = some "sports"; message_ids = some ((3 ∷ []) ∷ []) }
      ∷ [];
  is_low = false;
  in_mesh = λ t. t == "news";
  has_seen = λ s. s == "one";
  pick = λ i. 0;
}

run-asked_example :
    asked_of "alice" (run id_str cleared (call "alice" ∷ call "bob" ∷ call "alice" ∷ [])).0 ≤ 5000
run-asked_example = run-asked id_str "alice" (call "alice" ∷ call "bob" ∷ call "alice" ∷ [])

handle_ihave-offered_example :
    All
      (λ ids. All (λ m. (m == (2 ∷ [])) ≡ true) ids)
      (handle_ihave id_str (call "alice") cleared).0
handle_ihave-offered_example =
    handle_ihave-offered id_str (call "alice") (λ m. m == (2 ∷ [])) cleared
      ((refl, (refl, tt)), ((refl, tt), tt))

-- A cache with one message, for which alice has asked once.
abbrev sender : Sender String
sender = record {
  cache = record {
    gossip = 3;
    msgs =
        (
          "two",
          record {
            message = "hello";
            validated = true;
            originating_peers = [];
            iwant_counts = ("alice", 1) ∷ [];
          },
        )
        ∷ [];
    history = [];
    not_validated_count = 0;
  };
  iwant_counts = [];
}

abbrev wish : String → Wish
wish id = record { id = id; iwant = some ((2 ∷ []) ∷ (2 ∷ []) ∷ []) ∷ []; is_low = false }

run-times_sent_example :
    times_sent "alice" "two"
      (Responses.run id_str sender (wish "alice" ∷ wish "bob" ∷ wish "alice" ∷ []))
    ≤ 3 - count_for "alice" "two" sender.cache
run-times_sent_example =
    run-times_sent id_str "alice" "two" sender (wish "alice" ∷ wish "bob" ∷ wish "alice" ∷ [])

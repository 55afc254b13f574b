-- ===== src/Multistream/System.antt =====
-- packages/multistream-select/src: the two sides over a stream that keeps the order of messages
use js_libp2p.Base.{
  ◌==◌, ◌||◌, bytes_eq, ℕ, zero, suc, Bool, true, false, Option, none, some, List, [], ◌∷◌, ◌++◌,
  if◌then◌else◌,
}
use js_libp2p.Multistream.Text.{Text, Message, Utf8}
use js_libp2p.Multistream.Select.{Selection, awaits_header, awaits_response, select, select_read}
use js_libp2p.Multistream.Handle.{Handling, handling, handle_read}

-- Both sides, and the messages on their way in each direction.
pub record System : Type 0 where
  pub selection : Selection
  pub handler : Handling
  pub to_handler : List Message
  pub to_selection : List Message

-- Who reads next; a side that has ended, or has nothing to read, does nothing.
pub data Turn : Type 0 where
  select_turn handle_turn : Turn

-- The side goes on reading.
abbrev pub is_selecting : Selection → Bool
is_selecting (awaits_header p ps) = true
is_selecting (awaits_response p ps) = true
is_selecting s = false

abbrev pub is_handling : Handling → Bool
is_handling handling = true
is_handling h = false

module _ (utf8 : Utf8) (single : List ℕ → List ℕ) (protocols : List Text) where
  abbrev pub select_takes : System → List Message → System
  select_takes s [] = s
  select_takes s (message ∷ messages) =
      let (selection, out) = select_read utf8 s.selection message in
      record s { selection = selection; to_selection = messages; to_handler = s.to_handler ++ out }

  abbrev pub handle_takes : System → List Message → System
  handle_takes s [] = s
  handle_takes s (message ∷ messages) =
      let (handler, out) = handle_read utf8 single protocols s.handler message in
      record s { handler = handler; to_handler = messages; to_selection = s.to_selection ++ out }

  unfoldable pub step : System → Turn → System
  step s select_turn = if is_selecting s.selection then select_takes s s.to_selection else s
  step s handle_turn = if is_handling s.handler then handle_takes s s.to_handler else s

  unfoldable pub run : System → List Turn → System
  run s [] = s
  run s (t ∷ ts) = run (step s t) ts

-- The asking side has written its first messages, `none` where it has no protocol to ask for.
unfoldable pub start : Utf8 → List Text → Option System
start utf8 protocols = elim (select utf8 protocols) [
  | none ↦ none
  | some (selection, messages) ↦ some (record {
    selection = selection;
    handler = handling;
    to_handler = messages;
    to_selection = [];
  })
]

-- So many rounds, in each of which the other side reads first.
unfoldable pub rounds : ℕ → List Turn
rounds zero = []
rounds (suc n) = handle_turn ∷ select_turn ∷ rounds n

-- One of the texts of a list is this one.
unfoldable pub offers : List Text → Text → Bool
offers [] t = false
offers (p ∷ ps) t = p == t || offers ps t

-- The protocol that the two are to agree on.
unfoldable pub first_supported : List Text → List Text → Option Text
first_supported protocols [] = none
first_supported protocols (p ∷ ps) =
    let rest = first_supported protocols ps in if offers protocols p then some p else rest

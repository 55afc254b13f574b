-- ===== src/Multistream/Select.antt =====
-- packages/multistream-select/src/select.ts: the side that asks for a protocol
use js_libp2p.Base.{Option, none, some, List, [], ◌∷◌, if◌then◌else◌, ◌==◌, bytes_eq}
use js_libp2p.Multistream.Text.{Text, Message, Utf8, protocol_id, read_string, line}

-- Where `select` waits, with the protocol that was written last and those behind it, and how it ends.
-- `unsupported` is the UnsupportedProtocolError, `broken` an error of the stream or of a message.
pub data Selection : Type 0 where
  awaits_header awaits_response : Text → List Text → Selection
  selected : Text → Selection
  unsupported broken : Selection

module _ (utf8 : Utf8) where
  -- `none`: at least one protocol must be specified.
  unfoldable pub select : List Text → Option (Selection × List Message)
  select [] = none
  select (protocol ∷ protocols) =
      some (awaits_header protocol protocols, line utf8 protocol_id ∷ line utf8 protocol ∷ [])

  -- The next round of the loop.
  abbrev pub next_round : List Text → Selection × List Message
  next_round [] = (unsupported, [])
  next_round (protocol ∷ protocols) = (awaits_response protocol protocols, line utf8 protocol ∷ [])

  abbrev pub on_header : Text → List Text → Option Text → Selection × List Message
  on_header protocol protocols none = (broken, [])
  on_header protocol protocols (some response) =
      if response == protocol_id
      then (awaits_response protocol protocols, [])
      else (unsupported, [])

  abbrev pub on_response : Text → List Text → Option Text → Selection × List Message
  on_response protocol protocols none = (broken, [])
  on_response protocol protocols (some response) =
      if response == protocol then (selected protocol, []) else next_round protocols

  -- What `select` does with a message that it reads.
  unfoldable pub select_read : Selection → Message → Selection × List Message
  select_read (awaits_header p ps) message = on_header p ps (read_string utf8 message)
  select_read (awaits_response p ps) message = on_response p ps (read_string utf8 message)
  select_read s message = (s, [])

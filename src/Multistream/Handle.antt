-- ===== src/Multistream/Handle.antt =====
-- packages/multistream-select/src/handle.ts: the side that has protocols to offer
use mathlib.Core.List.{flat_map}
use js_libp2p.Base.{
  ℕ, Bool, true, false, Option, none, some, List, [], ◌∷◌, ◌++◌, if◌then◌else◌, ◌==◌, bytes_eq,
}
use js_libp2p.Multistream.Text.{Text, Message, Utf8, protocol_id, ls, na, read_string, line}

-- `handling` goes on reading.
pub data Handling : Type 0 where
  handling : Handling
  handled : Text → Handling
  failed : Handling

-- `protocols.includes(protocol)`
abbrev pub includes : List Text → Text → Bool
includes [] t = false
includes (p ∷ ps) t = if p == t then true else includes ps t

-- `single` is the function of it-length-prefixed that puts the length before a message.
module _ (utf8 : Utf8) (single : List ℕ → List ℕ) where
  -- The answer to `ls`.
  unfoldable pub listing : List Text → Message
  listing protocols = flat_map (λ p. single (line utf8 p)) protocols ++ utf8.from_string (10 ∷ [])

  abbrev pub on_text : List Text → Option Text → Handling × List Message
  on_text protocols none = (failed, [])
  on_text protocols (some protocol) =
      if protocol == protocol_id
      then (handling, line utf8 protocol_id ∷ [])
      else if includes protocols protocol
      then (handled protocol, line utf8 protocol ∷ [])
      else if protocol == ls
      then (handling, listing protocols ∷ [])
      else (handling, line utf8 na ∷ [])

  -- One round of the loop, with the message that it reads.
  unfoldable pub handle_read : List Text → Handling → Message → Handling × List Message
  handle_read protocols handling message = on_text protocols (read_string utf8 message)
  handle_read protocols h message = (h, [])

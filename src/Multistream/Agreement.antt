-- ===== src/Multistream/Agreement.antt =====
-- packages/multistream-select/src: what the two sides have agreed on, in any order of their turns
use mathlib.Core.Option.{some_inj}
use js_libp2p.Base.{
  inl, inr, Bool-cases, ℕ, ◌≡◌, refl, ap, sym, subst, ◌∙◌, Bool, true, false, Option, none, some,
  List, [], ◌∷◌, if◌then◌else◌, ◌==◌, ==_refl, bytes_eq, All, arith, if_both,
}
use js_libp2p.Multistream.Text.{
  Text, Message, Utf8, protocol_id, ls, na, line, read_string, IsLine, read_string-line,
  protocol_id-IsLine, na-IsLine,
}
use js_libp2p.Multistream.Select.{
  Selection, awaits_header, awaits_response, selected, unsupported, broken, select_read, next_round,
  on_header, on_response, select,
}
use js_libp2p.Multistream.Handle.{
  Handling, handling, handled, failed, handle_read, includes, on_text, listing,
}
use js_libp2p.Multistream.System.{
  System, Turn, select_turn, handle_turn, step, run, first_supported, offers, start, is_handling,
}

-- A protocol that the messages of the negotiation itself are not mistaken for.
pub record IsProtocol (utf8 : Utf8) (p : Text) : Type 0 where
  pub is_line : IsLine utf8 p
  pub is_not_header : (p == protocol_id) ≡ false
  pub is_not_ls : (p == ls) ≡ false
  pub is_not_na : (na == p) ≡ false

-- What each side has come to, where the two are to agree on the target.
abbrev pub SelectionIsSound : Option Text → Handling → Selection → Type 0
SelectionIsSound target h (selected q) = (target ≡ some q) × (h ≡ handled q)
SelectionIsSound target h unsupported = target ≡ none
SelectionIsSound target h broken = ⊥
SelectionIsSound target h s = Unit {0}

abbrev pub HandlerIsSound : Option Text → Handling → Type 0
HandlerIsSound target (handled q) = target ≡ some q
HandlerIsSound target failed = ⊥
HandlerIsSound target handling = Unit {0}

module _ (utf8 : Utf8) (single : List ℕ → List ℕ) (supported : List Text) where
  abbrev pub answer : Text → Message
  answer p = if includes supported p then line utf8 p else line utf8 na

  abbrev pub handler_after : Text → Handling
  handler_after p = if includes supported p then handled p else handling

  pub handle_read-header :
      handle_read utf8 single supported handling (line utf8 protocol_id)
      ≡ (handling, line utf8 protocol_id ∷ [])
  unfolding handle_read
  handle_read-header =
      ap (on_text utf8 single supported)
        (read_string-line utf8 protocol_id (protocol_id-IsLine utf8))

  pub handle_read-protocol :
      (p : Text)
      → IsProtocol utf8 p
      → handle_read utf8 single supported handling (line utf8 p) ≡ (handler_after p, answer p ∷ [])
  unfolding handle_read
  handle_read-protocol p h =
      ap (on_text utf8 single supported) (read_string-line utf8 p h.is_line)
      ∙ decided (includes supported p)
    where
      decided :
          (b : Bool)
          → ◌≡◌ {A = Handling × List Message}
              (if p == protocol_id
                then (handling, line utf8 protocol_id ∷ [])
                else if b
                then (handled p, line utf8 p ∷ [])
                else if p == ls
                then (handling, listing utf8 single supported ∷ [])
                else (handling, line utf8 na ∷ []))
              (if b then handled p else handling, (if b then line utf8 p else line utf8 na) ∷ [])
      decided true = ground (arith, h.is_not_header)
      decided false = ground (arith, h.is_not_header, h.is_not_ls)

  pub select_read-header :
      (p : Text) (ps : List Text)
      → select_read utf8 (awaits_header p ps) (line utf8 protocol_id) ≡ (awaits_response p ps, [])
  unfolding select_read
  select_read-header p ps =
      ap (on_header utf8 p ps) (read_string-line utf8 protocol_id (protocol_id-IsLine utf8))
      ∙ ground (arith, ==_refl protocol_id)

  abbrev pub after_answer : Text → List Text → Selection × List Message
  after_answer p ps = if includes supported p then (selected p, []) else next_round utf8 ps

  pub select_read-answer :
      (p : Text) (ps : List Text)
      → IsProtocol utf8 p
      → select_read utf8 (awaits_response p ps) (answer p) ≡ after_answer p ps
  unfolding select_read
  select_read-answer p ps h = decided (includes supported p)
    where
      decided :
          (b : Bool)
          → on_response utf8 p ps (read_string utf8 (if b then line utf8 p else line utf8 na))
            ≡ (if b then (selected p, []) else next_round utf8 ps)
      decided true =
          ap (on_response utf8 p ps) (read_string-line utf8 p h.is_line) ∙ ground (arith, ==_refl p)
      decided false =
          ap (on_response utf8 p ps) (read_string-line utf8 na (na-IsLine utf8))
          ∙ ground (arith, h.is_not_na)

  abbrev pub state : Selection → Handling → List Message → List Message → System
  state selection handler to_handler to_selection = record {
    selection = selection;
    handler = handler;
    to_handler = to_handler;
    to_selection = to_selection;
  }

  -- The protocols that are left to ask for, the first of which is asked for now.
  abbrev IsLeft : Option Text → Text → List Text → Type 0
  IsLeft target p ps =
      All (IsProtocol utf8) (p ∷ ps) × (first_supported supported (p ∷ ps) ≡ target)

  -- The states that a negotiation goes through.
  data Stage (target : Option Text) : System → Type 0 where
    starts :
        (p : Text) (ps : List Text)
        → IsLeft target p ps
        → Stage target
            (state (awaits_header p ps) handling (line utf8 protocol_id ∷ line utf8 p ∷ []) [])
    header_sent :
        (p : Text) (ps : List Text)
        → IsLeft target p ps
        → Stage target
            (state (awaits_header p ps) handling (line utf8 p ∷ []) (line utf8 protocol_id ∷ []))
    header_and_answer_sent :
        (p : Text) (ps : List Text)
        → IsLeft target p ps
        → Stage target (
            state (awaits_header p ps) (handler_after p) [] (line utf8 protocol_id ∷ answer p ∷ []))
    asks :
        (p : Text) (ps : List Text)
        → IsLeft target p ps
        → Stage target (state (awaits_response p ps) handling (line utf8 p ∷ []) [])
    answered :
        (p : Text) (ps : List Text)
        → IsLeft target p ps
        → Stage target (state (awaits_response p ps) (handler_after p) [] (answer p ∷ []))
    agreed : (p : Text) → target ≡ some p → Stage target (state (selected p) (handled p) [] [])
    ended : target ≡ none → Stage target (state unsupported handling [] [])

  offers-includes : (ps : List Text) (p : Text) → offers ps p ≡ includes ps p
  unfolding offers
  offers-includes [] p = refl
  offers-includes (q ∷ ps) p = elim (Bool-cases (q == p)) [
    | inl e ↦ rw e refl
    | inr e ↦ rw e (offers-includes ps p)
  ]

  pub target-found :
      (target : Option Text) (p : Text) (ps : List Text)
      → first_supported supported (p ∷ ps) ≡ target
      → includes supported p ≡ true
      → target ≡ some p
  unfolding first_supported
  target-found target p ps e h =
      sym e
      ∙ ap (λ b. if b then some p else first_supported supported ps)
          (offers-includes supported p ∙ h)

  pub target-passed :
      (target : Option Text) (p : Text) (ps : List Text)
      → first_supported supported (p ∷ ps) ≡ target
      → includes supported p ≡ false
      → first_supported supported ps ≡ target
  unfolding first_supported
  target-passed target p ps e h =
      sym (
        ap (λ b. if b then some p else first_supported supported ps)
          (offers-includes supported p ∙ h))
      ∙ e

  -- After an answer was read: both are done, or the next protocol is asked for.
  Stage-after_answer :
      (target : Option Text) (p : Text) (ps : List Text) (b : Bool)
      → includes supported p ≡ b
      → IsLeft target p ps
      → Stage target (
          state
            (if b then (selected p, []) else next_round utf8 ps).0
            (if b then handled p else handling)
            (if b then (selected p, []) else next_round utf8 ps).1
            [])
  Stage-after_answer target p ps true h l = agreed p (target-found target p ps l.1 h)
  Stage-after_answer target p [] false h l =
      ended (sym (target-passed target p [] l.1 h) ∙ (unfold first_supported in refl))
  Stage-after_answer target p (q ∷ qs) false h l =
      asks q qs (l.0.1, target-passed target p (q ∷ qs) l.1 h)

  Stage-select_turn :
      (target : Option Text) {s : System}
      → Stage target s
      → Stage target (step utf8 single supported s select_turn)
  unfolding step
  Stage-select_turn target (starts p ps l) = starts p ps l
  Stage-select_turn target (header_sent p ps l) =
      subst
        (λ (x : Selection × List Message). Stage target (state x.0 handling (line utf8 p ∷ x.1) []))
        (sym (select_read-header p ps)) (asks p ps l)
  Stage-select_turn target (header_and_answer_sent p ps l) =
      subst
        (λ (x : Selection × List Message).
          Stage target (state x.0 (handler_after p) x.1 (answer p ∷ [])))
        (sym (select_read-header p ps)) (answered p ps l)
  Stage-select_turn target (asks p ps l) = asks p ps l
  Stage-select_turn target (answered p ps l) =
      subst (λ (x : Selection × List Message). Stage target (state x.0 (handler_after p) x.1 []))
        (sym (select_read-answer p ps l.0.0))
        (Stage-after_answer target p ps (includes supported p) refl l)
  Stage-select_turn target (agreed p e) = agreed p e
  Stage-select_turn target (ended e) = ended e

  -- With nothing to read, a turn changes nothing.
  idle :
      {target : Option Text} (selection : Selection) (handler : Handling) (messages : List Message)
      → Stage target (state selection handler [] messages)
      → Stage target (step utf8 single supported (state selection handler [] messages) handle_turn)
  unfolding step
  idle {target} selection handler messages p = if_both (Stage target) (is_handling handler) p p

  Stage-handle_turn :
      (target : Option Text) {s : System}
      → Stage target s
      → Stage target (step utf8 single supported s handle_turn)
  unfolding step
  Stage-handle_turn target (starts p ps l) =
      subst
        (λ (x : Handling × List Message).
          Stage target (state (awaits_header p ps) x.0 (line utf8 p ∷ []) x.1))
        (sym handle_read-header) (header_sent p ps l)
  Stage-handle_turn target (header_sent p ps l) =
      subst
        (λ (x : Handling × List Message).
          Stage target (state (awaits_header p ps) x.0 [] (line utf8 protocol_id ∷ x.1)))
        (sym (handle_read-protocol p l.0.0)) (header_and_answer_sent p ps l)
  Stage-handle_turn target (header_and_answer_sent p ps l) =
      idle (awaits_header p ps) (handler_after p) (line utf8 protocol_id ∷ answer p ∷ [])
        (header_and_answer_sent p ps l)
  Stage-handle_turn target (asks p ps l) =
      subst
        (λ (x : Handling × List Message). Stage target (state (awaits_response p ps) x.0 [] x.1))
        (sym (handle_read-protocol p l.0.0)) (answered p ps l)
  Stage-handle_turn target (answered p ps l) =
      idle (awaits_response p ps) (handler_after p) (answer p ∷ []) (answered p ps l)
  Stage-handle_turn target (agreed p e) = agreed p e
  Stage-handle_turn target (ended e) = ended e

  Stage-run :
      (target : Option Text) (s : System) (turns : List Turn)
      → Stage target s
      → Stage target (run utf8 single supported s turns)
  unfolding run
  Stage-run target s [] p = p
  Stage-run target s (select_turn ∷ turns) p =
      Stage-run target (step utf8 single supported s select_turn) turns (Stage-select_turn target p)
  Stage-run target s (handle_turn ∷ turns) p =
      Stage-run target (step utf8 single supported s handle_turn) turns (Stage-handle_turn target p)

  handler_after-IsSound :
      (target : Option Text) (p : Text) (ps : List Text)
      → IsLeft target p ps
      → HandlerIsSound target (handler_after p)
  handler_after-IsSound target p ps l = decided (includes supported p) refl
    where
      decided :
          (b : Bool)
          → includes supported p ≡ b
          → HandlerIsSound target (if b then handled p else handling)
      decided true h = target-found target p ps l.1 h
      decided false h = tt

  Stage-IsSound :
      (target : Option Text) {s : System}
      → Stage target s
      → SelectionIsSound target s.handler s.selection × HandlerIsSound target s.handler
  Stage-IsSound target (starts p ps l) = (tt, tt)
  Stage-IsSound target (header_sent p ps l) = (tt, tt)
  Stage-IsSound target (header_and_answer_sent p ps l) = (tt, handler_after-IsSound target p ps l)
  Stage-IsSound target (asks p ps l) = (tt, tt)
  Stage-IsSound target (answered p ps l) = (tt, handler_after-IsSound target p ps l)
  Stage-IsSound target (agreed p e) = ((e, refl), e)
  Stage-IsSound target (ended e) = (e, tt)

  -- Where the protocols that are asked for end in no white space, fit with the newline into the 1024
  -- bytes of a message, and are not the header of the negotiation, `ls` or `na`: at any time
  -- of a negotiation, with the turns in any order, a protocol that the asking side has selected is the
  -- first of its list that the other side offers, and the other side has handled the
  -- stream with it; where the asking side has given up, the other offers none of the list; the other
  -- side handles no other protocol than this first one; and neither side fails on a message.
  pub run-IsSound :
      (protocols : List Text) (s : System) (turns : List Turn)
      → start utf8 protocols ≡ some s
      → All (IsProtocol utf8) protocols
      → SelectionIsSound
          (first_supported supported protocols)
          (run utf8 single supported s turns).handler
          (run utf8 single supported s turns).selection
        × HandlerIsSound
            (first_supported supported protocols)
            (run utf8 single supported s turns).handler
  unfolding start select
  run-IsSound [] s turns e h = cc e
  run-IsSound (p ∷ ps) s turns e h =
      let target = first_supported supported (p ∷ ps) in
      Stage-IsSound target
        (Stage-run target s turns (subst (Stage target) (some_inj.0 e) (starts p ps (h, refl))))

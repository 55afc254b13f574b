-- ===== src/Multistream/Outcome.antt =====
-- packages/multistream-select/src: how a negotiation ends
use mathlib.Core.Option.{some_inj}
use js_libp2p.Base.{
  ℕ, suc, ◌+◌, ◌≡◌, refl, ap, sym, ◌∙◌, Bool, true, false, Option, none, some, List, [], ◌∷◌,
  if◌then◌else◌, length, bytes_eq, All, arith,
}
use js_libp2p.Multistream.Text.{Text, Message, Utf8, protocol_id, line}
use js_libp2p.Multistream.Select.{
  Selection, awaits_header, awaits_response, selected, unsupported, next_round, select,
}
use js_libp2p.Multistream.Handle.{Handling, handling, handled, includes}
use js_libp2p.Multistream.System.{
  System, Turn, select_turn, handle_turn, step, run, first_supported, start, rounds,
}
use js_libp2p.Multistream.Agreement.{
  IsProtocol, handler_after, state, handle_read-header, handle_read-protocol, select_read-header,
  select_read-answer, target-found, target-passed,
}

abbrev pub outcome : Option Text → Selection
outcome none = unsupported
outcome (some p) = selected p

module _ (utf8 : Utf8) (single : List ℕ → List ℕ) (supported : List Text) where
  run-agreed :
      (p : Text) (turns : List Turn)
      → (run utf8 single supported
          (state utf8 single supported (selected p) (handled p) [] [])
          turns).selection
        ≡ selected p
  unfolding run step
  run-agreed p [] = refl
  run-agreed p (select_turn ∷ turns) = run-agreed p turns
  run-agreed p (handle_turn ∷ turns) = run-agreed p turns

  run-ended :
      (turns : List Turn)
      → (run utf8 single supported
          (state utf8 single supported unsupported handling [] [])
          turns).selection
        ≡ unsupported
  unfolding run step
  run-ended [] = refl
  run-ended (select_turn ∷ turns) = run-ended turns
  run-ended (handle_turn ∷ turns) = run-ended turns

  -- The first round of a negotiation: the headers go to and fro.
  first_round :
      (p : Text) (ps : List Text)
      → step utf8 single supported
          (step utf8 single supported
            (state utf8 single supported
              (awaits_header p ps)
              handling
              (line utf8 protocol_id ∷ line utf8 p ∷ [])
              [])
            handle_turn)
          select_turn
        ≡ state utf8 single supported (awaits_response p ps) handling (line utf8 p ∷ []) []
  unfolding step
  first_round p ps =
      let after : Handling × List Message → System =
        λ x. state utf8 single supported (awaits_header p ps) x.0 (line utf8 p ∷ []) x.1 in
      let read : Selection × List Message → System =
        λ x. state utf8 single supported x.0 handling (line utf8 p ∷ x.1) [] in
      ap (λ x. step utf8 single supported (after x) select_turn)
        (handle_read-header utf8 single supported)
      ∙ ap read (select_read-header utf8 single supported p ps)

  -- What is left of a round in which the protocol is asked for.
  abbrev decided : Bool → Text → List Text → System
  decided b p ps =
      state utf8 single supported (if b then (selected p, []) else next_round utf8 ps).0
        (if b then handled p else handling) (if b then (selected p, []) else next_round utf8 ps).1
        []

  next_round-lem :
      (p : Text) (ps : List Text)
      → IsProtocol utf8 p
      → step utf8 single supported
          (step utf8 single supported
            (state utf8 single supported (awaits_response p ps) handling (line utf8 p ∷ []) [])
            handle_turn)
          select_turn
        ≡ decided (includes supported p) p ps
  unfolding step
  next_round-lem p ps h =
      let after : Handling × List Message → System =
        λ x. state utf8 single supported (awaits_response p ps) x.0 [] x.1 in
      let read : Selection × List Message → System =
        λ x. state utf8 single supported x.0 (handler_after utf8 single supported p) x.1 [] in
      ap (λ x. step utf8 single supported (after x) select_turn)
        (handle_read-protocol utf8 single supported p h)
      ∙ ap read (select_read-answer utf8 single supported p ps h)

  -- With the answer known, and the outcome of the protocols behind it.
  after_decided :
      (p : Text) (ps : List Text) (turns : List Turn) (b : Bool)
      → includes supported p ≡ b
      → (run utf8 single supported (decided false p ps) turns).selection
        ≡ outcome (first_supported supported ps)
      → (run utf8 single supported (decided b p ps) turns).selection
        ≡ outcome (first_supported supported (p ∷ ps))
  after_decided p ps turns true e h =
      run-agreed p turns
      ∙ sym (
          ap outcome
            (target-found utf8 single supported (first_supported supported (p ∷ ps)) p ps refl e))
  after_decided p ps turns false e h =
      h
      ∙ ap outcome
          (target-passed utf8 single supported (first_supported supported (p ∷ ps)) p ps refl e)

  -- The rounds from the one on in which p is asked for.
  run-asks :
      (ps : List Text) (p : Text)
      → All (IsProtocol utf8) (p ∷ ps)
      → (run utf8 single supported
          (state utf8 single supported (awaits_response p ps) handling (line utf8 p ∷ []) [])
          (rounds (length (p ∷ ps)))).selection
        ≡ outcome (first_supported supported (p ∷ ps))
  unfolding rounds run
  run-asks [] p h =
      ap (λ s. (run utf8 single supported s (rounds 0)).selection) (next_round-lem p [] h.0)
      ∙ after_decided p [] (rounds 0) (includes supported p) refl
          (run-ended (rounds 0) ∙ (unfold first_supported in refl))
  run-asks (q ∷ qs) p h =
      ap (λ s. (run utf8 single supported s (rounds (length (q ∷ qs)))).selection)
        (next_round-lem p (q ∷ qs) h.0)
      ∙ after_decided p (q ∷ qs) (rounds (length (q ∷ qs))) (includes supported p) refl
          (run-asks qs q h.1)

  -- Where the protocols that are asked for end in no white space, fit with the newline into the 1024
  -- bytes of a message, and are not the header of the negotiation, `ls` or `na`: after one
  -- round more than it has protocols the asking side has selected the first of them that the
  -- other side offers, or has found that there is none.
  pub run-outcome :
      (protocols : List Text) (s : System)
      → start utf8 protocols ≡ some s
      → All (IsProtocol utf8) protocols
      → (run utf8 single supported s (rounds (length protocols + 1))).selection
        ≡ outcome (first_supported supported protocols)
  unfolding start select rounds run
  run-outcome [] s e h = cc e
  run-outcome (p ∷ ps) s e h =
      let n : length (p ∷ ps) + 1 ≡ suc (length (p ∷ ps)) = omega arith in
      ap (λ m. (run utf8 single supported s (rounds m)).selection) n
      ∙ ap (λ x. (run utf8 single supported x (rounds (suc (length (p ∷ ps))))).selection)
          (sym (some_inj.0 e))
      ∙ ap (λ x. (run utf8 single supported x (rounds (length (p ∷ ps)))).selection)
          (first_round p ps)
      ∙ run-asks ps p h

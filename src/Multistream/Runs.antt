-- ===== src/Multistream/Runs.antt =====
-- A negotiation, and the theorems on it at concrete inputs.
use js_libp2p.Base.{ℕ, ◌≡◌, ◌+◌, refl, some, List, [], ◌∷◌, length, arith}
use js_libp2p.Multistream.Text.{Text, Utf8, trim_end, line, protocol_id}
use js_libp2p.Multistream.Select.{select, awaits_header}
use js_libp2p.Multistream.Handle.{handling}
use js_libp2p.Multistream.System.{
  System, Turn, select_turn, handle_turn, run, rounds, start, first_supported,
}
use js_libp2p.Multistream.Agreement.{IsProtocol, SelectionIsSound, HandlerIsSound, run-IsSound}
use js_libp2p.Multistream.Outcome.{outcome, run-outcome}

-- Texts of ASCII characters.
abbrev ascii : Utf8
ascii = record {
  from_string = λ t. t;
  to_string = λ bs. bs;
  to_string-from_string = λ t. refl;
  from_string-ascii = λ t h. refl;
  from_string-newline = λ t. refl;
}

abbrev prefixed : List ℕ → List ℕ
prefixed bs = length bs ∷ bs

abbrev yamux : Text
yamux = b'/' ∷ b'y' ∷ []

abbrev mplex : Text
mplex = b'/' ∷ b'm' ∷ []

yamux-IsProtocol : IsProtocol ascii yamux
unfolding trim_end line
yamux-IsProtocol = record {
  is_line = record { is_trimmed = refl; fits = omega arith };
  is_not_header = refl;
  is_not_ls = refl;
  is_not_na = refl;
}

mplex-IsProtocol : IsProtocol ascii mplex
unfolding trim_end line
mplex-IsProtocol = record {
  is_line = record { is_trimmed = refl; fits = omega arith };
  is_not_header = refl;
  is_not_ls = refl;
  is_not_na = refl;
}

-- Yamux is asked for first, mplex alone is offered.
abbrev asked : List Text
asked = yamux ∷ mplex ∷ []

abbrev offered : List Text
offered = mplex ∷ []

abbrev opened : System
opened = record {
  selection = awaits_header yamux (mplex ∷ []);
  handler = handling;
  to_handler = line ascii protocol_id ∷ line ascii yamux ∷ [];
  to_selection = [];
}

start-opened : start ascii asked ≡ some opened
unfolding start select
start-opened = refl

abbrev turns : List Turn
turns = handle_turn ∷ handle_turn ∷ select_turn ∷ select_turn ∷ handle_turn ∷ select_turn ∷ []

run-IsSound_example :
    SelectionIsSound
      (first_supported offered asked)
      (run ascii prefixed offered opened turns).handler
      (run ascii prefixed offered opened turns).selection
    × HandlerIsSound
        (first_supported offered asked)
        (run ascii prefixed offered opened turns).handler
run-IsSound_example =
    run-IsSound ascii prefixed offered asked opened turns start-opened
      (yamux-IsProtocol, (mplex-IsProtocol, tt))

run-outcome_example :
    (run ascii prefixed offered opened (rounds (length asked + 1))).selection
    ≡ outcome (first_supported offered asked)
run-outcome_example =
    run-outcome ascii prefixed offered asked opened start-opened
      (yamux-IsProtocol, (mplex-IsProtocol, tt))

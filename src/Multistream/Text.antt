-- ===== src/Multistream/Text.antt =====
-- packages/multistream-select/src/multistream.ts and constants.ts: protocols as lines of text
use js_libp2p.Base.{
  ℕ, ◌≤◌, ◌≡◌, refl, ap, sym, subst, ◌∙◌, Bool, true, false, ◌&&◌, ◌||◌, Option, none, some, List,
  [], ◌∷◌, ◌++◌, if◌then◌else◌, leb, nat_beq, length, arith, All, ◌<◌,
}

abbrev pub Text : Type 0
Text = List ℕ

abbrev pub Message : Type 0
Message = List ℕ

-- UTF-8, of the package uint8arrays.
pub record Utf8 : Type 0 where
  pub from_string : Text → List ℕ
  pub to_string : List ℕ → Text
  pub to_string-from_string : (t : Text) → to_string (from_string t) ≡ t
  pub from_string-ascii : (t : Text) → All (λ c. c < 128) t → from_string t ≡ t
  pub from_string-newline : (t : Text) → from_string (t ++ (10 ∷ [])) ≡ from_string t ++ (10 ∷ [])

-- '/multistream/1.0.0'
abbrev pub protocol_id : Text
protocol_id =
    b'/' ∷ b'm' ∷ b'u' ∷ b'l' ∷ b't' ∷ b'i' ∷ b's' ∷ b't' ∷ b'r' ∷ b'e' ∷ b'a' ∷ b'm' ∷ b'/' ∷ b'1'
    ∷ b'.' ∷ b'0' ∷ b'.' ∷ b'0' ∷ []

abbrev pub ls : Text
ls = b'l' ∷ b's' ∷ []

abbrev pub na : Text
na = b'n' ∷ b'a' ∷ []

abbrev pub max_protocol_length : ℕ
max_protocol_length = 1024

-- The white space and line ends that `trimEnd` takes off.
abbrev pub is_space : ℕ → Bool
is_space c =
    (leb 9 c && leb c 13)
    || nat_beq c 32
    || nat_beq c 160
    || nat_beq c 5760
    || (leb 8192 c && leb c 8202)
    || nat_beq c 8232
    || nat_beq c 8233
    || nat_beq c 8239
    || nat_beq c 8287
    || nat_beq c 12288
    || nat_beq c 65279

abbrev pub is_empty : Text → Bool
is_empty [] = true
is_empty (c ∷ cs) = false

unfoldable pub trim_end : Text → Text
trim_end [] = []
trim_end (c ∷ cs) = let rest = trim_end cs in if is_empty rest && is_space c then [] else c ∷ rest

abbrev pub ends_in_newline : List ℕ → Bool
ends_in_newline [] = false
ends_in_newline (b ∷ []) = nat_beq b 10
ends_in_newline (b ∷ c ∷ bs) = ends_in_newline (c ∷ bs)

module _ (utf8 : Utf8) where
  -- `none` where the message is too long for the stream, or an InvalidMessageError.
  unfoldable pub read_string : Message → Option Text
  read_string message =
      if leb (length message) max_protocol_length && ends_in_newline message
      then some (trim_end (utf8.to_string message))
      else none

  unfoldable pub line : Text → Message
  line t = utf8.from_string (t ++ (10 ∷ []))

-- A text that can be sent: without white space at its end, and not too long.
pub record IsLine (utf8 : Utf8) (t : Text) : Type 0 where
  pub is_trimmed : trim_end t ≡ t
  pub fits : length (line utf8 t) ≤ max_protocol_length

ends_in_newline-append : (bs : List ℕ) → ends_in_newline (bs ++ (10 ∷ [])) ≡ true
ends_in_newline-append [] = refl
ends_in_newline-append (b ∷ []) = refl
ends_in_newline-append (b ∷ c ∷ bs) = ends_in_newline-append (c ∷ bs)

trim_end-append : (t : Text) → trim_end (t ++ (10 ∷ [])) ≡ trim_end t
unfolding trim_end
trim_end-append [] = refl
trim_end-append (c ∷ cs) = ground (arith, trim_end-append cs)

-- A line is read as it was written.
pub read_string-line :
    (utf8 : Utf8) (t : Text) → IsLine utf8 t → read_string utf8 (line utf8 t) ≡ some t
unfolding read_string line
read_string-line utf8 t h =
    let text : trim_end (utf8.to_string (line utf8 t)) ≡ t =
      ap trim_end (utf8.to_string-from_string (t ++ (10 ∷ [])))
      ∙ trim_end-append t
      ∙ h.is_trimmed in
    let newline : ends_in_newline (line utf8 t) ≡ true =
      ap ends_in_newline (utf8.from_string-newline t)
      ∙ ends_in_newline-append (utf8.from_string t) in
    let short : length (line utf8 t) ≤ max_protocol_length = h.fits in
    ground (arith, text, newline, short)

pub protocol_id-IsLine : (utf8 : Utf8) → IsLine utf8 protocol_id
unfolding trim_end line
protocol_id-IsLine utf8 = record {
  is_trimmed = refl;
  fits =
      subst (λ bs. length bs ≤ max_protocol_length)
        (sym (utf8.from_string-ascii (protocol_id ++ (10 ∷ [])) (omega arith))) (omega arith);
}

pub na-IsLine : (utf8 : Utf8) → IsLine utf8 na
unfolding trim_end line
na-IsLine utf8 = record {
  is_trimmed = refl;
  fits =
      subst (λ bs. length bs ≤ max_protocol_length)
        (sym (utf8.from_string-ascii (na ++ (10 ∷ [])) (omega arith))) (omega arith);
}

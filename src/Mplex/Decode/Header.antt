-- ===== src/Mplex/Decode/Header.antt =====
-- `readVarInt` and `_decodeHeader` of decode.ts on a buffer that grows.
use js_libp2p.Base.{
  ℕ, ◌+◌, ◌≤◌, ◌<◌, ◌≡◌, ◌≢◌, some, List, [], ◌∷◌, ◌++◌, arith, length, drop, length-drop,
  drop-append, Option-cases, inl, inr,
}
use js_libp2p.Mplex.Decode.{
  could_not_decode, ok, err, MessageHeader, number, group, read_loop, read_var_int, decode_header,
}

read_loop_bounds :
    (bs : List ℕ) (res shift counter v n : ℕ)
    → read_loop bs res shift counter ≡ some (v, n)
    → (counter < n) × (n ≤ counter + length bs)
unfolding read_loop
read_loop_bounds [] res shift counter v n h = ground arith
read_loop_bounds (b ∷ bs) res shift counter v n h =
    ground (arith, read_loop_bounds bs (number (res + group b shift)) (shift + 7) (counter + 1) v n)

read_loop-append :
    (bs more : List ℕ) (res shift counter v n : ℕ)
    → read_loop bs res shift counter ≡ some (v, n)
    → read_loop (bs ++ more) res shift counter ≡ some (v, n)
unfolding read_loop
read_loop-append [] more res shift counter v n h = ground arith
read_loop-append (b ∷ bs) more res shift counter v n h =
    ground
      (arith, read_loop-append bs more (number (res + group b shift)) (shift + 7) (counter + 1) v n)

pub read_var_int_bounds :
    (bs : List ℕ) (v n : ℕ) → read_var_int bs ≡ some (v, n) → (0 < n) × (n ≤ length bs)
unfolding read_var_int
read_var_int_bounds bs v n h = omega (arith, read_loop_bounds bs 0 0 0 v n h)

pub read_var_int-append :
    (bs more : List ℕ) (v n : ℕ)
    → read_var_int bs ≡ some (v, n)
    → read_var_int (bs ++ more) ≡ some (v, n)
unfolding read_var_int
read_var_int-append bs more v n h = read_loop-append bs more 0 0 0 v n h

-- More bytes do not change the header, nor an error other than a lack of bytes.
pub decode_header-append :
    (max : ℕ) (bs more : List ℕ)
    → decode_header max bs ≢ err could_not_decode
    → decode_header max (bs ++ more) ≡ decode_header max bs
unfolding decode_header
decode_header-append max bs more h = elim (Option-cases (read_var_int bs)) [
  | inl e ↦ absurd (h (rw e))
  | inr ((w, o), e) ↦ elim (Option-cases (read_var_int (drop o bs))) [
    | inl e' ↦ absurd (h (rw (e, e')))
    | inr ((l, n), e') ↦ rw (
      read_var_int-append bs more w o e,
      e,
      drop-append o bs more (read_var_int_bounds bs w o e).1,
      read_var_int-append (drop o bs) more l n e',
      e',
    )
  ]
]

-- A header lies within the bytes that it was read from, and its length within the limit.
pub decode_header_bounds :
    (max : ℕ) (bs : List ℕ) (h : MessageHeader)
    → decode_header max bs ≡ ok h
    → (0 < h.offset) × (h.offset ≤ length bs) × (h.length ≤ max)
unfolding decode_header
decode_header_bounds max bs h e = elim (Option-cases (read_var_int bs)) [
  | inl p ↦ ground arith
  | inr ((w, o), p) ↦ elim (Option-cases (read_var_int (drop o bs))) [
    | inl q ↦ ground arith
    | inr ((l, n), q) ↦ ground (
      arith,
      read_var_int_bounds bs w o p,
      read_var_int_bounds (drop o bs) l n q,
      length-drop o bs,
    )
  ]
]

-- ===== src/Mplex/Decode/ReadBack.antt =====
-- `readVarInt` of decode.ts on what uint8-varint writes.
use Prim.Native.Nat.{bit_and}
use native.Mathlib.Numerals.{towards_suc}
use js_libp2p.Base.{
  pos, ℕ, zero, suc, ◌+◌, ◌*◌, ◌/◌, ◌%◌, ◌^◌, ◌<◌, ◌≤◌, ◌≡◌, refl, ap, ◌∙◌, Bool, true, false,
  if◌then◌else◌, some, List, ◌∷◌, ◌++◌, arith, length, nat_beq, Bool-cases, inl, inr, ltb,
}
use js_libp2p.Mplex.Decode.{number, group, read_loop, read_var_int}
use js_libp2p.Mplex.Varint.{Varint, IsLeb128}

-- `b & REST` is `b % 128`, tried for every byte below `bound`.
masks : ℕ → Bool
masks zero = true
masks (suc b) = if nat_beq (bit_and b 0x7f) (b % 128) then masks b else false

masks_at : (b bound : ℕ) → b < bound → masks bound ≡ true → bit_and b 0x7f ≡ b % 128
unfolding masks
masks_at b zero below h = absurd (omega arith)
masks_at b (suc c) below h = ground (arith, masks_at b c)

masks_bytes : masks 256 ≡ true
unfolding masks
masks_bytes = refl

low_bits : (b : ℕ) → b < 256 → bit_and b 0x7f ≡ b % 128
low_bits b h = masks_at b 256 h masks_bytes

group_lem : (j b : ℕ) → j ≤ 7 → b < 256 → group b (7 * j) ≡ b % 128 * 2 ^ (7 * j)
unfolding group
group_lem zero b hj hb = rw (low_bits b hb) (omega arith)
group_lem (suc zero) b hj hb = rw (low_bits b hb) (omega arith)
group_lem (suc (suc zero)) b hj hb = rw (low_bits b hb) (omega arith)
group_lem (suc (suc (suc zero))) b hj hb = rw (low_bits b hb) (omega arith)
group_lem (suc (suc (suc (suc zero)))) b hj hb = rw (low_bits b hb) (omega arith)
group_lem (suc (suc (suc (suc (suc zero))))) b hj hb = rw (low_bits b hb) (omega arith)
group_lem (suc (suc (suc (suc (suc (suc zero)))))) b hj hb = rw (low_bits b hb) (omega arith)
group_lem (suc (suc (suc (suc (suc (suc (suc zero))))))) b hj hb = rw (low_bits b hb) (omega arith)
group_lem (suc (suc (suc (suc (suc (suc (suc (suc n)))))))) b hj hb = absurd (omega arith)

number_small : (n : ℕ) → n < 2 ^ 53 → number n ≡ n
unfolding number
number_small n h = ground arith

-- One round on a last byte `w`, and on a byte with the top bit set over the group `g`.
last_round :
    (w res j counter : ℕ) (rest : List ℕ)
    → w < 128
    → j ≤ 6
    → res + w * 2 ^ (7 * j) < 2 ^ 53
    → read_loop (w ∷ rest) res (7 * j) counter ≡ some (res + w * 2 ^ (7 * j), counter + 1)
unfolding read_loop
last_round w res j counter rest hw hj fits =
    let low : w % 128 ≡ w = omega arith in
    let g : group w (7 * j) ≡ w * 2 ^ (7 * j) =
      rw low at (group_lem j w (omega arith) (omega arith)) in
    ground (arith, g, number_small (res + w * 2 ^ (7 * j)))

inner_round :
    (g res j counter : ℕ) (rest : List ℕ)
    → g < 128
    → j ≤ 6
    → res + g * 2 ^ (7 * j) < 2 ^ 53
    → read_loop ((g + 128) ∷ rest) res (7 * j) counter
      ≡ read_loop rest (res + g * 2 ^ (7 * j)) (7 * suc j) (counter + 1)
unfolding read_loop
inner_round g res j counter rest hg hj fits =
    let low : (g + 128) % 128 ≡ g = omega arith in
    let e : group (g + 128) (7 * j) ≡ g * 2 ^ (7 * j) =
      rw low at (group_lem j (g + 128) (omega arith) (omega arith)) in
    let s : 7 * j + 7 ≡ 7 * suc j = omega arith in
    ground (arith, e, s, number_small (res + g * 2 ^ (7 * j)))

next_group : (j : ℕ) → 2 ^ (7 * suc j) ≡ 128 * 2 ^ (7 * j)
next_group j =
    let more : 7 * suc j ≡ 7 * j + 7 = omega arith in rw more (simp towards_suc (omega arith))

-- The lowest group of `w` and the rest, both shifted by `7 * j`.
split_group : (w j : ℕ) → w * 2 ^ (7 * j) ≡ w % 128 * 2 ^ (7 * j) + w / 128 * 2 ^ (7 * suc j)
split_group w j =
    let whole : w * 2 ^ (7 * j) ≡ (w / 128 * 128 + w % 128) * 2 ^ (7 * j) =
      ap (λ (n : ℕ). n * 2 ^ (7 * j)) (omega arith) in
    let high : w / 128 * 2 ^ (7 * suc j) ≡ w / 128 * (128 * 2 ^ (7 * j)) =
      ap (λ (n : ℕ). w / 128 * n) (next_group j) in
    omega (arith, whole, high)

module _ (varint : Varint) (laws : IsLeb128 varint) where
  read_loop-encode :
      (k v res j counter : ℕ) (rest : List ℕ)
      → v < 128 ^ suc k
      → v < 2 ^ 53
      → j + k ≤ 6
      → res + v * 2 ^ (7 * j) < 2 ^ 53
      → read_loop (varint.encode (pos v) ++ rest) res (7 * j) counter
        ≡ some (res + v * 2 ^ (7 * j), counter + length (varint.encode (pos v)))
  read_loop-encode zero v res j counter rest hv hb hj fits =
      rw (laws.last_byte v (omega arith))
        (last_round v res j counter rest (omega arith) (omega arith) fits)
  read_loop-encode (suc k) v res j counter rest hv hb hj fits = elim (Bool-cases (ltb v 128)) [
    | inl small ↦
        let h : v < 128 = ground arith in
        rw (laws.last_byte v h) (last_round v res j counter rest h (omega arith) fits)
    | inr large ↦
        let h : 128 ≤ v = ground arith in
        let f : res + v % 128 * 2 ^ (7 * j) + v / 128 * 2 ^ (7 * suc j) < 2 ^ 53 =
          omega (arith, split_group v j) in
        rw (laws.inner_byte v h hb) (
          inner_round (v % 128) res j counter (varint.encode (pos (v / 128)) ++ rest) (omega arith)
            (omega arith) (omega arith)
          ∙ read_loop-encode k (v / 128) (res + v % 128 * 2 ^ (7 * j)) (suc j) (counter + 1) rest
              (omega arith) (omega arith) (omega arith) f
          ∙ ground (arith, split_group v j))
  ]

  pub read_var_int-encode :
      (v : ℕ) (rest : List ℕ)
      → v < 2 ^ 49
      → read_var_int (varint.encode (pos v) ++ rest) ≡ some (v, length (varint.encode (pos v)))
  unfolding read_var_int
  read_var_int-encode v rest h = ground (arith, read_loop-encode 6 v 0 0 0 rest)

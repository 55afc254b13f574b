-- ===== src/Mplex/Encode/Memory.antt =====
-- Bytes written to a pool of encode.ts and read back.
use mathlib.Core.Path.{ap₂}
use js_libp2p.Base.{
  ℕ, zero, suc, ◌+◌, ◌<◌, ◌≤◌, ◌≡◌, ◌≢◌, refl, ap, ◌∙◌, List, [], ◌∷◌, ◌++◌, ◌⊎◌, inl, inr, arith,
  length,
}
use js_libp2p.Mplex.Encode.{Memory, poke, put_bytes, peek}

pub put_bytes_other :
    (m : Memory) (p i : ℕ) (bs : List ℕ) (q j : ℕ)
    → (q ≢ p) ⊎ ((j < i) ⊎ (i + length bs ≤ j))
    → put_bytes m p i bs q j ≡ m q j
unfolding put_bytes
put_bytes_other m p i [] q j h = refl
put_bytes_other m p i (b ∷ bs) q j h =
    ground (arith, put_bytes_other (poke m p i b) p (i + 1) bs q j)

peek-put_bytes :
    (m : Memory) (p i : ℕ) (bs : List ℕ) → peek (put_bytes m p i bs) p i (length bs) ≡ bs
unfolding put_bytes peek
peek-put_bytes m p i [] = refl
peek-put_bytes m p i (b ∷ bs) = ground (
  arith,
  peek-put_bytes (poke m p i b) p (i + 1) bs,
  put_bytes_other (poke m p i b) p (i + 1) bs p i,
)

pub peek_agree :
    (m m' : Memory) (p i n : ℕ)
    → ((j : ℕ) → i ≤ j → j < i + n → m p j ≡ m' p j)
    → peek m p i n ≡ peek m' p i n
unfolding peek
peek_agree m m' p i zero h = refl
peek_agree m m' p i (suc n) h = ground (
  arith,
  h i (omega arith) (omega arith),
  peek_agree m m' p (i + 1) n (λ j a b. h j (omega arith) (omega arith)),
)

peek-append : (m : Memory) (p i a b : ℕ) → peek m p i (a + b) ≡ peek m p i a ++ peek m p (i + a) b
unfolding peek
peek-append m p i zero b =
    let e : zero + b ≡ b = omega arith in let f : i + zero ≡ i = omega arith in rw (e, f)
peek-append m p i (suc a) b =
    let e : suc a + b ≡ suc (a + b) = omega arith in
    let f : i + suc a ≡ i + 1 + a = omega arith in
    rw (e, f) (ap (◌∷◌ (m p i)) (peek-append m p (i + 1) a b))

-- Two writes one behind the other.
pub peek-put_two :
    (m : Memory) (p i : ℕ) (a b : List ℕ)
    → peek (put_bytes (put_bytes m p i a) p (i + length a) b) p i (length a + length b) ≡ a ++ b
peek-put_two m p i a b =
    let m' : Memory = put_bytes (put_bytes m p i a) p (i + length a) b in
    peek-append m' p i (length a) (length b)
    ∙ ap₂ ◌++◌
        (peek_agree m' (put_bytes m p i a) p i (length a)
            (λ j l h. put_bytes_other (put_bytes m p i a) p (i + length a) b p j (inr (inl h)))
          ∙ peek-put_bytes m p i a)
        (peek-put_bytes (put_bytes m p i a) p (i + length a) b)

-- ===== src/Utils/RateLimiter/Keys.antt =====
-- packages/utils/src/rate-limiter.ts, getKey and parseKey
use js_libp2p.Base.{
  ℕ, suc, ◌≡◌, ◌≢◌, ap, sym, ◌∙◌, subst, List, [], ◌∷◌, ◌++◌, arith, length, drop_length-append,
  bytes_eq, ◌==◌,
}
use js_libp2p.Utils.RateLimiter.{get_key, parse_key, colon}

cancel_left : (p a b : List ℕ) → p ++ a ≡ p ++ b → a ≡ b
cancel_left [] a b h = h
cancel_left (x ∷ p) a b h = cancel_left p a b (grind arith)

get_key-prefix : (x : ℕ) (p k : List ℕ) → get_key (x ∷ p) k ≡ (x ∷ p) ++ (colon ∷ k)
unfolding get_key
get_key-prefix x p k = ground arith

-- Two keys that share a storage key are the same key.
pub get_key-injective : (p k j : List ℕ) → get_key p k ≡ get_key p j → k ≡ j
unfolding get_key
get_key-injective [] k j h = h
get_key-injective (x ∷ p) k j h =
    let g = sym (get_key-prefix x p k) ∙ h ∙ get_key-prefix x p j in
    let e = cancel_left (x ∷ p) (colon ∷ k) (colon ∷ j) g in grind arith

pub beq-get_key : (p k j : List ℕ) → (get_key p k == get_key p j) ≡ (k == j)
beq-get_key p k j =
    let e = bytes_eq.same_iff (get_key p k) (get_key p j) in
    let f = bytes_eq.same_iff k j in let inj = get_key-injective p k j in grind arith

longer : (k : List ℕ) → colon ∷ k ≢ k
longer k h = let e : suc (length k) ≡ length k = ap length h in omega arith

-- What `parseKey` gives back for a key of `getKey`, under a prefix: the key with the separator
-- before it, and never the key itself.
pub parse_key-get_key :
    (x : ℕ) (p k : List ℕ)
    → (parse_key (x ∷ p) (get_key (x ∷ p) k) ≡ colon ∷ k)
      × (parse_key (x ∷ p) (get_key (x ∷ p) k) ≢ k)
unfolding parse_key
parse_key-get_key x p k =
    let e =
      ap (parse_key (x ∷ p)) (get_key-prefix x p k) ∙ drop_length-append (x ∷ p) (colon ∷ k) in
    (e, λ h. longer k (subst (λ z. z ≡ k) e h))

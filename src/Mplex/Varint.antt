-- ===== src/Mplex/Varint.antt =====
-- The package uint8-varint, which encode.ts of packages/stream-multiplexer-mplex/src calls.
use js_libp2p.Base.{
  ℤ, pos, Bool-cases, inl, inr, ltb, arith, zero, suc, ℕ, ◌+◌, ◌/◌, ◌%◌, ◌^◌, ◌<◌, ◌≤◌, ◌≡◌, List,
  [], ◌∷◌, length,
}

-- The package uint8-varint: the bytes that `encode` writes, and `encodingLength`.
pub record Varint : Type 0 where
  pub encode : ℤ → List ℕ
  pub encoding_length : ℤ → ℕ

-- It documents unsigned LEB128: seven bits to a byte, lowest first, the top bit on all but the last.
pub record IsLeb128 (varint : Varint) : Type 0 where
  pub last_byte : (v : ℕ) → v < 128 → varint.encode (pos v) ≡ v ∷ []
  pub inner_byte :
      (v : ℕ)
      → 128 ≤ v
      → v < 2 ^ 53
      → varint.encode (pos v) ≡ (v % 128 + 128) ∷ varint.encode (pos (v / 128))
  pub same_length :
      (v : ℕ) → v < 2 ^ 53 → varint.encoding_length (pos v) ≡ length (varint.encode (pos v))

-- Seven bits to a byte.
pub length-encode :
    (varint : Varint) (laws : IsLeb128 varint) (k v : ℕ)
    → v < 128 ^ suc k
    → v < 2 ^ 53
    → length (varint.encode (pos v)) ≤ suc k
length-encode varint laws zero v h b = rw (laws.last_byte v (omega arith)) (omega arith)
length-encode varint laws (suc k) v h b = elim (Bool-cases (ltb v 128)) [
  | inl small ↦ rw (laws.last_byte v (ground arith)) (omega arith)
  | inr large ↦
      rw (laws.inner_byte v (ground arith) b)
        (omega (arith, length-encode varint laws k (v / 128) (omega arith) (omega arith)))
]

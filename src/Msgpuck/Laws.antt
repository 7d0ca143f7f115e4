-- ===== src/Msgpuck/Laws.antt =====
-- What the sources rely on of msgpuck: rules of the MessagePack format.
use cpp2tnt.Prelude.{ℕ, ◌≤◌, ◌<◌, ◌≡◌, ◌⊎◌, [], ◌∷◌, ◌++◌, Bytes, length, u16_mod, u32_mod}
use cpp2tnt.Msgpuck.{Msgpuck, MpType, uint}

-- A 32-bit unsigned integer behind the byte 0xce, in network order.
pub record Uint32Laws (m : Msgpuck) : Type 0 where
  pub length_u32 : (n : ℕ) → length (m.store_u32 n) ≡ 4
  pub type_u32 : m.type_of 0xce ≡ uint
  pub decode_u32 :
      (n : ℕ) (rest : Bytes)
      → n < u32_mod
      → m.decode_uint (0xce ∷ (m.store_u32 n ++ rest)) ≡ (n, rest)

-- The header of a container in one of its three forms: one byte, a byte with 16 bits behind it, and
-- a byte with 32 bits behind it. Of the long forms also a number that has a shorter form is read.
pub record HeaderLaws (m : Msgpuck) (t : MpType) (encode : ℕ → Bytes) (sizeof : ℕ → ℕ)
    (decode : Bytes → ℕ × Bytes) : Type 0 where
  pub sizes : (n : ℕ) → (sizeof n ≡ 1) ⊎ (sizeof n ≡ 3) ⊎ (sizeof n ≡ 5)
  pub mono : (k n : ℕ) → k ≤ n → sizeof k ≤ sizeof n
  pub fits_16 : (n : ℕ) → sizeof n ≤ 3 → n < u16_mod
  pub short :
      (n : ℕ)
      → sizeof n ≡ 1
      → (b : ℕ) × (encode n ≡ b ∷ [])
        × (m.type_of b ≡ t)
        × ((rest : Bytes) → decode (b ∷ rest) ≡ (n, rest))
  pub with_16 :
      (n : ℕ)
      → sizeof n ≡ 3
      → (b : ℕ) × (encode n ≡ b ∷ m.store_u16 n)
        × (m.type_of b ≡ t)
        × ((k : ℕ) (rest : Bytes) → k < u16_mod → decode (b ∷ (m.store_u16 k ++ rest)) ≡ (k, rest))
  pub with_32 :
      (n : ℕ)
      → sizeof n ≡ 5
      → (b : ℕ) × (encode n ≡ b ∷ m.store_u32 n)
        × (m.type_of b ≡ t)
        × ((k : ℕ) (rest : Bytes) → k < u32_mod → decode (b ∷ (m.store_u32 k ++ rest)) ≡ (k, rest))
  pub length_16 : (n : ℕ) → length (m.store_u16 n) ≡ 2
  pub length_32 : (n : ℕ) → length (m.store_u32 n) ≡ 4

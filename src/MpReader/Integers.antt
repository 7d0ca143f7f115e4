-- ===== src/MpReader/Integers.antt =====
-- mp_reader.h: integers, where the reader stands before one.
use cpp2tnt.Prelude.{
  ℕ, ◌+◌, ◌≡◌, refl, ap, ◌∙◌, inl, inr, Bool, true, false, Bool-cases, Option, none, some, List,
  ◌∷◌, ◌++◌, append_assoc, Bytes, length, drop, ltb, if◌then◌else◌, arith, ℤ, pos, ◌≤ℤ◌, leb_ℤ,
  leb→le, and-eq_true, take, ◌<◌, negsuc, ap₂, ◌-◌, ◌==◌, ==_iff, ==_refl, not, ◌&&◌, ◌^◌, suc,
  u64_mod, ◌≤◌,
}
use cpp2tnt.Outcome.{Result, ok, thrown, undefined, value_overflow}
use cpp2tnt.Msgpuck.{Msgpuck, MpType, uint, int}
use cpp2tnt.MpReader.{Reader, if_some, type_at, with_type, skip, Read, value, failed, stuck, after}
use cpp2tnt.MpReader.Values.{
  IntType, int_max, int_min, converted, in_range, integer, ext_number, checked, from_chars,
  read_int,
}
use cpp2tnt.MpReader.Cursor.{concat, Stands, moved, skip-Stands, HasType, type_at-Stands}

converted-narrow :
    (t : IntType) (n : ℕ) → (t.bits == 64) ≡ false → converted t (negsuc n) ≡ negsuc n
converted-narrow t n ne =
    ap (λ b. if not t.signed && b then pos (u64_mod - 1 - n) else negsuc n) ne ∙ rw_false t.signed
  where
    rw_false : (b : Bool) → (if not b && false then pos (u64_mod - 1 - n) else negsuc n) ≡ negsuc n
    rw_false true = refl
    rw_false false = refl

converted-wide :
    (t : IntType) (n : ℕ)
    → t.signed ≡ false
    → t.bits ≡ 64
    → converted t (negsuc n) ≡ pos (2 ^ 64 - suc n)
converted-wide t n unsigned wide =
    ap₂ (λ a b. if not a && b then pos (u64_mod - 1 - n) else negsuc n) unsigned
      (==_refl t.bits 64 wide)
    ∙ ap pos (omega arith)

in_range-negative : (t : IntType) (n : ℕ) → t.signed ≡ false → in_range t (negsuc n) ≡ false
in_range-negative t n unsigned =
    ap
      (λ b.
        leb_ℤ (negsuc n) (int_max t)
        && leb_ℤ (if b then negsuc (2 ^ (t.bits - 1) - 1) else pos 0) (negsuc n))
      unsigned
    ∙ ground arith

in_range-wide :
    (t : IntType) (n : ℕ)
    → t.signed ≡ false
    → t.bits ≡ 64
    → in_range t (pos (2 ^ 64 - suc n)) ≡ true
in_range-wide t n unsigned wide =
    let z = pos (2 ^ 64 - suc n) in
    ap₂
      (λ b k.
        leb_ℤ z (if b then pos (2 ^ (k - 1) - 1) else pos (2 ^ k - 1))
        && leb_ℤ (if b then negsuc (2 ^ (k - 1) - 1) else pos 0) z)
      unsigned wide
    ∙ ground arith

module _ (m : Msgpuck) where
  -- The item is the unsigned integer `n`, or the signed integer `z`.
  abbrev pub IsUint : Bytes → ℕ → Type 0
  IsUint x n = HasType m uint x × ((rest : Bytes) → (m.decode_uint (x ++ rest)).0 ≡ n)

  abbrev pub IsInt : Bytes → ℤ → Type 0
  IsInt x z = HasType m int x × ((rest : Bytes) → m.decode_int (x ++ rest) ≡ z)

  module _ (mem : Bytes) where
    with_type_lem :
        {A : Type 0} (t : MpType) (q : Option ℕ) (p : ℕ) (null outside : A) (k : MpType → A)
        → q ≡ some p
        → type_at m mem p ≡ some t
        → with_type m mem q null outside k ≡ k t
    unfolding with_type
    with_type_lem t q p null outside k e h =
        ap (if_some null (λ p. if_some outside k (type_at m mem p))) e ∙ ap (if_some outside k) h

    -- What is read before an item of the type `t`, by a method that first passes over the item.
    pub read_by_lem :
        {A : Type 0} (K : Bytes → Reader → MpType → Read A) (t : MpType) (r : Reader) (p i : ℕ)
        (x : Bytes) (xs : List Bytes) (s : Stands m mem r p i (x ∷ xs))
        → HasType m t x
        → after (skip m mem r) (λ r'.
          with_type m mem r.position stuck stuck
            λ type. if_some stuck (λ q. K (drop q mem) r' type) r.position)
          ≡ K (x ++ (concat xs ++ s.post)) (moved r (p + length x) (i + 1)) t
    read_by_lem K t r p i x xs s h =
        let r' = moved r (p + length x) (i + 1) in
        ap
          (λ (a : Result Reader). after a λ r'.
            with_type m mem r.position stuck stuck
              λ t. if_some stuck (λ q. K (drop q mem) r' t) r.position)
          (skip-Stands m mem r p i x xs s).0
        ∙ with_type_lem t r.position p stuck stuck
            (λ t. if_some stuck (λ q. K (drop q mem) r' t) r.position) s.position
            (type_at-Stands m mem t r p i x xs s h)
        ∙ ap (if_some stuck (λ q. K (drop q mem) r' t)) s.position
        ∙ ap (λ zs. K zs r' t) (s.ahead ∙ append_assoc x (concat xs) s.post)

    read_int_lem :
        (type : IntType) (t : MpType) (r : Reader) (p i : ℕ) (x : Bytes) (xs : List Bytes)
        (s : Stands m mem r p i (x ∷ xs))
        → HasType m t x
        → read_int m type mem r
          ≡ integer m type (x ++ (concat xs ++ s.post)) (moved r (p + length x) (i + 1)) t
    unfolding read_int
    read_int_lem type t r p i x xs s h = read_by_lem (integer m type) t r p i x xs s h

    -- An unsigned integer is read if the type has room for it; the reader has passed it also where
    -- `operator>>` throws.
    pub read_int-Uint :
        (type : IntType) (n : ℕ) (r : Reader) (p i : ℕ) (x : Bytes) (xs : List Bytes)
        → Stands m mem r p i (x ∷ xs)
        → IsUint x n
        → let r' = moved r (p + length x) (i + 1) in
          read_int m type mem r
          ≡ (if leb_ℤ (pos n) (int_max type) then value (pos n) r' else failed value_overflow r')
    unfolding integer
    read_int-Uint type n r p i x xs s (h, d) =
        read_int_lem type uint r p i x xs s h ∙ rw (d (concat xs ++ s.post))

    -- A signed integer is read if what `>>` compares with the limits is in the range of the type.
    pub read_int-Int :
        (type : IntType) (z : ℤ) (r : Reader) (p i : ℕ) (x : Bytes) (xs : List Bytes)
        → Stands m mem r p i (x ∷ xs)
        → IsInt x z
        → let r' = moved r (p + length x) (i + 1) in
          let n = converted type z in
          read_int m type mem r ≡ (if in_range type n then value n r' else failed value_overflow r')
    unfolding integer
    read_int-Int type z r p i x xs s (h, d) =
        read_int_lem type int r p i x xs s h ∙ rw (d (concat xs ++ s.post))

    -- A negative integer of at most 64 bits is refused by the unsigned types of less than 64 bits, with
    -- an overflow, but read as a `uint64_t` it gives, without an exception, the number that is greater by
    -- 2 ^ 64. The reader has passed it in both cases.
    pub read_int-negative :
        (type : IntType) (n : ℕ) (r : Reader) (p i : ℕ) (x : Bytes) (xs : List Bytes)
        → type.signed ≡ false
        → type.bits ≤ 64
        → n < 2 ^ 63
        → Stands m mem r p i (x ∷ xs)
        → IsInt x (negsuc n)
        → let r' = moved r (p + length x) (i + 1) in
          read_int m type mem r
          ≡ (if type.bits == 64 then value (pos (2 ^ 64 - suc n)) r' else failed value_overflow r')
    read_int-negative type n r p i x xs unsigned most small s z =
        let r' = moved r (p + length x) (i + 1) in
        let out = λ (b : Bool) (z : ℤ). if b then value z r' else failed value_overflow r' in
        let is = read_int-Int type (negsuc n) r p i x xs s z in
        elim (Bool-cases (type.bits == 64)) [
          | inl wide ↦
              let bits = (==_iff type.bits 64).0 wide in
              rw wide (
                is
                ∙ ap (λ z. out (in_range type z) z) (converted-wide type n unsigned bits)
                ∙ ap (λ b. out b (pos (2 ^ 64 - suc n))) (in_range-wide type n unsigned bits))
          | inr narrow ↦ rw narrow (
              is
              ∙ ap (λ z. out (in_range type z) z) (converted-narrow type n narrow)
              ∙ ap (λ b. out b (negsuc n)) (in_range-negative type n unsigned))
        ]

-- A value that is read lies in the range of its type.
abbrev pub InRange : IntType → Read ℤ → Type 0
InRange t (value n r) = (int_min t ≤ℤ n) × (n ≤ℤ int_max t)
InRange t (failed e r) = Unit
InRange t stuck = Unit

if-InRange :
    (t : IntType) (b : Bool) (n : ℤ) (r r' : Reader)
    → (b ≡ true → (int_min t ≤ℤ n) × (n ≤ℤ int_max t))
    → InRange t (if b then value n r else failed value_overflow r')
if-InRange t true n r r' h = h refl
if-InRange t false n r r' h = tt

in_range_bounds : (t : IntType) (n : ℤ) → in_range t n ≡ true → (int_min t ≤ℤ n) × (n ≤ℤ int_max t)
in_range_bounds t n h =
    let (above, below) = and-eq_true (leb_ℤ n (int_max t)) (leb_ℤ (int_min t) n) h in
    (leb→le _ _ below, leb→le _ _ above)

int_min-nonpos : (t : IntType) (n : ℕ) → int_min t ≤ℤ pos n
int_min-nonpos t n = elim (Bool-cases t.signed) [
  | inl e ↦ rw e (omega arith)
  | inr e ↦ rw e (omega arith)
]

integer-InRange :
    (m : Msgpuck) (t : IntType) (bs : Bytes) (r : Reader) (type : MpType)
    → InRange t (integer m t bs r type)
unfolding integer ext_number
integer-InRange m t bs r uint =
    if-InRange t (leb_ℤ (pos (m.decode_uint bs).0) (int_max t)) (pos (m.decode_uint bs).0) r r
      (λ h. (int_min-nonpos t (m.decode_uint bs).0, leb→le _ _ h))
integer-InRange m t bs r int =
    let n = converted t (m.decode_int bs) in if-InRange t (in_range t n) n r r (in_range_bounds t n)
integer-InRange m t bs r MpType.ext = long (ltb 64 (length (m.print bs)))
  where
    number : (o : Option ℤ) → InRange t (checked t r o)
    number none = tt
    number (some n) = if-InRange t (in_range t n) n r r (in_range_bounds t n)

    long :
        (b : Bool)
        → InRange t (if b then stuck else checked t r (from_chars t.signed (take 63 (m.print bs))))
    long true = tt
    long false = number (from_chars t.signed (take 63 (m.print bs)))
integer-InRange m t bs r MpType.nil = tt
integer-InRange m t bs r MpType.str = tt
integer-InRange m t bs r MpType.bin = tt
integer-InRange m t bs r MpType.array = tt
integer-InRange m t bs r MpType.map = tt
integer-InRange m t bs r MpType.bool = tt
integer-InRange m t bs r MpType.float = tt
integer-InRange m t bs r MpType.double = tt

-- Whatever the bytes and the position, an integer that `operator>>` returns lies in the range of its
-- type.
pub read_int-InRange :
    (m : Msgpuck) (t : IntType) (mem : Bytes) (r : Reader) → InRange t (read_int m t mem r)
unfolding read_int with_type
read_int-InRange m t mem r = skipped (skip m mem r)
  where
    typed :
        (r' : Reader) (p : ℕ) (o : Option MpType)
        → InRange t (if_some stuck (λ type. integer m t (drop p mem) r' type) o)
    typed r' p none = tt
    typed r' p (some type) = integer-InRange m t (drop p mem) r' type

    placed :
        (r' : Reader) (o : Option ℕ)
        → InRange t (
            if_some stuck
              (λ q.
                if_some stuck
                  (λ type. if_some stuck (λ p. integer m t (drop p mem) r' type) o)
                  (type_at m mem q))
              o)
    placed r' none = tt
    placed r' (some p) = typed r' p (type_at m mem p)

    skipped :
        (a : Result Reader)
        → InRange t (
            after a λ r'.
              with_type m mem r.position stuck stuck
                λ type. if_some stuck (λ p. integer m t (drop p mem) r' type) r.position)
    skipped (ok r') = placed r' r.position
    skipped (thrown e r') = tt
    skipped undefined = tt

-- ===== src/MpReader/Containers/Begins.antt =====
-- mp_reader.h: where the reader of an array begins.
use cpp2tnt.Prelude.{
  inl, inr, if◌then◌else◌, ℕ, zero, suc, ◌+◌, ◌%◌, ◌≤◌, ◌<◌, ◌≡◌, refl, Bool, true, false,
  Bool-cases, Option, none, some, Bytes, drop, ◌==◌, arith, u32_mod,
}
use cpp2tnt.Outcome.{type_expected}
use cpp2tnt.Msgpuck.{Msgpuck, MpType, array, ext}
use cpp2tnt.MpReader.{Reader, items, skip, type_at, behind, value}
use cpp2tnt.MpReader.Containers.{
  Opened, opened, refused, outside, open_array, opened_at, array_from, error_stack, read_array,
  array_at, read_opened, inner,
}
use cpp2tnt.MpReader.Progress.{Moves, left, OnValue, OnValue-after, skip_less}

-- A container does not begin before the position that it was opened at.
BeginsFrom : ℕ → Opened → Type 0
BeginsFrom p (opened kind begin end) = p ≤ begin
BeginsFrom p (refused e) = Unit
BeginsFrom p outside = Unit

module _ (m : Msgpuck) (mem : Bytes) where
  error_stack-BeginsFrom : (p i : ℕ) (bs : Bytes) → BeginsFrom p (error_stack m mem p i bs)
  unfolding error_stack BeginsFrom
  error_stack-BeginsFrom p zero bs = tt
  error_stack-BeginsFrom p (suc i) bs = elim (Bool-cases ((m.decode_uint bs).0 % u32_mod == 0)) [
    | inl found ↦ rw found (found_stack (m.next rest))
    | inr other ↦ rw other (error_stack-BeginsFrom p i rest)
  ]
    where
      rest : Bytes
      rest = (m.decode_uint bs).1

      found_stack :
          (o : Option ℕ)
          → BeginsFrom p (elim o as (λ x. Opened) [
            | none ↦ outside
            | some k ↦
                opened
                  (items (m.decode_array rest).0)
                  (behind mem p (m.decode_array rest).1)
                  (some (behind mem p rest + k))
          ])
      found_stack none = tt
      found_stack (some k) = omega arith

  if-BeginsFrom :
      (p : ℕ) (b : Bool) (x y : Opened)
      → BeginsFrom p x
      → BeginsFrom p y
      → BeginsFrom p (if b then x else y)
  if-BeginsFrom p true x y h g = h
  if-BeginsFrom p false x y h g = g

  array_from-BeginsFrom : (p : ℕ) (t : MpType) → BeginsFrom p (array_from m mem p t)
  unfolding array_from BeginsFrom
  array_from-BeginsFrom p array = omega arith
  array_from-BeginsFrom p ext =
      let (type, rest) = m.decode_extl (drop p mem) in
      let (i, rest') = m.decode_map rest in
      if-BeginsFrom p (type == m.ext_error) (error_stack m mem p i rest') (refused type_expected)
        (error_stack-BeginsFrom p i rest') tt
  array_from-BeginsFrom p MpType.nil = tt
  array_from-BeginsFrom p MpType.uint = tt
  array_from-BeginsFrom p MpType.int = tt
  array_from-BeginsFrom p MpType.str = tt
  array_from-BeginsFrom p MpType.bin = tt
  array_from-BeginsFrom p MpType.map = tt
  array_from-BeginsFrom p MpType.bool = tt
  array_from-BeginsFrom p MpType.float = tt
  array_from-BeginsFrom p MpType.double = tt

  open_array-BeginsFrom : (p : ℕ) → BeginsFrom p (open_array m mem p)
  unfolding open_array opened_at BeginsFrom
  open_array-BeginsFrom p = typed (type_at m mem p)
    where
      typed : (o : Option MpType) → BeginsFrom p (opened_at (array_from m mem p) o)
      typed none = tt
      typed (some t) = array_from-BeginsFrom p t

  -- The reader of an array has no more bytes before it than the reader that stood before the array, and
  -- this one has fewer behind it.
  pub read_array_less :
      Moves m
      → (r : Reader)
      → OnValue
          (λ a r'.
            (left mem a.position ≤ left mem r.position)
            × (left mem r'.position ≤ left mem r.position))
          (read_array m mem r)
  unfolding read_array array_at read_opened BeginsFrom
  read_array_less moves r = at r.position refl
    where
      Less : Option ℕ → Reader → Reader → Type 0
      Less o a r' =
          (left mem a.position ≤ left mem o) × (left mem r'.position ≤ left mem r.position)

      from :
          (p : ℕ) (x : Opened)
          → BeginsFrom p x
          → OnValue (Less (some p)) (read_opened m mem true r x)
      from p (opened kind begin end) h =
          OnValue-after (λ r'. left mem r'.position < left mem r.position) (Less (some p))
            (skip m mem r) (λ r'. value (inner true kind begin end r'.position) r')
            (skip_less m moves mem r) (λ r' less. (omega arith, omega arith))
      from p (refused e) h = tt
      from p outside h = tt

      at : (o : Option ℕ) → r.position ≡ o → OnValue (Less o) (array_at m mem r o)
      at none e = tt
      at (some p) e = from p (open_array m mem p) (open_array-BeginsFrom p)

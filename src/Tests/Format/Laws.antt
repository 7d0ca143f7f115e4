-- ===== src/Tests/Format/Laws.antt =====
-- The MessagePack format obeys the laws that the theorems want.
use cpp2tnt.Prelude.{
  ℕ, ◌+◌, ◌-◌, ◌<◌, ◌≤◌, ◌≡◌, refl, ap, true, false, ◌⊎◌, ◌++◌, Bytes, ltb, ◌==◌, arith, u16_mod,
  u32_mod,
}
use cpp2tnt.Msgpuck.{array, map}
use cpp2tnt.Msgpuck.Laws.{Uint32Laws}
use cpp2tnt.MpWriter.Finalize.{ArrayLaws, MapLaws}
use cpp2tnt.Tests.Format.{number, big_endian_32, big_endian_16, format_size, format_type, format}

number_32 : (n : ℕ) (rest : Bytes) → n < u32_mod → number 4 (big_endian_32 n ++ rest) 0 ≡ n
number_32 n rest h = omega arith

pub format-Uint32Laws : Uint32Laws format
format-Uint32Laws = record {
  length_u32 = λ n. refl;
  type_u32 = refl;
  decode_u32 = λ n rest h. ap (λ k. (k, rest)) (number_32 n rest h);
}

size_cases : (n : ℕ) → (format_size n ≡ 1) ⊎ (format_size n ≡ 3) ⊎ (format_size n ≡ 5)
size_cases n = ground arith

size_mono : (k n : ℕ) → k ≤ n → format_size k ≤ format_size n
size_mono k n h = ground arith

size_16 : (n : ℕ) → format_size n ≤ 3 → n < u16_mod
size_16 n h = ground arith

size_1 : (n : ℕ) → format_size n ≡ 1 → ltb n 16 ≡ true
size_1 n h = ground arith

size_3 : (n : ℕ) → format_size n ≡ 3 → (ltb n 16 ≡ false) × (ltb n u16_mod ≡ true)
size_3 n h = (ground arith, ground arith)

size_5 : (n : ℕ) → format_size n ≡ 5 → (ltb n 16 ≡ false) × (ltb n u16_mod ≡ false)
size_5 n h = (ground arith, ground arith)

number_16 : (n : ℕ) (rest : Bytes) → n < u16_mod → number 2 (big_endian_16 n ++ rest) 0 ≡ n
number_16 n rest h = omega arith

array_short :
    (n : ℕ)
    → ltb n 16 ≡ true
    → (format_type (0x90 + n) ≡ array) × ((0x90 + n) == 0xdc ≡ false) × ((0x90 + n) == 0xdd ≡ false)
array_short n h = (ground arith, ground arith, ground arith)

map_short :
    (n : ℕ)
    → ltb n 16 ≡ true
    → (format_type (0x80 + n) ≡ map) × ((0x80 + n) == 0xde ≡ false) × ((0x80 + n) == 0xdf ≡ false)
map_short n h = (ground arith, ground arith, ground arith)

pub format-ArrayLaws : ArrayLaws format
format-ArrayLaws = record {
  sizes = size_cases;
  mono = size_mono;
  fits_16 = size_16;
  short = λ n s.
      let few = size_1 n s in
      let (ty, ne, ne') = array_short n few in
      let value : 0x90 + n - 0x90 ≡ n = omega arith in
      (0x90 + n, rw few refl, ty, λ rest. rw (ne, ne', value) refl);
  with_16 = λ n s.
      let (many, few) = size_3 n s in
      (0xdc, rw (many, few) refl, refl, λ k rest h. ap (λ (i : ℕ). (i, rest)) (number_16 k rest h));
  with_32 = λ n s.
      let (many, more) = size_5 n s in
      (
        0xdd,
        rw (many, more) refl,
        refl,
        λ k rest h. ap (λ (i : ℕ). (i, rest)) (number_32 k rest h),
      );
  length_16 = λ n. refl;
  length_32 = λ n. refl;
}

pub format-MapLaws : MapLaws format
format-MapLaws = record {
  sizes = size_cases;
  mono = size_mono;
  fits_16 = size_16;
  short = λ n s.
      let few = size_1 n s in
      let (ty, ne, ne') = map_short n few in
      let value : 0x80 + n - 0x80 ≡ n = omega arith in
      (0x80 + n, rw few refl, ty, λ rest. rw (ne, ne', value) refl);
  with_16 = λ n s.
      let (many, few) = size_3 n s in
      (0xde, rw (many, few) refl, refl, λ k rest h. ap (λ (i : ℕ). (i, rest)) (number_16 k rest h));
  with_32 = λ n s.
      let (many, more) = size_5 n s in
      (
        0xdf,
        rw (many, more) refl,
        refl,
        λ k rest h. ap (λ (i : ℕ). (i, rest)) (number_32 k rest h),
      );
  length_16 = λ n. refl;
  length_32 = λ n. refl;
}

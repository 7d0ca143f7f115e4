-- ===== src/Tests/Format.antt =====
-- The MessagePack format as an instance of the msgpuck library: unsigned integers, strings, arrays
-- and maps, nil and the booleans. It shows that the laws which the theorems want can hold.
pub mod Laws
use cpp2tnt.Prelude.{
  ℕ, suc, zero, ◌+◌, ◌-◌, ◌*◌, ◌/◌, ◌%◌, ◌^◌, ◌<◌, ◌≤◌, ◌≡◌, refl, ap, true, false, ◌⊎◌, [], ◌∷◌,
  ◌++◌, Bytes, length, take, drop, Bool, Option, none, some, ℤ, pos, negsuc, ltb, leb, ◌&&◌, ◌||◌,
  ◌==◌, if◌then◌else◌, arith, u16_mod, u32_mod,
}
use cpp2tnt.Msgpuck.{
  Msgpuck, Floating, MpType, nil, uint, int, str, bin, array, map, bool, float, double, ext,
}
use cpp2tnt.Msgpuck.Laws.{Uint32Laws}
use cpp2tnt.MpWriter.Finalize.{ArrayLaws, MapLaws}

abbrev byte : ℕ → ℕ → ℕ
byte n k = n / 2 ^ (8 * k) % 256

abbrev big_endian_16 : ℕ → Bytes
big_endian_16 n = byte n 1 ∷ byte n 0 ∷ []

abbrev big_endian_32 : ℕ → Bytes
big_endian_32 n = byte n 3 ∷ byte n 2 ∷ byte n 1 ∷ byte n 0 ∷ []

abbrev big_endian_64 : ℕ → Bytes
big_endian_64 n = byte n 7 ∷ byte n 6 ∷ byte n 5 ∷ byte n 4 ∷ big_endian_32 n

abbrev format_type : ℕ → MpType
format_type b =
    if ltb b 0x80
    then uint
    else if ltb b 0x90
    then map
    else if ltb b 0xa0
    then array
    else if ltb b 0xc0
    then str
    else if b == 0xc0
    then nil
    else if ltb b 0xc4
    then bool
    else if ltb b 0xc7
    then bin
    else if ltb b 0xca
    then ext
    else if b == 0xca
    then float
    else if b == 0xcb
    then double
    else if ltb b 0xd0
    then uint
    else if ltb b 0xd4
    then int
    else if ltb b 0xd9
    then ext
    else if ltb b 0xdc
    then str
    else if ltb b 0xde
    then array
    else if ltb b 0xe0
    then map
    else int

-- The number in the first `k` bytes, in network order.
abbrev number : ℕ → Bytes → ℕ → ℕ
number zero bs acc = acc
number (suc k) [] acc = acc
number (suc k) (b ∷ bs) acc = number k bs (256 * acc + b)

-- A header of one byte below `mask + limit`, or one that is followed by 16 or 32 bits.
abbrev sized : ℕ → ℕ → ℕ → ℕ → Bytes
sized mask limit wide n =
    if ltb n limit
    then (mask + n) ∷ []
    else if ltb n u16_mod
    then wide ∷ big_endian_16 n
    else (wide + 1) ∷ big_endian_32 n

abbrev decode_sized : ℕ → ℕ → Bytes → ℕ × Bytes
decode_sized mask wide [] = (0, [])
decode_sized mask wide (b ∷ bs) =
    if b == wide
    then (number 2 bs 0, drop 2 bs)
    else if b == wide + 1
    then (number 4 bs 0, drop 4 bs)
    else (b - mask, bs)

abbrev format_decode_uint : Bytes → ℕ × Bytes
format_decode_uint [] = (0, [])
format_decode_uint (b ∷ bs) =
    if b == 0xcc
    then (number 1 bs 0, drop 1 bs)
    else if b == 0xcd
    then (number 2 bs 0, drop 2 bs)
    else if b == 0xce
    then (number 4 bs 0, drop 4 bs)
    else if b == 0xcf
    then (number 8 bs 0, drop 8 bs)
    else (b, bs)

abbrev format_uint : ℕ → Bytes
format_uint n =
    if ltb n 0x80
    then n ∷ []
    else if ltb n 0x100
    then 0xcc ∷ n ∷ []
    else if ltb n u16_mod
    then 0xcd ∷ big_endian_16 n
    else if ltb n u32_mod
    then 0xce ∷ big_endian_32 n
    else 0xcf ∷ big_endian_64 n

-- Of the negative numbers only those of one byte and of two.
abbrev format_int : ℤ → Bytes
format_int (pos n) = format_uint n
format_int (negsuc n) = if ltb n 32 then (0xff - n) ∷ [] else 0xd0 ∷ (0xff - n) ∷ []

abbrev sign : Floating → ℕ
sign d = if d.negative then 1 else 0

abbrev format_strl : ℕ → Bytes
format_strl n =
    if ltb n 32
    then (0xa0 + n) ∷ []
    else if ltb n 0x100
    then 0xd9 ∷ n ∷ []
    else if ltb n u16_mod
    then 0xda ∷ big_endian_16 n
    else 0xdb ∷ big_endian_32 n

abbrev format_size : ℕ → ℕ
format_size n = if ltb n 16 then 1 else if ltb n u16_mod then 3 else 5

-- The bytes of an item without those inside of it, and how many items those are.
abbrev item_size : Bytes → Option (ℕ × ℕ)
item_size [] = none
item_size (b ∷ bs) =
    if ltb b 0x80
    then some (1, 0)
    else if ltb b 0x90
    then some (1, 2 * (b - 0x80))
    else if ltb b 0xa0
    then some (1, b - 0x90)
    else if ltb b 0xc0
    then some (1 + (b - 0xa0), 0)
    else if b == 0xcd
    then some (3, 0)
    else if b == 0xce || b == 0xca
    then some (5, 0)
    else if b == 0xcf || b == 0xcb
    then some (9, 0)
    else if b == 0xcc
    then some (2, 0)
    else if b == 0xd0
    then some (2, 0)
    else if b == 0xd9
    then some (2 + number 1 bs 0, 0)
    else if b == 0xdc
    then some (3, number 2 bs 0)
    else if b == 0xdd
    then some (5, number 4 bs 0)
    else if b == 0xde
    then some (3, 2 * number 2 bs 0)
    else if b == 0xdf
    then some (5, 2 * number 4 bs 0)
    else some (1, 0)

abbrev longer : ℕ → Option ℕ → Option ℕ
longer n none = none
longer n (some k) = some (n + k)

-- `left` items behind one another, in no more than `fuel` steps.
abbrev pub items_size : ℕ → ℕ → Bytes → Option ℕ
items_size zero left bs = none
items_size (suc fuel) zero bs = some 0
items_size (suc fuel) (suc left) bs = elim (item_size bs) [
  | none ↦ none
  | some (n, inside) ↦ longer n (items_size fuel (left + inside) (drop n bs))
]

-- An item that is whole.
abbrev pub within : ℕ → Option ℕ → Option ℕ
within size none = none
within size (some n) = if ltb 0 n && leb n size then some n else none

abbrev format_decode_int : Bytes → ℤ
format_decode_int [] = pos 0
format_decode_int (b ∷ []) = if ltb b 0xe0 then pos b else negsuc (0xff - b)
format_decode_int (b ∷ c ∷ bs) =
    if b == 0xd0 then (if ltb c 128 then pos c else negsuc (0xff - c)) else negsuc (0xff - b)

-- A sign, an exponent of `e` bits and a mantissa of `m` bits.
abbrev float_of : ℕ → ℕ → ℕ → Floating
float_of m e n = record {
  negative = n / 2 ^ (m + e) == 1;
  exponent = n / 2 ^ m % 2 ^ e;
  mantissa = n % 2 ^ m;
}

abbrev format_decode_str : Bytes → Bytes
format_decode_str [] = []
format_decode_str (b ∷ bs) =
    if b == 0xd9 then take (number 1 bs 0) (drop 1 bs) else take (b - 0xa0) bs

abbrev is_true : Bytes → Bool
is_true [] = false
is_true (b ∷ bs) = b == 0xc3

abbrev decode_extl : Bytes → ℕ × Bytes
decode_extl (b ∷ n ∷ type ∷ bs) = (type, bs)
decode_extl bs = (0, [])

abbrev pub format : Msgpuck
format = record {
  type_of = format_type;
  decode_uint = format_decode_uint;
  decode_array = decode_sized 0x90 0xdc;
  decode_map = decode_sized 0x80 0xde;
  encode_nil = 0xc0 ∷ [];
  encode_bool = λ b. (if b then 0xc3 else 0xc2) ∷ [];
  encode_uint = format_uint;
  encode_int = format_int;
  encode_float = λ d. 0xca ∷ big_endian_32 (2 ^ 31 * sign d + 2 ^ 23 * d.exponent + d.mantissa);
  encode_double = λ d. 0xcb ∷ big_endian_64 (2 ^ 63 * sign d + 2 ^ 52 * d.exponent + d.mantissa);
  encode_strl = format_strl;
  encode_str = λ bs. format_strl (length bs) ++ bs;
  encode_array = sized 0x90 16 0xdc;
  encode_map = sized 0x80 16 0xde;
  sizeof_array = format_size;
  sizeof_map = format_size;
  store_u16 = big_endian_16;
  store_u32 = big_endian_32;
  store_u64 = big_endian_64;
  next = items_size 64 1;
  check = λ bs. within (length bs) (items_size 64 1 bs);
  decode_int = format_decode_int;
  decode_float = λ bs. float_of 23 8 (number 4 (drop 1 bs) 0);
  decode_double = λ bs. float_of 52 11 (number 8 (drop 1 bs) 0);
  decode_bool = is_true;
  decode_str = format_decode_str;
  decode_extl = decode_extl;
  print = λ bs. [];
  ext_error = 3;
  ext_interval = 6;
}

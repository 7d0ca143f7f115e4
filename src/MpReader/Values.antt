-- ===== src/MpReader/Values.antt =====
-- mp_reader.h: the values that operator>> reads.
use cpp2tnt.Prelude.{
  ℕ, zero, suc, ◌+◌, ◌-◌, ◌*◌, ◌^◌, Bool, true, false, ◌&&◌, not, max, Option, none, some, List, [],
  ◌∷◌, ◌++◌, Bytes, length, take, drop, ltb, leb, ◌==◌, if◌then◌else◌, u64_mod, ℤ, pos, negsuc,
  leb_ℤ,
}
use cpp2tnt.Outcome.{Result, no_data, type_expected, value_overflow, not_a_number}
use cpp2tnt.Msgpuck.{Msgpuck, MpType, nil, uint, int, str, bool, ext}
use cpp2tnt.MpReader.{
  Kind, plain, items, pairs, Reader, with_type, if_some, has_next, if_next, ◌is◌, skip, Read, value,
  failed, stuck, after, ◌>>=◌,
}
use cpp2tnt.MpReader.Containers.{read_array, read_map, skip_n}

-- operator>>(bool &)
unfoldable pub read_bool : Msgpuck → Bytes → Reader → Read Bool
unfolding with_type skip
read_bool m mem r = with_type m mem r.position (failed no_data r) stuck λ t.
    if not (t is bool)
    then failed type_expected r
    else after (skip m mem r)
        λ r'. if_some stuck (λ p. value (m.decode_bool (drop p mem)) r') r.position

-- An integral type of C++.
pub record IntType : Type 0 where
  pub signed : Bool
  pub bits : ℕ

abbrev pub int_max : IntType → ℤ
int_max t = if t.signed then pos (2 ^ (t.bits - 1) - 1) else pos (2 ^ t.bits - 1)

abbrev pub int_min : IntType → ℤ
int_min t = if t.signed then negsuc (2 ^ (t.bits - 1) - 1) else pos 0

-- An `int64_t` in the type that it is compared in, and cast to: `uint64_t` takes it modulo 2 ^ 64,
-- the other types as it is.
abbrev pub converted : IntType → ℤ → ℤ
converted t (pos n) = pos n
converted t (negsuc n) = if not t.signed && t.bits == 64 then pos (u64_mod - 1 - n) else negsuc n

abbrev pub in_range : IntType → ℤ → Bool
in_range t n = leb_ℤ n (int_max t) && leb_ℤ (int_min t) n

abbrev is_digit : ℕ → Bool
is_digit c = leb b'0' c && leb c b'9'

-- `std::from_chars`: the number that the text begins with, if it begins with one.
pub digits : ℕ → Bytes → ℕ
digits n [] = n
digits n (c ∷ cs) = let rest = digits (10 * n + (c - b'0')) cs in if is_digit c then rest else n

abbrev negated : ℕ → ℤ
negated zero = pos 0
negated (suc n) = negsuc n

from_digits : (ℕ → ℤ) → Bytes → Option ℤ
unfolding digits
from_digits sign [] = none
from_digits sign (c ∷ cs) = if is_digit c then some (sign (digits 0 (c ∷ cs))) else none

pub from_chars : Bool → Bytes → Option ℤ
unfolding from_digits
from_chars signed [] = none
from_chars signed (c ∷ cs) =
    if signed && c == b'-' then from_digits negated cs else from_digits pos (c ∷ cs)

-- What is made of the result of `std::from_chars`.
abbrev pub checked : IntType → Reader → Option ℤ → Read ℤ
checked t r none = failed not_a_number r
checked t r (some n) = if in_range t n then value n r else failed value_overflow r

-- The number that an extension prints as, from a text of 63 characters at most.
unfoldable pub ext_number : IntType → Bytes → Reader → Read ℤ
unfolding from_chars
ext_number t text r =
    if ltb 64 (length text) then stuck else checked t r (from_chars t.signed (take 63 text))

-- The integer in the bytes at the old position; the reader is behind it already.
unfoldable pub integer : Msgpuck → IntType → Bytes → Reader → MpType → Read ℤ
unfolding ext_number
integer m t bs r uint =
    let n = pos (m.decode_uint bs).0 in
    if leb_ℤ n (int_max t) then value n r else failed value_overflow r
integer m t bs r int =
    let n = converted t (m.decode_int bs) in
    if in_range t n then value n r else failed value_overflow r
integer m t bs r ext = ext_number t (m.print bs) r
integer m t bs r _ = failed type_expected r

-- operator>>(T &) of an integral type
unfoldable pub read_int : Msgpuck → IntType → Bytes → Reader → Read ℤ
unfolding integer with_type skip
read_int m t mem r = after (skip m mem r) λ r'.
    with_type m mem r.position stuck stuck
      λ type. if_some stuck (λ p. integer m t (drop p mem) r' type) r.position

-- operator>>(std::string_view &); `none` is a view of no data.
unfoldable pub read_view : Msgpuck → Bytes → Reader → Read (Option Bytes)
unfolding has_next with_type skip
read_view m mem r = if_next r (has_next false r) (value none r) (
    with_type m mem r.position stuck stuck λ t.
      if t is str
      then (after (skip m mem r)
          λ r'. if_some stuck (λ p. value (some (m.decode_str (drop p mem))) r') r.position)
      else if t is nil
      then after (skip m mem r) (value none)
      else failed type_expected r)

abbrev pub some_text : Option Bytes → Reader → Read Bytes
some_text none r = failed type_expected r
some_text (some s) r = value s r

-- What an extension prints as, in a string of `old` bytes: a text that is as long as the room loses its
-- last character to the terminating zero.
abbrev pub printed : ℕ → Bytes → Bytes
printed old text =
    let room = max 128 old in if length text == room then take (room - 1) text ++ (0 ∷ []) else text

-- operator>>(std::string &), of a string of `old` bytes
unfoldable pub read_text : Msgpuck → Bytes → ℕ → Reader → Read Bytes
unfolding with_type read_view skip
read_text m mem old r = with_type m mem r.position (failed no_data r) stuck λ t.
    if t is ext
    then (after (skip m mem r)
        λ r'. if_some stuck (λ p. value (printed old (m.print (drop p mem))) r') r.position)
    else read_view m mem r >>= some_text

-- operator>>(mp_none<N>)
abbrev pub read_none : ℕ → Msgpuck → Bytes → Reader → Result Reader
read_none = skip_n

module _ {A : Type 0} (m : Msgpuck) (mem : Bytes) (read_one : Reader → Read A) where
  -- mp_reader::read_or, and operator>>(mp_optional<T> &&): the default for nil and at the end
  unfoldable pub read_or : A → Reader → Read A
  unfolding has_next with_type skip
  read_or default r = if_next r (has_next true r) (value default r) (
      with_type m mem r.position stuck stuck
        λ t. if t is nil then after (skip m mem r) (value default) else read_one r)

  -- The items of an array, one after the other.
  unfoldable pub read_items : ℕ → Reader → Read (List A)
  read_items zero r = value [] r
  read_items (suc n) r = read_one r >>= λ a r'. read_items n r' >>= λ rest. value (a ∷ rest)

abbrev pub cardinality : Kind → ℕ
cardinality plain = 0
cardinality (items n) = n
cardinality (pairs n) = n

-- What is read from a container, while the reader around it stands behind it.
abbrev pub from_inner : {A : Type 0} → Read A → Reader → Read A
from_inner (value a inner) r = value a r
from_inner (failed e inner) r = failed e r
from_inner stuck r = stuck

-- operator>>(std::optional<T> &)
unfoldable pub read_optional :
    {A : Type 0} → Msgpuck → Bytes → (Reader → Read A) → Reader → Read (Option A)
unfolding read_or
read_optional m mem read_one = read_or m mem (λ r. read_one r >>= λ a. value (some a)) none

-- operator>>(std::vector<T> &)
unfoldable pub read_vector :
    {A : Type 0} → Msgpuck → Bytes → (Reader → Read A) → Reader → Read (List A)
unfolding read_array read_items
read_vector m mem read_one r =
    read_array m mem r >>= λ arr. from_inner (read_items m mem read_one (cardinality arr.kind) arr)

-- operator>>(std::map<KeyT, ValueT> &): the pairs in the order in which they are stored
abbrev pub read_pair :
    {A B : Type 0} → (Reader → Read A) → (Reader → Read B) → Reader → Read (A × B)
read_pair read_key read_value r = read_key r >>= λ k r'. read_value r' >>= λ v. value (k, v)

unfoldable pub read_pairs :
    {A B : Type 0}
    → Msgpuck
    → Bytes
    → (Reader → Read A)
    → (Reader → Read B)
    → Reader
    → Read (List (A × B))
unfolding read_map read_items
read_pairs m mem read_key read_value r = read_map m mem r >>= λ inner.
    from_inner (read_items m mem (read_pair read_key read_value) (cardinality inner.kind) inner)

-- ===== src/MpReader/Containers.antt =====
-- mp_reader.h: mp_array and mp_map, which begin behind the header of a container, and the readers of
-- them.
pub mod Arrays
pub mod Begins
use cpp2tnt.Prelude.{
  ℕ, zero, suc, ◌+◌, ◌-◌, ◌%◌, Bool, true, false, Option, none, some, Bytes, length, drop, ltb, leb,
  ◌==◌, if◌then◌else◌, u32_mod,
}
use cpp2tnt.Outcome.{
  Error, Result, ok, thrown, undefined, ◌>>=◌, out_of_bounds, type_expected, no_error_stack,
}
use cpp2tnt.Msgpuck.{Msgpuck, MpType, array, map, ext}
use cpp2tnt.MpReader.{
  Kind, items, pairs, Reader, reader_of, type_at, behind, skip, rewind, Read, value, failed, stuck,
  after,
}

-- What a constructor from a position comes to: the cardinality, the first item and, where that is
-- known, the end; an exception; a read outside of the memory.
pub data Opened : Type 0 where
  opened : Kind → ℕ → Option ℕ → Opened
  refused : Error → Opened
  outside : Opened

-- The stack of an error: the array below the key 0. The loop does not skip the values of other keys.
error_stack : Msgpuck → Bytes → ℕ → ℕ → Bytes → Opened
error_stack m mem p zero bs = refused no_error_stack
error_stack m mem p (suc i) bs =
    let (key, rest) = m.decode_uint bs in
    let (n, rest') = m.decode_array rest in
    let other = error_stack m mem p i rest in
    if key % u32_mod == 0
    then (elim (m.next rest) [
      | none ↦ outside
      | some k ↦ opened (items n) (behind mem p rest') (some (behind mem p rest + k))
    ])
    else other

array_from : Msgpuck → Bytes → ℕ → MpType → Opened
unfolding error_stack
array_from m mem p array =
    let (n, rest) = m.decode_array (drop p mem) in opened (items n) (behind mem p rest) none
array_from m mem p ext =
    let (type, rest) = m.decode_extl (drop p mem) in
    let (i, rest') = m.decode_map rest in
    if type == m.ext_error then error_stack m mem p i rest' else refused type_expected
array_from m mem p _ = refused type_expected

map_from : Msgpuck → Bytes → ℕ → MpType → Opened
map_from m mem p map =
    let (n, rest) = m.decode_map (drop p mem) in opened (pairs n) (behind mem p rest) none
map_from m mem p ext =
    let (type, rest) = m.decode_extl (drop p mem) in
    let (n, rest') = m.decode_uint rest in
    let (n', rest'') = m.decode_map rest in
    if type == m.ext_interval
    then opened (pairs n) (behind mem p rest') none
    else if type == m.ext_error
    then opened (pairs n') (behind mem p rest'') none
    else refused type_expected
map_from m mem p _ = refused type_expected

opened_at : (MpType → Opened) → Option MpType → Opened
opened_at from none = outside
opened_at from (some t) = from t

-- mp_array(begin) and mp_map(begin)
pub open_array : Msgpuck → Bytes → ℕ → Opened
unfolding opened_at array_from
open_array m mem p = opened_at (array_from m mem p) (type_at m mem p)

pub open_map : Msgpuck → Bytes → ℕ → Opened
unfolding opened_at map_from
open_map m mem p = opened_at (map_from m mem p) (type_at m mem p)

-- The reader of a container that was opened; `keeps` says that an end which is known stays.
abbrev inner : Bool → Kind → ℕ → Option ℕ → Option ℕ → Reader
inner keeps kind begin end skipped = record {
  kind = kind;
  begin = some begin;
  end = (elim end [ none ↦ skipped | some e ↦ if keeps then some e else skipped ]);
  position = some begin;
  ind = 0;
}

read_opened : Msgpuck → Bytes → Bool → Reader → Opened → Read Reader
read_opened m mem keeps r (opened kind begin end) =
    after (skip m mem r) λ r'. value (inner keeps kind begin end r'.position) r'
read_opened m mem keeps r (refused e) = failed e r
read_opened m mem keeps r outside = stuck

-- operator>>(mp_reader<mp_array> &): a null position makes an empty array, and `skip` throws.
array_at : Msgpuck → Bytes → Reader → Option ℕ → Read Reader
unfolding read_opened
array_at m mem r none = failed out_of_bounds r
array_at m mem r (some p) = read_opened m mem true r (open_array m mem p)

unfoldable pub read_array : Msgpuck → Bytes → Reader → Read Reader
unfolding array_at open_array skip
read_array m mem r = array_at m mem r r.position

-- operator>>(mp_reader<mp_map> &): mp_map reads through the position, null or not.
map_at : Msgpuck → Bytes → Reader → Option ℕ → Read Reader
unfolding read_opened
map_at m mem r none = stuck
map_at m mem r (some p) = read_opened m mem false r (open_map m mem p)

unfoldable pub read_map : Msgpuck → Bytes → Reader → Read Reader
unfolding map_at open_map skip
read_map m mem r = map_at m mem r r.position

pub skip_n : ℕ → Msgpuck → Bytes → Reader → Result Reader
unfolding skip
skip_n zero m mem r = ok r
skip_n (suc n) m mem r = skip m mem r >>= skip_n n m mem

-- A value that a `const` method reads by a copy of the reader.
abbrev pub by_copy : {A : Type 0} → Reader → Read A → Read A
by_copy r (value a r') = value a r
by_copy r (failed e r') = failed e r
by_copy r stuck = stuck

-- mp_reader::operator[](size_t)
unfoldable pub index : Msgpuck → Bytes → ℕ → Reader → Read Reader
unfolding skip_n rewind
index m mem i r =
    let ahead = leb r.ind i in
    by_copy r (
      after (skip_n (if ahead then i - r.ind else i) m mem (if ahead then r else rewind r))
        λ t. after (skip m mem t) λ t'. value (reader_of t.position t'.position) t')

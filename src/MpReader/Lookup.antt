-- ===== src/MpReader/Lookup.antt =====
-- mp_reader.h: the comparison of an item with a key, and the values of a map by their keys.
pub mod Find
use cpp2tnt.Prelude.{
  ℕ, zero, suc, Bool, true, false, ◌&&◌, Option, none, some, List, [], ◌∷◌, Bytes, drop, ltb, ◌==◌,
  if◌then◌else◌, ℤ, pos, negsuc,
}
use cpp2tnt.Outcome.{Error, Result, ok, thrown, undefined, out_of_bounds, key_not_found}
use cpp2tnt.Msgpuck.{Msgpuck, MpType, nil, uint, int, str, bool}
use cpp2tnt.MpReader.{
  Kind, pairs, Reader, reader_of, type_at, with_type, has_next, if_next, ◌is◌, skip, Read, value,
  failed, stuck, after, ◌>>=◌,
}
use cpp2tnt.MpReader.Containers.{by_copy}
use cpp2tnt.MpReader.Values.{read_bool, read_view, cardinality}

-- The types that `equals` compares with: integers, `bool`, and strings, where `none` is a view of no
-- data or a null pointer.
pub data Key : Type 0 where
  number : ℤ → Key
  truth : Bool → Key
  text : Option Bytes → Key

abbrev pub eq_ℤ : ℤ → ℤ → Bool
eq_ℤ (pos a) (pos b) = a == b
eq_ℤ (negsuc a) (negsuc b) = a == b
eq_ℤ _ _ = false

abbrev Bool-eq : Bool → Bool → Bool
Bool-eq true b = b
Bool-eq false true = false
Bool-eq false false = true

abbrev Bytes-eq : Bytes → Bytes → Bool
Bytes-eq [] [] = true
Bytes-eq (a ∷ xs) (b ∷ ys) = a == b && Bytes-eq xs ys
Bytes-eq _ _ = false

abbrev view_eq : Option Bytes → Bytes → Bool
view_eq none s = false
view_eq (some v) s = Bytes-eq s v

-- The comparison with the item at `p`, whose type is `t`; a value is read by a reader that has no end.
equals_at : Msgpuck → Bytes → Reader → ℕ → MpType → Key → Read Bool
equals_at m mem r p t (number n) =
    if t is uint
    then value (eq_ℤ (pos (m.decode_uint (drop p mem)).0) n) r
    else if t is int
    then value (eq_ℤ (m.decode_int (drop p mem)) n) r
    else value false r
equals_at m mem r p t (truth b) =
    if t is bool
    then by_copy r (read_bool m mem (reader_of (some p) none) >>= λ a. value (Bool-eq b a))
    else value false r
equals_at m mem r p t (text none) = value (t is nil) r
equals_at m mem r p t (text (some s)) =
    if t is str
    then by_copy r (read_view m mem (reader_of (some p) none) >>= λ v. value (view_eq v s))
    else value false r

equals_here : Msgpuck → Bytes → Reader → Key → Option ℕ → Option MpType → Read Bool
unfolding equals_at
equals_here m mem r key (some p) (some t) = equals_at m mem r p t key
equals_here m mem r key p t = stuck

abbrev type_of_position : Msgpuck → Bytes → Option ℕ → Option MpType
type_of_position m mem none = none
type_of_position m mem (some p) = type_at m mem p

-- mp_reader::equals
unfoldable pub equals : Msgpuck → Bytes → Key → Reader → Read Bool
unfolding has_next equals_here
equals m mem key r =
    if_next r (has_next false r) (failed out_of_bounds r)
      (equals_here m mem r key r.position (type_of_position m mem r.position))

-- mp_plain: the bounds of a value, both null where there is none.
abbrev pub Plain : Type 0
Plain = Option ℕ × Option ℕ

-- The loop of mp_map::find
pub find_from : Msgpuck → Bytes → Key → ℕ → Reader → Read Plain
unfolding equals skip
find_from m mem key zero r = value (none, none) r
find_from m mem key (suc n) r = equals m mem key r >>= λ found r'. after (skip m mem r') λ at_value.
    after (skip m mem at_value) λ behind.
      let more = find_from m mem key n behind in
      if found then value (at_value.position, behind.position) behind else more

-- mp_map::find, of the map that `r` reads; the reader itself stays as it is.
unfoldable pub find : Msgpuck → Bytes → Key → Reader → Read Plain
unfolding find_from
find m mem key r = by_copy r (find_from m mem key (cardinality r.kind) (reader_of r.begin r.end))

-- mp_plain::operator bool
abbrev pub is_present : Plain → Bool
is_present (some b, some e) = ltb b e
is_present _ = false

-- mp_map::operator[], as a reader of the value
unfoldable pub get : Msgpuck → Bytes → Key → Reader → Read Reader
unfolding find
get m mem key r = find m mem key r >>= λ res r'.
    if is_present res then value (reader_of res.0 res.1) r' else failed key_not_found r'

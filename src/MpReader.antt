-- ===== src/MpReader.antt =====
-- mp_reader.h: the MessagePack reader. Its pointers are offsets into one memory, `none` is the null
-- pointer, and a read outside of the memory is undefined.
pub mod Cursor
pub mod Containers
pub mod Values
pub mod Lookup
pub mod Spans
pub mod Integers
pub mod Vectors
pub mod RoundTrip
pub mod SignedTrip
pub mod Progress
pub mod Checks
pub mod Floats
pub mod Tuples
pub mod Packets
use cpp2tnt.Prelude.{
  ℕ, suc, ◌+◌, ◌-◌, ◌*◌, ◌%◌, Bool, true, false, ◌&&◌, not, Option, none, some, List, [], ◌∷◌,
  Bytes, length, drop, get_elem?, ltb, leb, ◌==◌, if◌then◌else◌, u32_mod, u64_mod,
}
use cpp2tnt.Outcome.{
  Error, Result, ok, thrown, undefined, no_data, out_of_bounds, invalid_messagepack, type_expected,
  no_right_bound, invalid_packet, partial_packet,
}
use cpp2tnt.Msgpuck.{Msgpuck, MpType, nil}

-- What a reader reads: mp_plain, mp_array or mp_map, these with their cardinality.
pub data Kind : Type 0 where
  plain : Kind
  items pairs : ℕ → Kind

-- mp_reader<MP>
pub record Reader : Type 0 where
  pub kind : Kind
  pub begin : Option ℕ
  pub end : Option ℕ
  pub position : Option ℕ
  pub ind : ℕ

-- mp_reader<mp_plain>(begin, end)
abbrev pub reader_of : Option ℕ → Option ℕ → Reader
reader_of begin end = record { kind = plain; begin = begin; end = end; position = begin; ind = 0 }

-- How many items the cardinality allows for, in the MP types that have one.
abbrev pub limit : Kind → Option ℕ
limit plain = none
limit (items n) = some n
limit (pairs n) = some (n * 2)

-- A test of an offset against a bound that may be null: no bound, no objection.
abbrev pub reaches : Option ℕ → ℕ → Bool
reaches none p = false
reaches (some e) p = leb e p

abbrev pub exceeds : Option ℕ → ℕ → Bool
exceeds none p = false
exceeds (some e) p = ltb e p

-- The type that a byte stands for, and the type of the item at an offset, if that lies in the memory.
abbrev pub type_of_byte : Msgpuck → Option ℕ → Option MpType
type_of_byte m none = none
type_of_byte m (some b) = some (m.type_of b)

abbrev pub type_at : Msgpuck → Bytes → ℕ → Option MpType
type_at m mem p = type_of_byte m (get_elem? mem p)

-- What is done with a pointer that may be null, and with a value that may be outside of the memory.
abbrev pub if_some {ℓ κ} : {A : Type ℓ} {B : Type κ} → B → (A → B) → Option A → B
if_some absent k none = absent
if_some absent k (some a) = k a

-- `mp_next` at an offset
abbrev pub next_at : Msgpuck → Bytes → ℕ → Option ℕ
next_at m mem p = if ltb p (length mem) then m.next (drop p mem) else none

-- The end of `skip`: the position behind the item, if the item does not pass the end.
move : Reader → ℕ → Option ℕ → Result Reader
move r p none = undefined
move r p (some n) =
    if exceeds r.end (p + n)
    then thrown invalid_messagepack r
    else ok (record r { position = some (p + n); ind = suc r.ind % u32_mod })

skip_at : Msgpuck → Bytes → Reader → Option ℕ → Result Reader
unfolding move
skip_at m mem r none = thrown out_of_bounds r
skip_at m mem r (some p) =
    if reaches r.end p
    then thrown out_of_bounds r
    else if reaches (limit r.kind) r.ind
    then thrown out_of_bounds r
    else move r p (next_at m mem p)

-- mp_reader::skip()
unfoldable pub skip : Msgpuck → Bytes → Reader → Result Reader
unfolding skip_at
skip m mem r = skip_at m mem r r.position

abbrev pub MpType-code : MpType → ℕ
MpType-code nil = 0
MpType-code MpType.uint = 1
MpType-code MpType.int = 2
MpType-code MpType.str = 3
MpType-code MpType.bin = 4
MpType-code MpType.array = 5
MpType-code MpType.map = 6
MpType-code MpType.bool = 7
MpType-code MpType.float = 8
MpType-code MpType.double = 9
MpType-code MpType.ext = 10

infix 50 ◌is◌
abbrev pub ◌is◌ : MpType → MpType → Bool
t is u = MpType-code t == MpType-code u

-- What is done with the type of the item at the position, by a method that wants an item there.
pub with_type : {A : Type 0} → Msgpuck → Bytes → Option ℕ → A → A → (MpType → A) → A
with_type m mem position null outside k =
    if_some null (λ p. if_some outside k (type_at m mem p)) position

-- mp_reader::skip(mp_type, bool)
unfoldable pub skip_type : Msgpuck → Bytes → MpType → Bool → Reader → Result Reader
unfolding with_type skip
skip_type m mem type nullable r = with_type m mem r.position (thrown no_data r) undefined λ t.
    if not (t is type) && not (nullable && t is nil) then thrown type_expected r else skip m mem r

-- Whether the position is not null, and before the given bound.
abbrev before : Option ℕ → ℕ → Bool
before none e = false
before (some p) e = ltb p e

abbrev is_some {ℓ} : {A : Type ℓ} → Option A → Bool
is_some none = false
is_some (some a) = true

-- mp_reader::has_next(strict); `none` is the exception where the answer is not known.
has_next_by : Bool → Reader → Option ℕ → Option ℕ → Kind → Option Bool
has_next_by strict r (some e) begin kind = some (before r.position e)
has_next_by strict r none none kind = some false
has_next_by strict r none (some b) plain = if strict then none else some true
has_next_by strict r none (some b) (items n) = some (is_some r.position && ltb r.ind n)
has_next_by strict r none (some b) (pairs n) = some (is_some r.position && ltb r.ind (n * 2))

unfoldable pub has_next : Bool → Reader → Option Bool
unfolding has_next_by
has_next strict r = has_next_by strict r r.end r.begin r.kind

-- mp_reader::rewind
unfoldable pub rewind : Reader → Reader
rewind r = record r { position = r.begin; ind = 0 }

-- What a read comes to: a value with the state behind it, an exception with the state that it
-- leaves, or undefined behaviour.
pub data Read (A : Type 0) : Type 0 where
  value : A → Reader → Read A
  failed : Error → Reader → Read A
  stuck : Read A

infixl 5 ◌>>=◌
abbrev pub ◌>>=◌ : {A B : Type 0} → Read A → (A → Reader → Read B) → Read B
value a r >>= k = k a r
failed e r >>= k = failed e r
stuck >>= k = stuck

-- A call that only moves the reader, and what is read then.
abbrev pub after : {A : Type 0} → Result Reader → (Reader → Read A) → Read A
after (ok r) k = k r
after (thrown e r) k = failed e r
after undefined k = stuck

abbrev pub if_next : {A : Type 0} → Reader → Option Bool → Read A → Read A → Read A
if_next r none absent present = failed no_right_bound r
if_next r (some false) absent present = absent
if_next r (some true) absent present = present

-- mp_reader::is_null
unfoldable pub is_null : Msgpuck → Bytes → Reader → Read Bool
unfolding has_next with_type
is_null m mem r =
    if_next r (has_next false r) (failed out_of_bounds r)
      (with_type m mem r.position stuck stuck λ t. value (t is nil) r)

-- How far a decoder has moved a pointer, by the bytes that it leaves.
abbrev pub behind : Bytes → ℕ → Bytes → ℕ
behind mem p rest = p + (length (drop p mem) - length rest)

-- The head and the body of the message at `p`, which begins with the byte `b`.
packet : Msgpuck → Bytes → Reader → ℕ → ℕ → Option ℕ → Read Reader
packet m mem r e p none = stuck
packet m mem r e p (some b) =
    let (size, rest) = m.decode_uint (drop p mem) in
    let head = behind mem p rest in
    if not (b == 0xce)
    then failed invalid_packet r
    else if ltb (e - head) size
    then failed partial_packet (record r { position = some head })
    else value (reader_of (some head) (some (head + size)))
        (record r { position = some (head + size) })

message_at : Msgpuck → Bytes → Reader → Option ℕ → Option ℕ → Read Reader
unfolding packet
message_at m mem r (some e) (some p) =
    if ltb (e - p) 5
    then value (reader_of (some p) (some p)) r
    else packet m mem r e p (get_elem? mem p)
message_at m mem r none none = value (reader_of none none) r
message_at m mem r e p = stuck

-- mp_reader::iproto_message; less than five bytes give an empty reader
unfoldable pub iproto_message : Msgpuck → Bytes → Reader → Read Reader
unfolding message_at
iproto_message m mem r = message_at m mem r r.end r.position

-- ===== src/MpWriter/Copies.antt =====
-- mp_writer.h, mp_writer.cpp: what is written of bytes that are MessagePack already, and the values that
-- `<<` puts together from others. The bytes between two pointers are a list; they lie outside of the
-- buffer that is written to.
pub mod Write
pub mod Plain
pub mod Fill
use cpp2tnt.Prelude.{
  ℕ, zero, suc, ◌+◌, ◌-◌, ◌%◌, Bool, true, false, Option, none, some, List, [], ◌∷◌, Bytes, length,
  ltb, leb, ◌==◌, not, ◌&&◌, ◌||◌, if◌then◌else◌, u32_mod, ℤ, pos, negsuc,
}
use cpp2tnt.Outcome.{
  Result, ok, thrown, undefined, ◌>>=◌, guard, on_part, no_opened_containers, no_right_bound,
  float_overflow,
}
use cpp2tnt.WtfBuffer.{Target, capacity, resize, raw}
use cpp2tnt.Msgpuck.{Msgpuck, Floating}
use cpp2tnt.MpReader.{Reader, reader_of, has_next, if_next, skip, after, Read, value, failed}
use cpp2tnt.MpReader
use cpp2tnt.MpReader.Spans.{Span, slice}
use cpp2tnt.MpWriter.{
  Container, MpWriter, set_buf, patch, increment_container_counter, put_item, put_nil, put_all,
  begin_array, finalize,
}

-- mp_raw_view: the bytes, and `cardinality()`
pub record RawView : Type 0 where
  pub bytes : Bytes
  pub cardinality : ℕ

-- Whether the storage, made larger, begins at the old address: a vector allocates a new one.
abbrev pub grows_in_place : Target → ℕ → Bytes → Bool
grows_in_place (raw (some realloc)) n old = realloc.in_place n old
grows_in_place t n old = false

-- The first lines of write(): `dst` is taken before the call of resize, so that the copy is defined
-- only where the storage has the room already, or is made larger where it is.
pub copy_bytes : Bytes → MpWriter → Result MpWriter
unfolding resize
copy_bytes bs w =
    let n = w.buf.used + length bs in
    on_part (set_buf w) (resize w.buf n) λ b.
      guard (leb n (capacity w.buf) || grows_in_place w.buf.target n w.buf.store)
        (patch w.buf.used bs (set_buf w b))

-- The loop of write() that counts the items.
pub count_rounds : ℕ → Msgpuck → Bytes → ℕ → Reader → Read ℕ
unfolding has_next skip
count_rounds zero m mem n r = MpReader.stuck
count_rounds (suc fuel) m mem n r =
    let more = after (skip m mem r) (count_rounds fuel m mem (suc n)) in
    if_next r (has_next false r) (value n r) more

abbrev pub counted : MpWriter → Read ℕ → Result MpWriter
counted w (value n r) = ok (increment_container_counter n w)
counted w (failed e r) = thrown e w
counted w MpReader.stuck = undefined

-- The reader of the bytes that are written; each item is a byte at least.
abbrev pub reader_over : Bytes → Reader
reader_over bs = reader_of (some 0) (some (length bs))

-- The rest of write(), where a container is open.
pub count_opened : Msgpuck → Bytes → ℕ → List Container → MpWriter → Result MpWriter
unfolding count_rounds
count_opened m bs n [] w = ok w
count_opened m bs n (c ∷ cs) w =
    if n == 0
    then counted w (count_rounds (suc (length bs)) m bs 0 (reader_over bs))
    else ok (increment_container_counter n w)

-- mp_writer::write
unfoldable pub write : Msgpuck → Bytes → ℕ → MpWriter → Result MpWriter
unfolding copy_bytes count_opened
write m bs n w = copy_bytes bs w >>= λ w'. count_opened m bs n w'.opened w'

-- operator<<(const mp_raw_view &)
unfoldable pub put_raw : Msgpuck → RawView → MpWriter → Result MpWriter
unfolding write
put_raw m v = write m v.bytes v.cardinality

abbrev pub top_count : List Container → ℕ
top_count [] = 0
top_count (c ∷ cs) = c.items_count

-- The loop of fill(); a round that goes on adds an item at least, unless the view says 0.
pub fill_rounds : ℕ → Msgpuck → RawView → ℕ → MpWriter → Result MpWriter
unfolding put_raw
fill_rounds zero m v target w = undefined
fill_rounds (suc fuel) m v target w =
    let more = put_raw m v w >>= fill_rounds fuel m v target in
    if ltb (top_count w.opened) target
    then (if leb (top_count w.opened + v.cardinality) target then more else ok w)
    else ok w

abbrev pub is_nil {ℓ} : {A : Type ℓ} → List A → Bool
is_nil [] = true
is_nil (x ∷ xs) = false

-- mp_writer::fill
unfoldable pub fill : Msgpuck → RawView → ℕ → MpWriter → Result MpWriter
unfolding fill_rounds
fill m v target w =
    if is_nil w.opened then thrown no_opened_containers w else fill_rounds (suc target) m v target w

-- The bytes between two pointers into a memory, if they lie inside; two null pointers have none.
abbrev pub between : Bytes → Option ℕ → Option ℕ → Option Bytes
between mem none none = some []
between mem b (some e) = if leb e (length mem) then slice mem b (some e) else none
between mem b none = none

write_between : Msgpuck → ℕ → Option Bytes → MpWriter → Result MpWriter
unfolding write
write_between m n none w = undefined
write_between m n (some bs) w = write m bs n w

-- operator<<(mp_reader<MP> &), which moves the reader behind the item that it copies
unfoldable pub put_reader : Msgpuck → Bytes → MpWriter → Reader → Result (MpWriter × Reader)
unfolding write_between skip
put_reader m mem w r =
    on_part (λ r'. (w, r')) (skip m mem r)
      λ r'.
        on_part (λ w'. (w', r')) (write_between m 1 (between mem r.position r'.position) w)
          λ w'. ok (w', r')

-- What is done by the answer of has_next(true).
abbrev pub if_more : MpWriter → Option Bool → Result MpWriter → Result MpWriter → Result MpWriter
if_more w none absent present = thrown no_right_bound w
if_more w (some false) absent present = absent
if_more w (some true) absent present = present

-- The loop of operator<<(const mp_plain &).
put_rounds : ℕ → Msgpuck → Bytes → MpWriter → Reader → Result MpWriter
unfolding put_reader has_next
put_rounds zero m mem w r = undefined
put_rounds (suc fuel) m mem w r =
    let more = on_part (λ x. x.0) (put_reader m mem w r) λ x. put_rounds fuel m mem x.0 x.1 in
    if_more w (has_next true r) (ok w) more

-- operator<<(const mp_plain &), of the items between two pointers
unfoldable pub put_plain : Msgpuck → Bytes → Option ℕ → Option ℕ → MpWriter → Result MpWriter
unfolding put_rounds
put_plain m mem begin end w = put_rounds (suc (length mem)) m mem w (reader_of begin end)

-- operator<<(const mp_span<maxN> &)
unfoldable pub put_span : Msgpuck → Bytes → Span → MpWriter → Result MpWriter
unfolding write_between
put_span m mem s w = write_between m (length s.rbounds) (between mem s.begin s.end) w

-- A `noexcept` function ends the program where an exception leaves it.
abbrev pub no_throw {ℓ} : {A : Type ℓ} → Result A → Result A
no_throw (ok a) = ok a
no_throw (thrown e a) = undefined
no_throw undefined = undefined

-- operator<<(const std::optional<T> &), with `<<` of the value as an argument
unfoldable pub put_optional {ℓ} :
    {A : Type ℓ}
    → Msgpuck
    → (A → MpWriter → Result MpWriter)
    → Option A
    → MpWriter
    → Result MpWriter
unfolding put_nil
put_optional m put_one none w = put_nil m w
put_optional m put_one (some x) w = no_throw (put_one x w)

-- operator<<(const std::tuple<Args...> &): `<<` of each of its items
unfoldable pub put_tuple : Msgpuck → List (MpWriter → Result MpWriter) → MpWriter → Result MpWriter
unfolding begin_array put_all finalize
put_tuple m puts w =
    begin_array m (length puts % u32_mod) w >>= put_all (λ put. put) puts >>= finalize m

-- operator<< of a signed integer
unfoldable pub put_int : Msgpuck → ℤ → MpWriter → Result MpWriter
unfolding put_item
put_int m (pos n) = put_item (m.encode_uint n)
put_int m (negsuc n) = put_item (m.encode_int (negsuc n))

-- The exponent of infinity and of what is no number, in a `double`
abbrev exponent_max : ℕ
exponent_max = 0x7ff

-- std::isfinite, and the comparison with std::numeric_limits<double>::min(), which is the least of the
-- positive normal numbers; no finite number is above max().
abbrev pub is_finite : Floating → Bool
is_finite d = not (d.exponent == exponent_max)

abbrev pub reaches_min : Floating → Bool
reaches_min d = not d.negative && leb 1 d.exponent

-- operator<< of a `float`, and of a `double`
unfoldable pub put_float : Msgpuck → Floating → MpWriter → Result MpWriter
unfolding put_item
put_float m d = put_item (m.encode_float d)

unfoldable pub put_double : Msgpuck → Floating → MpWriter → Result MpWriter
unfolding put_item
put_double m d w =
    if not (is_finite d) || reaches_min d
    then put_item (m.encode_double d) w
    else thrown float_overflow w

-- operator<<(const strict_uint<T> &) for the size 8
unfoldable pub put_strict_u64 : Msgpuck → ℕ → MpWriter → Result MpWriter
unfolding put_item
put_strict_u64 m n = put_item (0xcf ∷ m.store_u64 n)

-- mp_stack_writer(): a writer over an array that the object holds, which nothing makes larger
abbrev pub stack_writer : Bytes → MpWriter
stack_writer cells = record {
  opened = [];
  buf = record { target = raw none; store = cells; used = 0 };
}

-- ===== src/MpReader/Floats.antt =====
-- mp_reader.h: floating point numbers, and those that the writer has written.
use cpp2tnt.Prelude.{
  ◌+◌, ◌-◌, ◌^◌, ◌≤◌, ◌≡◌, ap, ◌∙◌, Bool, true, false, not, ◌&&◌, ◌||◌, some, [], ◌++◌, Bytes,
  length, length-append, drop, ltb, ◌==◌, if◌then◌else◌, arith,
}
use cpp2tnt.Outcome.{ok, type_expected, value_overflow, not_a_number}
use cpp2tnt.WtfBuffer.{content, capacity}
use cpp2tnt.WtfBuffer.Content.{IsValid}
use cpp2tnt.Msgpuck.{Msgpuck, MpType, Floating, float, double, ext}
use cpp2tnt.MpWriter.{MpWriter}
use cpp2tnt.MpWriter.Items.{put_item-Wrote}
use cpp2tnt.MpWriter.Copies.{is_finite, reaches_min, put_double}
use cpp2tnt.MpReader.{
  Reader, reader_of, skip, with_type, if_some, Read, value, failed, stuck, after,
}
use cpp2tnt.MpReader.Cursor.{IsItem, HasType, moved}
use cpp2tnt.MpReader.Integers.{read_by_lem}
use cpp2tnt.MpReader.RoundTrip.{Stands-last}

-- The conversions of C++: a `float` as a `double`, a `double` as a `float`, and std::from_chars.
pub data Parsed : Type 0 where
  a_number : Floating → Parsed
  no_number out_of_range : Parsed

pub record Conversions : Type 0 where
  pub widen : Floating → Floating
  pub narrow : Floating → Floating
  pub from_chars : Bytes → Parsed

-- std::numeric_limits<float>::max() and min(), in the fields of a `double`: the greatest `float`, and the
-- least one that is positive and normal.
abbrev above_float : Floating → Bool
above_float d =
    not d.negative
    && (ltb 1150 d.exponent || (d.exponent == 1150 && ltb (2 ^ 52 - 2 ^ 29) d.mantissa))

abbrev below_float : Floating → Bool
below_float d = d.negative || ltb d.exponent 897

parsed : Reader → Parsed → Read Floating
parsed r (a_number x) = value x r
parsed r no_number = failed not_a_number r
parsed r out_of_range = failed value_overflow r

-- A `double` that is read into a `float` (`single`), or into a `double`.
from_double : Conversions → Bool → Floating → Reader → Read Floating
from_double c false d r = value d r
from_double c true d r =
    if is_finite d && (above_float d || below_float d)
    then failed value_overflow r
    else value (c.narrow d) r

pub floating : Msgpuck → Conversions → Bool → Bytes → Reader → MpType → Read Floating
unfolding from_double parsed
floating m c single bs r float =
    value (if single then m.decode_float bs else c.widen (m.decode_float bs)) r
floating m c single bs r double = from_double c single (m.decode_double bs) r
floating m c single bs r ext =
    if ltb 64 (length (m.print bs)) then stuck else parsed r (c.from_chars (m.print bs))
floating m c single bs r _ = failed type_expected r

-- operator>>(T &) of a floating point type
unfoldable pub read_floating : Msgpuck → Conversions → Bool → Bytes → Reader → Read Floating
unfolding floating with_type skip
read_floating m c single mem r = after (skip m mem r) λ r'.
    with_type m mem r.position stuck stuck
      λ type. if_some stuck (λ p. floating m c single (drop p mem) r' type) r.position

module _ (m : Msgpuck) (c : Conversions) where
  -- The item is the `double` d.
  abbrev pub IsDouble : Bytes → Floating → Type 0
  IsDouble x d = HasType m double x × ((rest : Bytes) → m.decode_double (x ++ rest) ≡ d)

  -- A `double` that `<<` does not refuse is what `>>` reads into a `double` from the written bytes. It
  -- wants the room in the buffer, and that the library passes over the bytes and decodes them.
  pub read_floating-put_double :
      (d : Floating) (w : MpWriter)
      → (not (is_finite d) || reaches_min d) ≡ true
      → IsItem m (m.encode_double d)
      → IsDouble (m.encode_double d) d
      → IsValid w.buf
      → w.buf.used + length (m.encode_double d) ≤ capacity w.buf
      → (w' : MpWriter) × (put_double m d w ≡ ok w')
        × (let mem = content w'.buf in
            let r = reader_of (some (length (content w.buf))) (some (length mem)) in
            read_floating m c false mem r ≡ value d (moved r (length mem) 1))
  unfolding put_double read_floating floating
  read_floating-put_double d w taken whole (type, decodes) v room =
      let x = m.encode_double d in
      let (w', e, v', same, used, cap, opened) = put_item-Wrote w x v room in
      let mem = content w'.buf in
      let pre = content w.buf in
      let r = reader_of (some (length pre)) (some (length mem)) in
      let s = Stands-last m pre x mem same whole in
      let end : length pre + length x ≡ length mem =
        omega (arith, ap length same, length-append pre x) in
      (
        w',
        rw taken e,
        read_by_lem m mem (floating m c false) double r (length pre) 0 x [] s type
            ∙ ap (λ f. value f (moved r (length pre + length x) 1)) (decodes ([] ++ s.post))
            ∙ ap (λ p. value d (moved r p 1)) end,
      )

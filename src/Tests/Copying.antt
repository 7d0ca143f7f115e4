-- ===== src/Tests/Copying.antt =====
-- The bytes that the writer copies, and what it writes of them, at concrete inputs.
use cpp2tnt.Prelude.{
  ℕ, ◌+◌, ◌^◌, ◌≤◌, ◌<◌, ◌≡◌, refl, inl, true, false, some, List, [], ◌∷◌, ◌++◌, Bytes, length,
  replicate, arith, ℤ, negsuc,
}
use cpp2tnt.Outcome.{ok, thrown, float_overflow, raw_buffer_fixed, value_overflow}
use cpp2tnt.WtfBuffer.{WtfBuffer, content, owned}
use cpp2tnt.Msgpuck.{Floating}
use cpp2tnt.MpReader.Floats.{Conversions, no_number, read_floating, read_floating-put_double}
use cpp2tnt.MpReader.{reader_of, value, failed}
use cpp2tnt.MpReader.Cursor.{Stands, moved}
use cpp2tnt.MpReader.Values.{IntType, read_int}
use cpp2tnt.MpReader.SignedTrip.{read_int-put_int}
use cpp2tnt.MpWriter.{MpWriter, count_items}
use cpp2tnt.MpWriter.Items.{Wrote}
use cpp2tnt.MpWriter.Copies.{RawView, write, fill, put_plain, put_int, put_double, stack_writer}
use cpp2tnt.MpWriter.Copies.Plain.{put_plain-write}
use cpp2tnt.MpWriter.Copies.Fill.{fill-Wrote}
use cpp2tnt.Tests.Format.{format}

abbrev storage : Bytes → WtfBuffer
storage bs = record {
  target = owned (length bs + 24);
  store = bs ++ replicate 24 0;
  used = length bs;
}

abbrev open_with : ℕ → MpWriter
open_with n = record {
  opened = record { head_offset = 0; max_cardinality = 9; items_count = n } ∷ [];
  buf = storage (0x99 ∷ []);
}

abbrev pair_view : RawView
pair_view = record { bytes = 1 ∷ 2 ∷ []; cardinality = 2 }

fill-Wrote_example :
    Wrote 6 (fill format pair_view 8 (open_with 1)) (open_with 1) (1 ∷ 2 ∷ 1 ∷ 2 ∷ 1 ∷ 2 ∷ [])
    × (7 ≤ 8)
    × (8 < 9)
fill-Wrote_example =
    fill-Wrote format pair_view 8 (omega arith) (omega arith) (open_with 1)
      (record { head_offset = 0; max_cardinality = 9; items_count = 1 }) [] refl (omega arith)
      (record { within = omega arith; managed = refl }) (omega arith)

-- Two items behind a byte of something else: 5, and the text "ab".
abbrev two_items : List Bytes
two_items = (5 ∷ []) ∷ (0xa2 ∷ 97 ∷ 98 ∷ []) ∷ []

abbrev memory : Bytes
memory = 9 ∷ 5 ∷ 0xa2 ∷ 97 ∷ 98 ∷ 7 ∷ []

memory-Stands : Stands format memory (reader_of (some 1) (some 5)) 1 0 two_items
memory-Stands = record {
  position = refl;
  ind = refl;
  post = 7 ∷ [];
  ahead = refl;
  size = refl;
  end = refl;
  counted = inl refl;
  small = omega arith;
  all_items = ((omega arith, λ rest. refl), ((omega arith, λ rest. refl), tt));
}

put_plain-write_example :
    put_plain format memory (some 1) (some 5) (open_with 1)
    ≡ write format (5 ∷ 0xa2 ∷ 97 ∷ 98 ∷ []) 0 (open_with 1)
unfolding count_items
put_plain-write_example =
    put_plain-write format memory 1 two_items (open_with 1) memory-Stands refl (omega arith)

-- Nine bytes for an array of eight that the writer holds.
write_stack_run :
    write format (replicate 9 0) 1 (stack_writer (replicate 8 0))
    ≡ thrown raw_buffer_fixed (stack_writer (replicate 8 0))
unfolding write
write_stack_run = refl

abbrev int8 : IntType
int8 = record { signed = true; bits = 8 }

abbrev minus_five : ℤ
minus_five = negsuc 4

decode_minus_five :
    (rest : Bytes) → format.decode_int (format.encode_int minus_five ++ rest) ≡ minus_five
decode_minus_five [] = refl
decode_minus_five (c ∷ rest) = refl

read_int-put_int_example :
    (w' : MpWriter) × (put_int format minus_five (open_with 1) ≡ ok w')
    × (let mem = content w'.buf in
        let r = reader_of (some 1) (some (length mem)) in
        read_int format int8 mem r ≡ value minus_five (moved r (length mem) 1))
read_int-put_int_example =
    read_int-put_int format int8 minus_five (open_with 1) (refl, decode_minus_five)
      (omega arith, λ rest. refl) refl refl (record { within = omega arith; managed = refl })
      (omega arith)

-- The double 0.0, and -1.5, which are finite and not above the least positive number.
zero_run :
    put_double format (record { negative = false; exponent = 0; mantissa = 0 }) (open_with 1)
    ≡ thrown float_overflow (open_with 1)
unfolding put_double
zero_run = refl

negative_run :
    put_double format (record { negative = true; exponent = 1023; mantissa = 2 ^ 51 }) (open_with 1)
    ≡ thrown float_overflow (open_with 1)
unfolding put_double
negative_run = refl

abbrev one_and_half : Floating
one_and_half = record { negative = false; exponent = 1023; mantissa = 2 ^ 51 }

abbrev conversions : Conversions
conversions = record { widen = λ d. d; narrow = λ d. d; from_chars = λ bs. no_number }

read_floating-put_double_example :
    (w' : MpWriter) × (put_double format one_and_half (open_with 1) ≡ ok w')
    × (let mem = content w'.buf in
        let r = reader_of (some 1) (some (length mem)) in
        read_floating format conversions false mem r ≡ value one_and_half (moved r (length mem) 1))
read_floating-put_double_example =
    read_floating-put_double format conversions one_and_half (open_with 1) refl
      (omega arith, λ rest. refl) (refl, λ rest. refl)
      (record { within = omega arith; managed = refl }) (omega arith)

-- -1.5 as a double, into a float.
abbrev minus_double : Bytes
minus_double = format.encode_double (record { negative = true; exponent = 1023; mantissa = 2 ^ 51 })

into_float_run :
    read_floating format conversions true minus_double (reader_of (some 0) (some 9))
    ≡ failed value_overflow (moved (reader_of (some 0) (some 9)) 9 1)
unfolding read_floating
into_float_run = refl

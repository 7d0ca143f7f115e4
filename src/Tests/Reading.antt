-- ===== src/Tests/Reading.antt =====
-- The MessagePack reader at concrete inputs.
use cpp2tnt.Prelude.{
  ℕ, ◌-◌, ◌≡◌, refl, inl, true, false, Option, none, some, List, [], ◌∷◌, ◌++◌, Bytes, take, length,
  arith, ℤ, pos, negsuc, inr, ◌^◌,
}
use cpp2tnt.Outcome.{ok, thrown, undefined, out_of_bounds, partial_packet, value_overflow}
use cpp2tnt.WtfBuffer.{content}
use cpp2tnt.MpWriter.{MpWriter, put_vector, put_uint}
use cpp2tnt.MpReader.{
  Reader, reader_of, has_next, skip, Read, value, failed, stuck, pairs, iproto_message,
}
use cpp2tnt.MpReader.Cursor.{Stands, concat, has_next-Stands, skip-Stands, skip-Stands_end, moved}
use cpp2tnt.MpReader.Integers.{InRange, IsInt, read_int-InRange, read_int-negative}
use cpp2tnt.MpReader.RoundTrip.{uint64, read_u64, read_vector-put_vector}
use cpp2tnt.MpReader.Values.{read_int, read_vector}
use cpp2tnt.MpReader.Lookup.{Plain, find, number}
use cpp2tnt.MpReader.Lookup.Find.{Entry, items_of, find-lookup}
use cpp2tnt.MpReader.Spans.{Span, read_span, sub, item, slice}
use cpp2tnt.MpReader.Spans.Items.{item_or_nil, read_span-item}
use cpp2tnt.MpReader.Packets.{AtPacket, iproto_message-whole, iproto_message-partial}
use cpp2tnt.Connection.Receive.Framing.{frame}
use cpp2tnt.Tests.Format.{format}
use cpp2tnt.Tests.Format.Laws.{format-ArrayLaws, format-Uint32Laws}
use cpp2tnt.Tests.Writing.{holding}

-- Three items: a number, a string, an array.
abbrev three : List Bytes
three = (7 ∷ []) ∷ (0xa2 ∷ 65 ∷ 66 ∷ []) ∷ (0x92 ∷ 1 ∷ 2 ∷ []) ∷ []

abbrev memory : Bytes
memory = 0xc0 ∷ (concat three ++ 9 ∷ [])

abbrev reader : Reader
reader = reader_of (some 1) (some 8)

reader-Stands : Stands format memory reader 1 0 three
reader-Stands = record {
  position = refl;
  ind = refl;
  post = 9 ∷ [];
  ahead = refl;
  size = refl;
  end = refl;
  counted = inl refl;
  small = omega arith;
  all_items = (
    (omega arith, λ rest. refl),
    ((omega arith, λ rest. refl), ((omega arith, λ rest. refl), tt)),
  );
}

has_next-Stands_example : has_next true reader ≡ some true
has_next-Stands_example = has_next-Stands format memory true reader 1 0 three reader-Stands

-- The reader that has no items left.
last-Stands : Stands format memory (moved reader 8 3) 8 3 []
last-Stands = record {
  position = refl;
  ind = refl;
  post = 9 ∷ [];
  ahead = refl;
  size = refl;
  end = refl;
  counted = inl refl;
  small = omega arith;
  all_items = tt;
}

skip-Stands_example :
    (skip format memory reader ≡ ok (moved reader 2 1))
    × Stands format memory (moved reader 2 1) 2 1 ((0xa2 ∷ 65 ∷ 66 ∷ []) ∷ (0x92 ∷ 1 ∷ 2 ∷ []) ∷ [])
skip-Stands_example =
    skip-Stands format memory reader 1 0 (7 ∷ []) ((0xa2 ∷ 65 ∷ 66 ∷ []) ∷ (0x92 ∷ 1 ∷ 2 ∷ []) ∷ [])
      reader-Stands

skip-Stands_end_example :
    skip format memory (moved reader 8 3) ≡ thrown out_of_bounds (moved reader 8 3)
skip-Stands_end_example = skip-Stands_end format memory (moved reader 8 3) 8 3 last-Stands

-- 300 in one byte.
read_int-InRange_example :
    InRange
      (record { signed = false; bits = 8 })
      (read_int format
        (record { signed = false; bits = 8 })
        (0xcd ∷ 1 ∷ 44 ∷ [])
        (reader_of (some 0) (some 3)))
read_int-InRange_example =
    read_int-InRange format (record { signed = false; bits = 8 }) (0xcd ∷ 1 ∷ 44 ∷ [])
      (reader_of (some 0) (some 3))

read_int-InRange_run :
    read_int format
      (record { signed = false; bits = 8 })
      (0xcd ∷ 1 ∷ 44 ∷ [])
      (reader_of (some 0) (some 3))
    ≡ failed value_overflow (moved (reader_of (some 0) (some 3)) 3 1)
unfolding read_int
read_int-InRange_run = refl

-- -2 as a `uint64_t`
minus_two : Stands format (0xfe ∷ []) (reader_of (some 0) (some 1)) 0 0 ((0xfe ∷ []) ∷ [])
minus_two = record {
  position = refl;
  ind = refl;
  post = [];
  ahead = refl;
  size = refl;
  end = refl;
  counted = inl refl;
  small = omega arith;
  all_items = ((omega arith, λ rest. refl), tt);
}

minus_two_IsInt : IsInt format (0xfe ∷ []) (negsuc 1)
minus_two_IsInt = (refl, decodes)
  where
    decodes : (rest : Bytes) → format.decode_int (0xfe ∷ rest) ≡ negsuc 1
    decodes [] = refl
    decodes (c ∷ cs) = refl

read_int-negative_example :
    read_int format uint64 (0xfe ∷ []) (reader_of (some 0) (some 1))
    ≡ value (pos (2 ^ 64 - 2)) (moved (reader_of (some 0) (some 1)) 1 1)
read_int-negative_example =
    read_int-negative format (0xfe ∷ []) uint64 1 (reader_of (some 0) (some 1)) 0 0 (0xfe ∷ []) []
      refl (omega arith) (omega arith) minus_two minus_two_IsInt

abbrev entry : ℤ → ℕ → Bytes → Entry
entry k b v = record { key = k; key_bytes = b ∷ []; value_bytes = v }

abbrev entries : List Entry
entries = entry (pos 5) 5 (0xc3 ∷ []) ∷ entry (negsuc 1) 0xfe (0x92 ∷ 1 ∷ 2 ∷ []) ∷ []

abbrev map_reader : Reader
map_reader = record (reader_of (some 1) (some 7)) { kind = pairs 2 }

entries-Stands :
    Stands format
      (0x82 ∷ concat (items_of entries))
      (reader_of (some 1) (some 7))
      1
      0
      (items_of entries)
entries-Stands = record {
  position = refl;
  ind = refl;
  post = [];
  ahead = refl;
  size = refl;
  end = refl;
  counted = inl refl;
  small = omega arith;
  all_items = (
    (omega arith, λ rest. refl),
    ((omega arith, λ rest. refl), ((omega arith, λ rest. refl), ((omega arith, λ rest. refl), tt))),
  );
}

find-lookup_example :
    (res : Plain) × (find format (0x82 ∷ concat (items_of entries)) (number (negsuc 1)) map_reader
      ≡ value res map_reader)
    × (slice (0x82 ∷ concat (items_of entries)) res.0 res.1 ≡ some (0x92 ∷ 1 ∷ 2 ∷ []))
find-lookup_example =
    find-lookup format (0x82 ∷ concat (items_of entries)) (negsuc 1) entries 1 7 map_reader refl
      refl refl (inl (5, refl, (refl, λ rest. refl)), (inr minus_two_IsInt, tt)) entries-Stands

-- Room for two items, and three are there.
read_span-item_example :
    (s : Span) × (r' : Reader) × (read_span 2 format memory reader ≡ value s r')
    × (s.end ≡ r'.position)
    × ((j : ℕ) → item memory j s ≡ some (item_or_nil j (take 2 three)))
read_span-item_example = read_span-item memory format 2 1 0 reader three reader-Stands (omega arith)

-- A span of a span: its second item is not the one that stands there.
abbrev sub_of_sub : Read Span → Option Bytes
sub_of_sub (value s r) = elim (sub 3 1 2 s) [
  | ok s' ↦ item memory 0 s'
  | thrown e s' ↦ none
  | undefined ↦ none
]
sub_of_sub (failed e r) = none
sub_of_sub stuck = none

sub_of_sub_run : sub_of_sub (read_span 3 format memory reader) ≡ some (0xa2 ∷ 65 ∷ 66 ∷ 0x92 ∷ [])
unfolding read_span item sub
sub_of_sub_run = refl

abbrev packets : Bytes
packets = frame format (1 ∷ 2 ∷ []) ++ frame format (3 ∷ [])

packets-AtPacket :
    AtPacket format format-Uint32Laws packets
      (reader_of (some 0) (some 13))
      0
      13
      (1 ∷ 2 ∷ [])
      (frame format (3 ∷ []))
packets-AtPacket = record { position = refl; end = refl; ahead = refl; small = omega arith }

iproto_message-whole_example :
    (body' : Reader) × (iproto_message format packets (reader_of (some 0) (some 13))
      ≡ value body' (record (reader_of (some 0) (some 13)) { position = some 7 }))
    × (slice packets body'.begin body'.end ≡ some (1 ∷ 2 ∷ []))
    × (body'.position ≡ body'.begin)
iproto_message-whole_example =
    iproto_message-whole format format-Uint32Laws packets (reader_of (some 0) (some 13)) 0 13
      (1 ∷ 2 ∷ []) (frame format (3 ∷ [])) packets-AtPacket (omega arith)

cut-AtPacket :
    AtPacket format format-Uint32Laws packets
      (reader_of (some 0) (some 6))
      0
      6
      (1 ∷ 2 ∷ [])
      (frame format (3 ∷ []))
cut-AtPacket = record { position = refl; end = refl; ahead = refl; small = omega arith }

iproto_message-partial_example :
    iproto_message format packets (reader_of (some 0) (some 6))
    ≡ failed partial_packet (record (reader_of (some 0) (some 6)) { position = some 5 })
iproto_message-partial_example =
    iproto_message-partial format format-Uint32Laws packets (reader_of (some 0) (some 6)) 0 6
      (1 ∷ 2 ∷ []) (frame format (3 ∷ [])) cut-AtPacket (omega arith) (omega arith)

abbrev writer : MpWriter
writer = record { opened = []; buf = holding (7 ∷ []) }

read_vector-put_vector_example :
    (w' : MpWriter) × (put_vector format (put_uint format) (1 ∷ 200 ∷ []) writer ≡ ok w')
    × (let mem = content w'.buf in
        let r = reader_of (some 1) (some (length mem)) in
        read_vector format mem (read_u64 format mem) r
        ≡ value (1 ∷ 200 ∷ []) (moved r (length mem) 1))
read_vector-put_vector_example =
    read_vector-put_vector format format-ArrayLaws (1 ∷ 200 ∷ []) writer (omega arith)
      (
        ((omega arith, λ rest. refl), (refl, λ rest. refl), omega arith),
        (((omega arith, λ rest. refl), (refl, λ rest. refl), omega arith), tt),
      )
      (omega arith, λ rest. refl) (record { within = omega arith; managed = refl }) (omega arith)
      (omega arith)

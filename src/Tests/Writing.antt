-- ===== src/Tests/Writing.antt =====
-- The MessagePack writer at concrete inputs.
use cpp2tnt.Prelude.{ℕ, ◌+◌, ◌≡◌, refl, inl, [], ◌∷◌, ◌++◌, Bytes, length, replicate, arith}
use cpp2tnt.Outcome.{ok, thrown, array_header_exceeded, odd_map_items}
use cpp2tnt.WtfBuffer.{WtfBuffer, poke, owned, content}
use cpp2tnt.WtfBuffer.Content.{IsValid}
use cpp2tnt.MpWriter.{
  Container, MpWriter, finalize, put_uint, put_vector, put_map, get_state, set_state,
}
use cpp2tnt.MpWriter.Header.{Fixed}
use cpp2tnt.MpWriter.Finalize.{
  Open, finalize-array, finalize-map, finalize-exceeded, finalize-refused,
}
use cpp2tnt.MpWriter.Items.{Wrote, put_uint-Writes}
use cpp2tnt.MpWriter.Containers.{put_vector-Writes, put_map-Writes}
use cpp2tnt.MpWriter.Undo.{set_state-get_state}
use cpp2tnt.Tests.Format.{format}
use cpp2tnt.Tests.Format.Laws.{format-ArrayLaws, format-MapLaws}

-- A buffer of 40 bytes that begins with `bs`.
abbrev pub holding : Bytes → WtfBuffer
holding bs = record {
  target = owned (length bs + 40);
  store = bs ++ replicate 40 0;
  used = length bs;
}

abbrev container : ℕ → ℕ → Container
container n items = record { head_offset = 1; max_cardinality = n; items_count = items }

-- One container is open, behind a byte of something else.
abbrev filling : Bytes → ℕ → ℕ → MpWriter
filling bs n items = record { opened = container n items ∷ []; buf = holding bs }

abbrev array_of_two : MpWriter
array_of_two = filling (7 ∷ 0x95 ∷ 1 ∷ 2 ∷ []) 5 2

array_of_two-Open : Open format.encode_array array_of_two (container 5 2) [] (7 ∷ []) (1 ∷ 2 ∷ [])
array_of_two-Open = record {
  innermost = refl;
  offset = refl;
  bytes = refl;
  small = omega arith;
  counted = omega arith;
  valid = record { within = omega arith; managed = refl };
}

finalize-array_example :
    Fixed format format-ArrayLaws
      (record array_of_two { opened = [] })
      (7 ∷ [])
      5
      2
      (1 ∷ 2 ∷ [])
      (finalize format array_of_two)
finalize-array_example =
    finalize-array format format-ArrayLaws array_of_two (container 5 2) [] (7 ∷ []) (1 ∷ 2 ∷ [])
      array_of_two-Open (inl (omega arith))

-- What came of it: the header says two.
finalize-array_run :
    finalize format array_of_two
    ≡ ok (record { opened = []; buf = holding (7 ∷ 0x92 ∷ 1 ∷ 2 ∷ []) })
unfolding finalize poke
finalize-array_run = refl

abbrev map_of_one : MpWriter
map_of_one = filling (7 ∷ 0x83 ∷ 1 ∷ 2 ∷ []) 3 2

finalize-map_example :
    Fixed format format-MapLaws
      (record map_of_one { opened = [] })
      (7 ∷ [])
      3
      1
      (1 ∷ 2 ∷ [])
      (finalize format map_of_one)
finalize-map_example =
    finalize-map format format-MapLaws map_of_one (container 3 2) [] (7 ∷ []) (1 ∷ 2 ∷ [])
      (record {
        innermost = refl;
        offset = refl;
        bytes = refl;
        small = omega arith;
        counted = omega arith;
        valid = record { within = omega arith; managed = refl };
      })
      refl (inl (omega arith))

-- Sixteen items where one was announced.
abbrev many : Bytes
many = replicate 16 1

finalize-exceeded_example :
    finalize format (filling (7 ∷ 0x91 ∷ many) 1 16)
    ≡ thrown array_header_exceeded (record (filling (7 ∷ 0x91 ∷ many) 1 16) { opened = [] })
finalize-exceeded_example =
    finalize-exceeded format format-ArrayLaws (filling (7 ∷ 0x91 ∷ many) 1 16) (container 1 16) []
      (7 ∷ []) many
      (record {
        innermost = refl;
        offset = refl;
        bytes = refl;
        small = omega arith;
        counted = omega arith;
        valid = record { within = omega arith; managed = refl };
      })
      (omega arith)

finalize-refused_example :
    finalize format (filling (7 ∷ 0x81 ∷ 1 ∷ []) 1 1)
    ≡ thrown odd_map_items (record (filling (7 ∷ 0x81 ∷ 1 ∷ []) 1 1) { opened = [] })
finalize-refused_example =
    finalize-refused format format-MapLaws (filling (7 ∷ 0x81 ∷ 1 ∷ []) 1 1) (container 1 1) []
      (7 ∷ []) (1 ∷ [])
      (record {
        innermost = refl;
        offset = refl;
        bytes = refl;
        small = omega arith;
        counted = omega arith;
        valid = record { within = omega arith; managed = refl };
      })
      (inl refl)

-- A vector of two in an open array, and a map of one entry.
put_vector-Writes_example :
    Wrote 1
      (put_vector format (put_uint format) (5 ∷ 200 ∷ []) array_of_two)
      array_of_two
      (0x92 ∷ 5 ∷ 0xcc ∷ 200 ∷ [])
put_vector-Writes_example =
    put_vector-Writes format format-ArrayLaws 0 (λ n. Unit) format.encode_uint (put_uint format)
      (put_uint-Writes format) (5 ∷ 200 ∷ []) array_of_two (omega arith, (tt, (tt, tt)))
      array_of_two-Open.valid (omega arith) (omega arith)

put_map-Writes_example :
    Wrote 1
      (put_map format (put_uint format) (put_uint format) ((1, 300) ∷ []) array_of_two)
      array_of_two
      (0x81 ∷ 1 ∷ 0xcd ∷ 1 ∷ 44 ∷ [])
put_map-Writes_example =
    put_map-Writes format format-MapLaws 0 0 (λ n. Unit) (λ n. Unit) format.encode_uint
      format.encode_uint (put_uint format) (put_uint format) (put_uint-Writes format)
      (put_uint-Writes format) ((1, 300) ∷ []) array_of_two (omega arith, ((tt, tt), tt))
      array_of_two-Open.valid (omega arith) (omega arith)

-- The two bytes behind 7 and the header are undone.
set_state-get_state_example :
    (w'' : MpWriter) × (set_state (get_state (filling (7 ∷ 0x95 ∷ []) 5 0)) array_of_two ≡ ok w'')
    × IsValid w''.buf
    × (content w''.buf ≡ 7 ∷ 0x95 ∷ [])
    × (w''.opened ≡ container 5 0 ∷ [])
set_state-get_state_example =
    set_state-get_state (filling (7 ∷ 0x95 ∷ []) 5 0) array_of_two (1 ∷ 2 ∷ [])
      (record { within = omega arith; managed = refl }) array_of_two-Open.valid refl

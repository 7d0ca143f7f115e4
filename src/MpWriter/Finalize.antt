-- ===== src/MpWriter/Finalize.antt =====
-- mp_writer.cpp: `finalize` on the innermost container.
use cpp2tnt.Prelude.{
  ℕ, ◌*◌, ◌/◌, ◌%◌, ◌≤◌, ◌<◌, ◌≡◌, ◌⊎◌, inl, inr, Bool-cases, List, ◌∷◌, ◌++◌, Bytes, length, ◌==◌,
  if◌then◌else◌, u32_mod, arith, ==_refl, ==_ne, lt→ltb,
}
use cpp2tnt.Outcome.{ok, thrown, array_header_exceeded, map_header_exceeded, odd_map_items}
use cpp2tnt.WtfBuffer.{content}
use cpp2tnt.WtfBuffer.Content.{IsValid}
use cpp2tnt.Msgpuck.{Msgpuck, MpType, array, map}
use cpp2tnt.Msgpuck.Laws.{HeaderLaws}
use cpp2tnt.MpWriter.{Container, MpWriter, fix_header, close_as, finalize}
use cpp2tnt.MpWriter.Header.{Fixed, fix_header-Fixed, header_at}

-- The innermost open container: its header stands behind `pre`, with `body` behind it.
pub record Open (encode : ℕ → Bytes) (w : MpWriter) (c : Container) (rest : List Container)
    (pre body : Bytes) : Type 0 where
  pub innermost : w.opened ≡ c ∷ rest
  pub offset : c.head_offset ≡ length pre
  pub bytes : content w.buf ≡ pre ++ (encode c.max_cardinality ++ body)
  pub small : c.max_cardinality < u32_mod
  pub counted : c.items_count < u32_mod
  pub valid : IsValid w.buf

module _ (m : Msgpuck) where
  abbrev pub ArrayLaws : Type 0
  ArrayLaws = HeaderLaws m array m.encode_array m.sizeof_array m.decode_array

  abbrev pub MapLaws : Type 0
  MapLaws = HeaderLaws m map m.encode_map m.sizeof_map m.decode_map

  finalize_opened :
      {t : MpType} {encode : ℕ → Bytes} {sizeof : ℕ → ℕ} {decode : Bytes → ℕ × Bytes}
      (laws : HeaderLaws m t encode sizeof decode) (w : MpWriter) (c : Container)
      (rest : List Container) (pre body : Bytes)
      → Open encode w c rest pre body
      → finalize m w ≡ close_as m t c (record w { opened = rest })
  unfolding finalize
  finalize_opened laws w c rest pre body o =
      let (b, at, ty) = header_at m laws w pre body c.max_cardinality o.valid o.bytes in
      rw (o.innermost, o.offset, at, ty)

  -- A container that holds what it announced keeps its header.
  pub finalize-array_exact :
      (laws : ArrayLaws) (w : MpWriter) (c : Container) (rest : List Container) (pre body : Bytes)
      → Open m.encode_array w c rest pre body
      → c.items_count ≡ c.max_cardinality
      → finalize m w ≡ ok (record w { opened = rest })
  unfolding close_as fix_header
  finalize-array_exact laws w c rest pre body o e =
      rw (finalize_opened laws w c rest pre body o, ==_refl c.items_count c.max_cardinality e)

  pub finalize-map_exact :
      (laws : MapLaws) (w : MpWriter) (c : Container) (rest : List Container) (pre body : Bytes)
      → Open m.encode_map w c rest pre body
      → c.items_count ≡ 2 * c.max_cardinality
      → finalize m w ≡ ok (record w { opened = rest })
  unfolding close_as fix_header
  finalize-map_exact laws w c rest pre body o e =
      let even : c.items_count % 2 ≡ 0 = omega (arith, e) in
      let pairs : c.items_count / 2 ≡ c.max_cardinality = omega (arith, e) in
      rw (
        finalize_opened laws w c rest pre body o,
        even,
        ==_refl (c.items_count / 2) c.max_cardinality pairs,
      )

  -- `finalize` of an array mends the header in place: the bytes before and behind it stay, it takes
  -- as many bytes as before, and reads back as the number of items that were written. It wants a
  -- number that is at most the announced one or has no wider header.
  pub finalize-array :
      (laws : ArrayLaws) (w : MpWriter) (c : Container) (rest : List Container) (pre body : Bytes)
      → Open m.encode_array w c rest pre body
      → (c.items_count ≤ c.max_cardinality)
        ⊎ (m.sizeof_array c.items_count ≤ m.sizeof_array c.max_cardinality)
      → Fixed m laws
          (record w { opened = rest })
          pre
          c.max_cardinality
          c.items_count
          body
          (finalize m w)
  unfolding close_as
  finalize-array laws w c rest pre body o fits = rw (finalize_opened laws w c rest pre body o) (
      fix_header-Fixed m laws array_header_exceeded c c.items_count (record w { opened = rest }) pre
        body o.valid o.offset o.bytes o.small o.counted fits)

  -- The same for a map, which counts its pairs: it wants an even number of items.
  pub finalize-map :
      (laws : MapLaws) (w : MpWriter) (c : Container) (rest : List Container) (pre body : Bytes)
      → Open m.encode_map w c rest pre body
      → c.items_count % 2 ≡ 0
      → (c.items_count / 2 ≤ c.max_cardinality)
        ⊎ (m.sizeof_map (c.items_count / 2) ≤ m.sizeof_map c.max_cardinality)
      → Fixed m laws
          (record w { opened = rest })
          pre
          c.max_cardinality
          (c.items_count / 2)
          body
          (finalize m w)
  unfolding close_as
  finalize-map laws w c rest pre body o even fits =
      rw (finalize_opened laws w c rest pre body o, even)
        (fix_header-Fixed m laws map_header_exceeded c (c.items_count / 2)
          (record w { opened = rest }) pre body o.valid o.offset o.bytes o.small
          (omega (arith, o.counted)) fits)

  -- An array with more items than announced, whose header would be wider, is refused; the array is
  -- popped all the same.
  pub finalize-exceeded :
      (laws : ArrayLaws) (w : MpWriter) (c : Container) (rest : List Container) (pre body : Bytes)
      → Open m.encode_array w c rest pre body
      → m.sizeof_array c.max_cardinality < m.sizeof_array c.items_count
      → finalize m w ≡ thrown array_header_exceeded (record w { opened = rest })
  unfolding close_as fix_header
  finalize-exceeded laws w c rest pre body o wider =
      let more : c.max_cardinality < c.items_count =
        ground (arith, laws.mono c.items_count c.max_cardinality) in
      rw (
        finalize_opened laws w c rest pre body o,
        ==_ne c.items_count c.max_cardinality (omega arith),
        lt→ltb c.max_cardinality c.items_count more,
        lt→ltb (m.sizeof_array c.max_cardinality) (m.sizeof_array c.items_count) wider,
      )

  -- A map with an odd number of items is refused, and one with more pairs than announced whose header
  -- would be wider; the map is popped all the same.
  pub finalize-refused :
      (laws : MapLaws) (w : MpWriter) (c : Container) (rest : List Container) (pre body : Bytes)
      → Open m.encode_map w c rest pre body
      → (c.items_count % 2 ≡ 1)
        ⊎ (m.sizeof_map c.max_cardinality < m.sizeof_map (c.items_count / 2))
      → finalize m w
        ≡ thrown
            (if c.items_count % 2 == 1 then odd_map_items else map_header_exceeded)
            (record w { opened = rest })
  unfolding close_as fix_header
  finalize-refused laws w c rest pre body o why =
      rw (finalize_opened laws w c rest pre body o) (elim (Bool-cases (c.items_count % 2 == 1)) [
        | inl odd ↦ rw odd
        | inr even ↦
            let wider : m.sizeof_map c.max_cardinality < m.sizeof_map (c.items_count / 2) =
              ground (arith, why, even) in
            let more : c.max_cardinality < c.items_count / 2 =
              ground (arith, laws.mono (c.items_count / 2) c.max_cardinality) in
            rw (
              even,
              ==_ne (c.items_count / 2) c.max_cardinality (omega arith),
              lt→ltb c.max_cardinality (c.items_count / 2) more,
              lt→ltb (m.sizeof_map c.max_cardinality) (m.sizeof_map (c.items_count / 2)) wider,
            )
      ])

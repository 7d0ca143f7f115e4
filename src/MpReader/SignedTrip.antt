-- ===== src/MpReader/SignedTrip.antt =====
-- mp_writer.h and mp_reader.h: the signed integers and the optional values that one writes and the other
-- reads.
use cpp2tnt.Prelude.{
  ℕ, ◌+◌, ◌≤◌, ◌≡◌, refl, ap, ◌∙◌, true, some, List, [], ◌∷◌, Bytes, length, length-append, arith,
  ℤ, pos, negsuc, leb_ℤ, and-eq_true,
}
use cpp2tnt.Outcome.{ok}
use cpp2tnt.WtfBuffer.{content, capacity}
use cpp2tnt.WtfBuffer.Content.{IsValid}
use cpp2tnt.Msgpuck.{Msgpuck}
use cpp2tnt.MpWriter.{MpWriter, put_item}
use cpp2tnt.MpWriter.Items.{put_item-Wrote}
use cpp2tnt.MpWriter.Copies.{put_int}
use cpp2tnt.MpReader.{Reader, reader_of, value}
use cpp2tnt.MpReader.Values.{IntType, read_int, in_range, converted, int_max, int_min}
use cpp2tnt.MpReader.Cursor.{Stands, IsItem, moved}
use cpp2tnt.MpReader.Integers.{IsUint, IsInt, read_int-Uint, read_int-Int}
use cpp2tnt.MpReader.RoundTrip.{Stands-last}

module _ (m : Msgpuck) where
  -- What the library writes of an integer, and that it decodes it again.
  abbrev pub encode_signed : ℤ → Bytes
  encode_signed (pos n) = m.encode_uint n
  encode_signed (negsuc n) = m.encode_int (negsuc n)

  abbrev pub Decodes : ℤ → Type 0
  Decodes (pos n) = IsUint m (m.encode_uint n) n
  Decodes (negsuc n) = IsInt m (m.encode_int (negsuc n)) (negsuc n)

  put_int_lem : (z : ℤ) (w : MpWriter) → put_int m z w ≡ put_item (encode_signed z) w
  unfolding put_int
  put_int_lem (pos n) w = refl
  put_int_lem (negsuc n) w = refl

  read_int-signed :
      (mem : Bytes) (t : IntType) (z : ℤ) (r : Reader) (p i : ℕ) (xs : List Bytes)
      → Stands m mem r p i (encode_signed z ∷ xs)
      → Decodes z
      → converted t z ≡ z
      → in_range t z ≡ true
      → read_int m t mem r ≡ value z (moved r (p + length (encode_signed z)) (i + 1))
  read_int-signed mem t (pos n) r p i xs s d same fits =
      let (above, below) =
        and-eq_true (leb_ℤ (pos n) (int_max t)) (leb_ℤ (int_min t) (pos n)) fits in
      read_int-Uint m mem t n r p i (m.encode_uint n) xs s d ∙ rw above refl
  read_int-signed mem t (negsuc n) r p i xs s d same fits =
      read_int-Int m mem t (negsuc n) r p i (m.encode_int (negsuc n)) xs s d
      ∙ rw same (rw fits refl)

  -- An integer that `<<` writes is what `>>` reads from the written bytes, in every type that has room
  -- for it (and is not `uint64_t`, if it is negative). It wants the room in the buffer, and that the
  -- library passes over the bytes as an item and decodes them.
  pub read_int-put_int :
      (t : IntType) (z : ℤ) (w : MpWriter)
      → Decodes z
      → IsItem m (encode_signed z)
      → converted t z ≡ z
      → in_range t z ≡ true
      → IsValid w.buf
      → w.buf.used + length (encode_signed z) ≤ capacity w.buf
      → (w' : MpWriter) × (put_int m z w ≡ ok w')
        × (let mem = content w'.buf in
            let r = reader_of (some (length (content w.buf))) (some (length mem)) in
            read_int m t mem r ≡ value z (moved r (length mem) 1))
  read_int-put_int t z w d whole same fits v room =
      let (w', e, v', is, used, cap, opened) = put_item-Wrote w (encode_signed z) v room in
      let mem = content w'.buf in
      let pre = content w.buf in
      let r = reader_of (some (length pre)) (some (length mem)) in
      let end : length pre + length (encode_signed z) ≡ length mem =
        omega (arith, ap length is, length-append pre (encode_signed z)) in
      (
        w',
        put_int_lem z w ∙ e,
        read_int-signed mem t z r (length pre) 0 []
              (Stands-last m pre (encode_signed z) mem is whole) d same fits
            ∙ ap (λ p. value z (moved r p 1)) end,
      )

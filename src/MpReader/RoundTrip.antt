-- ===== src/MpReader/RoundTrip.antt =====
-- mp_writer.h and mp_reader.h: what one writes the other reads.
use cpp2tnt.Prelude.{
  ℕ, ◌+◌, ◌-◌, ◌≤◌, ◌<◌, ◌≡◌, refl, sym, ap, ◌∙◌, inl, true, false, some, List, [], ◌∷◌, ◌++◌,
  append-nil, Bytes, length, length-append, drop, drop-append, u32_mod, u64_mod, arith, ℤ, pos,
  pos_part, leb_ℤ, le→leb,
}
use cpp2tnt.Outcome.{ok}
use cpp2tnt.WtfBuffer.{content, capacity}
use cpp2tnt.WtfBuffer.Content.{IsValid}
use cpp2tnt.Msgpuck.{Msgpuck}
use cpp2tnt.MpWriter.{MpWriter, put_vector, put_uint, stack_size}
use cpp2tnt.MpWriter.Finalize.{ArrayLaws}
use cpp2tnt.MpWriter.Items.{AllFit, put_uint-Writes}
use cpp2tnt.MpWriter.Containers.{encode_vector, put_vector-Writes}
use cpp2tnt.MpReader.{Reader, reader_of, Read, value, ◌>>=◌}
use cpp2tnt.MpReader.Values.{IntType, read_int, read_vector}
use cpp2tnt.MpReader.Cursor.{Stands, AllItems, IsItem, moved}
use cpp2tnt.MpReader.Integers.{IsUint, read_int-Uint}
use cpp2tnt.MpReader.Vectors.{ReadsAs, AllRead, encoded, read_vector-Stands}

abbrev pub uint64 : IntType
uint64 = record { signed = false; bits = 64 }

-- operator>>(uint64_t &), whose values are natural numbers
abbrev pub read_u64 : Msgpuck → Bytes → Reader → Read ℕ
read_u64 m mem r = read_int m uint64 mem r >>= λ z. value (pos_part z)

module _ (m : Msgpuck) where
  -- The library encodes each of the numbers as an unsigned integer that it decodes.
  abbrev pub AllUints : List ℕ → Type 0
  AllUints [] = Unit
  AllUints (n ∷ ns) =
      (IsItem m (m.encode_uint n) × IsUint m (m.encode_uint n) n × (n < u64_mod)) × AllUints ns

  module _ (mem : Bytes) where
    read_u64-ReadsAs :
        (n : ℕ)
        → IsUint m (m.encode_uint n) n
        → n < u64_mod
        → ReadsAs m mem m.encode_uint (read_u64 m mem) n
    read_u64-ReadsAs n u small r p i xs s =
        let fits : leb_ℤ (pos n) (pos (u64_mod - 1)) ≡ true = le→leb (n + 0) _ (omega arith) in
        let r' = moved r (p + length (m.encode_uint n)) (i + 1) in
        let read : read_int m uint64 mem r ≡ value (pos n) r' =
          read_int-Uint m mem uint64 n r p i (m.encode_uint n) xs s u ∙ rw fits in
        ap (λ (x : Read ℤ). x >>= λ z. value (pos_part z)) read

    all_read : (ns : List ℕ) → AllUints ns → AllRead m mem m.encode_uint (read_u64 m mem) ns
    all_read [] h = tt
    all_read (n ∷ ns) h = (read_u64-ReadsAs n h.0.1 h.0.2, all_read ns h.1)

  all_items :
      (mem : Bytes) (ns : List ℕ)
      → AllUints ns
      → AllItems m (encoded m mem m.encode_uint (read_u64 m mem) ns)
  all_items mem [] h = tt
  all_items mem (n ∷ ns) h = (h.0.0, all_items mem ns h.1)

  -- A reader of the last bytes of a memory, which are one item.
  pub Stands-last :
      (pre x mem : Bytes)
      → mem ≡ pre ++ x
      → IsItem m x
      → Stands m mem (reader_of (some (length pre)) (some (length mem))) (length pre) 0 (x ∷ [])
  Stands-last pre x mem e h = record {
    position = refl;
    ind = refl;
    post = [];
    ahead =
        ap (drop (length pre)) e
        ∙ drop-append pre x (length pre) refl
        ∙ sym (append-nil x)
        ∙ sym (append-nil (x ++ []));
    size = omega (arith, ap length e, length-append pre x, length-append x []);
    end = ap some (omega (arith, ap length e, length-append pre x, length-append x []));
    counted = inl refl;
    small = omega arith;
    all_items = (h, tt);
  }

  -- A vector of `uint64_t` that `<<` writes is what `>>` reads from the written bytes, and the reader is
  -- then at their end. It wants the room and the places for the writer, and numbers and an array that
  -- the library passes over as items.
  pub read_vector-put_vector :
      (laws : ArrayLaws m) (xs : List ℕ) (w : MpWriter)
      → length xs < u32_mod
      → AllUints xs
      → IsItem m (encode_vector m m.encode_uint xs)
      → IsValid w.buf
      → w.buf.used + length (encode_vector m m.encode_uint xs) ≤ capacity w.buf
      → length w.opened + 1 ≤ stack_size
      → (w' : MpWriter) × (put_vector m (put_uint m) xs w ≡ ok w')
        × (let mem = content w'.buf in
            let r = reader_of (some (length (content w.buf))) (some (length mem)) in
            read_vector m mem (read_u64 m mem) r ≡ value xs (moved r (length mem) 1))
  read_vector-put_vector laws xs w few uints whole v room deep =
      let (w', e, v', same, used, cap, opened) =
        put_vector-Writes m laws 0 (λ n. Unit) m.encode_uint (put_uint m) (put_uint-Writes m) xs w
          (few, any xs) v room deep in
      let mem = content w'.buf in
      let pre = content w.buf in
      let bytes = encode_vector m m.encode_uint xs in
      let r = reader_of (some (length pre)) (some (length mem)) in
      let end : length pre + length bytes ≡ length mem =
        omega (arith, ap length same, length-append pre bytes) in
      (
        w',
        e,
        read_vector-Stands m mem m.encode_uint (read_u64 m mem) laws xs r (length pre) 0 [] few
              (all_items mem xs uints) (all_read mem xs uints)
              (Stands-last pre bytes mem same whole)
            ∙ ap (λ p. value xs (moved r p 1)) end,
      )
    where
      any : (xs : List ℕ) → AllFit (λ (n : ℕ). Unit {0}) xs
      any [] = tt
      any (n ∷ ns) = (tt, any ns)

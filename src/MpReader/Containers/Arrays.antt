-- ===== src/MpReader/Containers/Arrays.antt =====
-- mp_reader.h: `operator>>` into a reader of an array.
use cpp2tnt.Prelude.{
  ℕ, true, ◌+◌, ◌<◌, ◌≡◌, refl, sym, ap, ◌∙◌, inr, none, some, List, ◌∷◌, ◌++◌, append_assoc, Bytes,
  length, length-append, drop, drop-append, drop-drop, u32_mod, arith,
}
use cpp2tnt.Outcome.{Result}
use cpp2tnt.Msgpuck.{Msgpuck, array}
use cpp2tnt.MpWriter.Header.{decode-encode, first_byte}
use cpp2tnt.MpWriter.Finalize.{ArrayLaws}
use cpp2tnt.MpReader.{Reader, items, type_at, value, after, behind}
use cpp2tnt.MpReader.Containers.{
  opened, open_array, opened_at, array_from, array_at, read_opened, inner, read_array,
}
use cpp2tnt.MpReader.Cursor.{concat, Stands, AllItems, moved, skip-Stands, type_at-Stands, HasType}

module _ (m : Msgpuck) (mem : Bytes) (laws : ArrayLaws m) where
  HasType-array : (n : ℕ) (rest : Bytes) → HasType m array (m.encode_array n ++ rest)
  HasType-array n rest =
      let (b, bs, shape, type) = first_byte m laws n in rw (ap (λ zs. zs ++ rest) shape) type

  open_array_lem :
      (p n : ℕ) (tail : Bytes)
      → type_at m mem p ≡ some array
      → drop p mem ≡ m.encode_array n ++ tail
      → n < u32_mod
      → open_array m mem p ≡ opened (items n) (p + length (m.encode_array n)) none
  unfolding open_array opened_at array_from
  open_array_lem p n tail type ahead small =
      let read = ap m.decode_array ahead ∙ decode-encode m laws n tail small in
      let at : behind mem p tail ≡ p + length (m.encode_array n) =
        omega (arith, ap length ahead, length-append (m.encode_array n) tail) in
      ap (opened_at (array_from m mem p)) type
      ∙ ap (λ (d : ℕ × Bytes). opened (items d.0) (behind mem p d.1) none) read
      ∙ ap (λ q. opened (items n) q none) at

  -- The reader of the array stands before its items, and the reader around it behind the array.
  abbrev pub array_reader : ℕ → ℕ → ℕ → Reader
  array_reader n q e = record {
    kind = items n;
    begin = some q;
    end = some e;
    position = some q;
    ind = 0;
  }

  pub read_array-Stands :
      (its : List Bytes) (r : Reader) (p i : ℕ) (more : List Bytes)
      → length its < u32_mod
      → AllItems m its
      → Stands m mem r p i ((m.encode_array (length its) ++ concat its) ∷ more)
      → let n = length its in
        let q = p + length (m.encode_array n) in
        let e = p + length (m.encode_array n ++ concat its) in
        (read_array m mem r ≡ value (array_reader n q e) (moved r e (i + 1)))
        × Stands m mem (array_reader n q e) q 0 its
        × Stands m mem (moved r e (i + 1)) e (i + 1) more
  unfolding read_array array_at read_opened
  read_array-Stands its r p i more small all_its s =
      let n = length its in
      let header = m.encode_array n in
      let body = concat its in
      let whole = header ++ body in
      let split = length-append header body in
      let q = p + length header in
      let e = p + length whole in
      let tail = body ++ (concat more ++ s.post) in
      let ahead : drop p mem ≡ header ++ tail =
        s.ahead
        ∙ append_assoc whole (concat more) s.post
        ∙ append_assoc header body (concat more ++ s.post) in
      let type = type_at-Stands m mem array r p i whole more s (HasType-array n body) in
      let (run, s') = skip-Stands m mem r p i whole more s in
      (
        ap (array_at m mem r) s.position
            ∙ ap (read_opened m mem true r) (open_array_lem p n tail type ahead small)
            ∙ ap
                (λ (a : Result Reader).
                  after a λ r'. value (inner true (items n) q none r'.position) r')
                run,
        record {
          position = refl;
          ind = refl;
          post = concat more ++ s.post;
          ahead =
              sym (drop-drop (length header) p q mem (omega arith))
              ∙ ap (drop (length header)) ahead
              ∙ drop-append header tail (length header) refl;
          size = omega (
            arith,
            s.size,
            split,
            length-append whole (concat more),
            length-append (concat more) s.post,
          );
          end = ap some (omega (arith, split));
          counted = inr (ap some (omega arith));
          small = omega arith;
          all_items = all_its;
        },
        s',
      )

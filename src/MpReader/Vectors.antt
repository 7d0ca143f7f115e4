-- ===== src/MpReader/Vectors.antt =====
-- mp_reader.h: arrays, where the reader stands before one.
use cpp2tnt.Prelude.{
  ℕ, suc, ◌+◌, ◌<◌, ◌≡◌, refl, sym, ap, ap₂, subst, ◌∙◌, List, [], ◌∷◌, ◌++◌, Bytes, length,
  u32_mod, arith,
}
use cpp2tnt.Msgpuck.{Msgpuck}
use cpp2tnt.MpWriter.Finalize.{ArrayLaws}
use cpp2tnt.MpWriter.Items.{encode_all}
use cpp2tnt.MpWriter.Containers.{encode_vector}
use cpp2tnt.MpReader.{Reader, Read, value, ◌>>=◌}
use cpp2tnt.MpReader.Containers.Arrays.{array_reader, read_array-Stands}
use cpp2tnt.MpReader.Values.{read_items, read_vector, from_inner, cardinality}
use cpp2tnt.MpReader.Cursor.{concat, Stands, AllItems, moved, skip-Stands}

module _ {A : Type 0} (m : Msgpuck) (mem : Bytes) (encode : A → Bytes)
    (read_one : Reader → Read A) where
  -- Where the reader stands before the bytes of `a`, it is `a` that is read.
  abbrev pub ReadsAs : A → Type 0
  ReadsAs a =
      (r : Reader) (p i : ℕ) (xs : List Bytes)
      → Stands m mem r p i (encode a ∷ xs)
      → read_one r ≡ value a (moved r (p + length (encode a)) (i + 1))

  abbrev pub AllRead : List A → Type 0
  AllRead [] = Unit
  AllRead (a ∷ rest) = ReadsAs a × AllRead rest

  abbrev pub encoded : List A → List Bytes
  encoded [] = []
  encoded (a ∷ rest) = encode a ∷ encoded rest

  concat-encoded : (xs : List A) → concat (encoded xs) ≡ encode_all encode xs
  concat-encoded [] = refl
  concat-encoded (a ∷ rest) = ap (λ zs. encode a ++ zs) (concat-encoded rest)

  length-encoded : (xs : List A) → length (encoded xs) ≡ length xs
  length-encoded [] = refl
  length-encoded (a ∷ rest) = ap suc (length-encoded rest)

  read_items_lem :
      (xs : List A) (r : Reader) (p i : ℕ)
      → AllRead xs
      → Stands m mem r p i (encoded xs)
      → (r' : Reader) × (read_items m mem read_one (length xs) r ≡ value xs r')
  unfolding read_items
  read_items_lem [] r p i h s = (r, refl)
  read_items_lem (a ∷ rest) r p i h s =
      let (e, s') = skip-Stands m mem r p i (encode a) (encoded rest) s in
      let (r', e') =
        read_items_lem rest (moved r (p + length (encode a)) (i + 1)) (p + length (encode a))
          (i + 1) h.1 s' in
      (
        r',
        ap
              (λ (x : Read A). x >>= λ a r'.
                read_items m mem read_one (length rest) r' >>= λ rest. value (a ∷ rest))
              (h.0 r p i (encoded rest) s)
            ∙ ap (λ (x : Read (List A)). x >>= λ rest. value (a ∷ rest)) e',
      )

  -- The array of `xs` is read as `xs`, and the reader then stands behind it.
  pub read_vector-Stands :
      (laws : ArrayLaws m) (xs : List A) (r : Reader) (p i : ℕ) (more : List Bytes)
      → length xs < u32_mod
      → AllItems m (encoded xs)
      → AllRead xs
      → Stands m mem r p i (encode_vector m encode xs ∷ more)
      → read_vector m mem read_one r
        ≡ value xs (moved r (p + length (encode_vector m encode xs)) (i + 1))
  unfolding read_vector
  read_vector-Stands laws xs r p i more small its reads s =
      let its' = encoded xs in
      let count = length-encoded xs in
      let whole = m.encode_array (length its') ++ concat its' in
      let same : whole ≡ encode_vector m encode xs =
        ap₂ (λ k zs. m.encode_array k ++ zs) count (concat-encoded xs) in
      let q = p + length (m.encode_array (length its')) in
      let arr = array_reader m mem laws (length its') q (p + length whole) in
      let r' = moved r (p + length whole) (i + 1) in
      let (run, inside, after_it) =
        read_array-Stands m mem laws its' r p i more (omega (arith, count)) its
          (subst (λ x. Stands m mem r p i (x ∷ more)) (sym same) s) in
      let (arr', run') = read_items_lem xs arr q 0 reads inside in
      ap
        (λ (x : Read Reader).
          x >>= λ a. from_inner (read_items m mem read_one (cardinality a.kind) a))
        run
      ∙ ap (λ k. from_inner (read_items m mem read_one k arr) r') count
      ∙ ap (λ (x : Read (List A)). from_inner x r') run'
      ∙ ap (λ x. value xs (moved r (p + length x) (i + 1))) same

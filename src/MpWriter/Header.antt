-- ===== src/MpWriter/Header.antt =====
-- mp_writer.cpp: the header of a container in `finalize`.
use cpp2tnt.Prelude.{
  ℕ, suc, ◌+◌, ◌%◌, ◌≤◌, ◌<◌, ◌≡◌, refl, sym, ap, ◌∙◌, ◌⊎◌, inl, inr, false, ◌&&◌, Bool-cases, some,
  [], ◌∷◌, ◌++◌, append_assoc, Bytes, length, ltb, ◌==◌, if◌then◌else◌, u16_mod, u32_mod, arith,
  length-append, overwrite, get_elem?, get_elem?-take, get_elem?-append, overwrite-append, ==_iff,
  ==_refl, ==_ne,
}
use cpp2tnt.Outcome.{not_implemented, Error, Result, ok, thrown}
use cpp2tnt.WtfBuffer.{capacity, content}
use cpp2tnt.WtfBuffer.Content.{IsValid, poke_lem, length-content}
use cpp2tnt.Msgpuck.{Msgpuck, MpType}
use cpp2tnt.Msgpuck.Laws.{HeaderLaws}
use cpp2tnt.MpWriter.{Container, MpWriter, fix_header, patch}

-- A write of as many bytes over a part of the content.
patch_lem :
    (w : MpWriter) (pre old new rest : Bytes)
    → IsValid w.buf
    → content w.buf ≡ pre ++ (old ++ rest)
    → length new ≡ length old
    → (w' : MpWriter) × (patch (length pre) new w ≡ ok w')
      × IsValid w'.buf
      × (content w'.buf ≡ pre ++ (new ++ rest))
      × (w'.opened ≡ w.opened)
      × (capacity w'.buf ≡ capacity w.buf)
patch_lem w pre old new rest v e h =
    let len : w.buf.used ≡ length pre + length old + length rest = omega (
      arith,
      ap length e,
      length-append pre (old ++ rest),
      length-append old rest,
      length-content w.buf v,
    ) in
    let (b, p, vb, same, used, cap) = poke_lem w.buf (length pre) new v (omega arith) in
    (
      record w { buf = b },
      rw p,
      vb,
      same
          ∙ ap (λ zs. overwrite zs (length pre) new) e
          ∙ overwrite-append pre old rest new (length pre) refl h,
      refl,
      cap,
    )

-- The same behind the first byte of a header.
pub patch_behind :
    (w : MpWriter) (pre : Bytes) (b : ℕ) (old new rest : Bytes)
    → IsValid w.buf
    → content w.buf ≡ pre ++ ((b ∷ old) ++ rest)
    → length new ≡ length old
    → (w' : MpWriter) × (patch (length pre + 1) new w ≡ ok w')
      × IsValid w'.buf
      × (content w'.buf ≡ pre ++ ((b ∷ new) ++ rest))
      × (w'.opened ≡ w.opened)
      × (capacity w'.buf ≡ capacity w.buf)
patch_behind w pre b old new rest v e h =
    let (w', p, v', same, open_still, cap) =
      patch_lem w (pre ++ b ∷ []) old new rest v (e ∙ sym (append_assoc pre (b ∷ []) (old ++ rest)))
        h in
    let i : length pre + 1 ≡ length (pre ++ b ∷ []) = omega (arith, length-append pre (b ∷ [])) in
    (
      w',
      ap (λ j. patch j new w) i ∙ p,
      v',
      same ∙ append_assoc pre (b ∷ []) (new ++ rest),
      open_still,
      cap,
    )

module _ (m : Msgpuck) {t : MpType} {encode : ℕ → Bytes} {sizeof : ℕ → ℕ}
    {decode : Bytes → ℕ × Bytes} (laws : HeaderLaws m t encode sizeof decode) where
  -- The header says `actual`, and stands in the bytes of the old one.
  abbrev pub Fixed : MpWriter → Bytes → ℕ → ℕ → Bytes → Result MpWriter → Type 0
  Fixed w pre max_cardinality actual body r =
      (w' : MpWriter) × (header : Bytes) × (r ≡ ok w')
      × (content w'.buf ≡ pre ++ (header ++ body))
      × (decode (header ++ body) ≡ (actual, body))
      × (length header ≡ length (encode max_cardinality))
      × IsValid w'.buf
      × (w'.opened ≡ w.opened)
      × (capacity w'.buf ≡ capacity w.buf)

  -- Whatever the form, the header that was written reads back.
  pub decode-encode : (n : ℕ) (rest : Bytes) → n < u32_mod → decode (encode n ++ rest) ≡ (n, rest)
  decode-encode n rest h = by_size (laws.sizes n)
    where
      by_size :
          (sizeof n ≡ 1) ⊎ (sizeof n ≡ 3) ⊎ (sizeof n ≡ 5) → decode (encode n ++ rest) ≡ (n, rest)
      by_size (inl s) = let (b, e, ty, d) = laws.short n s in rw e (d rest)
      by_size (inr (inl s)) =
          let (b, e, ty, d) = laws.with_16 n s in rw e (d n rest (laws.fits_16 n (omega arith)))
      by_size (inr (inr s)) = let (b, e, ty, d) = laws.with_32 n s in rw e (d n rest h)

  pub fix_header-Fixed :
      (exceeded : Error) (c : Container) (actual : ℕ) (w : MpWriter) (pre body : Bytes)
      → IsValid w.buf
      → c.head_offset ≡ length pre
      → content w.buf ≡ pre ++ (encode c.max_cardinality ++ body)
      → c.max_cardinality < u32_mod
      → actual < u32_mod
      → (actual ≤ c.max_cardinality) ⊎ (sizeof actual ≤ sizeof c.max_cardinality)
      → Fixed w pre c.max_cardinality actual body (fix_header m sizeof encode exceeded c actual w)
  unfolding fix_header
  fix_header-Fixed exceeded c actual w pre body v at e small small' fits =
      elim (Bool-cases (actual == c.max_cardinality)) [
        | inl same ↦ rw same (
          w,
          encode c.max_cardinality,
          refl,
          e,
          decode-encode c.max_cardinality body small
              ∙ ap (λ (k : ℕ). (k, body)) (sym ((==_iff actual c.max_cardinality).0 same)),
          refl,
          v,
          refl,
          refl,
        )
        | inr differs ↦ rw (differs, in_range) (by_size (laws.sizes c.max_cardinality))
      ]
    where
      n : ℕ
      n = sizeof c.max_cardinality

      no_wider : sizeof actual ≤ n
      no_wider = wider fits
        where
          wider :
              (actual ≤ c.max_cardinality) ⊎ (sizeof actual ≤ sizeof c.max_cardinality)
              → sizeof actual ≤ n
          wider (inl h) = laws.mono actual c.max_cardinality h
          wider (inr h) = h

      in_range : (ltb c.max_cardinality actual && ltb n (sizeof actual)) ≡ false
      in_range = ground (arith, no_wider)

      by_size :
          (n ≡ 1) ⊎ (n ≡ 3) ⊎ (n ≡ 5)
          → Fixed w pre c.max_cardinality actual body (
              if n == 1
              then patch c.head_offset (encode actual) w
              else if n == 3
              then patch (c.head_offset + 1) (m.store_u16 (actual % u16_mod)) w
              else if n == 5
              then patch (c.head_offset + 1) (m.store_u32 actual) w
              else thrown not_implemented w)
      by_size (inl s) =
          let one : sizeof actual ≡ 1 = omega (arith, no_wider, laws.sizes actual) in
          let (b, old, _, _) = laws.short c.max_cardinality s in
          let (b', new, _, d) = laws.short actual one in
          let (w', p, v', same, open_still, cap) =
            patch_lem w pre (encode c.max_cardinality) (encode actual) body v e
              (ap length new ∙ sym (ap length old)) in
          rw (==_refl n 1 s, at)
            (
              w',
              encode actual,
              p,
              same,
              decode-encode actual body small',
              ap length new ∙ sym (ap length old),
              v',
              open_still,
              cap,
            )
      by_size (inr (inl s)) =
          let (b, old, _, d) = laws.with_16 c.max_cardinality s in
          let narrow : actual < u16_mod = laws.fits_16 actual (omega (arith, no_wider)) in
          let whole : actual % u16_mod ≡ actual = omega arith in
          let (w', p, v', same, open_still, cap) =
            patch_behind w pre b (m.store_u16 c.max_cardinality) (m.store_u16 actual) body v
              (e ∙ ap (λ zs. pre ++ (zs ++ body)) old)
              (laws.length_16 actual ∙ sym (laws.length_16 c.max_cardinality)) in
          rw (==_ne n 1 (omega arith), ==_refl n 3 s, at, whole)
            (
              w',
              b ∷ m.store_u16 actual,
              p,
              same,
              d actual body narrow,
              ap suc (laws.length_16 actual ∙ sym (laws.length_16 c.max_cardinality))
                  ∙ sym (ap length old),
              v',
              open_still,
              cap,
            )
      by_size (inr (inr s)) =
          let (b, old, _, d) = laws.with_32 c.max_cardinality s in
          let (w', p, v', same, open_still, cap) =
            patch_behind w pre b (m.store_u32 c.max_cardinality) (m.store_u32 actual) body v
              (e ∙ ap (λ zs. pre ++ (zs ++ body)) old)
              (laws.length_32 actual ∙ sym (laws.length_32 c.max_cardinality)) in
          rw (==_ne n 1 (omega arith), ==_ne n 3 (omega arith), ==_refl n 5 s, at)
            (
              w',
              b ∷ m.store_u32 actual,
              p,
              same,
              d actual body small',
              ap suc (laws.length_32 actual ∙ sym (laws.length_32 c.max_cardinality))
                  ∙ sym (ap length old),
              v',
              open_still,
              cap,
            )

  -- The first byte of a header says what container it is.
  pub first_byte : (n : ℕ) → (b : ℕ) × (bs : Bytes) × (encode n ≡ b ∷ bs) × (m.type_of b ≡ t)
  first_byte n = by_size (laws.sizes n)
    where
      by_size :
          (sizeof n ≡ 1) ⊎ (sizeof n ≡ 3) ⊎ (sizeof n ≡ 5)
          → (b : ℕ) × (bs : Bytes) × (encode n ≡ b ∷ bs) × (m.type_of b ≡ t)
      by_size (inl s) = let (b, e, ty, _) = laws.short n s in (b, [], e, ty)
      by_size (inr (inl s)) = let (b, e, ty, _) = laws.with_16 n s in (b, m.store_u16 n, e, ty)
      by_size (inr (inr s)) = let (b, e, ty, _) = laws.with_32 n s in (b, m.store_u32 n, e, ty)

  -- `finalize` reads that byte.
  pub header_at :
      (w : MpWriter) (pre body : Bytes) (n : ℕ)
      → IsValid w.buf
      → content w.buf ≡ pre ++ (encode n ++ body)
      → (b : ℕ) × (get_elem? w.buf.store (length pre) ≡ some b) × (m.type_of b ≡ t)
  header_at w pre body n v e =
      let (b, bs, shape, ty) = first_byte n in
      let whole : content w.buf ≡ pre ++ b ∷ (bs ++ body) =
        e ∙ ap (λ zs. pre ++ (zs ++ body)) shape in
      let inside : length pre < w.buf.used =
        omega
          (arith, ap length whole, length-append pre (b ∷ (bs ++ body)), length-content w.buf v) in
      (
        b,
        sym (get_elem?-take w.buf.store w.buf.used (length pre) inside)
            ∙ ap (λ zs. get_elem? zs (length pre)) whole
            ∙ get_elem?-append pre b (bs ++ body) (length pre) refl,
        ty,
      )

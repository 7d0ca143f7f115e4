-- ===== src/MpReader/Spans/Items.antt =====
-- mp_reader.h: what `operator[]` of a span returns, for a span that was read from a row of items.
use cpp2tnt.Prelude.{
  ℕ, zero, suc, ◌+◌, ◌-◌, ◌%◌, ◌≤◌, ◌<◌, ◌≡◌, refl, sym, ap, subst, ap₂, ◌∙◌, Bool, false, Option,
  none, some, List, [], ◌∷◌, ◌++◌, append_assoc, Bytes, length, length-append, take, take-append,
  drop, drop-append, drop-drop, get_elem?, ◌==◌, if◌then◌else◌, u32_mod, arith, le→leb,
  leb-eq_false, ltb-eq_false, ==_ne, ◌⊎◌, inl, inr,
}
use cpp2tnt.Outcome.{Result, ok, thrown, undefined}
use cpp2tnt.Msgpuck.{Msgpuck}
use cpp2tnt.MpReader.{Reader, Read, value, ◌>>=◌}
use cpp2tnt.MpReader.Cursor.{concat, Stands, moved, has_next-Stands, skip-Stands}
use cpp2tnt.MpReader.Spans.{Span, read_rbounds, read_span, sub, slice, item}

-- The offsets of the ends of some items, the first of which is at the offset `o`.
abbrev ends : ℕ → List Bytes → List ℕ
ends o [] = []
ends o (x ∷ xs) = (o + length x) ∷ ends (o + length x) xs

-- How many bytes the first `n` items take.
abbrev width : ℕ → List Bytes → ℕ
width zero xs = 0
width (suc n) [] = 0
width (suc n) (x ∷ xs) = length x + width n xs

-- The item with an index, and nil where there is none.
abbrev pub item_or_nil : ℕ → List Bytes → Bytes
item_or_nil i [] = 0xc0 ∷ []
item_or_nil zero (x ∷ xs) = x
item_or_nil (suc i) (x ∷ xs) = item_or_nil i xs

length-ends : (o : ℕ) (xs : List Bytes) → length (ends o xs) ≡ length xs
length-ends o [] = refl
length-ends o (x ∷ xs) = ap suc (length-ends (o + length x) xs)

get-ends :
    (o j : ℕ) (xs : List Bytes)
    → j < length xs
    → get_elem? (ends o xs) j ≡ some (o + width (suc j) xs)
get-ends o j [] h = absurd (omega arith)
get-ends o zero (x ∷ xs) h = ap some (omega arith)
get-ends o (suc j) (x ∷ xs) h = get-ends (o + length x) j xs (omega arith) ∙ ap some (omega arith)

item_or_nil_past : (i : ℕ) (xs : List Bytes) → length xs ≤ i → item_or_nil i xs ≡ 0xc0 ∷ []
item_or_nil_past i [] h = refl
item_or_nil_past zero (x ∷ xs) h = absurd (omega arith)
item_or_nil_past (suc i) (x ∷ xs) h = item_or_nil_past i xs (omega arith)

width_mono : (n : ℕ) (xs : List Bytes) → width n xs ≤ width (suc n) xs
width_mono zero xs = omega arith
width_mono (suc n) [] = omega arith
width_mono (suc n) (x ∷ xs) = omega (arith, width_mono n xs)

zero_add : (n : ℕ) → 0 + n ≡ n
zero_add n = omega arith

suc_pred : (j : ℕ) → suc j - 1 ≡ j
suc_pred j = omega arith

lt_or_ge : (j n : ℕ) → (j < n) ⊎ (n ≤ j)
lt_or_ge j n = ground arith

concat_split : (n : ℕ) (xs : List Bytes) → concat xs ≡ concat (take n xs) ++ concat (drop n xs)
concat_split zero xs = refl
concat_split (suc n) [] = refl
concat_split (suc n) (x ∷ xs) =
    ap (λ zs. x ++ zs) (concat_split n xs)
    ∙ sym (append_assoc x (concat (take n xs)) (concat (drop n xs)))

module _ (mem : Bytes) where
  cut :
      (b j : ℕ) (xs : List Bytes) (post : Bytes)
      → drop b mem ≡ concat xs ++ post
      → j < length xs
      → take (b + width (suc j) xs - (b + width j xs)) (drop (b + width j xs) mem)
        ≡ item_or_nil j xs
  cut b j [] post e h = absurd (omega arith)
  cut b zero (x ∷ xs) post e h =
      let size : b + (length x + width zero xs) - (b + 0) ≡ length x = omega arith in
      ap₂ take size (ap (λ k. drop k mem) (omega arith) ∙ e ∙ append_assoc x (concat xs) post)
      ∙ take-append x (concat xs ++ post) (length x) refl
  cut b (suc j) (x ∷ xs) post e h =
      let behind_x : drop (b + length x) mem ≡ concat xs ++ post =
        sym (drop-drop (length x) b (b + length x) mem (omega arith))
        ∙ ap (drop (length x)) (e ∙ append_assoc x (concat xs) post)
        ∙ drop-append x (concat xs ++ post) (length x) refl in
      ap₂ (λ (k : ℕ) (l : ℕ). take k (drop l mem)) (omega arith) (omega arith)
      ∙ cut (b + length x) j xs post behind_x (omega arith)

  -- A span of some items, from the offset `b`.
  abbrev span_of : ℕ → ℕ → List Bytes → Span
  span_of b e xs = record { begin = some b; end = some e; rbounds = ends 0 xs }

  start_lem :
      (j : ℕ) (xs : List Bytes)
      → j < length xs
      → (if j == 0 then some 0 else get_elem? (ends 0 xs) (j - 1)) ≡ some (width j xs)
  start_lem zero xs h = refl
  start_lem (suc j) xs h = rw (==_ne (suc j) 0 (omega arith)) (
      ap (get_elem? (ends 0 xs)) (suc_pred j)
      ∙ get-ends 0 j xs (omega arith)
      ∙ ap some (omega arith))

  sub_lem :
      (b e : ℕ) (xs : List Bytes) (j : ℕ)
      → j < length xs
      → (rbounds : List ℕ) × (sub 1 j j (span_of b e xs)
          ≡ ok (record {
            begin = some (b + width j xs);
            end = some (b + width (suc j) xs);
            rbounds = rbounds;
          }))
  unfolding sub
  sub_lem b e xs j h = (
    take (j - j + 1) (drop j (ends 0 xs)),
    rw
        (
          ltb-eq_false j j (omega arith),
          leb-eq_false (length (ends 0 xs)) j (omega (arith, length-ends 0 xs)),
          ltb-eq_false 1 (j - j + 1) (omega arith),
          start_lem j xs h,
          get-ends 0 j xs h ∙ ap some (zero_add (width (suc j) xs)),
        )
        refl,
  )

  -- What `item` does with the span that `sub` returns.
  abbrev taken : Result Span → Option Bytes
  taken (ok s) = slice mem s.begin s.end
  taken (thrown e s) = none
  taken undefined = none

  item_there :
      (b e : ℕ) (xs : List Bytes) (post : Bytes) (j : ℕ)
      → drop b mem ≡ concat xs ++ post
      → j < length xs
      → item mem j (span_of b e xs) ≡ some (item_or_nil j xs)
  unfolding item
  item_there b e xs post j h inside =
      let (bounds, run) = sub_lem b e xs j inside in
      let few = leb-eq_false (length (ends 0 xs)) j (omega (arith, length-ends 0 xs)) in
      ap (λ (c : Bool). if c then some (0xc0 ∷ []) else taken (sub 1 j j (span_of b e xs))) few
      ∙ ap taken run
      ∙ ap some (cut b j xs post h inside)

  item_lem :
      (b e : ℕ) (xs : List Bytes) (post : Bytes) (j : ℕ)
      → drop b mem ≡ concat xs ++ post
      → item mem j (span_of b e xs) ≡ some (item_or_nil j xs)
  unfolding item
  item_lem b e xs post j h = elim (lt_or_ge j (length xs)) [
    | inl inside ↦ item_there b e xs post j h inside
    | inr past ↦
        rw (le→leb (length (ends 0 xs)) j (omega (arith, length-ends 0 xs)))
          (ap some (sym (item_or_nil_past j xs past)))
  ]

  module _ (m : Msgpuck) where
    -- `n` rounds of the loop read the ends of `n` items, or of all that there are.
    read_rbounds_lem :
        (n b o i : ℕ) (r : Reader) (todo : List Bytes)
        → Stands m mem r (b + o) i todo
        → o + length (concat todo) < u32_mod
        → (r' : Reader) × (read_rbounds m mem (some b) n r ≡ value (ends o (take n todo)) r')
          × (r'.position ≡ some (b + o + width n todo))
    unfolding read_rbounds
    read_rbounds_lem zero b o i r todo s small = (r, refl, s.position ∙ ap some (omega arith))
    read_rbounds_lem (suc n) b o i r [] s small = (
      r,
      rw (read_rbounds, has_next-Stands m mem false r (b + o) i [] s) refl,
      s.position ∙ ap some (omega arith),
    )
    read_rbounds_lem (suc n) b o i r (x ∷ xs) s small =
        let (run, s') = skip-Stands m mem r (b + o) i x xs s in
        let o' = o + length x in
        let at : b + o + length x ≡ b + o' = omega arith in
        let (r', rest, stop) =
          read_rbounds_lem n b o' (i + 1) (moved r (b + o + length x) (i + 1)) xs
            (subst (λ k. Stands m mem (moved r (b + o + length x) (i + 1)) k (i + 1) xs) at s')
            (omega (arith, length-append x (concat xs))) in
        let bound : (b + o + length x - b) % u32_mod ≡ o' =
          omega (arith, length-append x (concat xs)) in
        (
          r',
          rw (read_rbounds, has_next-Stands m mem false r (b + o) i (x ∷ xs) s, run, rest, bound)
              refl,
          stop ∙ ap some (omega arith),
        )

    -- A span with room for `n` items that is read from a row of items has for every index the item that
    -- stands there, and nil behind the last item or the room. It wants the row to be less than 2 ^ 32
    -- bytes long.
    pub read_span-item :
        (n p i : ℕ) (r : Reader) (todo : List Bytes)
        → Stands m mem r p i todo
        → length (concat todo) < u32_mod
        → (s : Span) × (r' : Reader) × (read_span n m mem r ≡ value s r')
          × (s.end ≡ r'.position)
          × ((j : ℕ) → item mem j s ≡ some (item_or_nil j (take n todo)))
    unfolding read_span
    read_span-item n p i r todo s small =
        let at : p ≡ p + 0 = omega arith in
        let (r', run, stop) =
          read_rbounds_lem n p 0 i r todo (subst (λ k. Stands m mem r k i todo) at s)
            (omega arith) in
        let span : Span = record {
          begin = some p;
          end = r'.position;
          rbounds = ends 0 (take n todo);
        } in
        (
          span,
          r',
          ap
                (λ b. read_rbounds m mem b n r >>= λ bounds r'.
                  value (record { begin = b; end = r'.position; rbounds = bounds }) r')
                s.position
              ∙ ap
                  (λ (x : Read (List ℕ)). x >>= λ bounds r'.
                    value (record { begin = some p; end = r'.position; rbounds = bounds }) r')
                  run,
          refl,
          λ j.
              ap (λ (e : Option ℕ). item mem j (record span { end = e })) stop
              ∙ item_lem p (p + 0 + width n todo) (take n todo) (concat (drop n todo) ++ s.post) j (
                  s.ahead
                  ∙ ap (λ zs. zs ++ s.post) (concat_split n todo)
                  ∙ append_assoc (concat (take n todo)) (concat (drop n todo)) s.post),
        )

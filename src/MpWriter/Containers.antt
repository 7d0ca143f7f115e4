-- ===== src/MpWriter/Containers.antt =====
-- mp_writer.h: `<<` of a vector and of a map.
use cpp2tnt.Prelude.{
  ℕ, ◌+◌, ◌*◌, ◌%◌, max, ◌≤◌, ◌<◌, ◌≡◌, refl, sym, ap, ◌∙◌, List, ◌∷◌, ◌++◌, append_assoc, Bytes,
  length, u32_mod, arith, length-append, lt→ltb,
}
use cpp2tnt.Outcome.{Result, ok, ◌>>=◌}
use cpp2tnt.WtfBuffer.{capacity, content}
use cpp2tnt.WtfBuffer.Content.{IsValid, length-content}
use cpp2tnt.Msgpuck.{Msgpuck}
use cpp2tnt.MpWriter.{
  Container, MpWriter, append, count_items, stack_size, put_all, put_vector, put_entry, put_map,
  begin_array, begin_map, push, finalize,
}
use cpp2tnt.MpWriter.Finalize.{Open, ArrayLaws, MapLaws, finalize-array_exact, finalize-map_exact}
use cpp2tnt.MpWriter.Items.{
  Writes, AllFit, encode_all, items, items_one, items_two, append-Wrote, then-Wrote, put_all-Wrote,
  length-count_items,
}

counted_from_zero :
    (c : Container) (k n : ℕ) (cs : List Container)
    → c.items_count ≡ 0
    → k ≡ n
    → n < u32_mod
    → count_items k (c ∷ cs) ≡ record c { items_count = n } ∷ cs
unfolding count_items
counted_from_zero c k n cs zero_items same small =
    let e : (c.items_count + k) % u32_mod ≡ n = omega arith in rw e

-- What `begin_array` and `begin_map` leave: the counter of the outer container, the new container and
-- its header. Both are this call by definition.
begin_lem :
    (w : MpWriter) (c : Container) (header : Bytes)
    → IsValid w.buf
    → w.buf.used + length header ≤ capacity w.buf
    → length w.opened < stack_size
    → (w' : MpWriter) × ((push c (record w { opened = count_items 1 w.opened }) >>= append header)
        ≡ ok w')
      × IsValid w'.buf
      × (content w'.buf ≡ content w.buf ++ header)
      × (w'.buf.used ≡ w.buf.used + length header)
      × (capacity w'.buf ≡ capacity w.buf)
      × (w'.opened ≡ c ∷ count_items 1 w.opened)
begin_lem w c header v room deep =
    rw
      (lt→ltb (length (count_items 1 w.opened)) stack_size
        (omega (arith, length-count_items 1 w.opened)))
      (append-Wrote (record w { opened = c ∷ count_items 1 w.opened }) header v room)

module _ {ℓ} {A : Type ℓ} (m : Msgpuck) where
  abbrev pub encode_vector : (A → Bytes) → List A → Bytes
  encode_vector encode xs = m.encode_array (length xs) ++ encode_all encode xs

  -- An array that has been begun and filled, and is to be closed.
  pub filled_array :
      (depth : ℕ) (Fits : A → Type 0) (encode : A → Bytes)
      (put_one : A → MpWriter → Result MpWriter)
      → Writes 1 depth Fits encode put_one
      → (xs : List A) (w : MpWriter) → length xs < u32_mod
      → AllFit Fits xs
      → IsValid w.buf
      → w.buf.used + length (encode_vector encode xs) ≤ capacity w.buf
      → length w.opened + (depth + 1) ≤ stack_size
      → (w' : MpWriter) × ((begin_array m (length xs) w >>= put_all put_one xs) ≡ ok w')
        × Open m.encode_array w'
            (record {
              head_offset = w.buf.used;
              max_cardinality = length xs;
              items_count = length xs;
            })
            (count_items 1 w.opened)
            (content w.buf)
            (encode_all encode xs)
        × (w'.buf.used ≡ w.buf.used + length (encode_vector encode xs))
        × (capacity w'.buf ≡ capacity w.buf)
  unfolding begin_array count_items
  filled_array depth Fits encode put_one writes xs w small fit v room deep =
      let n = length xs in
      let c : Container = record {
        head_offset = w.buf.used;
        max_cardinality = n;
        items_count = 0;
      } in
      let header = m.encode_array n in
      let split = length-append header (encode_all encode xs) in
      let (w', e, v', same, used, cap, o) =
        begin_lem w c header v (omega (arith, split)) (omega arith) in
      let (w'', e', v'', same', used', cap', o') =
        put_all-Wrote 1 depth Fits encode put_one writes xs w' c (count_items 1 w.opened) o
          (omega arith) fit v' (omega (arith, split, used, cap))
          (omega (arith, ap length o, length-count_items 1 w.opened)) in
      (
        w'',
        ap (λ (r : Result MpWriter). r >>= put_all put_one xs) e ∙ e',
        record {
          innermost =
              o'
              ∙ ap (count_items (items 1 xs)) o
              ∙ counted_from_zero c (items 1 xs) n _ refl (items_one xs) small;
          offset = sym (length-content w.buf v);
          bytes =
              same'
              ∙ ap (λ zs. zs ++ encode_all encode xs) same
              ∙ append_assoc (content w.buf) header (encode_all encode xs);
          small = small;
          counted = small;
          valid = v'';
        },
        omega (arith, used, used', split),
        cap' ∙ cap,
      )

  -- `<<` of a vector of less than 2 ^ 32 elements that fits succeeds and writes one value: the header
  -- that announces its length, then the elements, if `<<` of an element does that. It opens one
  -- container more than an element does, and the places for them have to be there.
  pub put_vector-Writes :
      (laws : ArrayLaws m) (depth : ℕ) (Fits : A → Type 0) (encode : A → Bytes)
      (put_one : A → MpWriter → Result MpWriter)
      → Writes 1 depth Fits encode put_one
      → Writes 1
          (depth + 1)
          (λ xs. (length xs < u32_mod) × AllFit Fits xs)
          (encode_vector encode)
          (put_vector m put_one)
  unfolding put_vector
  put_vector-Writes laws depth Fits encode put_one writes xs w (small, fit) v room deep =
      let whole : length xs % u32_mod ≡ length xs = omega arith in
      let (w', e, o, used, cap) =
        filled_array depth Fits encode put_one writes xs w small fit v room deep in
      (
        record w' { opened = count_items 1 w.opened },
        rw whole (
            ap (λ (r : Result MpWriter). r >>= finalize m) e
            ∙ finalize-array_exact m laws w' _ (count_items 1 w.opened) (content w.buf)
                (encode_all encode xs) o refl),
        o.valid,
        o.bytes,
        used,
        cap,
        refl,
      )

-- An entry of a map is its key, then its value.
put_entry-Writes {ℓ} :
    {A B : Type ℓ} (d e : ℕ) (FitsA : A → Type 0) (FitsB : B → Type 0) (encode_key : A → Bytes)
    (encode_value : B → Bytes) (put_key : A → MpWriter → Result MpWriter)
    (put_value : B → MpWriter → Result MpWriter)
    → Writes 1 d FitsA encode_key put_key
    → Writes 1 e FitsB encode_value put_value
    → Writes 2
        (max d e)
        (λ (k, x). FitsA k × FitsB x)
        (λ (k, x). encode_key k ++ encode_value x)
        (put_entry put_key put_value)
unfolding put_entry
put_entry-Writes d e FitsA FitsB encode_key encode_value put_key put_value key value (k, x) w
      (fit_key, fit_value) v room deep =
    let split = length-append (encode_key k) (encode_value x) in
    then-Wrote 1 1 (put_key k w) (put_value x) w (encode_key k) (encode_value x)
      (key k w fit_key v (omega (arith, split)) (omega arith))
      (λ w' v' used cap len.
        value x w' fit_value v' (omega (arith, split, used, cap)) (omega (arith, len)))

module _ {ℓ} {A B : Type ℓ} (m : Msgpuck) where
  abbrev pub encode_entries : (A → Bytes) → (B → Bytes) → List (A × B) → Bytes
  encode_entries encode_key encode_value xs =
      m.encode_map (length xs) ++ encode_all (λ (k, x). encode_key k ++ encode_value x) xs

  -- `<<` of a map of less than 2 ^ 31 pairs that fits succeeds and writes one value: the header that
  -- announces its number of pairs, then each key with its value behind it, if `<<` of a key and of a
  -- value does that. The places for the containers that it opens have to be there.
  pub put_map-Writes :
      (laws : MapLaws m) (d e : ℕ) (FitsA : A → Type 0) (FitsB : B → Type 0)
      (encode_key : A → Bytes) (encode_value : B → Bytes) (put_key : A → MpWriter → Result MpWriter)
      (put_value : B → MpWriter → Result MpWriter)
      → Writes 1 d FitsA encode_key put_key
      → Writes 1 e FitsB encode_value put_value
      → Writes 1
          (max d e + 1)
          (λ xs. (2 * length xs < u32_mod) × AllFit (λ (k, x). FitsA k × FitsB x) xs)
          (encode_entries encode_key encode_value)
          (put_map m put_key put_value)
  unfolding put_map begin_map count_items
  put_map-Writes laws d e FitsA FitsB encode_key encode_value put_key put_value key value xs w
        (small, fit) v room deep =
      let n = length xs in
      let whole : n % u32_mod ≡ n = omega arith in
      let c : Container = record {
        head_offset = w.buf.used;
        max_cardinality = n;
        items_count = 0;
      } in
      let header = m.encode_map n in
      let encode : A × B → Bytes = λ (k, x). encode_key k ++ encode_value x in
      let split = length-append header (encode_all encode xs) in
      let (w', run, v', same, used, cap, o) =
        begin_lem w c header v (omega (arith, split)) (omega arith) in
      let (w'', run', v'', same', used', cap', o') =
        put_all-Wrote 2 (max d e) (λ (k, x). FitsA k × FitsB x) encode (put_entry put_key put_value)
          (put_entry-Writes d e FitsA FitsB encode_key encode_value put_key put_value key value) xs
          w' c (count_items 1 w.opened) o (omega arith) fit v' (omega (arith, split, used, cap))
          (omega (arith, ap length o, length-count_items 1 w.opened)) in
      let c' : Container = record c { items_count = 2 * n } in
      let o'' : w''.opened ≡ c' ∷ count_items 1 w.opened =
        o'
        ∙ ap (count_items (items 2 xs)) o
        ∙ counted_from_zero c (items 2 xs) (2 * n) _ refl (items_two xs) small in
      let bytes : content w''.buf ≡ content w.buf ++ (header ++ encode_all encode xs) =
        same'
        ∙ ap (λ zs. zs ++ encode_all encode xs) same
        ∙ append_assoc (content w.buf) header (encode_all encode xs) in
      let done =
        finalize-map_exact m laws w'' c' (count_items 1 w.opened) (content w.buf)
          (encode_all encode xs)
          (record {
            innermost = o'';
            offset = sym (length-content w.buf v);
            bytes = bytes;
            small = omega arith;
            counted = small;
            valid = v'';
          })
          refl in
      (
        record w'' { opened = count_items 1 w.opened },
        rw whole (
            ap
              (λ (r : Result MpWriter).
                r >>= put_all (put_entry put_key put_value) xs >>= finalize m)
              run
            ∙ ap (λ (r : Result MpWriter). r >>= finalize m) run'
            ∙ done),
        v'',
        bytes,
        omega (arith, used, used', split),
        cap' ∙ cap,
        refl,
      )

-- ===== src/MpWriter/Copies/Plain.antt =====
-- mp_writer.cpp: operator<<(const mp_plain &), against write().
use cpp2tnt.Prelude.{
  ℕ, zero, suc, ◌+◌, ◌≤◌, ◌<◌, ◌≡◌, refl, sym, ap, ap₂, ◌∙◌, some, List, [], ◌∷◌, ◌++◌,
  append_assoc, take-append, ◌-◌, true, Bytes, length, length-append, length-overwrite, overwrite,
  overwrite-overwrite, take, drop, take-append-drop, arith, le→leb,
}
use cpp2tnt.Outcome.{Result, ok, ◌>>=◌, on_part}
use cpp2tnt.WtfBuffer.{capacity, put}
use cpp2tnt.Msgpuck.{Msgpuck}
use cpp2tnt.MpReader.{Reader, reader_of}
use cpp2tnt.MpReader.Cursor.{concat, concat_size, Stands, moved, has_next-Stands, skip-Stands}
use cpp2tnt.MpWriter.{MpWriter, append, count_items, increment_container_counter}
use cpp2tnt.MpWriter.Items.{count_items_add}
use cpp2tnt.MpWriter.Copies.{
  write, count_opened, put_reader, put_rounds, put_plain, between, write_between,
}
use cpp2tnt.MpWriter.Copies.Write.{copy_bytes-append, count_opened-given, count_opened-items}

-- The writer behind `bs` that fit.
abbrev appended : Bytes → MpWriter → MpWriter
appended bs w = record w {
  buf = record w.buf { store = overwrite w.buf.store w.buf.used bs; used = w.buf.used + length bs };
}

append_lem :
    (bs : Bytes) (w : MpWriter)
    → w.buf.used + length bs ≤ capacity w.buf
    → append bs w ≡ ok (appended bs w)
unfolding append put
append_lem bs w room = rw (le→leb _ _ room) refl

appended-nil : (w : MpWriter) → w.buf.used ≤ capacity w.buf → appended [] w ≡ w
appended-nil w room =
    let nothing : w.buf.used + 0 ≡ w.buf.used = omega arith in
    ap₂ (λ (s : Bytes) (n : ℕ). record w { buf = record w.buf { store = s; used = n } })
      (ap (λ n. take w.buf.used w.buf.store ++ drop n w.buf.store) nothing
        ∙ take-append-drop w.buf.used w.buf.store)
      nothing

-- One item more, and its bytes behind the others.
appended-appended :
    (bs cs : Bytes) (k n : ℕ) (w : MpWriter)
    → w.buf.used ≤ capacity w.buf
    → increment_container_counter n (appended cs (increment_container_counter k (appended bs w)))
      ≡ increment_container_counter (k + n) (appended (bs ++ cs) w)
appended-appended bs cs k n w room =
    let len : w.buf.used + length bs + length cs ≡ w.buf.used + length (bs ++ cs) =
      omega (arith, length-append bs cs) in
    ap₂
      (λ (s : Bytes) (x : ℕ). record w {
        opened = count_items n (count_items k w.opened);
        buf = record w.buf { store = s; used = x };
      })
      (overwrite-overwrite w.buf.store w.buf.used bs cs room) len
    ∙ ap (λ cs'. record (appended (bs ++ cs) w) { opened = cs' }) (count_items_add k n w.opened)

module _ (m : Msgpuck) where
  -- What a call of write() that fits comes to, by what it counts.
  write_lem :
      (bs : Bytes) (n k : ℕ) (w : MpWriter)
      → w.buf.used + length bs ≤ capacity w.buf
      → ((w' : MpWriter) → count_opened m bs n w'.opened w' ≡ ok (increment_container_counter k w'))
      → write m bs n w ≡ ok (increment_container_counter k (appended bs w))
  unfolding write
  write_lem bs n k w room count =
      ap (λ (r : Result MpWriter). r >>= λ x. count_opened m bs n x.opened x)
        (copy_bytes-append bs w room ∙ append_lem bs w room)
      ∙ count (appended bs w)

  write_one_lem :
      (bs : Bytes) (w : MpWriter)
      → w.buf.used + length bs ≤ capacity w.buf
      → write m bs 1 w ≡ ok (increment_container_counter 1 (appended bs w))
  write_one_lem bs w room =
      write_lem bs 1 1 w room λ w'. count_opened-given m bs 1 w'.opened w' refl (omega arith)

  module _ (mem : Bytes) where
    between-Stands :
        (r : Reader) (p i : ℕ) (x : Bytes) (xs : List Bytes)
        → Stands m mem r p i (x ∷ xs)
        → between mem r.position (some (p + length x)) ≡ some x
    between-Stands r p i x xs s =
        let inside : p + length x ≤ length mem =
          omega (arith, s.size, length-append x (concat xs)) in
        let n : p + length x - p ≡ length x = omega arith in
        ap (λ b. between mem b (some (p + length x))) s.position
        ∙ rw (le→leb _ _ inside) refl
        ∙ ap₂ (λ k zs. some (take k zs)) n (s.ahead ∙ append_assoc x (concat xs) s.post)
        ∙ ap some (take-append x (concat xs ++ s.post) (length x) refl)

    -- The item before the reader is copied.
    pub put_reader-Stands :
        (w : MpWriter) (r : Reader) (p i : ℕ) (x : Bytes) (xs : List Bytes)
        → Stands m mem r p i (x ∷ xs)
        → w.buf.used + length x ≤ capacity w.buf
        → put_reader m mem w r
          ≡ ok (increment_container_counter 1 (appended x w), moved r (p + length x) (i + 1))
    unfolding put_reader write_between
    put_reader-Stands w r p i x xs s room =
        let r' = moved r (p + length x) (i + 1) in
        let from = λ (a : Result MpWriter).
          on_part {B = MpWriter × Reader} (λ w'. (w', r')) a λ w'. ok (w', r') in
        ap
          (λ (a : Result Reader).
            on_part {B = MpWriter × Reader} (λ r'. (w, r')) a
              λ r'.
                on_part (λ w'. (w', r')) (write_between m 1 (between mem r.position r'.position) w)
                  λ w'. ok (w', r'))
          (skip-Stands m mem r p i x xs s).0
        ∙ ap (λ o. from (write_between m 1 o w)) (between-Stands r p i x xs s)
        ∙ ap from (write_one_lem x w room)

    put_rounds-Stands :
        (fuel : ℕ) (w : MpWriter) (r : Reader) (p i : ℕ) (todo : List Bytes)
        → length todo < fuel
        → Stands m mem r p i todo
        → count_items 0 w.opened ≡ w.opened
        → w.buf.used + length (concat todo) ≤ capacity w.buf
        → put_rounds fuel m mem w r
          ≡ ok (increment_container_counter (length todo) (appended (concat todo) w))
    unfolding put_rounds
    put_rounds-Stands zero w r p i todo h s settled room = absurd (omega arith)
    put_rounds-Stands (suc fuel) w r p i [] h s settled room =
        rw (has_next-Stands m mem true r p i [] s) (
          ap ok (
            sym (appended-nil w (omega arith))
            ∙ ap (λ cs. record (appended [] w) { opened = cs }) (sym settled)))
    put_rounds-Stands (suc fuel) w r p i (x ∷ xs) h s settled room =
        let split = length-append x (concat xs) in
        let w' = increment_container_counter 1 (appended x w) in
        let same : length w'.buf.store ≡ length w.buf.store =
          length-overwrite w.buf.store w.buf.used x (omega (arith, split)) in
        rw (has_next-Stands m mem true r p i (x ∷ xs) s) (
          ap
            (λ (a : Result (MpWriter × Reader)).
              on_part (λ y. y.0) a λ y. put_rounds fuel m mem y.0 y.1)
            (put_reader-Stands w r p i x xs s (omega (arith, split)))
          ∙ put_rounds-Stands fuel w' (moved r (p + length x) (i + 1)) (p + length x) (i + 1) xs
              (omega arith) (skip-Stands m mem r p i x xs s).1 (count_items_add 1 0 w.opened)
              (omega (arith, same, split))
          ∙ ap ok (
              appended-appended x (concat xs) 1 (length xs) w (omega arith)
              ∙ ap (λ k. increment_container_counter k (appended (concat (x ∷ xs)) w))
                  (omega arith)))

    -- To copy items one by one with `<<` is to copy their bytes at once and count the items: the same
    -- buffer comes out, and the same counters. It wants the room for the bytes, a reader of nothing but
    -- whole items, and a counter that is a `uint32_t`.
    pub put_plain-write :
        (p : ℕ) (todo : List Bytes) (w : MpWriter)
        → let end = p + length (concat todo) in
          Stands m mem (reader_of (some p) (some end)) p 0 todo
          → count_items 0 w.opened ≡ w.opened
          → w.buf.used + length (concat todo) ≤ capacity w.buf
          → put_plain m mem (some p) (some end) w ≡ write m (concat todo) 0 w
    unfolding put_plain
    put_plain-write p todo w s settled room =
        put_rounds-Stands (suc (length mem)) w
          (reader_of (some p) (some (p + length (concat todo)))) p 0 todo
          (omega (arith, concat_size m mem todo s.all_items, s.size)) s settled room
        ∙ sym (
            write_lem (concat todo) 0 (length todo) w room λ w'.
              count_opened-items m todo w'.opened w' refl s.all_items (omega (arith, s.small)))

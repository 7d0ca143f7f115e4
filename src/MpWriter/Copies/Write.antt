-- ===== src/MpWriter/Copies/Write.antt =====
-- mp_writer.cpp: write().
use cpp2tnt.Prelude.{
  ℕ, zero, suc, ◌+◌, ◌≤◌, ◌<◌, ◌≡◌, ◌≢◌, refl, sym, ap, ◌∙◌, Bool, if◌then◌else◌, inl, false, some,
  List, [], ◌∷◌, append-nil, Bytes, length, u32_mod, arith, le→leb, ==_ne,
}
use cpp2tnt.Outcome.{Result, ok, ◌>>=◌}
use cpp2tnt.WtfBuffer.{capacity, put, poke}
use cpp2tnt.WtfBuffer.Content.{IsValid, resize_within}
use cpp2tnt.Msgpuck.{Msgpuck}
use cpp2tnt.MpReader.{Reader, value}
use cpp2tnt.MpReader.Cursor.{
  concat, concat_size, AllItems, Stands, moved, has_next-Stands, skip-Stands,
}
use cpp2tnt.MpWriter.{Container, MpWriter, append, count_items, increment_container_counter}
use cpp2tnt.MpWriter.Items.{Wrote, append-Wrote}
use cpp2tnt.MpWriter.Copies.{copy_bytes, count_rounds, count_opened, counted, reader_over, write}

-- Where the storage has the room, the copy is what `append` does.
pub copy_bytes-append :
    (bs : Bytes) (w : MpWriter)
    → w.buf.used + length bs ≤ capacity w.buf
    → copy_bytes bs w ≡ append bs w
unfolding copy_bytes append put poke
copy_bytes-append bs w room =
    rw (resize_within w.buf (w.buf.used + length bs) room, le→leb _ _ room) refl

module _ (m : Msgpuck) where
  -- Each round of the loop counts an item; the fuel is more than the items.
  pub count_rounds-Stands :
      (mem : Bytes) (fuel n p i : ℕ) (r : Reader) (todo : List Bytes)
      → length todo < fuel
      → Stands m mem r p i todo
      → (r' : Reader) × (count_rounds fuel m mem n r ≡ value (n + length todo) r')
  unfolding count_rounds
  count_rounds-Stands mem zero n p i r todo h s = absurd (omega arith)
  count_rounds-Stands mem (suc fuel) n p i r [] h s =
      (r, rw (has_next-Stands m mem false r p i [] s) (ap (λ k. value k r) (omega arith)))
  count_rounds-Stands mem (suc fuel) n p i r (x ∷ xs) h s =
      let (skipped, s') = skip-Stands m mem r p i x xs s in
      let (r', e) =
        count_rounds-Stands mem fuel (suc n) (p + length x) (i + 1) (moved r (p + length x) (i + 1))
          xs (omega arith) s' in
      (
        r',
        rw (has_next-Stands m mem false r p i (x ∷ xs) s, skipped)
            (e ∙ ap (λ k. value k r') (omega arith)),
      )

  -- The bytes that are written, read from their beginning.
  start-Stands :
      (todo : List Bytes)
      → AllItems m todo
      → length todo < u32_mod
      → Stands m (concat todo) (reader_over (concat todo)) 0 0 todo
  start-Stands todo items few = record {
    position = refl;
    ind = refl;
    post = [];
    ahead = sym (append-nil (concat todo));
    size = omega arith;
    end = ap some (omega arith);
    counted = inl refl;
    small = omega arith;
    all_items = items;
  }

  none_opened : (n : ℕ) (w : MpWriter) → w.opened ≡ [] → w ≡ increment_container_counter n w
  unfolding count_items
  none_opened n w o =
      ap (λ (cs : List Container). record w { opened = cs }) (o ∙ sym (ap (count_items n) o))

  pub count_opened-items :
      (todo : List Bytes) (cs : List Container) (w : MpWriter)
      → w.opened ≡ cs
      → AllItems m todo
      → length todo < u32_mod
      → count_opened m (concat todo) 0 cs w ≡ ok (increment_container_counter (length todo) w)
  unfolding count_opened
  count_opened-items todo [] w o items few = ap ok (none_opened (length todo) w o)
  count_opened-items todo (c ∷ cs) w o items few =
      let (r', e) =
        count_rounds-Stands (concat todo) (suc (length (concat todo))) 0 0 0
          (reader_over (concat todo)) todo (omega (arith, concat_size m (concat todo) todo items))
          (start-Stands todo items few) in
      ap (counted w) (e ∙ ap (λ k. value k r') zero_add)
    where
      zero_add : 0 + length todo ≡ length todo
      zero_add = omega arith

  positive : (n : ℕ) → 0 < n → n ≢ 0
  positive n h = λ e. absurd (omega (arith, e))

  pub count_opened-given :
      (bs : Bytes) (n : ℕ) (cs : List Container) (w : MpWriter)
      → w.opened ≡ cs
      → 0 < n
      → count_opened m bs n cs w ≡ ok (increment_container_counter n w)
  unfolding count_opened
  count_opened-given bs n [] w o h = ap ok (none_opened n w o)
  count_opened-given bs n (c ∷ cs) w o h =
      ap
        (λ (b : Bool).
          if b
          then counted w (count_rounds (suc (length bs)) m bs 0 (reader_over bs))
          else ok (increment_container_counter n w))
        (==_ne n 0 (positive n h))

  -- How the bytes and the counter come together.
  copied-Wrote :
      (bs : Bytes) (n k : ℕ) (w : MpWriter)
      → IsValid w.buf
      → w.buf.used + length bs ≤ capacity w.buf
      → ((w' : MpWriter) → count_opened m bs n w'.opened w' ≡ ok (increment_container_counter k w'))
      → Wrote k (write m bs n w) w bs
  unfolding write
  copied-Wrote bs n k w v room count =
      let (w', e, v', same, used, cap, still) = append-Wrote w bs v room in
      (
        increment_container_counter k w',
        ap (λ (r : Result MpWriter). r >>= λ x. count_opened m bs n x.opened x)
              (copy_bytes-append bs w room ∙ e)
            ∙ count w',
        v',
        same,
        used,
        cap,
        ap (count_items k) still,
      )

  -- Bytes that fit are appended, and the innermost container counts as many items as the caller says.
  pub write-Wrote :
      (bs : Bytes) (n : ℕ) (w : MpWriter)
      → 0 < n
      → IsValid w.buf
      → w.buf.used + length bs ≤ capacity w.buf
      → Wrote n (write m bs n w) w bs
  write-Wrote bs n w h v room =
      copied-Wrote bs n n w v room λ w'. count_opened-given bs n w'.opened w' refl h

  -- Where the caller does not say it, `write` finds out how many items the bytes are.
  pub write-Wrote_items :
      (todo : List Bytes) (w : MpWriter)
      → AllItems m todo
      → length todo < u32_mod
      → IsValid w.buf
      → w.buf.used + length (concat todo) ≤ capacity w.buf
      → Wrote (length todo) (write m (concat todo) 0 w) w (concat todo)
  write-Wrote_items todo w items few v room =
      copied-Wrote (concat todo) 0 (length todo) w v room
        λ w'. count_opened-items todo w'.opened w' refl items few

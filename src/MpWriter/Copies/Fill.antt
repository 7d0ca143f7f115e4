-- ===== src/MpWriter/Copies/Fill.antt =====
-- mp_writer.cpp: fill().
use cpp2tnt.Prelude.{
  ℕ, zero, suc, ◌+◌, ◌-◌, ◌*◌, ◌/◌, ◌%◌, Bool, if◌then◌else◌, subst, ◌≤◌, ◌<◌, ◌≡◌, refl, sym, ap,
  ◌∙◌, inl, inr, Bool-cases, List, [], ◌∷◌, ◌++◌, append-nil, append_assoc, Bytes, length,
  length-append, u32_mod, arith, lt→ltb, le→leb, leb-eq_false, ltb,
}
use native.Mathlib.Nat.{suc-mul, div-mul-le_self, lt-div-mul-add, div-le_self}
use cpp2tnt.Outcome.{Result, ok, thrown, no_opened_containers, ◌>>=◌}
use cpp2tnt.WtfBuffer.{capacity, content}
use cpp2tnt.WtfBuffer.Content.{IsValid}
use cpp2tnt.Msgpuck.{Msgpuck}
use cpp2tnt.MpWriter.{Container, MpWriter, count_items}
use cpp2tnt.MpWriter.Items.{Wrote, count_items_zero, count_items_add}
use cpp2tnt.MpWriter.Copies.{RawView, put_raw, fill, fill_rounds, top_count, is_nil}
use cpp2tnt.MpWriter.Copies.Write.{write-Wrote}

-- `k` copies of some bytes
abbrev pub copies : ℕ → Bytes → Bytes
copies zero bs = []
copies (suc k) bs = bs ++ copies k bs

abbrev total : ℕ → ℕ → ℕ
total zero n = 0
total (suc k) n = n + total k n

total_lem : (k n : ℕ) → total k n ≡ k * n
total_lem zero n = omega arith
total_lem (suc k) n = omega (arith, total_lem k n, suc-mul k n)

module _ (m : Msgpuck) (v : RawView) (target : ℕ) (positive : 0 < v.cardinality)
    (small : target < u32_mod) where
  -- No copy more fits, and nothing is written.
  fill_rounds_last :
      (fuel : ℕ) (w : MpWriter) (c : Container) (cs : List Container)
      → 0 < fuel
      → w.opened ≡ c ∷ cs
      → target < c.items_count + v.cardinality
      → fill_rounds fuel m v target w ≡ ok w
  unfolding fill_rounds
  fill_rounds_last zero w c cs h o full = absurd (omega arith)
  fill_rounds_last (suc fuel) w c cs h o full =
      elim (Bool-cases (ltb (top_count w.opened) target)) [
        | inl less ↦
            rw
              (
                less,
                leb-eq_false (top_count w.opened + v.cardinality) target
                    (omega (arith, ap top_count o)),
              )
              refl
        | inr enough ↦ rw enough refl
      ]

  fill_rounds-Wrote :
      (k fuel : ℕ) (w : MpWriter) (c : Container) (cs : List Container)
      → k < fuel
      → w.opened ≡ c ∷ cs
      → c.items_count < u32_mod
      → (0 < k → c.items_count + total k v.cardinality ≤ target)
      → target < c.items_count + total (suc k) v.cardinality
      → IsValid w.buf
      → w.buf.used + length (copies k v.bytes) ≤ capacity w.buf
      → Wrote (total k v.cardinality) (fill_rounds fuel m v target w) w (copies k v.bytes)
  unfolding fill_rounds put_raw count_items
  fill_rounds-Wrote zero fuel w c cs h o fits inside full v' room = (
    w,
    fill_rounds_last fuel w c cs (omega arith) o (omega arith),
    v',
    sym (append-nil _),
    omega arith,
    refl,
    o ∙ sym (count_items_zero c cs fits) ∙ ap (count_items 0) (sym o),
  )
  fill_rounds-Wrote (suc k) zero w c cs h o fits inside full v' room = absurd (omega arith)
  fill_rounds-Wrote (suc k) (suc fuel) w c cs h o fits inside full v' room =
      let n = v.cardinality in
      let split = length-append v.bytes (copies k v.bytes) in
      let top = ap top_count o in
      let le = inside (omega arith) in
      let (w', e, v'', same, used, cap, counted) =
        write-Wrote m v.bytes n w positive v' (omega (arith, split)) in
      let c' : Container = record c { items_count = (c.items_count + n) % u32_mod } in
      let (w'', e', v''', same', used', cap', counted') =
        fill_rounds-Wrote k fuel w' c' cs (omega arith) (counted ∙ ap (count_items n) o ∙ one_more)
          (omega arith) (λ h. omega arith) (omega arith) v'' (omega (arith, split, used, cap)) in
      (
        w'',
        rw
            (
              lt→ltb (top_count w.opened) target (omega (arith, top)),
              le→leb (top_count w.opened + n) target (omega (arith, top)),
            )
            (ap (λ (r : Result MpWriter). r >>= fill_rounds fuel m v target) e ∙ e'),
        v''',
        same'
            ∙ ap (λ zs. zs ++ copies k v.bytes) same
            ∙ append_assoc (content w.buf) v.bytes (copies k v.bytes),
        omega (arith, used, used', split),
        cap' ∙ cap,
        counted' ∙ ap (count_items (total k n)) counted ∙ count_items_add n (total k n) w.opened,
      )
    where
      one_more :
          count_items v.cardinality (c ∷ cs)
          ≡ record c { items_count = (c.items_count + v.cardinality) % u32_mod } ∷ cs
      one_more = refl

  -- `fill` writes as many copies of the items as the innermost container has places for up to
  -- `target`, and no more: it comes to an end, the counter does not pass `target`, and what is left is
  -- less than one copy. It wants a view that says how many items it has, and the room for the copies.
  pub fill-Wrote :
      (w : MpWriter) (c : Container) (cs : List Container)
      → w.opened ≡ c ∷ cs
      → c.items_count ≤ target
      → IsValid w.buf
      → let n = v.cardinality in
        let k = (target - c.items_count) / n in
        w.buf.used + length (copies k v.bytes) ≤ capacity w.buf
        → Wrote (k * n) (fill m v target w) w (copies k v.bytes)
          × (c.items_count + k * n ≤ target)
          × (target < c.items_count + k * n + n)
  unfolding fill
  fill-Wrote w c cs o le v' room =
      let n = v.cardinality in
      let k = (target - c.items_count) / n in
      let below : k * n ≤ target - c.items_count = div-mul-le_self (target - c.items_count) n in
      let above : target - c.items_count < k * n + n = lt-div-mul-add positive in
      let few : k ≤ target = omega (arith, div-le_self (target - c.items_count) n) in
      let start = λ (b : Bool).
        if b then thrown no_opened_containers w else fill_rounds (suc target) m v target w in
      (
        subst (λ (j : ℕ). Wrote j (fill m v target w) w (copies k v.bytes)) (total_lem k n)
            (subst (λ (b : Bool). Wrote (total k n) (start b) w (copies k v.bytes))
              (sym (ap is_nil o))
              (fill_rounds-Wrote k (suc target) w c cs (omega arith) o (omega arith)
                (λ h. omega (arith, total_lem k n)) (omega (arith, total_lem k n)) v' room)),
        omega arith,
        omega arith,
      )

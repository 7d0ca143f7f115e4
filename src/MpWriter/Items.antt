-- ===== src/MpWriter/Items.antt =====
-- mp_writer.h: `<<` of values that take up one item of the container around them.
use cpp2tnt.Prelude.{
  ℕ, ◌+◌, ◌-◌, ◌*◌, ◌%◌, ◌≤◌, ◌<◌, ◌≡◌, refl, sym, ap, ◌∙◌, List, [], ◌∷◌, ◌++◌, append_assoc,
  append-nil, Bytes, length, u32_mod, arith, length-append, ltb-eq_false, some,
}
use cpp2tnt.Outcome.{Result, ok, ◌>>=◌}
use cpp2tnt.WtfBuffer.{capacity, content}
use cpp2tnt.WtfBuffer.Content.{IsValid, put_lem}
use cpp2tnt.Msgpuck.{Msgpuck}
use cpp2tnt.MpWriter.{
  Container, MpWriter, append, count_items, stack_size, put_item, put_uint, put_string, put_all,
}

-- A call on `w` that succeeds: it appends `bs` and adds `k` to the innermost counter.
abbrev pub Wrote : ℕ → Result MpWriter → MpWriter → Bytes → Type 0
Wrote k r w bs =
    (w' : MpWriter) × (r ≡ ok w')
    × IsValid w'.buf
    × (content w'.buf ≡ content w.buf ++ bs)
    × (w'.buf.used ≡ w.buf.used + length bs)
    × (capacity w'.buf ≡ capacity w.buf)
    × (w'.opened ≡ count_items k w.opened)

pub count_items_zero :
    (c : Container) (cs : List Container)
    → c.items_count < u32_mod
    → count_items 0 (c ∷ cs) ≡ c ∷ cs
unfolding count_items
count_items_zero c cs h =
    let e : (c.items_count + 0) % u32_mod ≡ c.items_count = omega arith in rw e

pub count_items_add :
    (k n : ℕ) (cs : List Container) → count_items n (count_items k cs) ≡ count_items (k + n) cs
unfolding count_items
count_items_add k n [] = refl
count_items_add k n (c ∷ cs) =
    let e : ((c.items_count + k) % u32_mod + n) % u32_mod ≡ (c.items_count + (k + n)) % u32_mod =
      omega arith in
    rw e

pub length-count_items : (k : ℕ) (cs : List Container) → length (count_items k cs) ≡ length cs
unfolding count_items
length-count_items k [] = refl
length-count_items k (c ∷ cs) = refl

pub append-Wrote :
    (w : MpWriter) (bs : Bytes)
    → IsValid w.buf
    → w.buf.used + length bs ≤ capacity w.buf
    → (w' : MpWriter) × (append bs w ≡ ok w')
      × IsValid w'.buf
      × (content w'.buf ≡ content w.buf ++ bs)
      × (w'.buf.used ≡ w.buf.used + length bs)
      × (capacity w'.buf ≡ capacity w.buf)
      × (w'.opened ≡ w.opened)
unfolding append
append-Wrote w bs v room =
    let (b, e, vb, same, used, cap) = put_lem w.buf bs v room in
    (record w { buf = b }, rw e, vb, same, used, cap, refl)

-- A scalar takes up one item.
pub put_item-Wrote :
    (w : MpWriter) (bs : Bytes)
    → IsValid w.buf
    → w.buf.used + length bs ≤ capacity w.buf
    → Wrote 1 (put_item bs w) w bs
unfolding put_item
put_item-Wrote w bs v room =
    let (w', e, v', same, used, cap, still) = append-Wrote w bs v room in
    (
      record w' { opened = count_items 1 w'.opened },
      rw e,
      v',
      same,
      used,
      cap,
      ap (count_items 1) still,
    )

-- One call after another.
pub then-Wrote :
    (j k : ℕ) (r : Result MpWriter) (next : MpWriter → Result MpWriter) (w : MpWriter)
    (bs cs : Bytes)
    → Wrote j r w bs
    → ((w' : MpWriter)
        → IsValid w'.buf
        → w'.buf.used ≡ w.buf.used + length bs
        → capacity w'.buf ≡ capacity w.buf
        → length w'.opened ≡ length w.opened
        → Wrote k (next w') w' cs)
    → Wrote (j + k) (r >>= next) w (bs ++ cs)
then-Wrote j k r next w bs cs (w', e, v, same, used, cap, counted) more =
    let (w'', e', v', same', used', cap', counted') =
      more w' v used cap (ap length counted ∙ length-count_items j w.opened) in
    (
      w'',
      ap (λ (r' : Result MpWriter). r' >>= next) e ∙ e',
      v',
      same' ∙ ap (λ zs. zs ++ cs) same ∙ append_assoc (content w.buf) bs cs,
      omega (arith, used, used', length-append bs cs),
      cap' ∙ cap,
      counted' ∙ ap (count_items k) counted ∙ count_items_add j k w.opened,
    )

module _ {ℓ} {A : Type ℓ} where
  -- What `<<` has to do for a value that fits: it takes up `k` items, writes `encode x`, and opens
  -- at most `depth` containers on its way.
  abbrev pub Writes : ℕ → ℕ → (A → Type 0) → (A → Bytes) → (A → MpWriter → Result MpWriter) → Type ℓ
  Writes k depth Fits encode put_one =
      (x : A) (w : MpWriter)
      → Fits x
      → IsValid w.buf
      → w.buf.used + length (encode x) ≤ capacity w.buf
      → length w.opened + depth ≤ stack_size
      → Wrote k (put_one x w) w (encode x)

  abbrev pub encode_all : (A → Bytes) → List A → Bytes
  encode_all encode [] = []
  encode_all encode (x ∷ xs) = encode x ++ encode_all encode xs

  abbrev pub AllFit : (A → Type 0) → List A → Type 0
  AllFit Fits [] = Unit
  AllFit Fits (x ∷ xs) = Fits x × AllFit Fits xs

  abbrev pub items : ℕ → List A → ℕ
  items k [] = 0
  items k (x ∷ xs) = k + items k xs

  pub items_one : (xs : List A) → items 1 xs ≡ length xs
  items_one [] = refl
  items_one (x ∷ xs) = omega (arith, items_one xs)

  pub items_two : (xs : List A) → items 2 xs ≡ 2 * length xs
  items_two [] = refl
  items_two (x ∷ xs) = omega (arith, items_two xs)

  pub put_all-Wrote :
      (k depth : ℕ) (Fits : A → Type 0) (encode : A → Bytes)
      (put_one : A → MpWriter → Result MpWriter)
      → Writes k depth Fits encode put_one
      → (xs : List A) (w : MpWriter) (c : Container) (cs : List Container) → w.opened ≡ c ∷ cs
      → c.items_count < u32_mod
      → AllFit Fits xs
      → IsValid w.buf
      → w.buf.used + length (encode_all encode xs) ≤ capacity w.buf
      → length w.opened + depth ≤ stack_size
      → Wrote (items k xs) (put_all put_one xs w) w (encode_all encode xs)
  unfolding put_all count_items
  put_all-Wrote k depth Fits encode put_one writes [] w c cs o small fit v room deep = (
    w,
    refl,
    v,
    sym (append-nil (content w.buf)),
    omega arith,
    refl,
    o ∙ sym (count_items_zero c cs small) ∙ ap (count_items 0) (sym o),
  )
  put_all-Wrote k depth Fits encode put_one writes (x ∷ xs) w c cs o small fit v room deep =
      let split = length-append (encode x) (encode_all encode xs) in
      let (w', e, v', same, used, cap, counted) = writes x w fit.0 v (omega (arith, split)) deep in
      let len : length w'.opened ≡ length w.opened =
        ap length counted ∙ length-count_items k w.opened in
      let (w'', e', v'', same', used', cap', counted') =
        put_all-Wrote k depth Fits encode put_one writes xs w'
          (record c { items_count = (c.items_count + k) % u32_mod }) cs
          (counted ∙ ap (count_items k) o ∙ one_more) (omega arith) fit.1 v'
          (omega (arith, split, used, cap)) (omega (arith, len)) in
      (
        w'',
        ap (λ (r : Result MpWriter). r >>= put_all put_one xs) e ∙ e',
        v'',
        same'
            ∙ ap (λ zs. zs ++ encode_all encode xs) same
            ∙ append_assoc (content w.buf) (encode x) (encode_all encode xs),
        omega (arith, used, used', split),
        cap' ∙ cap,
        counted' ∙ ap (count_items (items k xs)) counted ∙ count_items_add k (items k xs) w.opened,
      )
    where
      one_more :
          count_items k (c ∷ cs) ≡ record c { items_count = (c.items_count + k) % u32_mod } ∷ cs
      one_more = refl

-- An unsigned integer and a string are scalars.
pub put_uint-Writes : (m : Msgpuck) → Writes 1 0 (λ (n : ℕ). Unit) m.encode_uint (put_uint m)
unfolding put_uint
put_uint-Writes m n w fit v room deep = put_item-Wrote w (m.encode_uint n) v room

pub put_string-Writes :
    (m : Msgpuck)
    → Writes 1 0 (λ (s : Bytes). length s < u32_mod) m.encode_str (λ s. put_string m (some s))
unfolding put_string
put_string-Writes m s w fit v room deep =
    rw (ltb-eq_false (u32_mod - 1) (length s) (omega arith))
      (put_item-Wrote w (m.encode_str s) v room)

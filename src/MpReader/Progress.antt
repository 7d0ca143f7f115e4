-- ===== src/MpReader/Progress.antt =====
-- mp_reader.h: how far the reads move a reader.
use cpp2tnt.Prelude.{
  ℕ, ◌+◌, ◌-◌, ◌≤◌, ◌<◌, ◌≡◌, refl, sym, subst, inl, inr, Bool, true, false, Bool-cases, Option,
  none, some, Bytes, length, drop, ltb, if◌then◌else◌, arith, leb_ℤ, ℤ, pos, take, ltb→lt,
}
use cpp2tnt.Outcome.{Result, ok, thrown, undefined, OnOk, no_data, type_expected, value_overflow}
use cpp2tnt.Msgpuck.{Msgpuck, MpType, uint, int, ext, str, nil}
use cpp2tnt.MpReader.{
  Reader, skip, skip_at, move, next_at, reaches, exceeds, limit, Read, value, failed, stuck, ◌>>=◌,
  after, with_type, if_some, type_at, has_next, if_next, ◌is◌,
}
use cpp2tnt.MpReader.Values.{
  IntType, read_int, integer, int_max, in_range, converted, ext_number, checked, from_chars,
  read_view, read_text, some_text, printed,
}

-- What holds of a value that is read and of the reader behind it.
abbrev pub OnValue : {A : Type 0} → (A → Reader → Type 0) → Read A → Type 0
OnValue P (value a r) = P a r
OnValue P (failed e r) = Unit
OnValue P stuck = Unit

pub OnValue-bind :
    {A B : Type 0} (P : A → Reader → Type 0) (Q : B → Reader → Type 0) (x : Read A)
    (k : A → Reader → Read B)
    → OnValue P x
    → ((a : A) (r : Reader) → P a r → OnValue Q (k a r))
    → OnValue Q (x >>= k)
OnValue-bind P Q (value a r) k h f = f a r h
OnValue-bind P Q (failed e r) k h f = tt
OnValue-bind P Q stuck k h f = tt

pub OnValue-after :
    {A : Type 0} (P : Reader → Type 0) (Q : A → Reader → Type 0) (x : Result Reader)
    (k : Reader → Read A)
    → OnOk P x
    → ((r : Reader) → P r → OnValue Q (k r))
    → OnValue Q (after x k)
OnValue-after P Q (ok r) k h f = f r h
OnValue-after P Q (thrown e r) k h f = tt
OnValue-after P Q undefined k h f = tt

pub OnValue-if :
    {A : Type 0} (Q : A → Reader → Type 0) (b : Bool) (x y : Read A)
    → OnValue Q x
    → OnValue Q y
    → OnValue Q (if b then x else y)
OnValue-if Q true x y h g = h
OnValue-if Q false x y h g = g

OnValue-if_some :
    {A B : Type 0} (Q : B → Reader → Type 0) (absent : Read B) (k : A → Read B) (o : Option A)
    → OnValue Q absent
    → ((a : A) → OnValue Q (k a))
    → OnValue Q (if_some absent k o)
OnValue-if_some Q absent k none h f = h
OnValue-if_some Q absent k (some a) h f = f a

OnValue-with_type :
    {A : Type 0} (Q : A → Reader → Type 0) (m : Msgpuck) (mem : Bytes) (p : Option ℕ)
    (null away : Read A) (k : MpType → Read A)
    → OnValue Q null
    → OnValue Q away
    → ((t : MpType) → OnValue Q (k t))
    → OnValue Q (with_type m mem p null away k)
unfolding with_type
OnValue-with_type Q m mem p null away k h g f =
    OnValue-if_some Q null (λ p. if_some away k (type_at m mem p)) p h
      λ p. OnValue-if_some Q away k (type_at m mem p) g f

-- The library moves over a byte at least.
abbrev pub Moves : Msgpuck → Type 0
Moves m = (bs : Bytes) (n : ℕ) → m.next bs ≡ some n → 0 < n

-- The bytes of the memory that are before the reader.
abbrev pub left : Bytes → Option ℕ → ℕ
left mem none = 0
left mem (some p) = length mem - p

module _ (m : Msgpuck) (moves : Moves m) (mem : Bytes) where
  move-less :
      (r : Reader) (p : ℕ) (o : Option ℕ)
      → ((n : ℕ) → o ≡ some n → (p < length mem) × (0 < n))
      → OnOk (λ r'. left mem r'.position < length mem - p) (move r p o)
  unfolding move
  move-less r p none h = tt
  move-less r p (some n) h = elim (Bool-cases (exceeds r.end (p + n))) [
    | inl past ↦ rw past tt
    | inr fits ↦ let (inside, some_bytes) = h n refl in rw fits (omega arith)
  ]

  next_at-Moves : (p n : ℕ) → next_at m mem p ≡ some n → (p < length mem) × (0 < n)
  next_at-Moves p n e = elim (Bool-cases (ltb p (length mem))) [
    | inl inside ↦ (ltb→lt p (length mem) inside, moves (drop p mem) n (rw inside at e))
    | inr past ↦ cc (rw past at e)
  ]

  -- A reader that has skipped an item has fewer bytes before it.
  pub skip_less :
      (r : Reader) → OnOk (λ r'. left mem r'.position < left mem r.position) (skip m mem r)
  unfolding skip skip_at
  skip_less r = at r.position
    where
      at : (o : Option ℕ) → OnOk (λ r'. left mem r'.position < left mem o) (skip_at m mem r o)
      at none = tt
      at (some p) = elim (Bool-cases (reaches r.end p)) [
        | inl past ↦ rw past tt
        | inr inside ↦ elim (Bool-cases (reaches (limit r.kind) r.ind)) [
          | inl past ↦ rw (inside, past) tt
          | inr counted ↦
              rw (inside, counted) (move-less r p (next_at m mem p) (λ n e. next_at-Moves p n e))
        ]
      ]

  integer-reader :
      (t : IntType) (bs : Bytes) (r : Reader) (type : MpType)
      → OnValue (λ a r'. r' ≡ r) (integer m t bs r type)
  unfolding integer ext_number
  integer-reader t bs r uint =
      OnValue-if (λ (a : ℤ) r'. r' ≡ r) (leb_ℤ (pos (m.decode_uint bs).0) (int_max t))
        (value (pos (m.decode_uint bs).0) r) (failed value_overflow r) refl tt
  integer-reader t bs r int =
      OnValue-if (λ (a : ℤ) r'. r' ≡ r) (in_range t (converted t (m.decode_int bs)))
        (value (converted t (m.decode_int bs)) r) (failed value_overflow r) refl tt
  integer-reader t bs r MpType.ext =
      OnValue-if (λ (a : ℤ) r'. r' ≡ r) (ltb 64 (length (m.print bs))) stuck
        (checked t r (from_chars t.signed (take 63 (m.print bs)))) tt
        (number (from_chars t.signed (take 63 (m.print bs))))
    where
      number : (o : Option ℤ) → OnValue (λ a r'. r' ≡ r) (checked t r o)
      number none = tt
      number (some n) =
          OnValue-if (λ (a : ℤ) r'. r' ≡ r) (in_range t n) (value n r) (failed value_overflow r)
            refl tt
  integer-reader t bs r MpType.nil = tt
  integer-reader t bs r MpType.str = tt
  integer-reader t bs r MpType.bin = tt
  integer-reader t bs r MpType.array = tt
  integer-reader t bs r MpType.map = tt
  integer-reader t bs r MpType.bool = tt
  integer-reader t bs r MpType.float = tt
  integer-reader t bs r MpType.double = tt

  -- Behind a read of an integer, fewer bytes are left; behind a read of a text, no more.
  pub read_int_less :
      (t : IntType) (r : Reader)
      → OnValue (λ a r'. left mem r'.position < left mem r.position) (read_int m t mem r)
  unfolding read_int
  read_int_less t r =
      let Q = λ (a : ℤ) (r' : Reader). left mem r'.position < left mem r.position in
      OnValue-after (λ r'. left mem r'.position < left mem r.position) Q (skip m mem r)
        (λ r'.
          with_type m mem r.position stuck stuck
            λ type. if_some stuck (λ p. integer m t (drop p mem) r' type) r.position)
        (skip_less r)
        (λ r' h.
          OnValue-with_type Q m mem r.position stuck stuck
            (λ type. if_some stuck (λ p. integer m t (drop p mem) r' type) r.position) tt tt
            (λ type.
              OnValue-if_some Q stuck (λ p. integer m t (drop p mem) r' type) r.position tt
                (λ p.
                  carry r' (integer m t (drop p mem) r' type) h
                    (integer-reader t (drop p mem) r' type))))
    where
      carry :
          (r' : Reader) (x : Read ℤ)
          → left mem r'.position < left mem r.position
          → OnValue (λ a r''. r'' ≡ r') x
          → OnValue (λ a r''. left mem r''.position < left mem r.position) x
      carry r' (value a r'') h e =
          subst (λ (y : Reader). left mem y.position < left mem r.position) (sym e) h
      carry r' (failed e r'') h same = tt
      carry r' stuck h same = tt

  abbrev NotMore : Reader → {A : Type 0} → Read A → Type 0
  NotMore r = OnValue (λ a r'. left mem r'.position ≤ left mem r.position)

  -- A value that is there once the reader has passed an item.
  skipped_text :
      {A : Type 0} (f : ℕ → A) (r : Reader)
      → NotMore r (after (skip m mem r) λ r'. if_some stuck (λ p. value (f p) r') r.position)
  skipped_text f r =
      OnValue-after (λ r'. left mem r'.position < left mem r.position)
        (λ a r'. left mem r'.position ≤ left mem r.position) (skip m mem r)
        (λ r'. if_some stuck (λ p. value (f p) r') r.position) (skip_less r)
        (λ r' h.
          OnValue-if_some (λ a r'. left mem r'.position ≤ left mem r.position) stuck
            (λ p. value (f p) r') r.position tt (λ p. omega arith))

  if_next-NotMore :
      {A : Type 0} (r : Reader) (o : Option Bool) (x y : Read A)
      → NotMore r x
      → NotMore r y
      → NotMore r (if_next r o x y)
  if_next-NotMore r none x y h g = tt
  if_next-NotMore r (some false) x y h g = h
  if_next-NotMore r (some true) x y h g = g

  read_view_less : (r : Reader) → NotMore r (read_view m mem r)
  unfolding read_view
  read_view_less r =
      let Q = λ (a : Option Bytes) (r' : Reader). left mem r'.position ≤ left mem r.position in
      let text =
        after (skip m mem r)
          λ r'. if_some stuck (λ p. value (some (m.decode_str (drop p mem))) r') r.position in
      let absent = after (skip m mem r) (value none) in
      let by_type = λ (t : MpType).
        if t is str then text else if t is nil then absent else failed type_expected r in
      if_next-NotMore r (has_next false r) (value none r)
        (with_type m mem r.position stuck stuck by_type) (omega arith)
        (OnValue-with_type Q m mem r.position stuck stuck by_type tt tt (λ t.
          OnValue-if Q (t is str) text (if t is nil then absent else failed type_expected r)
            (skipped_text (λ p. some (m.decode_str (drop p mem))) r)
            (OnValue-if Q (t is nil) absent (failed type_expected r)
              (OnValue-after (λ r'. left mem r'.position < left mem r.position) Q (skip m mem r)
                (value none) (skip_less r) (λ r' h. omega arith))
              tt)))

  pub read_text_less : (old : ℕ) (r : Reader) → NotMore r (read_text m mem old r)
  unfolding read_text
  read_text_less old r =
      let Q = λ (a : Bytes) (r' : Reader). left mem r'.position ≤ left mem r.position in
      let shown =
        after (skip m mem r)
          λ r'. if_some stuck (λ p. value (printed old (m.print (drop p mem))) r') r.position in
      let viewed = read_view m mem r >>= some_text in
      OnValue-with_type Q m mem r.position (failed no_data r) stuck
        (λ t. if t is ext then shown else viewed) tt tt
        (λ t.
          OnValue-if Q (t is ext) shown viewed
            (skipped_text (λ p. printed old (m.print (drop p mem))) r)
            (OnValue-bind (λ a r'. left mem r'.position ≤ left mem r.position) Q (read_view m mem r)
              some_text (read_view_less r) (some_text-NotMore)))
    where
      some_text-NotMore :
          (o : Option Bytes) (r' : Reader)
          → left mem r'.position ≤ left mem r.position
          → NotMore r (some_text o r')
      some_text-NotMore none r' h = tt
      some_text-NotMore (some s) r' h = h

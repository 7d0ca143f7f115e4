-- ===== src/MpReader/Checks.antt =====
-- mp_reader.h: check_next and check, which look whether the bytes are valid MessagePack.
use cpp2tnt.Prelude.{
  ℕ, zero, suc, ◌-◌, ◌≤◌, ◌<◌, ◌≡◌, refl, sym, ap₂, ◌∙◌, subst, inl, inr, ◌⊎◌, Option-cases, Option,
  none, some, [], ◌∷◌, Bytes, length, take, drop, leb, if◌then◌else◌, arith, length-drop,
}
use cpp2tnt.Outcome.{
  Result, ok, thrown, undefined, no_right_bound, out_of_bounds, invalid_messagepack,
}
use cpp2tnt.Msgpuck.{Msgpuck}
use cpp2tnt.MpReader.{Reader}

-- The bytes from one offset to another.
abbrev pub bytes_between : Bytes → ℕ → ℕ → Bytes
bytes_between mem p e = take (e - p) (drop p mem)

-- What is done by the answer of mp_check.
abbrev if_valid : Reader → Option ℕ → (ℕ → Result Reader) → Result Reader
if_valid r none more = thrown invalid_messagepack r
if_valid r (some n) more = more n

-- mp_reader::check_next
check_next_at : Msgpuck → Bytes → Reader → Option ℕ → Option ℕ → Result Reader
check_next_at m mem r none end = ok r
check_next_at m mem r (some p) none = thrown no_right_bound r
check_next_at m mem r (some p) (some e) =
    if leb e p
    then thrown out_of_bounds r
    else if_valid r (m.check (bytes_between mem p e)) (λ n. ok r)

unfoldable pub check_next : Msgpuck → Bytes → Reader → Result Reader
unfolding check_next_at
check_next m mem r = check_next_at m mem r r.position r.end

-- The loop of mp_reader::check, over the bytes that are left.
pub check_rounds : ℕ → Msgpuck → Reader → Bytes → Result Reader
check_rounds fuel m r [] = ok r
check_rounds zero m r (b ∷ bs) = undefined
check_rounds (suc fuel) m r (b ∷ bs) =
    if_valid r (m.check (b ∷ bs)) λ n. check_rounds fuel m r (drop n (b ∷ bs))

check_from : Msgpuck → Bytes → Reader → Option ℕ → Option ℕ → Result Reader
unfolding check_rounds
check_from m mem r none end = ok r
check_from m mem r (some b) none = thrown no_right_bound r
check_from m mem r (some b) (some e) =
    let bs = bytes_between mem b e in check_rounds (suc (length bs)) m r bs

-- mp_reader::check
unfoldable pub check : Msgpuck → Bytes → Reader → Result Reader
unfolding check_from
check m mem r = check_from m mem r r.begin r.end

abbrev or_zero : Option ℕ → ℕ
or_zero none = 0
or_zero (some n) = n

module _ (m : Msgpuck) where
  -- Bytes that are valid items, one behind the other.
  pub data AreItems : Bytes → Type 0 where
    no_items : AreItems []
    item : (bs : Bytes) (n : ℕ) → m.check bs ≡ some n → AreItems (drop n bs) → AreItems bs

  -- The library accepts an item of a byte at least.
  abbrev pub Accepts : Type 0
  Accepts = (bs : Bytes) (n : ℕ) → m.check bs ≡ some n → (0 < n) × (n ≤ length bs)

  -- `ok` where the bytes are valid, and an exception where they are not.
  abbrev pub Decides : Reader → Bytes → Result Reader → Type 0
  Decides r bs x =
      ((x ≡ ok r) × AreItems bs) ⊎ ((x ≡ thrown invalid_messagepack r) × (AreItems bs → ⊥))

  not_items :
      (b : ℕ) (bs : Bytes)
      → ((n : ℕ) → m.check (b ∷ bs) ≡ some n → AreItems (drop n (b ∷ bs)) → ⊥)
      → AreItems (b ∷ bs)
      → ⊥
  not_items b bs h (item _ n e rest) = h n e rest

  check_rounds-Decides :
      Accepts
      → (fuel : ℕ) (r : Reader) (bs : Bytes) → length bs ≤ fuel
      → Decides r bs (check_rounds fuel m r bs)
  unfolding check_rounds
  check_rounds-Decides accepts fuel r [] h = inl (refl, no_items)
  check_rounds-Decides accepts zero r (b ∷ bs) h = absurd (omega arith)
  check_rounds-Decides accepts (suc fuel) r (b ∷ bs) h = elim (Option-cases (m.check (b ∷ bs))) [
    | inl invalid ↦
        rw invalid (inr (refl, not_items b bs (λ n e rest. absurd (cc (sym invalid ∙ e)))))
    | inr (n, valid) ↦
        let (some_bytes, inside) = accepts (b ∷ bs) n valid in
        rw valid (
          next n valid (
            check_rounds-Decides accepts fuel r (drop n (b ∷ bs))
              (omega (arith, length-drop n (b ∷ bs)))))
  ]
    where
      next :
          (n : ℕ)
          → m.check (b ∷ bs) ≡ some n
          → Decides r (drop n (b ∷ bs)) (check_rounds fuel m r (drop n (b ∷ bs)))
          → Decides r (b ∷ bs) (check_rounds fuel m r (drop n (b ∷ bs)))
      next n valid (inl (e, rest)) = inl (e, item (b ∷ bs) n valid rest)
      next n valid (inr (e, refuted)) = inr (
        e,
        not_items b bs λ k e' rest.
            refuted (
              subst (λ (o : Option ℕ). AreItems (drop (or_zero o) (b ∷ bs))) (sym e' ∙ valid) rest),
      )

  -- `check` accepts a reader's bytes if and only if they are valid items one behind the other, and throws
  -- otherwise: it comes to an end, and leaves the reader as it is. It wants a reader that knows both
  -- ends, and a library that accepts no item of no bytes and none that passes the end.
  pub check-Decides :
      Accepts
      → (mem : Bytes) (r : Reader) (b e : ℕ) → r.begin ≡ some b
      → r.end ≡ some e
      → Decides r (bytes_between mem b e) (check m mem r)
  unfolding check check_from
  check-Decides accepts mem r b e begin end =
      let bs = bytes_between mem b e in
      subst (Decides r bs) (sym (ap₂ (check_from m mem r) begin end))
        (check_rounds-Decides accepts (suc (length bs)) r bs (omega arith))

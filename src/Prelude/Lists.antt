-- ===== src/Prelude/Lists.antt =====
-- Lists measured and cut by native numbers, under the library's names, and writes in place.
use Prim.Native.Nat.{ℕ, zero, suc, ◌+◌, ◌-◌, ◌≤◌, ◌<◌, min}
use mathlib.Core.Path.{◌≡◌, refl, sym, ap, ap₂, ◌∙◌}
use mathlib.Core.List.{List, [], ◌∷◌, ◌++◌, append_assoc}
use mathlib.Core.Option.{Option, none, some}
use native.Mathlib.Omega.{arith}

module _ {ℓ} {A : Type ℓ} where
  abbrev pub length : List A → ℕ
  length [] = 0
  length (x ∷ xs) = suc (length xs)

  abbrev pub get_elem? : List A → ℕ → Option A
  get_elem? [] i = none
  get_elem? (x ∷ xs) zero = some x
  get_elem? (x ∷ xs) (suc i) = get_elem? xs i

  abbrev pub take : ℕ → List A → List A
  take zero xs = []
  take (suc n) [] = []
  take (suc n) (x ∷ xs) = x ∷ take n xs

  abbrev pub drop : ℕ → List A → List A
  drop zero xs = xs
  drop (suc n) [] = []
  drop (suc n) (x ∷ xs) = drop n xs

  -- A write out of bounds changes nothing.
  abbrev pub set : List A → ℕ → A → List A
  set [] i v = []
  set (x ∷ xs) zero v = v ∷ xs
  set (x ∷ xs) (suc i) v = x ∷ set xs i v

  abbrev pub replicate : ℕ → A → List A
  replicate zero a = []
  replicate (suc n) a = a ∷ replicate n a

  -- Put `ys` over the elements of `xs` from index `i` on.
  abbrev pub overwrite : List A → ℕ → List A → List A
  overwrite xs i ys = take i xs ++ (ys ++ drop (i + length ys) xs)

  pub length-append : (xs ys : List A) → length (xs ++ ys) ≡ length xs + length ys
  length-append [] ys = omega arith
  length-append (x ∷ xs) ys = omega (arith, length-append xs ys)

  pub take-append-drop : (n : ℕ) (xs : List A) → take n xs ++ drop n xs ≡ xs
  take-append-drop zero xs = refl
  take-append-drop (suc n) [] = refl
  take-append-drop (suc n) (x ∷ xs) = ap (◌∷◌ x) (take-append-drop n xs)

  pub length-take : (n : ℕ) (xs : List A) → length (take n xs) ≡ min n (length xs)
  length-take zero xs = omega arith
  length-take (suc n) [] = omega arith
  length-take (suc n) (x ∷ xs) = omega (arith, length-take n xs)

  pub length-drop : (n : ℕ) (xs : List A) → length (drop n xs) ≡ length xs - n
  length-drop zero xs = omega arith
  length-drop (suc n) [] = omega arith
  length-drop (suc n) (x ∷ xs) = omega (arith, length-drop n xs)

  pub length-replicate : (n : ℕ) (a : A) → length (replicate n a) ≡ n
  length-replicate zero a = refl
  length-replicate (suc n) a = ap suc (length-replicate n a)

  -- The cut of an append at its seam, and inside its first part.
  pub take-append : (xs ys : List A) (n : ℕ) → n ≡ length xs → take n (xs ++ ys) ≡ xs
  take-append [] ys zero e = refl
  take-append [] ys (suc n) e = absurd (omega arith)
  take-append (x ∷ xs) ys zero e = absurd (omega arith)
  take-append (x ∷ xs) ys (suc n) e = ap (◌∷◌ x) (take-append xs ys n (omega arith))

  pub drop-append : (xs ys : List A) (n : ℕ) → n ≡ length xs → drop n (xs ++ ys) ≡ ys
  drop-append [] ys zero e = refl
  drop-append [] ys (suc n) e = absurd (omega arith)
  drop-append (x ∷ xs) ys zero e = absurd (omega arith)
  drop-append (x ∷ xs) ys (suc n) e = drop-append xs ys n (omega arith)

  pub take-append_le : (xs ys : List A) (n : ℕ) → n ≤ length xs → take n (xs ++ ys) ≡ take n xs
  take-append_le xs ys zero h = refl
  take-append_le [] ys (suc n) h = absurd (omega arith)
  take-append_le (x ∷ xs) ys (suc n) h = ap (◌∷◌ x) (take-append_le xs ys n (omega arith))

  pub drop-append_le :
      (xs ys : List A) (n : ℕ) → n ≤ length xs → drop n (xs ++ ys) ≡ drop n xs ++ ys
  drop-append_le xs ys zero h = refl
  drop-append_le [] ys (suc n) h = absurd (omega arith)
  drop-append_le (x ∷ xs) ys (suc n) h = drop-append_le xs ys n (omega arith)

  pub take_all : (n : ℕ) (xs : List A) → length xs ≤ n → take n xs ≡ xs
  take_all zero [] h = refl
  take_all zero (x ∷ xs) h = absurd (omega arith)
  take_all (suc n) [] h = refl
  take_all (suc n) (x ∷ xs) h = ap (◌∷◌ x) (take_all n xs (omega arith))

  pub drop_all : (n : ℕ) (xs : List A) → length xs ≤ n → drop n xs ≡ []
  drop_all zero [] h = refl
  drop_all zero (x ∷ xs) h = absurd (omega arith)
  drop_all (suc n) [] h = refl
  drop_all (suc n) (x ∷ xs) h = drop_all n xs (omega arith)

  pub take-take : (m n : ℕ) (xs : List A) → m ≤ n → take m (take n xs) ≡ take m xs
  take-take zero n xs h = refl
  take-take (suc m) zero xs h = absurd (omega arith)
  take-take (suc m) (suc n) [] h = refl
  take-take (suc m) (suc n) (x ∷ xs) h = ap (◌∷◌ x) (take-take m n xs (omega arith))

  pub drop-drop : (m n k : ℕ) (xs : List A) → k ≡ m + n → drop m (drop n xs) ≡ drop k xs
  drop-drop m zero k xs e = ap (λ j. drop j xs) (omega arith)
  drop-drop m (suc n) zero xs e = absurd (omega arith)
  drop-drop zero (suc n) (suc k) [] e = refl
  drop-drop (suc m) (suc n) (suc k) [] e = refl
  drop-drop m (suc n) (suc k) (x ∷ xs) e = drop-drop m n k xs (omega arith)

  -- A write at the end of the first `i` elements leaves those, then what was written.
  pub take-overwrite :
      (xs : List A) (i n : ℕ) (ys : List A)
      → i ≤ length xs
      → n ≡ i + length ys
      → take n (overwrite xs i ys) ≡ take i xs ++ ys
  take-overwrite xs i n ys h e =
      ap (take n) (sym (append_assoc (take i xs) ys (drop (i + length ys) xs)))
      ∙ take-append (take i xs ++ ys) (drop (i + length ys) xs) n
          (omega (arith, length-append (take i xs) ys, length-take i xs))

  pub length-overwrite :
      (xs : List A) (i : ℕ) (ys : List A)
      → i + length ys ≤ length xs
      → length (overwrite xs i ys) ≡ length xs
  length-overwrite xs i ys h = omega (
    arith,
    length-append (take i xs) (ys ++ drop (i + length ys) xs),
    length-append ys (drop (i + length ys) xs),
    length-take i xs,
    length-drop (i + length ys) xs,
  )

  pub take-append_ge :
      (xs ys : List A) (n : ℕ) → length xs ≤ n → take n (xs ++ ys) ≡ xs ++ take (n - length xs) ys
  take-append_ge [] ys n h = ap (λ k. take k ys) (omega arith)
  take-append_ge (x ∷ xs) ys zero h = absurd (omega arith)
  take-append_ge (x ∷ xs) ys (suc n) h =
      ap (◌∷◌ x) (take-append_ge xs ys n (omega arith) ∙ ap (λ k. xs ++ take k ys) (omega arith))

  pub take-nil : (n : ℕ) → take n [] ≡ []
  take-nil zero = refl
  take-nil (suc n) = refl

  pub drop-take : (m n : ℕ) (xs : List A) → drop m (take n xs) ≡ take (n - m) (drop m xs)
  drop-take zero n xs = ap (λ k. take k xs) (omega arith)
  drop-take (suc m) zero xs =
      let e : 0 ≡ 0 - suc m = omega arith in ap (λ k. take k (drop (suc m) xs)) e
  drop-take (suc m) (suc n) [] = sym (take-nil (suc n - suc m))
  drop-take (suc m) (suc n) (x ∷ xs) =
      let e : n - m ≡ suc n - suc m = omega arith in
      drop-take m n xs ∙ ap (λ k. take k (drop m xs)) e

  pub take-replicate : (k n : ℕ) (a : A) → k ≤ n → take k (replicate n a) ≡ replicate k a
  take-replicate zero n a h = refl
  take-replicate (suc k) zero a h = absurd (omega arith)
  take-replicate (suc k) (suc n) a h = ap (◌∷◌ a) (take-replicate k n a (omega arith))

  -- A write inside the first `n` elements is a write into these.
  pub take-overwrite_inside :
      (xs : List A) (i n : ℕ) (ys : List A)
      → i + length ys ≤ n
      → n ≤ length xs
      → take n (overwrite xs i ys) ≡ overwrite (take n xs) i ys
  take-overwrite_inside xs i n ys h g =
      take-append_ge (take i xs) (ys ++ rest) n (omega (arith, len))
      ∙ ap (λ zs. take i xs ++ zs)
          (take-append_ge ys rest (n - length (take i xs)) (omega (arith, len))
            ∙ ap (λ zs. ys ++ zs)
                (ap (λ k. take k rest) (omega (arith, len)) ∙ sym (drop-take (i + length ys) n xs)))
      ∙ ap (λ zs. zs ++ (ys ++ drop (i + length ys) (take n xs)))
          (sym (take-take i n xs (omega arith)))
    where
      rest : List A
      rest = drop (i + length ys) xs

      len : length (take i xs) ≡ i
      len = omega (arith, length-take i xs)

  -- A write of as many elements over a part of an append.
  pub overwrite-append :
      (xs old zs new : List A) (i : ℕ)
      → i ≡ length xs
      → length new ≡ length old
      → overwrite (xs ++ (old ++ zs)) i new ≡ xs ++ (new ++ zs)
  overwrite-append xs old zs new i e h =
      ap₂ (λ us vs. us ++ (new ++ vs)) (take-append xs (old ++ zs) i e)
        (ap (drop (i + length new)) (sym (append_assoc xs old zs))
          ∙ drop-append (xs ++ old) zs (i + length new) (omega (arith, length-append xs old)))

  pub get_elem?-append :
      (xs : List A) (x : A) (ys : List A) (i : ℕ)
      → i ≡ length xs
      → get_elem? (xs ++ x ∷ ys) i ≡ some x
  get_elem?-append [] x ys zero e = refl
  get_elem?-append [] x ys (suc i) e = absurd (omega arith)
  get_elem?-append (y ∷ xs) x ys zero e = absurd (omega arith)
  get_elem?-append (y ∷ xs) x ys (suc i) e = get_elem?-append xs x ys i (omega arith)

  pub get_elem?-take : (xs : List A) (n i : ℕ) → i < n → get_elem? (take n xs) i ≡ get_elem? xs i
  get_elem?-take xs zero i h = absurd (omega arith)
  get_elem?-take [] (suc n) i h = refl
  get_elem?-take (x ∷ xs) (suc n) zero h = refl
  get_elem?-take (x ∷ xs) (suc n) (suc i) h = get_elem?-take xs n i (omega arith)

  pub get_elem?-drop :
      (p : ℕ) (xs : List A) (x : A) (ys : List A) → drop p xs ≡ x ∷ ys → get_elem? xs p ≡ some x
  get_elem?-drop zero [] x ys e = cc
  get_elem?-drop zero (z ∷ xs) x ys e = cc
  get_elem?-drop (suc p) [] x ys e = cc
  get_elem?-drop (suc p) (z ∷ xs) x ys e = get_elem?-drop p xs x ys e

  -- Two writes in a row are one write.
  pub overwrite-overwrite :
      (xs : List A) (i : ℕ) (ys zs : List A)
      → i ≤ length xs
      → overwrite (overwrite xs i ys) (i + length ys) zs ≡ overwrite xs i (ys ++ zs)
  overwrite-overwrite xs i ys zs h =
      ap₂ (λ us vs. us ++ (zs ++ vs)) (take-overwrite xs i (i + length ys) ys h refl)
        (sym (
            drop-drop (length zs) (i + length ys) (i + length ys + length zs) (overwrite xs i ys)
              (omega arith))
          ∙ ap (drop (length zs)) (
              ap (drop (i + length ys)) (sym (append_assoc (take i xs) ys rest))
              ∙ drop-append (take i xs ++ ys) rest (i + length ys)
                  (omega (arith, length-append (take i xs) ys, length-take i xs)))
          ∙ drop-drop (length zs) (i + length ys) (i + length (ys ++ zs)) xs
              (omega (arith, length-append ys zs)))
      ∙ append_assoc (take i xs) ys (zs ++ drop (i + length (ys ++ zs)) xs)
      ∙ ap (λ us. take i xs ++ us) (sym (append_assoc ys zs (drop (i + length (ys ++ zs)) xs)))
    where
      rest : List A
      rest = drop (i + length ys) xs

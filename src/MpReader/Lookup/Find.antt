-- ===== src/MpReader/Lookup/Find.antt =====
-- mp_reader.h: `find` in a map, where the reader stands before its pairs.
use cpp2tnt.Prelude.{
  ℕ, suc, ◌+◌, ◌-◌, ◌≡◌, refl, ap, ap₂, ◌∙◌, inl, inr, Bool, false, Bool-cases, if◌then◌else◌,
  Option, none, some, List, [], ◌∷◌, ◌++◌, append_assoc, Bytes, length, take, take-append, drop,
  arith, ℤ, pos, sym, ◌⊎◌,
}
use cpp2tnt.Outcome.{Result, out_of_bounds}
use cpp2tnt.Msgpuck.{Msgpuck, MpType, uint, int}
use cpp2tnt.MpReader.{Reader, pairs, reader_of, if_next, skip, Read, value, failed, after, ◌>>=◌}
use cpp2tnt.MpReader.Containers.{by_copy}
use cpp2tnt.MpReader.Values.{cardinality}
use cpp2tnt.MpReader.Lookup.{
  eq_ℤ, number, Plain, equals, equals_here, equals_at, type_of_position, find, find_from,
}
use cpp2tnt.MpReader.Spans.{slice}
use cpp2tnt.MpReader.Cursor.{
  concat, Stands, moved, skip-Stands, has_next-Stands, type_at-Stands, HasType,
}
use cpp2tnt.MpReader.Integers.{IsUint, IsInt}

-- An entry of a map: the integer that its key is, the bytes of the key, and those of the value.
pub record Entry : Type 0 where
  pub key : ℤ
  pub key_bytes : Bytes
  pub value_bytes : Bytes

abbrev pub items_of : List Entry → List Bytes
items_of [] = []
items_of (e ∷ es) = e.key_bytes ∷ e.value_bytes ∷ items_of es

-- What the map holds under a key: the value of the first entry that has it.
abbrev pub lookup : ℤ → List Entry → Option Bytes
lookup n [] = none
lookup n (e ∷ es) = if eq_ℤ e.key n then some e.value_bytes else lookup n es

module _ (m : Msgpuck) where
  -- The bytes of an integer, MP_UINT or MP_INT.
  abbrev pub IsNumber : Bytes → ℤ → Type 0
  IsNumber x z = ((n : ℕ) × (z ≡ pos n) × IsUint m x n) ⊎ IsInt m x z

  abbrev pub AllKeys : List Entry → Type 0
  AllKeys [] = Unit
  AllKeys (e ∷ es) = IsNumber e.key_bytes e.key × AllKeys es

  module _ (mem : Bytes) where
    equals_lem :
        (n : ℤ) (t : MpType) (r : Reader) (p i : ℕ) (x : Bytes) (xs : List Bytes)
        → Stands m mem r p i (x ∷ xs)
        → HasType m t x
        → equals m mem (number n) r ≡ equals_at m mem r p t (number n)
    unfolding equals equals_here
    equals_lem n t r p i x xs s h =
        ap
          (λ a.
            if_next r a (failed out_of_bounds r)
              (equals_here m mem r (number n) r.position (type_of_position m mem r.position)))
          (has_next-Stands m mem false r p i (x ∷ xs) s)
        ∙ ap (λ q. equals_here m mem r (number n) q (type_of_position m mem q)) s.position
        ∙ ap (equals_here m mem r (number n) (some p)) (type_at-Stands m mem t r p i x xs s h)

    equals-Stands :
        (n k : ℤ) (r : Reader) (p i : ℕ) (x : Bytes) (xs : List Bytes)
        → Stands m mem r p i (x ∷ xs)
        → IsNumber x k
        → equals m mem (number n) r ≡ value (eq_ℤ k n) r
    unfolding equals_at
    equals-Stands n k r p i x xs s (inl (u, is, (h, d))) =
        equals_lem n uint r p i x xs s h
        ∙ ap (λ zs. value (eq_ℤ (pos (m.decode_uint zs).0) n) r)
            (s.ahead ∙ append_assoc x (concat xs) s.post)
        ∙ ap (λ u. value (eq_ℤ (pos u) n) r) (d (concat xs ++ s.post))
        ∙ ap (λ z. value (eq_ℤ z n) r) (sym is)
    equals-Stands n k r p i x xs s (inr (h, d)) =
        equals_lem n int r p i x xs s h
        ∙ ap (λ zs. value (eq_ℤ (m.decode_int zs) n) r)
            (s.ahead ∙ append_assoc x (concat xs) s.post)
        ∙ ap (λ z. value (eq_ℤ z n) r) (d (concat xs ++ s.post))

    slice-Stands :
        (r : Reader) (p i : ℕ) (x : Bytes) (xs : List Bytes)
        → Stands m mem r p i (x ∷ xs)
        → slice mem (some p) (some (p + length x)) ≡ some x
    slice-Stands r p i x xs s =
        let n : p + length x - p ≡ length x = omega arith in
        ap some (
          ap (λ k. take k (drop p mem)) n
          ∙ ap (take (length x)) (s.ahead ∙ append_assoc x (concat xs) s.post)
          ∙ take-append x (concat xs ++ s.post) (length x) refl)

    find_from-lookup :
        (n : ℤ) (es : List Entry) (r : Reader) (p i : ℕ)
        → AllKeys es
        → Stands m mem r p i (items_of es)
        → (res : Plain) × (r' : Reader) × (find_from m mem (number n) (length es) r ≡ value res r')
          × (slice mem res.0 res.1 ≡ lookup n es)
    unfolding find_from
    find_from-lookup n [] r p i keys s = ((none, none), r, refl, refl)
    find_from-lookup n (e ∷ es) r p i keys s =
        let rest = e.value_bytes ∷ items_of es in
        let at = p + length e.key_bytes in
        let to = at + length e.value_bytes in
        let r1 = moved r at (i + 1) in
        let r2 = moved r1 to (i + 1 + 1) in
        let (run, s1) = skip-Stands m mem r p i e.key_bytes rest s in
        let (run', s2) = skip-Stands m mem r1 at (i + 1) e.value_bytes (items_of es) s1 in
        let (res, r', more, found) = find_from-lookup n es r2 to (i + 1 + 1) keys.1 s2 in
        let round : find_from m mem (number n) (suc (length es)) r ≡ (
            if eq_ℤ e.key n
            then value (some at, some to) r2
            else find_from m mem (number n) (length es) r2) =
          ap (λ (a : Read Bool). a >>= λ found r'. pick (length es) found (skip m mem r'))
            (equals-Stands n e.key r p i e.key_bytes rest s keys.0)
          ∙ ap (pick (length es) (eq_ℤ e.key n)) run
          ∙ ap (picked (length es) (eq_ℤ e.key n) r1) run' in
        elim (Bool-cases (eq_ℤ e.key n)) [
          | inl here ↦ (
            (some at, some to),
            r2,
            round ∙ rw here,
            slice-Stands r1 at (i + 1) e.value_bytes (items_of es) s1 ∙ rw here,
          )
          | inr later ↦ (res, r', round ∙ rw later more, found ∙ rw later)
        ]
      where
        picked : ℕ → Bool → Reader → Result Reader → Read Plain
        picked k found at_value a = after a λ behind.
            let more = find_from m mem (number n) k behind in
            if found then value (at_value.position, behind.position) behind else more

        pick : ℕ → Bool → Result Reader → Read Plain
        pick k found a = after a λ at_value. picked k found at_value (skip m mem at_value)

    -- `find` of an integer in a map all of whose keys are integers, MP_UINT or MP_INT, negative or not,
    -- gives the bounds of the value of the first entry with that key, or none where no entry has it, and
    -- leaves the reader as it was. It wants a reader of a map with both bounds known.
    pub find-lookup :
        (n : ℤ) (es : List Entry) (b e : ℕ) (r : Reader)
        → r.kind ≡ pairs (length es)
        → r.begin ≡ some b
        → r.end ≡ some e
        → AllKeys es
        → Stands m mem (reader_of (some b) (some e)) b 0 (items_of es)
        → (res : Plain) × (find m mem (number n) r ≡ value res r)
          × (slice mem res.0 res.1 ≡ lookup n es)
    unfolding find
    find-lookup n es b e r kind begin end keys s =
        let (res, r', run, found) =
          find_from-lookup n es (reader_of (some b) (some e)) b 0 keys s in
        let start : reader_of r.begin r.end ≡ reader_of (some b) (some e) =
          ap₂ reader_of begin end in
        (
          res,
          ap₂ (λ k start. by_copy r (find_from m mem (number n) (cardinality k) start)) kind start
              ∙ ap (by_copy r) run,
          found,
        )

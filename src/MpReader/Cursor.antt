-- ===== src/MpReader/Cursor.antt =====
-- mp_reader.h: a reader as a cursor in a list of items.
use cpp2tnt.Prelude.{
  ℕ, suc, ◌+◌, ◌%◌, ◌≤◌, ◌<◌, ◌≡◌, refl, sym, ap, ◌∙◌, ◌⊎◌, inl, inr, Bool, true, false, not, none,
  some, List, [], ◌∷◌, ◌++◌, append_assoc, Bytes, length, drop, get_elem?-drop, u32_mod, arith,
  length-append, drop-append, drop-drop, lt→ltb, le→leb, ltb-eq_false, leb-eq_false,
}
use cpp2tnt.Outcome.{ok, thrown, out_of_bounds}
use cpp2tnt.Msgpuck.{Msgpuck, MpType}
use cpp2tnt.MpReader.{
  Reader, type_at, type_of_byte, limit, reaches, exceeds, next_at, has_next, skip, skip_at,
}

abbrev pub concat : List Bytes → Bytes
concat [] = []
concat (x ∷ xs) = x ++ concat xs

-- Bytes that `mp_next` passes over, whatever stands behind them.
abbrev pub IsItem : Msgpuck → Bytes → Type 0
IsItem m x = (0 < length x) × ((rest : Bytes) → m.next (x ++ rest) ≡ some (length x))

abbrev pub AllItems : Msgpuck → List Bytes → Type 0
AllItems m [] = Unit
AllItems m (x ∷ xs) = IsItem m x × AllItems m xs

-- The reader is at the offset `p`, has read `i` items, and the items `todo` are before it. Its end is
-- behind them, and a cardinality counts them.
pub record Stands (m : Msgpuck) (mem : Bytes) (r : Reader) (p i : ℕ) (todo : List Bytes)
    : Type 0 where
  pub position : r.position ≡ some p
  pub ind : r.ind ≡ i
  pub post : Bytes
  pub ahead : drop p mem ≡ concat todo ++ post
  pub size : p + length (concat todo) + length post ≡ length mem
  pub end : r.end ≡ some (p + length (concat todo))
  pub counted : (limit r.kind ≡ none) ⊎ (limit r.kind ≡ some (i + length todo))
  pub small : i + length todo < u32_mod
  pub all_items : AllItems m todo

abbrev pub is_nil {ℓ} : {A : Type ℓ} → List A → Bool
is_nil [] = true
is_nil (x ∷ xs) = false

abbrev pub moved : Reader → ℕ → ℕ → Reader
moved r p i = record r { position = some p; ind = i }

-- Bytes whose first one says what type they are.
abbrev pub HasType : Msgpuck → MpType → Bytes → Type 0
HasType m t [] = ⊥
HasType m t (b ∷ bs) = m.type_of b ≡ t

module _ (m : Msgpuck) (mem : Bytes) where
  pub concat_size : (todo : List Bytes) → AllItems m todo → length todo ≤ length (concat todo)
  concat_size [] h = omega arith
  concat_size (x ∷ xs) h = omega (arith, length-append x (concat xs), concat_size xs h.1, h.0.0)

  -- `has_next` tells whether items are left.
  pub has_next-Stands :
      (strict : Bool) (r : Reader) (p i : ℕ) (todo : List Bytes)
      → Stands m mem r p i todo
      → has_next strict r ≡ some (not (is_nil todo))
  unfolding has_next
  has_next-Stands strict r p i [] s =
      rw (s.end, s.position) (ap some (ltb-eq_false p _ (omega arith)))
  has_next-Stands strict r p i (x ∷ xs) s =
      rw (s.end, s.position)
        (ap some (lt→ltb p _ (omega (arith, length-append x (concat xs), s.all_items.0.0))))

  -- Behind the last item `skip` throws and moves nothing.
  pub skip-Stands_end :
      (r : Reader) (p i : ℕ) → Stands m mem r p i [] → skip m mem r ≡ thrown out_of_bounds r
  unfolding skip skip_at
  skip-Stands_end r p i s =
      let over : reaches r.end p ≡ true =
        ap (λ e. reaches e p) s.end ∙ le→leb (p + 0) p (omega arith) in
      ap (skip_at m mem r) s.position ∙ rw over

  skip_at_lem :
      (r : Reader) (p n : ℕ)
      → reaches r.end p ≡ false
      → reaches (limit r.kind) r.ind ≡ false
      → next_at m mem p ≡ some n
      → exceeds r.end (p + n) ≡ false
      → skip_at m mem r (some p)
        ≡ ok (record r { position = some (p + n); ind = suc r.ind % u32_mod })
  unfolding skip_at
  skip_at_lem r p n inside counted next fits = rw (inside, counted, next, fits)

  -- Before an item it moves behind that item.
  pub skip-Stands :
      (r : Reader) (p i : ℕ) (x : Bytes) (xs : List Bytes)
      → Stands m mem r p i (x ∷ xs)
      → (skip m mem r ≡ ok (moved r (p + length x) (i + 1)))
        × Stands m mem (moved r (p + length x) (i + 1)) (p + length x) (i + 1) xs
  unfolding skip
  skip-Stands r p i x xs s =
      let split = length-append x (concat xs) in
      let item = s.all_items.0 in
      let inside : reaches r.end p ≡ false =
        ap (λ e. reaches e p) s.end ∙ leb-eq_false _ p (omega (arith, split, item.0)) in
      let fits : exceeds r.end (p + length x) ≡ false =
        ap (λ e. exceeds e (p + length x)) s.end
        ∙ ltb-eq_false _ (p + length x) (omega (arith, split)) in
      let next : next_at m mem p ≡ some (length x) =
        rw (lt→ltb p (length mem) (omega (arith, split, item.0, s.size))) (
          ap m.next (s.ahead ∙ append_assoc x (concat xs) s.post) ∙ item.1 (concat xs ++ s.post)) in
      let index : suc r.ind % u32_mod ≡ i + 1 = omega (arith, s.ind, s.small) in
      (
        ap (skip_at m mem r) s.position
            ∙ skip_at_lem r p (length x) inside (in_count s.counted) next fits
            ∙ ap (λ (k : ℕ). ok (moved r (p + length x) k)) index,
        record {
          position = refl;
          ind = refl;
          post = s.post;
          ahead =
              sym (drop-drop (length x) p (p + length x) mem (omega arith))
              ∙ ap (drop (length x)) (s.ahead ∙ append_assoc x (concat xs) s.post)
              ∙ drop-append x (concat xs ++ s.post) (length x) refl;
          size = omega (arith, s.size, split);
          end = s.end ∙ ap some (omega (arith, split));
          counted = count s.counted;
          small = omega (arith, s.small);
          all_items = s.all_items.1;
        },
      )
    where
      in_count :
          (limit r.kind ≡ none) ⊎ (limit r.kind ≡ some (i + suc (length xs)))
          → reaches (limit r.kind) r.ind ≡ false
      in_count (inl e) = ap (λ l. reaches l r.ind) e
      in_count (inr e) = ap (λ l. reaches l r.ind) e ∙ leb-eq_false _ r.ind (omega (arith, s.ind))

      count :
          (limit r.kind ≡ none) ⊎ (limit r.kind ≡ some (i + suc (length xs)))
          → (limit r.kind ≡ none) ⊎ (limit r.kind ≡ some (i + 1 + length xs))
      count (inl e) = inl e
      count (inr e) = inr (e ∙ ap some (omega arith))

  pub type_at-Stands :
      (t : MpType) (r : Reader) (p i : ℕ) (x : Bytes) (xs : List Bytes)
      → Stands m mem r p i (x ∷ xs)
      → HasType m t x
      → type_at m mem p ≡ some t
  type_at-Stands t r p i [] xs s h = absurd h
  type_at-Stands t r p i (b ∷ bs) xs s h =
      ap (type_of_byte m) (get_elem?-drop p mem b ((bs ++ concat xs) ++ s.post) s.ahead) ∙ ap some h

-- ===== src/Iproto/Features.antt =====
-- What a side that was built from a list of features announces.
use cpp2tnt.Prelude.{
  ℕ, zero, suc, ◌+◌, ◌-◌, ◌<◌, ◌≡◌, refl, ap, ◌∙◌, Bool, true, false, ◌&&◌, ◌||◌, Bool-cases, inl,
  inr, none, some, List, [], ◌∷◌, Bytes, get_elem?, set, replicate, length, ltb, leb, ◌==◌,
  if◌then◌else◌, arith,
}
use cpp2tnt.Iproto.{
  create, has_feature, list_features, set_features, list_from, features_size, no_features,
  invalid_feature,
}

abbrev pub elem : ℕ → List ℕ → Bool
elem f [] = false
elem f (g ∷ gs) = g == f || elem f gs

-- Bit `i` of a bitset, and false out of range.
abbrev bit : List Bool → ℕ → Bool
bit [] i = false
bit (b ∷ bs) zero = b
bit (b ∷ bs) (suc i) = bit bs i

length-set : (bits : List Bool) (i : ℕ) (v : Bool) → length (set bits i v) ≡ length bits
length-set [] i v = refl
length-set (b ∷ bits) zero v = refl
length-set (b ∷ bits) (suc i) v = ap suc (length-set bits i v)

bit-set :
    (bits : List Bool) (f i : ℕ)
    → f < length bits
    → bit (set bits f true) i ≡ (f == i || bit bits i)
bit-set [] f i h = absurd (omega arith)
bit-set (b ∷ bits) zero zero h = refl
bit-set (b ∷ bits) zero (suc i) h = ground arith
bit-set (b ∷ bits) (suc f) zero h = ground arith
bit-set (b ∷ bits) (suc f) (suc i) h = bit-set bits f i (omega arith) ∙ ground arith

bit-set_features :
    (fs : List ℕ) (bits : List Bool) (i : ℕ)
    → i < length bits
    → bit (set_features fs bits) i ≡ (elem i fs || bit bits i)
unfolding set_features
bit-set_features [] bits i h = refl
bit-set_features (f ∷ fs) bits i h = elim (Bool-cases (ltb f (length bits))) [
  | inl fits ↦ rw fits (
      bit-set_features fs (set bits f true) i (omega (arith, length-set bits f true))
      ∙ ground (arith, bit-set bits f i))
  | inr skipped ↦ rw skipped (bit-set_features fs bits i h ∙ ground arith)
]

length-set_features : (fs : List ℕ) (bits : List Bool) → length (set_features fs bits) ≡ length bits
unfolding set_features
length-set_features [] bits = refl
length-set_features (f ∷ fs) bits = elim (Bool-cases (ltb f (length bits))) [
  | inl fits ↦ rw fits (length-set_features fs (set bits f true) ∙ length-set bits f true)
  | inr skipped ↦ rw skipped (length-set_features fs bits)
]

bit-cons :
    (b : Bool) (bits : List Bool) (n : ℕ)
    → bit (b ∷ bits) n ≡ (if n == 0 then b else bit bits (n - 1))
bit-cons b bits zero = refl
bit-cons b bits (suc n) = let e : n ≡ suc n - 1 = omega arith in ground (arith, ap (bit bits) e)

elem-list_from :
    (i : ℕ) (bits : List Bool) (f : ℕ)
    → elem f (list_from i bits) ≡ (leb i f && ltb f invalid_feature && bit bits (f - i))
unfolding list_from
elem-list_from i [] f = ground arith
elem-list_from i (b ∷ bits) f =
    let shift : f - i - 1 ≡ f - (i + 1) = omega arith in
    ground (arith, elem-list_from (i + 1) bits f, bit-cons b bits (f - i), ap (bit bits) shift)

bit-replicate : (n i : ℕ) → bit (replicate n false) i ≡ false
bit-replicate zero i = refl
bit-replicate (suc n) zero = refl
bit-replicate (suc n) (suc i) = bit-replicate n i

get_elem?-bit :
    (bits : List Bool) (i : ℕ)
    → get_elem? bits i ≡ (if ltb i (length bits) then some (bit bits i) else none)
get_elem?-bit [] i = ground arith
get_elem?-bit (b ∷ bits) zero = ground arith
get_elem?-bit (b ∷ bits) (suc i) = get_elem?-bit bits i ∙ ground arith

-- A side that was built from the features `fs` has exactly those of them that the bitset has a bit
-- for; a feature past the bitset is `std::out_of_range`.
pub has_feature-create :
    (fs : List ℕ) (version : ℕ) (auth : Bytes) (f : ℕ)
    → has_feature (create fs version auth) f
      ≡ (if ltb f features_size then some (elem f fs) else none)
unfolding has_feature create
has_feature-create fs version auth f =
    get_elem?-bit (set_features fs no_features) f
    ∙ ground (
      arith,
      length-set_features fs no_features,
      bit-set_features fs no_features f,
      bit-replicate features_size f,
    )

-- `list_features` announces exactly the features among `fs` that are known.
pub list_features-create :
    (fs : List ℕ) (version : ℕ) (auth : Bytes) (f : ℕ)
    → elem f (list_features (create fs version auth)) ≡ (ltb f invalid_feature && elem f fs)
unfolding list_features create
list_features-create fs version auth f =
    elem-list_from 0 (set_features fs no_features) f
    ∙ ground (
      arith,
      length-set_features fs no_features,
      bit-set_features fs no_features f,
      bit-replicate features_size f,
      ap (bit (set_features fs no_features)) zero_off,
    )
  where
    zero_off : f - 0 ≡ f
    zero_off = omega arith

-- ===== src/MpReader/Tuples.antt =====
-- mp_reader.h: tuples, and items as text.
use mathlib.Core.Path.{fun_ext}
use cpp2tnt.Prelude.{
  ℕ, zero, suc, ◌+◌, ◌-◌, ◌≡◌, refl, sym, ap, ◌∙◌, inl, inr, some, Bool-cases, arith, take_all,
  take-append, List, [], ◌∷◌, ◌++◌, Bytes, length, take, drop, replicate, leb, if◌then◌else◌,
}
use cpp2tnt.Outcome.{Result, ok}
use cpp2tnt.Msgpuck.{Msgpuck}
use cpp2tnt.MpReader.{Reader, skip, if_some, Read, value, stuck, after, ◌>>=◌}
use cpp2tnt.MpReader.Containers.{read_array}
use cpp2tnt.MpReader.Values.{from_inner, read_items, read_vector, cardinality}

-- `>>` of each item of a tuple.
pub read_each : {A : Type 0} → List (Reader → Read A) → Reader → Read (List A)
read_each [] r = value [] r
read_each (read_one ∷ more) r =
    read_one r >>= λ a r'. read_each more r' >>= λ rest. value (a ∷ rest)

-- operator>>(std::tuple<Args...> &); what the array has beyond the tuple is passed over.
unfoldable pub read_tuple :
    {A : Type 0} → Msgpuck → Bytes → List (Reader → Read A) → Reader → Read (List A)
unfolding read_array read_each
read_tuple m mem reads r = read_array m mem r >>= λ arr. from_inner (read_each reads arr)

-- mp_reader::values
abbrev pub read_values : {A : Type 0} → List (Reader → Read A) → Reader → Read (List A)
read_values = read_each

-- A string of `n` characters whose first are `text`, and that is cut after `cnt` of them.
abbrev resized : ℕ → ℕ → Bytes → Bytes
resized n cnt text = take cnt (text ++ replicate (n - length text) 0)

-- What mp_snprint leaves of a text in a string of `n` characters: the last one is the zero.
abbrev shown : ℕ → Bytes → Bytes
shown n text = take (n - 1) text

-- The two calls of mp_snprint in to_string: the second where the text did not fit.
pub text_of : Bytes → Bytes
text_of text =
    let cnt = length text in
    if leb 256 cnt
    then resized (cnt + 1) cnt (shown (cnt + 1) text)
    else resized 256 cnt (shown 256 text)

-- mp_reader::to_string
unfoldable pub to_string : Msgpuck → Bytes → Reader → Read Bytes
unfolding skip text_of
to_string m mem r =
    after (skip m mem r)
      λ r'. if_some stuck (λ p. value (text_of (m.print (drop p mem))) r') r.position

-- Whatever the length of the text, to_string gives all of it.
text_of_lem : (text : Bytes) → text_of text ≡ text
unfolding text_of
text_of_lem text = elim (Bool-cases (leb 256 (length text))) [
  | inl long ↦
      let one_more : length text + 1 - 1 ≡ length text = omega arith in
      rw long (
        whole (length text + 1) (take (length text + 1 - 1) text)
          (ap (λ n. take n text) one_more ∙ take_all (length text) text (omega arith)))
  | inr short ↦ rw short (whole 256 (take 255 text) (take_all 255 text (ground arith)))
]
  where
    whole : (n : ℕ) (s : Bytes) → s ≡ text → resized n (length text) s ≡ text
    whole n s e =
        ap (resized n (length text)) e
        ∙ take-append text (replicate (n - length text) 0) (length text) refl

-- The text of an item is what the library prints it as, and the reader is behind it.
pub to_string-print :
    (m : Msgpuck) (mem : Bytes) (r r' : Reader) (p : ℕ)
    → r.position ≡ some p
    → skip m mem r ≡ ok r'
    → to_string m mem r ≡ value (m.print (drop p mem)) r'
unfolding to_string
to_string-print m mem r r' p at done =
    ap
      (λ (x : Result Reader).
        after x λ r'. if_some stuck (λ p. value (text_of (m.print (drop p mem))) r') r.position)
      done
    ∙ ap (if_some stuck (λ p. value (text_of (m.print (drop p mem))) r')) at
    ∙ ap (λ s. value s r') (text_of_lem (m.print (drop p mem)))

-- A tuple whose items have one type is read as so many items are.
read_each-replicate :
    {A : Type 0} (m : Msgpuck) (mem : Bytes) (read_one : Reader → Read A) (n : ℕ) (r : Reader)
    → read_each (replicate n read_one) r ≡ read_items m mem read_one n r
unfolding read_each read_items
read_each-replicate m mem read_one zero r = refl
read_each-replicate m mem read_one (suc n) r =
    ap (λ k. read_one r >>= k)
      (fun_ext λ a.
        fun_ext
          λ r'. ap (λ x. x >>= λ rest. value (a ∷ rest)) (read_each-replicate m mem read_one n r'))

pub read_tuple-read_vector :
    {A : Type 0} (m : Msgpuck) (mem : Bytes) (read_one : Reader → Read A) (n : ℕ)
    (r r' arr : Reader)
    → read_array m mem r ≡ value arr r'
    → cardinality arr.kind ≡ n
    → read_tuple m mem (replicate n read_one) r ≡ read_vector m mem read_one r
unfolding read_tuple read_vector
read_tuple-read_vector m mem read_one n r r' arr opens few =
    ap (λ x. x >>= λ arr. from_inner (read_each (replicate n read_one) arr)) opens
    ∙ ap (λ x. from_inner x r')
        (read_each-replicate m mem read_one n arr
          ∙ ap (λ k. read_items m mem read_one k arr) (sym few))
    ∙ sym (
        ap (λ x. x >>= λ arr. from_inner (read_items m mem read_one (cardinality arr.kind) arr))
          opens)

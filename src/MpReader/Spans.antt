-- ===== src/MpReader/Spans.antt =====
-- mp_reader.h: mp_span, some items in a row with the offsets of their ends.
pub mod Items
use cpp2tnt.Prelude.{
  ℕ, zero, suc, ◌+◌, ◌-◌, ◌%◌, Bool, true, false, Option, none, some, List, [], ◌∷◌, Bytes, length,
  take, drop, get_elem?, ltb, leb, ◌==◌, if◌then◌else◌, u32_mod,
}
use cpp2tnt.Outcome.{Result, ok, thrown, undefined, out_of_bounds}
use cpp2tnt.Msgpuck.{Msgpuck}
use cpp2tnt.MpReader.{Reader, has_next, skip, Read, value, failed, stuck, after, ◌>>=◌}

-- mp_span; its cardinality is the number of `rbounds` that are set.
pub record Span : Type 0 where
  pub begin : Option ℕ
  pub end : Option ℕ
  pub rbounds : List ℕ

abbrev distance : Option ℕ → Option ℕ → ℕ
distance (some b) (some p) = (p - b) % u32_mod
distance _ _ = 0

-- The loop of operator>>(mp_span<maxN> &), `n` rounds of which are left.
pub read_rbounds : Msgpuck → Bytes → Option ℕ → ℕ → Reader → Read (List ℕ)
unfolding has_next skip
read_rbounds m mem begin zero r = value [] r
read_rbounds m mem begin (suc n) r =
    let more = after (skip m mem r) λ r'.
      read_rbounds m mem begin n r' >>= λ bounds. value (distance begin r'.position ∷ bounds) in
    elim (has_next false r) [ none ↦ stuck | some false ↦ value [] r | some true ↦ more ]

-- operator>>(mp_span<maxN> &), into a span that is empty
unfoldable pub read_span : ℕ → Msgpuck → Bytes → Reader → Read Span
unfolding read_rbounds
read_span n m mem r = read_rbounds m mem r.position n r >>= λ bounds r'.
    value (record { begin = r.position; end = r'.position; rbounds = bounds }) r'

abbrev advance : Option ℕ → Option ℕ → Option ℕ
advance (some b) (some n) = some (b + n)
advance _ _ = none

-- mp_span::sub<maxResN>(first_ind, last_ind). The array of the result has room for `max_n` bounds, and
-- they are copied as they are.
unfoldable pub sub : ℕ → ℕ → ℕ → Span → Result Span
sub max_n first last s =
    let n = last - first + 1 in
    if ltb last first
    then thrown out_of_bounds s
    else if leb (length s.rbounds) last
    then thrown out_of_bounds s
    else if ltb max_n n
    then undefined
    else ok (record {
      begin = advance s.begin (if first == 0 then some 0 else get_elem? s.rbounds (first - 1));
      end = advance s.begin (get_elem? s.rbounds last);
      rbounds = take n (drop first s.rbounds);
    })

-- The bytes between two pointers.
abbrev pub slice : Bytes → Option ℕ → Option ℕ → Option Bytes
slice mem (some b) (some e) = some (take (e - b) (drop b mem))
slice mem b e = none

-- mp_span::operator[], the bytes that it refers to: nil behind the last item
unfoldable pub item : Bytes → ℕ → Span → Option Bytes
unfolding sub
item mem i s =
    if leb (length s.rbounds) i
    then some (0xc0 ∷ [])
    else elim (sub 1 i i s) [ ok s' ↦ slice mem s'.begin s'.end | _ ↦ none ]

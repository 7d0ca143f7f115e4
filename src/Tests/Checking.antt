-- ===== src/Tests/Checking.antt =====
-- The checks of the reader, the loops over the answer to the features request, and the dump of misc.cpp
-- at concrete inputs.
use cpp2tnt.Prelude.{
  ℕ, ◌+◌, ◌*◌, ◌/◌, ◌<◌, ◌≤◌, ◌≡◌, refl, inl, inr, true, false, ◌&&◌, Bool-cases, and-eq_true,
  ltb→lt, leb→le, Option, none, some, [], ◌∷◌, Bytes, length, ltb, leb, arith, if◌then◌else◌,
}
use cpp2tnt.Outcome.{ok}
use cpp2tnt.Msgpuck.{Msgpuck}
use cpp2tnt.Iproto.{ProtoId}
use cpp2tnt.MpReader.{Reader, reader_of, Read, value, ◌>>=◌}
use cpp2tnt.MpReader.Values.{from_inner, read_int}
use cpp2tnt.MpReader.RoundTrip.{read_u64}
use cpp2tnt.MpReader.Containers.{read_map}
use cpp2tnt.MpReader.Progress.{Moves}
use cpp2tnt.MpReader.Checks.{check, Decides, Accepts, bytes_between, check-Decides}
use cpp2tnt.MpReader.Tuples.{read_tuple}
use cpp2tnt.Connection.Handshake.{read_fields, read_proto}
use cpp2tnt.Connection.Handshake.Ends.{read_proto_ends}
use cpp2tnt.Misc.{hex_dump}
use cpp2tnt.Misc.Dump.{read_dump, read_dump-hex_dump, length-hex_dump}
use cpp2tnt.Tests.Format.{format, within, items_size}

within_lem : (size : ℕ) (o : Option ℕ) (n : ℕ) → within size o ≡ some n → (0 < n) × (n ≤ size)
within_lem size none n e = cc
within_lem size (some k) n e = elim (Bool-cases (ltb 0 k && leb k size)) [
  | inl good ↦
      let (pos, fits) = and-eq_true (ltb 0 k) (leb k size) good in
      let same : k ≡ n = cc (rw good at e) in
      (omega (arith, same, ltb→lt 0 k pos), omega (arith, same, leb→le k size fits))
  | inr bad ↦ cc (rw bad at e)
]

format-Accepts : Accepts format
format-Accepts bs n e = within_lem (length bs) (items_size 64 1 bs) n e

-- A number, a text and an array of two numbers.
abbrev three_items : Bytes
three_items = 5 ∷ 0xa2 ∷ 97 ∷ 98 ∷ 0x92 ∷ 1 ∷ 2 ∷ []

abbrev over_three : Reader
over_three = reader_of (some 0) (some 7)

check-Decides_example :
    Decides format over_three (bytes_between three_items 0 7) (check format three_items over_three)
check-Decides_example = check-Decides format format-Accepts three_items over_three 0 7 refl refl

check_run : check format three_items over_three ≡ ok over_three
unfolding check
check_run = refl

abbrev some_bytes : Option ℕ → Option ℕ
some_bytes none = none
some_bytes (some n) = if ltb 0 n then some n else none

-- The format, of which an item that has no bytes is seen as invalid.
abbrev moving : Msgpuck
moving = record format { next = λ bs. some_bytes (items_size 64 1 bs) }

some_bytes_lem : (o : Option ℕ) (n : ℕ) → some_bytes o ≡ some n → 0 < n
some_bytes_lem none n e = absurd (cc e)
some_bytes_lem (some k) n e = elim (Bool-cases (ltb 0 k)) [
  | inl good ↦ let same : k ≡ n = cc (rw good at e) in omega (arith, same, ltb→lt 0 k good)
  | inr bad ↦ cc (rw bad at e)
]

moving-Moves : Moves moving
moving-Moves bs n e = some_bytes_lem (items_size 64 1 bs) n e

-- The map of an answer: version 3, and the features 1 and 2.
abbrev answer : Bytes
answer = 0x82 ∷ 0x54 ∷ 3 ∷ 0x55 ∷ 0x92 ∷ 1 ∷ 2 ∷ []

abbrev before_answer : Reader
before_answer = reader_of (some 0) (some 7)

abbrev old_proto : ProtoId
old_proto = record { version = 0; auth = []; features = false ∷ false ∷ false ∷ false ∷ [] }

read_proto_ends_example : read_proto moving answer old_proto before_answer ≡ (
    read_map moving answer before_answer >>= λ body r'.
    from_inner (read_fields (λ r. ok r) 20 moving answer old_proto body) r')
read_proto_ends_example =
    read_proto_ends moving moving-Moves answer (λ r. ok r) 20 old_proto before_answer (omega arith)

-- What came of it.
abbrev proto_of : Read ProtoId → ProtoId
proto_of (value p r) = p
proto_of x = old_proto

read_proto_run :
    proto_of (read_proto moving answer old_proto before_answer)
    ≡ record { version = 3; auth = []; features = false ∷ true ∷ true ∷ false ∷ [] }
unfolding read_proto
read_proto_run = refl

abbrev nine : Bytes
nine = 0 ∷ 255 ∷ 16 ∷ 171 ∷ 4 ∷ 5 ∷ 6 ∷ 7 ∷ 8 ∷ []

read_dump-hex_dump_example : read_dump 9 0 (hex_dump nine (some 2)) ≡ nine
read_dump-hex_dump_example = read_dump-hex_dump nine (some 2) (
  omega arith,
  (
    omega arith,
    (
      omega arith,
      (omega arith, (omega arith, (omega arith, (omega arith, (omega arith, (omega arith, tt)))))),
    ),
  ),
)

length-hex_dump_example :
    (length (hex_dump nine (some 2)) ≡ 3 * 9 + 9 / 8) × (length (hex_dump nine (some 2)) ≤ 4 * 9)
length-hex_dump_example = length-hex_dump nine (some 2)

-- "00 ff>10<ab "
hex_dump_run :
    hex_dump (0 ∷ 255 ∷ 16 ∷ 171 ∷ []) (some 2)
    ≡ b'0' ∷ b'0' ∷ b' ' ∷ b'f' ∷ b'f' ∷ b'>' ∷ b'1' ∷ b'0' ∷ b'<' ∷ b'a' ∷ b'b' ∷ b' ' ∷ []
unfolding hex_dump
hex_dump_run = refl

-- A tuple of two numbers from the array of the third item.
read_tuple_run :
    read_tuple format three_items
      (read_u64 format three_items ∷ read_u64 format three_items ∷ [])
      (reader_of (some 4) (some 7))
    ≡ value (1 ∷ 2 ∷ []) (record (reader_of (some 4) (some 7)) { position = some 7; ind = 1 })
unfolding read_tuple read_int
read_tuple_run = refl

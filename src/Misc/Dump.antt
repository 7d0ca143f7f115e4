-- ===== src/Misc/Dump.antt =====
-- misc.cpp: what a dump shows, and how long it is.
use cpp2tnt.Prelude.{
  ℕ, zero, suc, ◌+◌, ◌-◌, ◌*◌, ◌/◌, ◌%◌, ◌≤◌, ◌<◌, ◌≡◌, refl, ap, ap₂, ◌∙◌, Option, [], ◌∷◌, Bytes,
  length, length-append, drop, drop-append, ltb, if◌then◌else◌, arith,
}
use cpp2tnt.Misc.{hexmap, gap, dump_from, hex_dump}

abbrev from_hex : ℕ → ℕ
from_hex c = if ltb c b'a' then c - b'0' else c - b'a' + 10

from_hex-hexmap : (n : ℕ) → n < 16 → from_hex (hexmap n) ≡ n
from_hex-hexmap n h = ground arith

-- The bytes that a dump of `n` bytes shows, from the byte at `c` on.
pub read_dump : ℕ → ℕ → Bytes → Bytes
read_dump zero c text = []
read_dump (suc n) c (h ∷ l ∷ s ∷ text) =
    (16 * from_hex h + from_hex l) ∷ read_dump n (suc c) (drop (length (gap (suc c))) text)
read_dump (suc n) c text = []

abbrev pub AllBytes : Bytes → Type 0
AllBytes [] = Unit
AllBytes (b ∷ bs) = (b < 256) × AllBytes bs

read_dump-dump_from :
    (bs : Bytes) (pos : Option ℕ) (c : ℕ)
    → AllBytes bs
    → read_dump (length bs) c (dump_from pos c bs) ≡ bs
unfolding read_dump dump_from
read_dump-dump_from [] pos c h = refl
read_dump-dump_from (b ∷ bs) pos c (small, rest) =
    let byte : 16 * (b / 16 % 16) + b % 16 ≡ b = omega arith in
    ap₂ (λ (x : ℕ) (xs : Bytes). x ∷ xs)
      (ap₂ (λ (x y : ℕ). 16 * x + y) (from_hex-hexmap (b / 16 % 16) (omega arith))
          (from_hex-hexmap (b % 16) (omega arith))
        ∙ byte)
      (ap (read_dump (length bs) (suc c))
          (drop-append (gap (suc c)) (dump_from pos (suc c) bs) (length (gap (suc c))) refl)
        ∙ read_dump-dump_from bs pos (suc c) rest)

length-gap : (c : ℕ) → length (gap (suc c)) + c / 8 ≡ suc c / 8
length-gap c = ground arith

length-dump_from :
    (bs : Bytes) (pos : Option ℕ) (c : ℕ)
    → length (dump_from pos c bs) + c / 8 ≡ 3 * length bs + (c + length bs) / 8
unfolding dump_from
length-dump_from [] pos c = omega arith
length-dump_from (b ∷ bs) pos c = omega (
  arith,
  length-append (gap (suc c)) (dump_from pos (suc c) bs),
  length-dump_from bs pos (suc c),
  length-gap c,
)

-- The two digits of each byte say what the byte is, wherever the arrows stand.
pub read_dump-hex_dump :
    (bs : Bytes) (pos : Option ℕ) → AllBytes bs → read_dump (length bs) 0 (hex_dump bs pos) ≡ bs
unfolding hex_dump
read_dump-hex_dump bs pos h = read_dump-dump_from bs pos 0 h

-- A dump has three characters for a byte and one more for every eighth, so that what was reserved for
-- it, four for a byte, is enough.
pub length-hex_dump :
    (bs : Bytes) (pos : Option ℕ)
    → (length (hex_dump bs pos) ≡ 3 * length bs + length bs / 8)
      × (length (hex_dump bs pos) ≤ 4 * length bs)
unfolding hex_dump
length-hex_dump bs pos =
    (omega (arith, length-dump_from bs pos 0), omega (arith, length-dump_from bs pos 0))

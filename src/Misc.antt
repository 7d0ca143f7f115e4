-- ===== src/Misc.antt =====
-- misc.cpp: hex_dump. A pointer into the bytes is an offset from `begin`.
pub mod Dump
use cpp2tnt.Prelude.{
  ℕ, suc, ◌+◌, ◌-◌, ◌/◌, ◌%◌, Option, none, some, List, [], ◌∷◌, ◌++◌, Bytes, ltb, ◌==◌,
  if◌then◌else◌,
}

-- hexmap
abbrev pub hexmap : ℕ → ℕ
hexmap n = if ltb n 10 then b'0' + n else b'a' + (n - 10)

-- What stands behind the byte at `c`: an arrow on each side of the position, if there is one.
abbrev pub separator : Option ℕ → ℕ → ℕ
separator none c = b' '
separator (some pos) c = if suc c == pos then b'>' else if c == pos then b'<' else b' '

-- A line has 16 bytes, in two halves.
abbrev pub gap : ℕ → Bytes
gap cnt = if cnt % 16 == 0 then 0x0a ∷ [] else if cnt % 8 == 0 then b' ' ∷ [] else []

-- The loop of hex_dump, before the byte at `c`.
pub dump_from : Option ℕ → ℕ → Bytes → Bytes
dump_from pos c [] = []
dump_from pos c (b ∷ bs) =
    hexmap (b / 16 % 16)
    ∷ hexmap (b % 16)
    ∷ separator pos c
    ∷ (gap (suc c) ++ dump_from pos (suc c) bs)

-- hex_dump
unfoldable pub hex_dump : Bytes → Option ℕ → Bytes
unfolding dump_from
hex_dump bs pos = dump_from pos 0 bs

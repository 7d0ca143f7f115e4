-- ===== src/WtfBuffer.antt =====
-- wtf_buffer.h, wtf_buffer.cpp: a byte buffer over its own vector, a vector of the caller, or raw
-- memory. A pointer into the buffer is an offset from `head`, so `head` itself is 0.
pub mod Content
use cpp2tnt.Prelude.{
  ℕ, ◌+◌, ◌-◌, Bool, ◌&&◌, Option, none, some, ◌++◌, Bytes, length, take, replicate, overwrite, leb,
  ltb, if◌then◌else◌,
}
use cpp2tnt.Outcome.{Result, ok, thrown, undefined, raw_buffer_fixed}

-- A `std::vector<char>`: its storage, `capacity()` bytes long, and its `size()`.
pub record Vector : Type 0 where
  pub cells : Bytes
  pub size : ℕ

-- The `realloc` of raw memory, which is the caller's: from the size that is asked for and the old
-- storage the new storage, and whether that begins at the old address.
pub record Realloc : Type 0 where
  pub storage : ℕ → Bytes → Bytes
  pub in_place : ℕ → Bytes → Bool

-- The variant `target`. Of a vector only its `size()` matters beside the storage, which the buffer
-- holds.
pub data Target : Type 0 where
  raw : Option Realloc → Target
  borrowed : ℕ → Target
  owned : ℕ → Target

-- `store` is the memory from `head` to `end_of_storage`, `used` is `end - head`.
pub record WtfBuffer : Type 0 where
  pub target : Target
  pub store : Bytes
  pub used : ℕ

-- wtf_buffer(std::vector<char> &buf, size_t offset)
pub of_borrowed : Vector → ℕ → WtfBuffer
of_borrowed v offset = record { target = borrowed v.size; store = v.cells; used = offset }

-- wtf_buffer(std::vector<char> &&buf, size_t offset): `buf` is an lvalue in the initialiser, so the
-- vector is copied, and the copy's capacity is its size.
pub of_owned : Vector → ℕ → WtfBuffer
of_owned v offset = record { target = owned v.size; store = take v.size v.cells; used = offset }

-- wtf_buffer(size_t size)
unfoldable pub create : ℕ → WtfBuffer
unfolding of_owned
create size = of_owned (record { cells = replicate size 0; size = size }) 0

-- wtf_buffer(char *data, size_t length, realloc): `none` is the exception for a null pointer.
pub of_raw : Option Bytes → Option Realloc → Option WtfBuffer
of_raw none realloc = none
of_raw (some cells) realloc = some (record { target = raw realloc; store = cells; used = 0 })

abbrev pub capacity : WtfBuffer → ℕ
capacity b = length b.store

abbrev pub size : WtfBuffer → ℕ
size b = b.used

-- `end_of_storage - end`, used while `end` is inside the storage
abbrev pub available : WtfBuffer → ℕ
available b = capacity b - b.used

-- `vector::resize`: what the vector counts as its own is kept, the rest is set to zero.
abbrev pub resize_vector : Bytes → ℕ → ℕ → Bytes
resize_vector cells live n = take live cells ++ replicate (n - live) 0

grow : Target → WtfBuffer → ℕ → Result WtfBuffer
grow (raw none) b n = thrown raw_buffer_fixed b
grow (raw (some realloc)) b n = ok (record b { store = realloc.storage n b.store })
grow (borrowed live) b n =
    ok (record b { target = borrowed n; store = resize_vector b.store live n })
grow (owned live) b n = ok (record b { target = owned n; store = resize_vector b.store live n })

unfoldable pub reserve : WtfBuffer → ℕ → Result WtfBuffer
unfolding grow
reserve b n = if leb n (capacity b) then ok b else grow b.target b n

set_end : ℕ → Result WtfBuffer → Result WtfBuffer
set_end n (ok b) = ok (record b { used = n })
set_end n r = r

unfoldable pub resize : WtfBuffer → ℕ → Result WtfBuffer
unfolding set_end reserve
resize b n = set_end n (if ltb (capacity b) n then reserve b n else ok b)

unfoldable pub clear : WtfBuffer → WtfBuffer
clear b = record b { used = 0 }

-- What the clients do through the public pointer `end`: `end = encode(end, …)` and `memcpy(end, …)`.
-- Nothing checks the room, and bytes that do not fit are written outside of the storage.
unfoldable pub put : WtfBuffer → Bytes → Result WtfBuffer
put b bs =
    if leb (b.used + length bs) (capacity b)
    then ok (record b { store = overwrite b.store b.used bs; used = b.used + length bs })
    else undefined

-- A write through a pointer into the storage, `end` unmoved.
unfoldable pub poke : WtfBuffer → ℕ → Bytes → Result WtfBuffer
poke b i bs =
    if leb (i + length bs) (capacity b)
    then ok (record b { store = overwrite b.store i bs })
    else undefined

-- The bytes from `data()` to `end`.
abbrev pub content : WtfBuffer → Bytes
content b = take b.used b.store

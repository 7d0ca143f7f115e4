-- ===== src/MpWriter.antt =====
-- mp_writer.h, mp_writer.cpp: the MessagePack writer over a buffer, with a stack of open containers.
pub mod Header
pub mod Finalize
pub mod Items
pub mod Containers
pub mod Undo
pub mod Copies
use cpp2tnt.Prelude.{
  ℕ, zero, suc, ◌+◌, ◌-◌, ◌/◌, ◌%◌, Bool, true, false, ◌&&◌, Option, none, some, List, [], ◌∷◌,
  ◌++◌, Bytes, length, take, get_elem?, ltb, leb, ◌==◌, if◌then◌else◌, u16_mod, u32_mod,
}
use cpp2tnt.Outcome.{
  Error, Result, ok, thrown, undefined, ◌>>=◌, guard, on_part, no_container, array_header_exceeded,
  map_header_exceeded, odd_map_items, unexpected_header, not_implemented, truncated,
  no_opened_containers, string_too_long,
}
use cpp2tnt.WtfBuffer.{WtfBuffer, capacity, clear, put, poke}
use cpp2tnt.Msgpuck.{Msgpuck, MpType, array, map}

-- container_meta
pub record Container : Type 0 where
  pub head_offset : ℕ
  pub max_cardinality : ℕ
  pub items_count : ℕ

-- The room of `wtf_stack`, whose `push` does not check it.
abbrev pub stack_size : ℕ
stack_size = 16

-- The open containers are a list, the innermost first.
pub record MpWriter : Type 0 where
  pub opened : List Container
  pub buf : WtfBuffer

abbrev pub set_buf : MpWriter → WtfBuffer → MpWriter
set_buf w b = record w { buf = b }

-- `_buf.end = mp_encode_…(_buf.end, …)`
unfoldable pub append : Bytes → MpWriter → Result MpWriter
append bs w = on_part (set_buf w) (put w.buf bs) λ b. ok (set_buf w b)

-- A write over bytes that are written already.
abbrev pub patch : ℕ → Bytes → MpWriter → Result MpWriter
patch i bs w = on_part (set_buf w) (poke w.buf i bs) λ b. ok (set_buf w b)

-- `++_opened_containers.top().items_count`, a `uint32_t`
unfoldable pub count_items : ℕ → List Container → List Container
count_items n [] = []
count_items n (c ∷ rest) = record c { items_count = (c.items_count + n) % u32_mod } ∷ rest

-- mp_writer::increment_container_counter
abbrev pub increment_container_counter : ℕ → MpWriter → MpWriter
increment_container_counter n w = record w { opened = count_items n w.opened }

-- wtf_stack::push
abbrev pub push : Container → MpWriter → Result MpWriter
push c w = guard (ltb (length w.opened) stack_size) (ok (record w { opened = c ∷ w.opened }))

abbrev pub container_at : MpWriter → ℕ → Container
container_at w n = record { head_offset = w.buf.used; max_cardinality = n; items_count = 0 }

-- One scalar: its bytes, then the counter of the container around it.
unfoldable pub put_item : Bytes → MpWriter → Result MpWriter
unfolding append count_items
put_item bs w = append bs w >>= λ w'. ok (increment_container_counter 1 w')

-- The header of a container that is closed with `actual` items (or pairs).
pub fix_header :
    Msgpuck → (ℕ → ℕ) → (ℕ → Bytes) → Error → Container → ℕ → MpWriter → Result MpWriter
fix_header m sizeof encode exceeded c actual w =
    let n = sizeof c.max_cardinality in
    if actual == c.max_cardinality
    then ok w
    else if ltb c.max_cardinality actual && ltb n (sizeof actual)
    then thrown exceeded w
    else if n == 1
    then patch c.head_offset (encode actual) w
    else if n == 3
    then patch (c.head_offset + 1) (m.store_u16 (actual % u16_mod)) w
    else if n == 5
    then patch (c.head_offset + 1) (m.store_u32 actual) w
    else thrown not_implemented w

-- What `finalize` does by the type of the header's first byte; the container is popped already.
pub close_as : Msgpuck → MpType → Container → MpWriter → Result MpWriter
unfolding fix_header
close_as m array c w =
    fix_header m m.sizeof_array m.encode_array array_header_exceeded c c.items_count w
close_as m map c w =
    if c.items_count % 2 == 1
    then thrown odd_map_items w
    else fix_header m m.sizeof_map m.encode_map map_header_exceeded c (c.items_count / 2) w
close_as m _ c w = thrown unexpected_header w

-- The byte that `head` points to, if it lies in the storage.
close_at : Msgpuck → Option ℕ → Container → MpWriter → Result MpWriter
unfolding close_as
close_at m none c w = undefined
close_at m (some b) c w = close_as m (m.type_of b) c w

finalize_top : Msgpuck → List Container → MpWriter → Result MpWriter
unfolding close_at
finalize_top m [] w = thrown no_container w
finalize_top m (c ∷ rest) w =
    close_at m (get_elem? w.buf.store c.head_offset) c (record w { opened = rest })

-- mp_writer::finalize
unfoldable pub finalize : Msgpuck → MpWriter → Result MpWriter
unfolding finalize_top
finalize m w = finalize_top m w.opened w

-- while (!_opened_containers.empty()) finalize(): a round for each container that is open
pub finalize_rounds : ℕ → Msgpuck → MpWriter → Result MpWriter
unfolding finalize
finalize_rounds zero m w = ok w
finalize_rounds (suc n) m w = finalize m w >>= finalize_rounds n m

-- mp_writer::finalize_all
unfoldable pub finalize_all : Msgpuck → MpWriter → Result MpWriter
unfolding finalize_rounds
finalize_all m w = finalize_rounds (length w.opened) m w

-- mp_writer::begin_array
unfoldable pub begin_array : Msgpuck → ℕ → MpWriter → Result MpWriter
unfolding append count_items
begin_array m n w =
    let w' = increment_container_counter 1 w in
    push (container_at w' n) w' >>= append (m.encode_array n)

-- mp_writer::begin_map
unfoldable pub begin_map : Msgpuck → ℕ → MpWriter → Result MpWriter
unfolding append count_items
begin_map m n w =
    let w' = increment_container_counter 1 w in
    push (container_at w' n) w' >>= append (m.encode_map n)

-- operator<<(std::nullptr_t)
unfoldable pub put_nil : Msgpuck → MpWriter → Result MpWriter
put_nil m = put_item m.encode_nil

-- operator<<(bool)
unfoldable pub put_bool : Msgpuck → Bool → MpWriter → Result MpWriter
put_bool m b = put_item (m.encode_bool b)

-- operator<< of an unsigned integer
unfoldable pub put_uint : Msgpuck → ℕ → MpWriter → Result MpWriter
put_uint m n = put_item (m.encode_uint n)

-- operator<<(const std::string_view &): `none` is a view of no data.
unfoldable pub put_string : Msgpuck → Option Bytes → MpWriter → Result MpWriter
put_string m none w = put_item m.encode_nil w
put_string m (some s) w =
    if ltb (u32_mod - 1) (length s) then thrown string_too_long w else put_item (m.encode_str s) w

-- operator<<(const strict_uint<T> &) for the sizes 2 and 4
unfoldable pub put_strict_u16 : Msgpuck → ℕ → MpWriter → Result MpWriter
put_strict_u16 m n = put_item (0xcd ∷ m.store_u16 n)

unfoldable pub put_strict_u32 : Msgpuck → ℕ → MpWriter → Result MpWriter
put_strict_u32 m n = put_item (0xce ∷ m.store_u32 n)

-- for (const auto& elem: val) *this << elem;
pub put_all {ℓ} :
    {A : Type ℓ} → (A → MpWriter → Result MpWriter) → List A → MpWriter → Result MpWriter
put_all put_one [] w = ok w
put_all put_one (x ∷ xs) w = put_one x w >>= put_all put_one xs

-- operator<<(const std::vector<T> &), with `<<` of an element as an argument. The cardinality is a
-- `uint32_t`.
unfoldable pub put_vector {ℓ} :
    {A : Type ℓ} → Msgpuck → (A → MpWriter → Result MpWriter) → List A → MpWriter → Result MpWriter
unfolding begin_array put_all finalize
put_vector m put_one xs w =
    begin_array m (length xs % u32_mod) w >>= put_all put_one xs >>= finalize m

-- One entry of a std::map: the key, then the value.
pub put_entry {ℓ} :
    {A B : Type ℓ}
    → (A → MpWriter → Result MpWriter)
    → (B → MpWriter → Result MpWriter)
    → A × B
    → MpWriter
    → Result MpWriter
put_entry put_key put_value (k, v) w = put_key k w >>= put_value v

-- operator<<(const std::map<KeyT, ValueT> &), with its entries in order
unfoldable pub put_map {ℓ} :
    {A B : Type ℓ}
    → Msgpuck
    → (A → MpWriter → Result MpWriter)
    → (B → MpWriter → Result MpWriter)
    → List (A × B)
    → MpWriter
    → Result MpWriter
unfolding begin_map put_all put_entry finalize
put_map m put_key put_value xs w =
    begin_map m (length xs % u32_mod) w >>= put_all (put_entry put_key put_value) xs >>= finalize m

-- mp_writer::state
pub record WriterState : Type 0 where
  pub content_len : ℕ
  pub opened_containers : List Container

-- mp_writer::get_state
unfoldable pub get_state : MpWriter → WriterState
get_state w = record { content_len = w.buf.used; opened_containers = w.opened }

-- mp_writer::set_state
unfoldable pub set_state : WriterState → MpWriter → Result MpWriter
set_state s w =
    if leb s.content_len (capacity w.buf)
    then ok (record w { buf = record w.buf { used = s.content_len }; opened = s.opened_containers })
    else thrown truncated w

-- mp_writer::reset
unfoldable pub reset : MpWriter → MpWriter
reset w = record { opened = []; buf = clear w.buf }

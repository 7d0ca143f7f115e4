-- ===== src/Msgpuck.antt =====
-- The functions of the msgpuck library that the sources call. The library is a git submodule, so it
-- is a parameter of the model; what the code relies on are the laws in the child modules, each a rule
-- of the MessagePack format.
pub mod Laws
use cpp2tnt.Prelude.{ℕ, Bool, Option, Bytes, ℤ}

-- enum mp_type
pub data MpType : Type 0 where
  nil uint int str bin array : MpType
  map bool float double ext : MpType

-- A `float` or a `double`, by the fields of its IEEE 754 form.
pub record Floating : Type 0 where
  pub negative : Bool
  pub exponent : ℕ
  pub mantissa : ℕ

pub record Msgpuck : Type 0 where
  -- `mp_typeof(*p)`, by the first byte
  pub type_of : ℕ → MpType
  -- `mp_decode_uint(&p)`: the value, and the bytes behind it
  pub decode_uint : Bytes → ℕ × Bytes
  -- `mp_decode_array(&p)`, `mp_decode_map(&p)`: the cardinality, and the bytes behind the header
  pub decode_array : Bytes → ℕ × Bytes
  pub decode_map : Bytes → ℕ × Bytes
  -- what the encoders write from the position that they are given
  pub encode_nil : Bytes
  pub encode_bool : Bool → Bytes
  pub encode_uint : ℕ → Bytes
  pub encode_int : ℤ → Bytes
  pub encode_float : Floating → Bytes
  pub encode_double : Floating → Bytes
  pub encode_strl : ℕ → Bytes
  pub encode_str : Bytes → Bytes
  pub encode_array : ℕ → Bytes
  pub encode_map : ℕ → Bytes
  pub sizeof_array : ℕ → ℕ
  pub sizeof_map : ℕ → ℕ
  pub store_u16 : ℕ → Bytes
  pub store_u32 : ℕ → Bytes
  pub store_u64 : ℕ → Bytes
  -- `mp_next(&p)`: the number of bytes that `p` moves over, which may be more than there are;
  -- `none` where it reads outside of the bytes
  pub next : Bytes → Option ℕ
  -- `mp_check(&p, end)` of the bytes up to `end`: the number of bytes of the item that they begin with,
  -- or `none` where that is not valid
  pub check : Bytes → Option ℕ
  -- `mp_decode_int`, `mp_decode_float`, `mp_decode_double`, `mp_decode_bool`, `mp_decode_str`: the value
  pub decode_int : Bytes → ℤ
  pub decode_float : Bytes → Floating
  pub decode_double : Bytes → Floating
  pub decode_bool : Bytes → Bool
  pub decode_str : Bytes → Bytes
  -- `mp_decode_extl(&p, &type)`: the type of the extension, and the bytes behind the header
  pub decode_extl : Bytes → ℕ × Bytes
  -- what `mp_snprint` writes where it has the room
  pub print : Bytes → Bytes
  -- `MP_ERROR` and `MP_INTERVAL`
  pub ext_error : ℕ
  pub ext_interval : ℕ

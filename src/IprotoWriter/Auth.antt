-- ===== src/IprotoWriter/Auth.antt =====
-- iproto_writer.cpp: the authentication request, with the scramble of the password. SHA-1 and base64 are
-- third-party code, and so parameters.
pub mod Scramble
use cpp2tnt.Prelude.{
  ℕ, zero, suc, ◌+◌, ◌*◌, ◌/◌, ◌%◌, Bytes, [], ◌∷◌, ◌++◌, length, take, drop, leb, u32_mod,
  if◌then◌else◌,
}
use cpp2tnt.Outcome.{Result, ok, undefined, ◌>>=◌, guard}
use cpp2tnt.Msgpuck.{Msgpuck}
use cpp2tnt.Iproto.Codes.{RequestType, BodyField, body_field_code}
use cpp2tnt.MpWriter.{MpWriter, append}
use cpp2tnt.IprotoWriter.{encode_request_header, finalize}

pub record Digests : Type 0 where
  -- `SHA1Init`, some `SHA1Update` and `SHA1Final`, of all the bytes
  pub sha1 : Bytes → Bytes
  -- `base64_decode` of the bytes
  pub base64_decode : Bytes → Bytes

-- The exclusive or of two bytes, bit by bit.
abbrev pub xor_bits : ℕ → ℕ → ℕ → ℕ
xor_bits zero a b = 0
xor_bits (suc n) a b = (a + b) % 2 + 2 * xor_bits n (a / 2) (b / 2)

abbrev pub xor_all : Bytes → Bytes → Bytes
xor_all [] bs = []
xor_all (a ∷ as') [] = []
xor_all (a ∷ as') (b ∷ bs) = xor_bits 8 a b ∷ xor_all as' bs

-- SCRAMBLE_SIZE, VERSION_SIZE and SALT_SIZE
abbrev pub scramble_size : ℕ
scramble_size = 20

abbrev pub version_size : ℕ
version_size = 64

abbrev pub salt_size : ℕ
salt_size = 44

-- The bytes of the password that SHA1Update gets: its size is cast to 32 bits.
abbrev pub hashed : Bytes → Bytes
hashed password = take (length password % u32_mod) password

-- scramble_prepare
unfoldable pub scramble_prepare : Digests → Bytes → Bytes → Bytes
scramble_prepare d salt password =
    let hash1 = d.sha1 (hashed password) in
    let hash2 = d.sha1 (take scramble_size hash1) in
    xor_all hash1 (d.sha1 (take scramble_size salt ++ take scramble_size hash2))

-- iproto_writer::encode_auth_request. A salt of less than 20 bytes would be read past its end. The header
-- of the user's name has its size cast to 32 bits, and all of the name is copied behind it.
unfoldable pub encode_auth_request :
    Msgpuck → Digests → Bytes → Bytes → Bytes → Bytes → ℕ → MpWriter → Result MpWriter
unfolding encode_request_header append finalize scramble_prepare
encode_auth_request m d greeting user password auth_proto id w =
    let salt = d.base64_decode (take salt_size (drop version_size greeting)) in
    guard (leb (version_size + salt_size) (length greeting)) (
      guard (leb scramble_size (length salt)) (
        encode_request_header m RequestType.auth id w
        >>= append (m.encode_map 2)
        >>= append (
            m.encode_uint (body_field_code BodyField.user_name)
            ++ m.encode_strl (length user % u32_mod))
        >>= append user
        >>= append (m.encode_uint (body_field_code BodyField.tuple))
        >>= append (m.encode_array 2 ++ m.encode_str auth_proto)
        >>= append (m.encode_strl scramble_size)
        >>= append (scramble_prepare d salt password)
        >>= finalize m))

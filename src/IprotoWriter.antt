-- ===== src/IprotoWriter.antt =====
-- iproto_writer.h, iproto_writer.cpp: requests and responses, each with its length in front.
pub mod Message
pub mod Requests
pub mod Call
pub mod Auth
use cpp2tnt.Prelude.{
  ℕ, zero, suc, ◌+◌, ◌-◌, ◌/◌, ◌%◌, Bool, Option, none, some, List, [], ◌∷◌, ◌++◌, Bytes, length,
  take, drop, get_elem?, ltb, leb, ◌==◌, if◌then◌else◌, u32_mod, u64_mod,
}
use cpp2tnt.Outcome.{
  Result, ok, thrown, undefined, ◌>>=◌, guard, on_part, no_request, request_size_exceeded,
}
use cpp2tnt.WtfBuffer.{WtfBuffer, capacity, reserve, put}
use cpp2tnt.Msgpuck.{Msgpuck}
use cpp2tnt.Iproto.{ProtoId, list_features}
use cpp2tnt.Iproto.Codes.{
  RequestType, HeaderField, BodyField, request_type_code, header_field_code, body_field_code,
}
use cpp2tnt.MpWriter.{
  Container, MpWriter, set_buf, append, patch, push, container_at, put_all, begin_array,
}
use cpp2tnt.MpWriter

-- iproto_writer::finalize for a message, whose container is popped. `size` is a `size_t`.
pub finish_message : Msgpuck → Container → MpWriter → Result MpWriter
finish_message m c w =
    let size = (w.buf.used + u64_mod - c.head_offset) % u64_mod in
    if size == 0
    then ok w
    else if ltb c.max_cardinality size
    then thrown request_size_exceeded w
    else patch (c.head_offset + 1) (m.store_u32 ((size + u32_mod - 5) % u32_mod)) w

-- By the byte that `head` points to, if it lies in the storage.
finalize_at : Msgpuck → Option ℕ → Container → List Container → MpWriter → Result MpWriter
unfolding finish_message
finalize_at m none c rest w = undefined
finalize_at m (some b) c rest w =
    if b == 0xce then finish_message m c (record w { opened = rest }) else MpWriter.finalize m w

finalize_top : Msgpuck → List Container → MpWriter → Result MpWriter
unfolding finalize_at
finalize_top m [] w = thrown no_request w
finalize_top m (c ∷ rest) w = finalize_at m (get_elem? w.buf.store c.head_offset) c rest w

-- iproto_writer::finalize
unfoldable pub finalize : Msgpuck → MpWriter → Result MpWriter
unfolding finalize_top
finalize m w = finalize_top m w.opened w

-- while (!_opened_containers.empty()) finalize(): a round for each container that is open
pub finalize_rounds : ℕ → Msgpuck → MpWriter → Result MpWriter
unfolding finalize
finalize_rounds zero m w = ok w
finalize_rounds (suc n) m w = finalize m w >>= finalize_rounds n m

-- iproto_writer::finalize_all
unfoldable pub finalize_all : Msgpuck → MpWriter → Result MpWriter
unfolding finalize_rounds
finalize_all m w = finalize_rounds (length w.opened) m w

-- the 1 kB that start_message makes sure of
make_room : MpWriter → Result MpWriter
make_room w =
    if ltb (capacity w.buf - w.buf.used) 1024
    then on_part (set_buf w) (reserve w.buf (capacity w.buf + 1024)) (λ b. ok (set_buf w b))
    else ok w

-- The head of a message: one byte is written, and `end` moves over four more as they are.
open_message : MpWriter → Result MpWriter
unfolding append
open_message w = push (container_at w (u32_mod - 1)) w >>= λ w'.
    guard (leb (w'.buf.used + 5) (capacity w'.buf))
      (append (0xce ∷ take 4 (drop (w'.buf.used + 1) w'.buf.store)) w')

-- iproto_writer::start_message
unfoldable pub start_message : Msgpuck → MpWriter → Result MpWriter
unfolding finalize_all make_room open_message
start_message m w = finalize_all m w >>= make_room >>= open_message

abbrev pub field : Msgpuck → ℕ → ℕ → Bytes
field m key value = m.encode_uint key ++ m.encode_uint value

-- `error_code ? 0x8000 | error_code : OK`; the bit 15 is added where it is not set.
abbrev pub response_code : ℕ → ℕ
response_code error_code =
    if error_code == 0
    then request_type_code RequestType.ok
    else if error_code / 0x8000 % 2 == 1
    then error_code
    else error_code + 0x8000

-- iproto_writer::encode_request_header, with what `get_request_id()` returns as `id`
unfoldable pub encode_request_header : Msgpuck → RequestType → ℕ → MpWriter → Result MpWriter
unfolding start_message append
encode_request_header m type id w =
    start_message m w
    >>= append (m.encode_map 2)
    >>= append (field m (header_field_code HeaderField.code) (request_type_code type))
    >>= append (field m (header_field_code HeaderField.sync) id)

-- iproto_writer::encode_response_header
unfoldable pub encode_response_header : Msgpuck → ℕ → ℕ → ℕ → MpWriter → Result MpWriter
unfolding start_message append
encode_response_header m error_code schema_version id w =
    start_message m w
    >>= append (m.encode_map 3)
    >>= append (field m (header_field_code HeaderField.code) (response_code error_code))
    >>= append (field m (header_field_code HeaderField.sync) id)
    >>= append (field m (header_field_code HeaderField.schema_id) schema_version)

-- iproto_writer::encode_id_request
unfoldable pub encode_id_request : Msgpuck → ProtoId → ℕ → MpWriter → Result MpWriter
unfolding encode_request_header append
encode_id_request m proto id w =
    let no_version = proto.version == 0 in
    let no_auth = length proto.auth == 0 in
    let features = list_features proto in
    encode_request_header m RequestType.proto_id id w
    >>= append (m.encode_map (1 + (if no_version then 0 else 1) + (if no_auth then 0 else 1)))
    >>= (λ w'.
        if no_version
        then ok w'
        else append (field m (body_field_code BodyField.version) proto.version) w')
    >>= append (m.encode_uint (body_field_code BodyField.features))
    >>= append (m.encode_array (length features))
    >>= put_all (λ f. append (m.encode_uint f)) features
    >>= (λ w'.
        if no_auth
        then ok w'
        else append (m.encode_uint (body_field_code BodyField.auth_type) ++ m.encode_str proto.auth)
            w')
    >>= finalize m

-- iproto_writer::encode_ping_request
unfoldable pub encode_ping_request : Msgpuck → ℕ → MpWriter → Result MpWriter
unfolding encode_request_header append finalize
encode_ping_request m id w =
    encode_request_header m RequestType.ping id w >>= append (m.encode_map 0) >>= finalize m

-- What begin_call and begin_eval share: a map with the function's name or the script, and the key of
-- the arguments. The length of `text` is cut to a `uint32_t`.
pub begin_request : Msgpuck → RequestType → ℕ → Bytes → ℕ → MpWriter → Result MpWriter
unfolding encode_request_header append
begin_request m type key text id w =
    encode_request_header m type id w
    >>= append (m.encode_map 2)
    >>= append (m.encode_uint key)
    >>= append (m.encode_str (take (length text % u32_mod) text))
    >>= append (m.encode_uint (body_field_code BodyField.tuple))

-- iproto_writer::begin_call
unfoldable pub begin_call : Msgpuck → Bytes → ℕ → MpWriter → Result MpWriter
unfolding begin_request
begin_call m fn_name =
    begin_request m RequestType.call (body_field_code BodyField.function_name) fn_name

-- iproto_writer::begin_eval
unfoldable pub begin_eval : Msgpuck → Bytes → ℕ → MpWriter → Result MpWriter
unfolding begin_request
begin_eval m script = begin_request m RequestType.eval (body_field_code BodyField.expression) script

-- the template iproto_writer::call; `put_one` is `<<` of an argument
unfoldable pub call {ℓ} :
    {A : Type ℓ}
    → Msgpuck
    → (A → MpWriter → Result MpWriter)
    → Bytes
    → List A
    → ℕ
    → MpWriter
    → Result MpWriter
unfolding begin_call finalize_all
call m put_one fn_name args id w =
    begin_call m fn_name id w
    >>= begin_array m (length args)
    >>= put_all put_one args
    >>= finalize_all m

-- the template iproto_writer::eval
unfoldable pub eval {ℓ} :
    {A : Type ℓ}
    → Msgpuck
    → (A → MpWriter → Result MpWriter)
    → Bytes
    → List A
    → ℕ
    → MpWriter
    → Result MpWriter
unfolding begin_eval finalize_all
eval m put_one script args id w =
    begin_eval m script id w
    >>= begin_array m (length args)
    >>= put_all put_one args
    >>= finalize_all m

-- ===== src/Connection/Handshake.antt =====
-- connection.cpp: what process_receive_buffer does with the answers to the features and authentication
-- requests.
pub mod Kept
pub mod Ends
use cpp2tnt.Prelude.{
  ℕ, zero, suc, ◌%◌, Bool, true, false, ◌&&◌, ◌||◌, none, some, Option, List, [], ◌∷◌, Bytes,
  length, ltb, ◌==◌, if◌then◌else◌, set, u64_mod, ℤ, pos, pos_part,
}
use cpp2tnt.Outcome.{Error, Result, ok, thrown, undefined, ◌>>=◌, no_data}
use cpp2tnt.WtfBuffer.{content, clear}
use cpp2tnt.Msgpuck.{Msgpuck}
use cpp2tnt.Iproto.{ProtoId}
use cpp2tnt.Iproto.Codes.{
  HeaderField, header_field_code, BodyField, body_field_code, ResponseField, response_field_code,
}
use cpp2tnt.MpWriter.{MpWriter}
use cpp2tnt.IprotoWriter.Auth.{Digests, encode_auth_request}
use cpp2tnt.MpReader.{
  Reader, reader_of, iproto_message, has_next, if_next, skip, after, Read, value, failed,
}
use cpp2tnt.MpReader
use cpp2tnt.MpReader.Containers.{read_array, read_map}
use cpp2tnt.MpReader.Values.{IntType, read_int, read_text, from_inner}
use cpp2tnt.MpReader.RoundTrip.{uint64}
use cpp2tnt.MpReader.Lookup.{number, get}
use cpp2tnt.Connection.{
  Connection, ErrorKind, opened, external, system, unexpected_data, features, auth,
  features_request, authentication, connected,
}
use cpp2tnt.Connection.Close.{emit, handle_error, close, State-eq}
use cpp2tnt.Connection.Send.{SendAnswer, reconnect_soon}
use cpp2tnt.Connection.Send
use cpp2tnt.Connection.Receive.{clear_receive_buffer}

-- uint32_t, uint8_t
abbrev uint32 : IntType
uint32 = record { signed = false; bits = 32 }

abbrev uint8 : IntType
uint8 = record { signed = false; bits = 8 }

abbrev read_uint : Msgpuck → IntType → Bytes → Reader → Read ℕ
read_uint m t mem r = MpReader.◌>>=◌ (read_int m t mem r) λ z. value (pos_part z)

-- The loop over the features; a number of no feature is left aside. `spent` is what is done where there
-- is no fuel, here and in the loop below.
read_features :
    (Reader → Result Reader) → ℕ → Msgpuck → Bytes → List Bool → Reader → Read (List Bool)
unfolding has_next read_int
read_features spent zero m mem bits r = after (spent r) (value bits)
read_features spent (suc fuel) m mem bits r =
    let more =
      MpReader.◌>>=◌ (read_uint m uint8 mem r) λ f.
        read_features spent fuel m mem (if ltb f (length bits) then set bits f true else bits) in
    if_next r (has_next false r) (value bits r) more

-- The array of the features.
read_feature_list : (Reader → Result Reader) → ℕ → Msgpuck → Bytes → ProtoId → Reader → Read ProtoId
unfolding read_features read_array
read_feature_list spent fuel m mem proto body = MpReader.◌>>=◌ (read_array m mem body) λ ff body'.
    MpReader.◌>>=◌ (from_inner (read_features spent fuel m mem proto.features ff) body')
      λ bits. value (record proto { features = bits })

-- An entry of the body, behind its key.
read_field : (Reader → Result Reader) → ℕ → Msgpuck → Bytes → ProtoId → ℕ → Reader → Read ProtoId
unfolding read_feature_list read_int read_text skip
read_field spent fuel m mem proto key body =
    if key == body_field_code BodyField.version
    then MpReader.◌>>=◌ (read_uint m uint64 mem body) (λ v. value (record proto { version = v }))
    else if key == body_field_code BodyField.auth_type
    then MpReader.◌>>=◌ (read_text m mem (length proto.auth) body)
        (λ a. value (record proto { auth = a }))
    else if key == body_field_code BodyField.features
    then read_feature_list spent fuel m mem proto body
    else after (skip m mem body) (value proto)

-- The loop over the body of the answer to the features request.
pub read_fields : (Reader → Result Reader) → ℕ → Msgpuck → Bytes → ProtoId → Reader → Read ProtoId
unfolding read_field has_next read_int
read_fields spent zero m mem proto body = after (spent body) (value proto)
read_fields spent (suc fuel) m mem proto body =
    let more = MpReader.◌>>=◌ (read_uint m uint32 mem body) λ key body'.
      MpReader.◌>>=◌ (read_field spent fuel m mem proto key body')
        λ proto'. read_fields spent fuel m mem proto' in
    if_next body (has_next false body) (value proto body) more

-- The code in the header of the response; the reader is then before the body.
read_code : Msgpuck → Bytes → Read ℕ
unfolding iproto_message read_map get read_int
read_code m mem =
    MpReader.◌>>=◌ (iproto_message m mem (reader_of (some 0) (some (length mem)))) λ response rest.
      MpReader.◌>>=◌ (read_map m mem response) λ header response'.
        from_inner
          (MpReader.◌>>=◌ (get m mem (number (pos (header_field_code HeaderField.code))) header)
            λ code header'. read_uint m uint32 mem code)
          response'

-- Each entry of the body is a byte at least.
unfoldable pub read_proto : Msgpuck → Bytes → ProtoId → Reader → Read ProtoId
unfolding read_map read_fields
read_proto m mem proto response = MpReader.◌>>=◌ (read_map m mem response) λ body response'.
    from_inner (read_fields (λ r. undefined) (suc (length mem)) m mem proto body) response'

-- The text of the error, which is printed as it is.
read_error : Msgpuck → Bytes → Reader → Read Bool
unfolding read_map get skip
read_error m mem response = MpReader.◌>>=◌ (read_map m mem response) λ body response'.
    from_inner
      (MpReader.◌>>=◌
        (get m mem (number (pos (response_field_code ResponseField.iproto_error_24))) body)
        λ text body'. after (skip m mem text) (value true))
      response'

-- `mp_reader_error`, or another `std::exception`
abbrev kind_of : Error → ErrorKind
kind_of no_data = system
kind_of _ = unexpected_data

abbrev cleared : Connection → Connection
cleared c = record c { rx = clear_receive_buffer c.rx }

-- The end of the handshake that failed.
refuse : ErrorKind → Connection → Result Connection
unfolding handle_error close clear_receive_buffer
refuse kind c = reconnect_soon (close false 0 (cleared (handle_error kind c)))

call_opened : Option Bool → Connection → Connection
unfolding handle_error
call_opened none c = c
call_opened (some true) c = emit opened c
call_opened (some false) c = handle_error external (emit opened c)

-- set_connected
set_connected : Connection → Connection
unfolding call_opened clear_receive_buffer
set_connected c =
    call_opened c.handlers.on_opened
      (record (cleared c) { state = connected; autoreconnect_ticks = none })

abbrev is_guest : Bytes → Bool
is_guest (a ∷ b ∷ c ∷ d ∷ e ∷ []) = a == b'g' && b == b'u' && c == b'e' && d == b's' && e == b't'
is_guest bs = length bs == 0

sent : List SendAnswer → ℕ → Connection → Result MpWriter → Result Connection
unfolding Send.write refuse
sent answers now c (ok w) =
    Send.write true answers now (record c { tx = record c.tx { send = w.buf } })
sent answers now c (thrown e w) = refuse system (record c { tx = record c.tx { send = w.buf } })
sent answers now c undefined = undefined

-- send_auth_request, and set_connected where there is nobody to authenticate.
authenticate : Msgpuck → Digests → List SendAnswer → ℕ → Connection → Result Connection
unfolding sent set_connected encode_auth_request clear_receive_buffer
authenticate m d answers now c =
    let parts = c.setup.cs_parts in
    let c' = record (cleared c) {
      state = authentication;
      tx = record c.tx { send = clear c.tx.send; next_to_send = 0 };
      request_id = suc c.request_id % u64_mod;
    } in
    let w : MpWriter = record { opened = []; buf = c'.tx.send } in
    if is_guest parts.user
    then ok (set_connected c)
    else sent answers now c' (
        encode_auth_request m d c.greeting parts.user parts.password c.server_proto.auth
          c.request_id w)

-- What is done with what was read, and with an exception.
abbrev on_read :
    {A : Type 0} → Connection → Read A → (A → Reader → Result Connection) → Result Connection
on_read c (value a r) k = k a r
on_read c (failed e r) k = refuse (kind_of e) c
on_read c MpReader.stuck k = undefined

-- The answer has the code 0.
accept : Msgpuck → Digests → List SendAnswer → ℕ → Connection → Reader → Result Connection
unfolding authenticate set_connected read_proto refuse
accept m d answers now c response =
    if State-eq c.state features_request
    then on_read c (read_proto m (content c.rx.receive) c.server_proto response)
        (λ proto r. authenticate m d answers now (record c { server_proto = proto }))
    else ok (set_connected c)

-- ER_UNKNOWN_REQUEST_TYPE comes from a server that knows no features.
reject : Msgpuck → Digests → List SendAnswer → ℕ → Connection → ℕ → Reader → Result Connection
unfolding authenticate read_error refuse
reject m d answers now c code response =
    let asked = State-eq c.state features_request in
    if asked && code % 0x8000 == 0x30
    then authenticate m d answers now c
    else on_read c (read_error m (content c.rx.receive) response)
        (λ text r. refuse (if asked then features else auth) c)

-- connection::process_receive_buffer, in the states `features_request` and `authentication`
unfoldable pub handshake : Msgpuck → Digests → List SendAnswer → ℕ → Connection → Result Connection
unfolding accept reject read_code refuse
handshake m d answers now c = on_read c (read_code m (content c.rx.receive)) λ code response.
    if code == 0 then accept m d answers now c response else reject m d answers now c code response

-- ===== src/IprotoWriter/Requests.antt =====
-- iproto_writer.cpp: the headers of messages, pings, and the beginnings of calls and evals.
use cpp2tnt.Prelude.{
  ℕ, ◌+◌, ◌%◌, ◌≤◌, ◌<◌, ◌≡◌, ◌≢◌, ap, ◌∙◌, ◌⊎◌, none, [], ◌++◌, Bytes, length, take, u32_mod,
  arith, length-append, take_all,
}
use cpp2tnt.Outcome.{Result, ◌>>=◌}
use cpp2tnt.WtfBuffer.{raw, capacity}
use cpp2tnt.WtfBuffer.Content.{IsValid}
use cpp2tnt.Msgpuck.{Msgpuck}
use cpp2tnt.Msgpuck.Laws.{Uint32Laws}
use cpp2tnt.Iproto.Codes.{
  RequestType, HeaderField, BodyField, request_type_code, header_field_code, body_field_code,
}
use cpp2tnt.MpWriter.{MpWriter, append}
use cpp2tnt.IprotoWriter.{
  field, encode_request_header, encode_ping_request, begin_request, finalize,
}
use cpp2tnt.IprotoWriter.Message.{
  Composes, Framed, start_message-Composes, append-Composes, finalize-Framed,
}

-- A buffer that a message can be started in: nothing is open, the buffer can grow, and the message
-- takes up at most `room` bytes, which are there or are at most the kilobyte that start_message
-- makes sure of.
pub record IsReady (room : ℕ) (w : MpWriter) : Type 0 where
  pub valid : IsValid w.buf
  pub closed : w.opened ≡ []
  pub grows : w.buf.target ≢ raw none
  pub enough : (room ≤ 1024) ⊎ (w.buf.used + room ≤ capacity w.buf)

module _ (m : Msgpuck) where
  -- The map that starts a request: its code and its id.
  abbrev pub request_header : RequestType → ℕ → Bytes
  request_header type id =
      (m.encode_map 2 ++ field m (header_field_code HeaderField.code) (request_type_code type))
      ++ field m (header_field_code HeaderField.sync) id

  -- An `append` that is written behind a body, whatever the body.
  step :
      (room : ℕ) (w : MpWriter) (r : Result MpWriter) (body bs : Bytes)
      → IsValid w.buf
      → Composes room w body r
      → 5 + length (body ++ bs) ≤ room
      → Composes room w (body ++ bs) (r >>= append bs)
  step room w r body bs v c h =
      append-Composes room w r body bs v c (omega (arith, length-append body bs))

  pub header-Composes :
      (room : ℕ) (type : RequestType) (id : ℕ) (w : MpWriter)
      → IsReady room w
      → 5 + length (request_header type id) ≤ room
      → Composes room w (request_header type id) (encode_request_header m type id w)
  unfolding encode_request_header
  header-Composes room type id w ready h =
      let code = field m (header_field_code HeaderField.code) (request_type_code type) in
      let sync = field m (header_field_code HeaderField.sync) id in
      step room w _ (m.encode_map 2 ++ code) sync ready.valid
        (step room w _ (m.encode_map 2) code ready.valid
          (step room w _ [] (m.encode_map 2) ready.valid
            (start_message-Composes m room w ready.valid ready.closed ready.grows ready.enough)
            (omega (
              arith,
              length-append (m.encode_map 2) code,
              length-append (m.encode_map 2 ++ code) sync,
            )))
          (omega (arith, length-append (m.encode_map 2 ++ code) sync)))
        h

  -- A message that is composed and finalized.
  Framed-finalize :
      Uint32Laws m
      → (room : ℕ) (w : MpWriter) (body : Bytes) (r : Result MpWriter) → IsValid w.buf
      → Composes room w body r
      → 5 + length body < u32_mod
      → Framed m w body (r >>= finalize m)
  Framed-finalize laws room w body r v (w', e, c) small =
      let (done, e', v', bytes, closed) = finalize-Framed m laws room w body w' v c small in
      (done, ap (λ (r' : Result MpWriter). r' >>= finalize m) e ∙ e', v', bytes, closed)

  abbrev pub ping_body : ℕ → Bytes
  ping_body id = request_header RequestType.ping id ++ m.encode_map 0

  -- Where nothing is open, the buffer can grow and the message fits into the room of `IsReady`,
  -- encode_ping_request succeeds and puts one frame behind what the buffer held: the header with the
  -- code of a ping and the id, and an empty map; nothing is left open.
  pub encode_ping_request-Framed :
      (laws : Uint32Laws m) (room id : ℕ) (w : MpWriter)
      → IsReady room w
      → 5 + length (ping_body id) ≤ room
      → room < u32_mod
      → Framed m w (ping_body id) (encode_ping_request m id w)
  unfolding encode_ping_request
  encode_ping_request-Framed laws room id w ready h small =
      let header = request_header RequestType.ping id in
      let composed =
        header-Composes room RequestType.ping id w ready
          (omega (arith, length-append header (m.encode_map 0))) in
      Framed-finalize laws room w (ping_body id) _ ready.valid
        (step room w _ header (m.encode_map 0) ready.valid composed h) (omega arith)

  -- The beginning of a call or an eval: the header, and a map whose second value, the arguments, is
  -- still to come.
  abbrev pub request_start : RequestType → ℕ → Bytes → ℕ → Bytes
  request_start type key text id =
      (((request_header type id ++ m.encode_map 2) ++ m.encode_uint key) ++ m.encode_str text)
      ++ m.encode_uint (body_field_code BodyField.tuple)

  pub begin_request-Composes :
      (room : ℕ) (type : RequestType) (key : ℕ) (text : Bytes) (id : ℕ) (w : MpWriter)
      → IsReady room w
      → length text < u32_mod
      → 5 + length (request_start type key text id) ≤ room
      → Composes room w (request_start type key text id) (begin_request m type key text id w)
  unfolding begin_request
  begin_request-Composes room type key text id w ready short h =
      let tuple = m.encode_uint (body_field_code BodyField.tuple) in
      let a = request_header type id in
      let b = a ++ m.encode_map 2 in
      let c = b ++ m.encode_uint key in
      let d = c ++ m.encode_str text in
      let ld = length-append d tuple in
      let lc = length-append c (m.encode_str text) in
      let lb = length-append b (m.encode_uint key) in
      let la = length-append a (m.encode_map 2) in
      let whole : take (length text % u32_mod) text ≡ text =
        take_all (length text % u32_mod) text (omega arith) in
      rw whole (
        step room w _ d tuple ready.valid
          (step room w _ c (m.encode_str text) ready.valid
            (step room w _ b (m.encode_uint key) ready.valid
              (step room w _ a (m.encode_map 2) ready.valid
                (header-Composes room type id w ready (omega arith)) (omega arith))
              (omega arith))
            (omega arith))
          h)

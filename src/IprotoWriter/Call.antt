-- ===== src/IprotoWriter/Call.antt =====
-- iproto_writer.h: a call or an eval with all of its arguments.
use cpp2tnt.Prelude.{
  ℕ, ◌+◌, ◌%◌, ◌≤◌, ◌<◌, ◌≡◌, refl, sym, ap, ◌∙◌, false, Bool-cases, inl, inr, List, ◌∷◌, ◌++◌,
  append_assoc, Bytes, length, get_elem?, ◌==◌, u32_mod, arith, length-append, ==_iff,
}
use cpp2tnt.Outcome.{Result, ok, ◌>>=◌}
use cpp2tnt.WtfBuffer.{content}
use cpp2tnt.WtfBuffer.Content.{length-content}
use cpp2tnt.Msgpuck.{Msgpuck, array, uint}
use cpp2tnt.Msgpuck.Laws.{Uint32Laws}
use cpp2tnt.Iproto.Codes.{RequestType, BodyField, body_field_code}
use cpp2tnt.MpWriter.{Container, MpWriter, count_items, stack_size, begin_array, put_all}
use cpp2tnt.MpWriter.Header.{header_at}
use cpp2tnt.MpWriter.Finalize.{Open, ArrayLaws, finalize-array_exact}
use cpp2tnt.MpWriter.Items.{Writes, AllFit, encode_all}
use cpp2tnt.MpWriter.Containers.{encode_vector, filled_array}
use cpp2tnt.IprotoWriter.{
  finalize_top, finalize_at, finalize, finalize_all, finalize_rounds, call, eval, begin_call,
  begin_eval, begin_request,
}
use cpp2tnt.IprotoWriter.Message.{Composed, Framed, finalize-Framed}
use cpp2tnt.IprotoWriter.Requests.{IsReady, request_start, begin_request-Composes}

module _ (m : Msgpuck) (u : Uint32Laws m) (laws : ArrayLaws m) where
  -- `finalize` leaves an array to mp_writer::finalize, since no array begins with 0xce.
  finalize-array :
      (w : MpWriter) (c : Container) (rest : List Container) (pre body : Bytes)
      → Open m.encode_array w c rest pre body
      → c.items_count ≡ c.max_cardinality
      → finalize m w ≡ ok (record w { opened = rest })
  unfolding finalize
  finalize-array w c rest pre body o e =
      let (b, at, ty) = header_at m laws w pre body c.max_cardinality o.valid o.bytes in
      let not_message : (b == 0xce) ≡ false = elim (Bool-cases (b == 0xce)) [
        | inl same ↦ absurd (clash b ((==_iff b 0xce).0 same) ty)
        | inr differs ↦ differs
      ] in
      ap (λ (cs : List Container). finalize_top m cs w) o.innermost
      ∙ ap (λ x. finalize_at m x c rest w) (ap (get_elem? w.buf.store) o.offset ∙ at)
      ∙ rw not_message (finalize-array_exact m laws w c rest pre body o e)
    where
      clash : (b : ℕ) → b ≡ 0xce → m.type_of b ≡ array → ⊥
      clash b same ty =
          let clash_types : uint ≡ array = sym u.type_u32 ∙ ap m.type_of (sym same) ∙ ty in cc

  module _ {ℓ} {A : Type ℓ} (depth : ℕ) (Fits : A → Type 0) (encode : A → Bytes)
      (put_one : A → MpWriter → Result MpWriter) (writes : Writes 1 depth Fits encode put_one)
      (shallow : 2 + depth ≤ stack_size) where
    -- The whole request: its beginning, then the array of the arguments.
    abbrev pub request_body : RequestType → ℕ → Bytes → List A → ℕ → Bytes
    request_body type key text args id =
        request_start m type key text id ++ encode_vector m encode args

    -- What begins the request is completed by the array, and both are closed.
    request-Framed :
        (room : ℕ) (type : RequestType) (key : ℕ) (text : Bytes) (args : List A) (id : ℕ)
        (w : MpWriter)
        → IsReady room w
        → length text < u32_mod
        → length args < u32_mod
        → AllFit Fits args
        → 5 + length (request_body type key text args id) ≤ room
        → room < u32_mod
        → Framed m w (request_body type key text args id) (
            begin_request m type key text id w
            >>= begin_array m (length args)
            >>= put_all put_one args
            >>= finalize_all m)
    unfolding finalize_all finalize_rounds count_items
    request-Framed room type key text args id w ready short few fit h small =
        let start = request_start m type key text id in
        let tuple = encode_vector m encode args in
        let split = length-append start tuple in
        let (w1, e1, c) =
          begin_request-Composes m room type key text id w ready short (omega arith) in
        let len : w1.buf.used ≡ w.buf.used + 5 + length start = omega (
          arith,
          ap length c.bytes,
          length-content w1.buf c.valid,
          length-content w.buf ready.valid,
          length-append (content w.buf) (0xce ∷ (c.gap ++ start)),
          length-append c.gap start,
          c.gap_length,
        ) in
        let (w2, e2, o, used, cap) =
          filled_array m depth Fits encode put_one writes args w1 few fit c.valid
            (omega (arith, c.fits, len, split)) (omega (arith, ap length c.head)) in
        let closed = record w2 { opened = count_items 1 w1.opened } in
        let composed : Composed room w (start ++ tuple) closed = record {
          valid = o.valid;
          gap = c.gap;
          gap_length = c.gap_length;
          bytes =
              o.bytes
              ∙ ap (λ zs. zs ++ tuple) c.bytes
              ∙ append_assoc (content w.buf) (0xce ∷ (c.gap ++ start)) tuple
              ∙ ap (λ zs. content w.buf ++ 0xce ∷ zs) (append_assoc c.gap start tuple);
          items = (c.items + 1) % u32_mod;
          head = ap (count_items 1) c.head;
          fits = omega (arith, c.fits, cap);
        } in
        let (done, e3, v, bytes, none_open) =
          finalize-Framed m u room w (start ++ tuple) closed ready.valid composed (omega arith) in
        let two : length w2.opened ≡ 2 =
          omega (arith, ap length o.innermost, ap length (ap (count_items 1) c.head)) in
        (
          done,
          ap
                (λ (r : Result MpWriter).
                  r >>= begin_array m (length args) >>= put_all put_one args >>= finalize_all m)
                e1
              ∙ ap (λ (r : Result MpWriter). r >>= finalize_all m) e2
              ∙ ap (λ n. finalize_rounds n m w2) two
              ∙ ap (λ (r : Result MpWriter). r >>= finalize_rounds 1 m)
                  (finalize-array w2 _ (count_items 1 w1.opened) (content w1.buf)
                    (encode_all encode args) o refl)
              ∙ ap (λ (r : Result MpWriter). r >>= finalize_rounds 0 m) e3,
          v,
          bytes,
          none_open,
        )

    -- Where nothing is open, the buffer can grow and the message fits into the room of `IsReady`, and
    -- `<<` of each argument writes one item, `call` succeeds and puts one frame behind what the buffer
    -- held: the header of a call with its id, the map with the function's name and the array of all the
    -- arguments, whose length is their number; nothing is left open. Name, arguments and message are
    -- shorter than 2 ^ 32.
    pub call-Framed :
        (room : ℕ) (fn_name : Bytes) (args : List A) (id : ℕ) (w : MpWriter)
        → IsReady room w
        → length fn_name < u32_mod
        → length args < u32_mod
        → AllFit Fits args
        → 5
            + length (
                request_body RequestType.call
                  (body_field_code BodyField.function_name)
                  fn_name
                  args
                  id)
          ≤ room
        → room < u32_mod
        → Framed m w
            (request_body RequestType.call
              (body_field_code BodyField.function_name)
              fn_name
              args
              id)
            (call m put_one fn_name args id w)
    unfolding call begin_call
    call-Framed room =
        request-Framed room RequestType.call (body_field_code BodyField.function_name)

    -- Under the conditions of `call`, `eval` succeeds and puts one frame behind what the buffer held:
    -- the header of an eval with its id, the map with the script and the array of all the arguments;
    -- nothing is left open.
    pub eval-Framed :
        (room : ℕ) (script : Bytes) (args : List A) (id : ℕ) (w : MpWriter)
        → IsReady room w
        → length script < u32_mod
        → length args < u32_mod
        → AllFit Fits args
        → 5
            + length (
                request_body RequestType.eval (body_field_code BodyField.expression) script args id)
          ≤ room
        → room < u32_mod
        → Framed m w
            (request_body RequestType.eval (body_field_code BodyField.expression) script args id)
            (eval m put_one script args id w)
    unfolding eval begin_eval
    eval-Framed room = request-Framed room RequestType.eval (body_field_code BodyField.expression)

-- ===== src/Tests/Requests.antt =====
-- Requests at concrete inputs.
use cpp2tnt.Prelude.{◌≡◌, refl, inl, [], ◌∷◌, Bytes, arith}
use cpp2tnt.MpWriter.{MpWriter, put_uint}
use cpp2tnt.MpWriter.Items.{put_uint-Writes}
use cpp2tnt.IprotoWriter.{encode_ping_request, call, eval}
use cpp2tnt.IprotoWriter.Message.{Framed}
use cpp2tnt.IprotoWriter.Requests.{IsReady, ping_body, encode_ping_request-Framed}
use cpp2tnt.IprotoWriter.Call.{call-Framed, eval-Framed}
use cpp2tnt.Tests.Format.{format}
use cpp2tnt.Tests.Format.Laws.{format-Uint32Laws, format-ArrayLaws}
use cpp2tnt.Tests.Writing.{holding}

-- Two bytes are there already.
abbrev writer : MpWriter
writer = record { opened = []; buf = holding (7 ∷ 8 ∷ []) }

writer-IsReady : IsReady 1024 writer
writer-IsReady = record {
  valid = record { within = omega arith; managed = refl };
  closed = refl;
  grows = λ e. cc;
  enough = inl (omega arith);
}

encode_ping_request-Framed_example :
    Framed format writer (ping_body format 1) (encode_ping_request format 1 writer)
encode_ping_request-Framed_example =
    encode_ping_request-Framed format format-Uint32Laws 1024 1 writer writer-IsReady (omega arith)
      (omega arith)

-- A ping is sixteen bytes on the wire: see its body.
ping_body_run : ping_body format 1 ≡ 0x82 ∷ 0 ∷ 0x40 ∷ 1 ∷ 1 ∷ 0x80 ∷ []
ping_body_run = refl

abbrev call_body : Bytes
call_body = 0x82 ∷ 0 ∷ 0x0a ∷ 1 ∷ 2 ∷ 0x82 ∷ 0x22 ∷ 0xa1 ∷ 102 ∷ 0x21 ∷ 0x92 ∷ 5 ∷ 6 ∷ []

call-Framed_example :
    Framed format writer call_body (call format (put_uint format) (102 ∷ []) (5 ∷ 6 ∷ []) 2 writer)
call-Framed_example =
    call-Framed format format-Uint32Laws format-ArrayLaws 0 (λ n. Unit) format.encode_uint
      (put_uint format) (put_uint-Writes format) (omega arith) 1024 (102 ∷ []) (5 ∷ 6 ∷ []) 2 writer
      writer-IsReady (omega arith) (omega arith) (tt, (tt, tt)) (omega arith) (omega arith)

abbrev eval_body : Bytes
eval_body = 0x82 ∷ 0 ∷ 0x08 ∷ 1 ∷ 2 ∷ 0x82 ∷ 0x27 ∷ 0xa1 ∷ 120 ∷ 0x21 ∷ 0x91 ∷ 5 ∷ []

eval-Framed_example :
    Framed format writer eval_body (eval format (put_uint format) (120 ∷ []) (5 ∷ []) 2 writer)
eval-Framed_example =
    eval-Framed format format-Uint32Laws format-ArrayLaws 0 (λ n. Unit) format.encode_uint
      (put_uint format) (put_uint-Writes format) (omega arith) 1024 (120 ∷ []) (5 ∷ []) 2 writer
      writer-IsReady (omega arith) (omega arith) (tt, tt) (omega arith) (omega arith)

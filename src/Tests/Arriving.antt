-- ===== src/Tests/Arriving.antt =====
-- `read` at concrete inputs.
use cpp2tnt.Prelude.{
  ◌≡◌, refl, Bool, true, false, inl, some, [], ◌∷◌, ◌++◌, Bytes, replicate, arith,
}
use cpp2tnt.Outcome.{ok}
use cpp2tnt.WtfBuffer.{WtfBuffer, owned, content}
use cpp2tnt.Connection.{Connection, response}
use cpp2tnt.Connection.Receive.Framing.{frames, short}
use cpp2tnt.Connection.Receive.Deliver.{IsReceiving}
use cpp2tnt.Connection.Read.{recv_loop, drained, with_receive, read}
use cpp2tnt.Connection.Read.Stream.{
  Pieces, arriving, IsRoomy, Arrives, recv_loop-appends, read-delivers,
}
use cpp2tnt.Tests.Format.{format}
use cpp2tnt.Tests.Format.Laws.{format-Uint32Laws}
use cpp2tnt.Tests.Sending.{connection, busy_sender, empty_buffer}

abbrev roomy : WtfBuffer
roomy = record { target = owned 2048; store = replicate 2048 0; used = 0 }

abbrev returns : Bytes → Bool
returns bytes = true

abbrev idle : Connection
idle = record (connection busy_sender) {
  rx = record {
    input = empty_buffer;
    receive = roomy;
    caller_idle = true;
    last_received_head_offset = 0;
    detected_response_size = 0;
  };
  handlers = record {
    has_error = true;
    has_watcher = true;
    on_response = some returns;
    on_opened = some true;
    on_closed = some true;
  };
}

-- A message of two bytes and the first byte of another one, in two pieces.
abbrev pieces : Pieces
pieces = (0xce, 0 ∷ 0 ∷ []) ∷ (0, 2 ∷ 7 ∷ 8 ∷ 0xce ∷ []) ∷ []

roomy-IsRoomy : IsRoomy roomy
roomy-IsRoomy = record {
  valid = record { within = omega arith; managed = refl };
  is_owned = tt;
  large = omega arith;
}

recv_loop-appends_example :
    (b' : WtfBuffer) × (recv_loop (arriving pieces) idle ≡ ok (drained (with_receive idle b')))
    × IsRoomy b'
    × (content b' ≡ 0xce ∷ 0 ∷ 0 ∷ 0 ∷ 2 ∷ 7 ∷ 8 ∷ 0xce ∷ [])
recv_loop-appends_example =
    recv_loop-appends pieces idle roomy-IsRoomy (omega arith, (omega arith, tt))

idle-Arrives : Arrives format format-Uint32Laws ok idle pieces ((7 ∷ 8 ∷ []) ∷ []) (0xce ∷ []) 0
idle-Arrives = record {
  receiving = record {
    input_valid = record { within = omega arith; managed = refl };
    receive_valid = roomy-IsRoomy.valid;
    input_owned = tt;
    receive_owned = tt;
    head_in = omega arith;
  };
  large = omega arith;
  short = (omega arith, (omega arith, tt));
  none_found = refl;
  bytes = refl;
  small = (omega arith, tt);
  partial = short (omega arith);
  expects = inl refl;
  nonempty = λ e. cc;
}

read-delivers_example :
    (c' : Connection) × (read format ok (arriving pieces) [] 9 idle ≡ ok c')
    × IsReceiving c'.rx
    × (c'.events ≡ idle.events ++ response (frames format ((7 ∷ 8 ∷ []) ∷ []) []) ∷ [])
    × (content c'.rx.receive ≡ 0xce ∷ [])
    × (c'.rx.caller_idle ≡ false)
read-delivers_example =
    read-delivers format format-Uint32Laws ok idle 5 pieces [] 9 returns ((7 ∷ 8 ∷ []) ∷ [])
      (0xce ∷ []) 0 refl refl refl refl refl idle-Arrives

-- ===== src/Tests/Receiving.antt =====
-- The receiving side of a connection at concrete inputs.
use cpp2tnt.Prelude.{◌≡◌, refl, Bool, true, false, inl, [], ◌∷◌, Bytes, some, none, arith}
use cpp2tnt.Outcome.{ok}
use cpp2tnt.WtfBuffer.{owned, content}
use cpp2tnt.Connection.{Connection, Receiver, response}
use cpp2tnt.Connection.Receive.{process_receive_buffer}
use cpp2tnt.Connection.Receive.Framing.{headed}
use cpp2tnt.Connection.Receive.Deliver.{IsReceiving, Holds, noted, process-delivers, process-waits}
use cpp2tnt.Tests.Format.{format}
use cpp2tnt.Tests.Format.Laws.{format-Uint32Laws}
use cpp2tnt.Tests.Sending.{connection, busy_sender}

-- A message of two bytes, then the first six bytes of a message of three.
abbrev two_messages : Bytes
two_messages = 0xce ∷ 0 ∷ 0 ∷ 0 ∷ 2 ∷ 7 ∷ 8 ∷ 0xce ∷ 0 ∷ 0 ∷ 0 ∷ 3 ∷ 9 ∷ []

abbrev receiver : Bool → Receiver
receiver idle = record {
  input = record { target = owned 0; store = []; used = 0 };
  receive = record { target = owned 13; store = two_messages; used = 13 };
  caller_idle = idle;
  last_received_head_offset = 0;
  detected_response_size = 0;
}

receiver-IsReceiving : (idle : Bool) → IsReceiving (receiver idle)
receiver-IsReceiving idle = record {
  input_valid = record { within = omega arith; managed = refl };
  receive_valid = record { within = omega arith; managed = refl };
  input_owned = tt;
  receive_owned = tt;
  head_in = omega arith;
}

receiver-Holds :
    (idle : Bool)
    → Holds format (receiver idle) [] ((7 ∷ 8 ∷ []) ∷ []) (0xce ∷ 0 ∷ 0 ∷ 0 ∷ 3 ∷ 9 ∷ []) 8
receiver-Holds idle = record {
  bytes = refl;
  found = refl;
  small = (omega arith, tt);
  partial = headed 3 (9 ∷ []) (omega arith) refl (omega arith) refl;
  expects = inl refl;
}

abbrev returns : Bytes → Bool
returns bytes = true

abbrev waiting : Bool → Connection
waiting idle = record (connection busy_sender) {
  rx = receiver idle;
  handlers = record {
    has_error = true;
    has_watcher = true;
    on_response = some returns;
    on_opened = none;
    on_closed = none;
  };
}

process-delivers_example :
    (c' : Connection) × (process_receive_buffer format ok (waiting true) ≡ ok c')
    × IsReceiving c'.rx
    × (c'.events ≡ response (0xce ∷ 0 ∷ 0 ∷ 0 ∷ 2 ∷ 7 ∷ 8 ∷ []) ∷ [])
    × (content c'.rx.receive ≡ 0xce ∷ 0 ∷ 0 ∷ 0 ∷ 3 ∷ 9 ∷ [])
    × (c'.rx.last_received_head_offset ≡ 0)
    × (c'.rx.detected_response_size ≡ 8)
    × (c'.rx.caller_idle ≡ false)
process-delivers_example =
    process-delivers format format-Uint32Laws ok (waiting true) returns ((7 ∷ 8 ∷ []) ∷ [])
      (0xce ∷ 0 ∷ 0 ∷ 0 ∷ 3 ∷ 9 ∷ []) 8 (receiver-IsReceiving true) (receiver-Holds true) (λ e. cc)
      refl refl refl refl

process-waits_example :
    process_receive_buffer format ok (waiting false) ≡ ok (noted (waiting false) 7 8)
process-waits_example =
    process-waits format format-Uint32Laws ok (waiting false) [] ((7 ∷ 8 ∷ []) ∷ [])
      (0xce ∷ 0 ∷ 0 ∷ 0 ∷ 3 ∷ 9 ∷ []) 8 (receiver-IsReceiving false) (receiver-Holds false) refl
      refl

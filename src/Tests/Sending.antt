-- ===== src/Tests/Sending.antt =====
-- The sending side of a connection at concrete inputs.
use cpp2tnt.Prelude.{◌≡◌, refl, true, false, inr, [], ◌∷◌, some, none, arith}
use cpp2tnt.Outcome.{ok, undefined}
use cpp2tnt.WtfBuffer.{WtfBuffer, owned}
use cpp2tnt.CsParser.{no_parts}
use cpp2tnt.Connection.{Connection, Sender, connected, unwatched}
use cpp2tnt.Connection.Send.{taken, again, interrupted, write}
use cpp2tnt.Connection.Send.Stream.{IsSending}
use cpp2tnt.Connection.Send.Write.{Written, write-Written, write-undefined}

abbrev pub empty_buffer : WtfBuffer
empty_buffer = record { target = owned 0; store = []; used = 0 }

-- One unsent byte, then two uncorked bytes and one corked byte.
abbrev pub busy_sender : Sender
busy_sender = record {
  output = record { target = owned 4; store = 3 ∷ 4 ∷ 5 ∷ 0 ∷ []; used = 3 };
  send = record { target = owned 2; store = 1 ∷ 2 ∷ []; used = 2 };
  next_to_send = 1;
  uncorked_size = 2;
  wire = 1 ∷ [];
}

busy_sender-IsSending : IsSending busy_sender
busy_sender-IsSending = record {
  output_valid = record { within = omega arith; managed = refl };
  send_valid = record { within = omega arith; managed = refl };
  sent_in = omega arith;
  uncorked_in = omega arith;
}

abbrev pub connection : Sender → Connection
connection t = record {
  socket = some 5;
  greeting = [];
  server_proto = record { version = 0; auth = []; features = [] };
  autoreconnect_ticks = none;
  autoreconnect_timeout = 10;
  idle_ticks = 0;
  tx = t;
  rx = record {
    input = empty_buffer;
    receive = empty_buffer;
    caller_idle = true;
    last_received_head_offset = 0;
    detected_response_size = 0;
  };
  request_id = 0;
  is_corked = false;
  last_write_time = 0;
  prev_watch_mode = unwatched;
  state = connected;
  setup = record {
    current_cs = [];
    cs_parts = no_parts;
    required_proto = record { version = 0; auth = []; features = [] };
    resolver_joinable = false;
    notifications = [];
    has_notify = true;
    has_idle = false;
    idle_timeout = 0;
  };
  handlers = record {
    has_error = true;
    has_watcher = true;
    on_response = none;
    on_opened = none;
    on_closed = none;
  };
  events = [];
}

abbrev busy : Connection
busy = connection busy_sender

write-Written_example :
    (c' : Connection) × (write true (taken 0 ∷ interrupted ∷ taken 0 ∷ again ∷ []) 9 busy ≡ ok c')
    × Written busy c'
write-Written_example =
    write-Written true (taken 0 ∷ interrupted ∷ taken 0 ∷ again ∷ []) 9 busy refl
      busy_sender-IsSending (inr (omega arith, omega arith)) tt

-- The same with a longer corked tail: four bytes for a storage of two.
abbrev overfull_sender : Sender
overfull_sender = record busy_sender {
  output = record { target = owned 6; store = 3 ∷ 4 ∷ 5 ∷ 6 ∷ 7 ∷ 8 ∷ []; used = 6 };
}

overfull_sender-IsSending : IsSending overfull_sender
overfull_sender-IsSending = record {
  output_valid = record { within = omega arith; managed = refl };
  send_valid = record { within = omega arith; managed = refl };
  sent_in = omega arith;
  uncorked_in = omega arith;
}

write-undefined_example : write true (taken 0 ∷ []) 9 (connection overfull_sender) ≡ undefined
write-undefined_example =
    write-undefined true [] 0 9 (connection overfull_sender) refl overfull_sender-IsSending refl
      (omega arith) (omega arith)

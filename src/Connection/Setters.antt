-- ===== src/Connection/Setters.antt =====
-- connection.cpp: the constructor, the handlers, and what the application can ask for.
use cpp2tnt.Prelude.{
  ℕ, suc, ◌*◌, ◌+◌, ◌-◌, ◌%◌, Bool, true, false, Option, none, [], ◌∷◌, Bytes, u64_mod,
}
use cpp2tnt.WtfBuffer.{WtfBuffer}
use cpp2tnt.WtfBuffer
use cpp2tnt.CsParser.{no_parts}
use cpp2tnt.Iproto
use cpp2tnt.Connection.{Connection, unwatched, disconnected, connected}
use cpp2tnt.Connection.Close.{State-eq}
use cpp2tnt.Connection.Open.{general_timeout}

-- A wtf_buffer as it is made without an argument.
abbrev default_buffer : WtfBuffer
default_buffer = WtfBuffer.create (1024 * 1024)

-- connection::connection. There is no handler yet. `_idle_ticks_counter` is -1 here, and 0 from the first
-- `read` on, before which nothing counts it.
unfoldable pub create : Bytes → Connection
unfolding Iproto.empty Iproto.create WtfBuffer.create
create cs = record {
  socket = none;
  greeting = [];
  server_proto = Iproto.empty;
  autoreconnect_ticks = none;
  autoreconnect_timeout = general_timeout;
  idle_ticks = 0;
  tx = record {
    output = default_buffer;
    send = default_buffer;
    next_to_send = 0;
    uncorked_size = 0;
    wire = [];
  };
  rx = record {
    input = default_buffer;
    receive = default_buffer;
    caller_idle = true;
    last_received_head_offset = 0;
    detected_response_size = 0;
  };
  request_id = 0;
  is_corked = false;
  last_write_time = 0;
  prev_watch_mode = unwatched;
  state = disconnected;
  setup = record {
    current_cs = cs;
    cs_parts = no_parts;
    required_proto =
        Iproto.create (2 ∷ []) 0
          (b'c' ∷ b'h' ∷ b'a' ∷ b'p' ∷ b'-' ∷ b's' ∷ b'h' ∷ b'a' ∷ b'1' ∷ []);
    resolver_joinable = false;
    notifications = [];
    has_notify = false;
    has_idle = false;
    idle_timeout = 0;
  };
  handlers = record {
    has_error = false;
    has_watcher = false;
    on_response = none;
    on_opened = none;
    on_closed = none;
  };
  events = [];
}

-- A call of the application that sets a handler: whether there is one, and what it does when it is called.
pub data Setting : Type 0 where
  on_opened on_closed : Option Bool → Setting
  on_idle : ℕ → Bool → Setting
  on_error on_socket_watcher_request on_notify_request : Bool → Setting
  on_response : Option (Bytes → Bool) → Setting

-- connection::on_opened and the other calls that set a handler
unfoldable pub set_handler : Setting → Connection → Connection
set_handler (on_opened h) c = record c { handlers = record c.handlers { on_opened = h } }
set_handler (on_closed h) c = record c { handlers = record c.handlers { on_closed = h } }
set_handler (on_idle timeout has) c = record c {
  setup = record c.setup { has_idle = has; idle_timeout = timeout };
}
set_handler (on_error has) c = record c { handlers = record c.handlers { has_error = has } }
set_handler (on_socket_watcher_request has) c = record c {
  handlers = record c.handlers { has_watcher = has };
}
set_handler (on_notify_request has) c = record c { setup = record c.setup { has_notify = has } }
set_handler (on_response h) c = record c { handlers = record c.handlers { on_response = h } }

-- connection::last_request_id
unfoldable pub last_request_id : Connection → ℕ
last_request_id c = (c.request_id + (u64_mod - 1)) % u64_mod

-- connection::next_request_id: the identifier, and the connection behind the call.
unfoldable pub next_request_id : Connection → ℕ × Connection
next_request_id c = (c.request_id, record c { request_id = suc c.request_id % u64_mod })

-- connection::is_opened
unfoldable pub is_opened : Connection → Bool
is_opened c = State-eq c.state connected

-- connection::is_closed
unfoldable pub is_closed : Connection → Bool
is_closed c = State-eq c.state disconnected

-- ===== src/Connection/Close.antt =====
-- connection.cpp: reports to the application, and `close`.
pub mod Kept
pub mod Paced
pub mod Destroy
use cpp2tnt.Prelude.{
  ℕ, Bool, true, false, ◌&&◌, not, Option, none, some, [], ◌∷◌, ◌++◌, ltb, if◌then◌else◌,
}
use cpp2tnt.WtfBuffer.{WtfBuffer, clear, resize}
use cpp2tnt.Outcome.{Result, ok, thrown, undefined, ◌>>=◌}
use cpp2tnt.Iproto.{empty}
use cpp2tnt.Connection.{
  external, Connection, Sender, Event, ErrorKind, SocketState, State, watch, error, closed,
  socket_closed, unwatched, disconnected, connecting,
}

abbrev pub emit : Event → Connection → Connection
emit e c = record c { events = c.events ++ e ∷ [] }

-- What the handler throws is dropped.
unfoldable pub handle_error : ErrorKind → Connection → Connection
handle_error kind c = if c.handlers.has_error then emit (error kind) c else c

unfoldable pub watch_socket : SocketState → Connection → Connection
watch_socket mode c =
    let c' = record c { prev_watch_mode = mode } in
    if c.handlers.has_watcher then emit (watch mode) c' else c'

abbrev pub State-eq : State → State → Bool
State-eq disconnected disconnected = true
State-eq State.address_resolving State.address_resolving = true
State-eq connecting connecting = true
State-eq State.features_request State.features_request = true
State-eq State.authentication State.authentication = true
State-eq State.connected State.connected = true
State-eq _ _ = false

-- The sending buffers and counters as `close` leaves them.
abbrev pub clear_sender : Sender → Sender
clear_sender t = record t {
  output = clear t.output;
  send = clear t.send;
  next_to_send = 0;
  uncorked_size = 0;
}

-- The call of the disconnection handler, if one is installed.
notify_closed : Option Bool → Connection → Connection
unfolding handle_error
notify_closed none c = c
notify_closed (some true) c = emit closed c
notify_closed (some false) c = handle_error external (emit closed c)

-- The partial response is cut off; the whole ones before it stay.
cut_partial : Connection → Result WtfBuffer → Result Connection
cut_partial c (ok b) =
    ok (record c { rx = record c.rx { receive = b; detected_response_size = 0 } })
cut_partial c (thrown e b) = thrown e c
cut_partial c undefined = undefined

-- The part of `close` that is run for an open socket.
close_socket : State → Bool → ℕ → Connection → Result Connection
unfolding cut_partial notify_closed watch_socket
close_socket prev call_handler fd c = do
  let c' = emit (socket_closed fd) (watch_socket unwatched c)
  let c'' = record c' { socket = none; tx = clear_sender c'.tx }
  c''' ← cut_partial c'' (resize c''.rx.receive c''.rx.last_received_head_offset)
  ok (
      if not (State-eq prev connecting) && call_handler
      then notify_closed c'''.handlers.on_closed c'''
      else c''')

-- The fields that `close` sets whether a socket is open or not.
abbrev pub closing : ℕ → Connection → Connection
closing delay c = record c {
  greeting = [];
  server_proto = empty;
  state = disconnected;
  request_id = 0;
  idle_ticks = 0;
  autoreconnect_ticks = if ltb 0 delay then some 0 else none;
  autoreconnect_timeout = if ltb 0 delay then delay else c.autoreconnect_timeout;
}

close_by : Option ℕ → State → Bool → Connection → Result Connection
unfolding close_socket
close_by none prev call_handler c = ok c
close_by (some fd) prev call_handler c = close_socket prev call_handler fd c

-- connection::close
unfoldable pub close : Bool → ℕ → Connection → Result Connection
unfolding close_by empty
close call_handler delay c = close_by c.socket c.state call_handler (closing delay c)

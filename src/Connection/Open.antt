-- ===== src/Connection/Open.antt =====
-- connection.cpp: `open`, what it does with the addresses that were found, and the notification queue.
pub mod Kept
use cpp2tnt.Prelude.{
  ℕ, Bool, true, false, not, ◌&&◌, Option, none, some, List, [], ◌∷◌, ◌++◌, Bytes, length, ltb, leb,
  ◌==◌, if◌then◌else◌,
}
use cpp2tnt.Outcome.{Result, ok, thrown, undefined, ◌>>=◌, guard, connection_busy}
use cpp2tnt.CsParser.{CsParts, Parsed, found, stuck, unfinished, parse_cs}
use cpp2tnt.Iproto.{ProtoId}
use cpp2tnt.Connection.{
  Connection, Setup, Attempt, no_socket, attempt, ConnectAnswer, established, pending, refused,
  Notification, resolved, not_resolved, handler, invalid_parameter, bad_call_sequence,
  getaddr_in_progress, system, getaddr, read, write, notify_request, called, socket_closed,
  disconnected, address_resolving, connecting, connected,
}
use cpp2tnt.Connection.Close.{emit, handle_error, watch_socket, close, State-eq}

-- What `open` takes from outside: the environment, how many of its variables may lead to one another, and
-- the answers for a Unix socket.
pub record World : Type 0 where
  pub getenv : Bytes → Option Bytes
  pub depth : ℕ
  pub unix : Attempt

-- GENERAL_TIMEOUT
abbrev pub general_timeout : ℕ
general_timeout = 10

-- sizeof(sockaddr_un::sun_path)
abbrev pub path_size : ℕ
path_size = 108

abbrev pub reconnect_in : ℕ → Connection → Connection
reconnect_in n c = record c { autoreconnect_ticks = some n }

-- `_socket = std::move(s)`, which closes the descriptor that it had.
replace_socket : Option ℕ → ℕ → Connection → Connection
replace_socket none fd c = record c { socket = some fd }
replace_socket (some old) fd c = emit (socket_closed old) (record c { socket = some fd })

pub take_socket : ℕ → Connection → Connection
unfolding replace_socket
take_socket fd c = replace_socket c.socket fd c

-- The end of a socket that could not be connected, whose descriptor goes with its object.
give_up : ℕ → Connection → Result Connection
give_up fd c =
    close false 0 (handle_error system c) >>= λ c'. ok (emit (socket_closed fd) (reconnect_in 0 c'))

-- What follows `connect`, by its answer.
pub after_connect : ℕ → ConnectAnswer → Connection → Result Connection
unfolding take_socket watch_socket give_up
after_connect fd established c = ok (watch_socket read (take_socket fd c))
after_connect fd pending c = ok (reconnect_in 0 (watch_socket write (take_socket fd c)))
after_connect fd refused c = give_up fd c

-- The loop of `address_resolved`: the next address is tried only where there was no socket.
pub try_addresses : List Attempt → Connection → Result Connection
unfolding after_connect handle_error
try_addresses [] c = ok (reconnect_in 0 (record c { state = disconnected }))
try_addresses (no_socket ∷ more) c = try_addresses more (handle_error system c)
try_addresses (attempt fd answer ∷ more) c =
    after_connect fd answer (record c { state = connecting })

-- connection::address_resolved
unfoldable pub address_resolved : List Attempt → Connection → Result Connection
unfolding try_addresses
address_resolved addresses c =
    if State-eq c.state address_resolving then try_addresses addresses c else ok c

-- `open` for a Unix socket. The path is copied into `sun_path` as long as it is.
pub open_unix : Attempt → Connection → Result Connection
unfolding after_connect handle_error
open_unix no_socket c = ok (handle_error system c)
open_unix (attempt fd answer) c =
    guard (leb (length c.setup.cs_parts.unix_socket_path) path_size)
      (after_connect fd answer (record c { state = connecting }))

-- `open`, by the parts of the connection string. The resolver begins to run.
pub open_parts : World → Parsed → Connection → Result Connection
unfolding open_unix handle_error
open_parts w (found parts) c =
    let c' = record c { setup = record c.setup { cs_parts = parts } } in
    let resolving = record c' {
      state = address_resolving;
      setup = record c'.setup { resolver_joinable = true };
    } in
    if ltb 0 (length parts.host)
    then ok resolving
    else if ltb 0 (length parts.unix_socket_path)
    then open_unix w.unix c'
    else ok (handle_error invalid_parameter c')
open_parts w stuck c = undefined
open_parts w unfinished c = undefined

-- connection::open (`open` is a reserved word)
unfoldable pub open_connection : World → ℕ → Connection → Result Connection
unfolding open_parts handle_error
open_connection w delay c =
    if State-eq c.state connected
    then ok c
    else if not (State-eq c.state disconnected)
    then ok (handle_error bad_call_sequence c)
    else if ltb 0 delay
    then ok (record c { autoreconnect_ticks = some 0; autoreconnect_timeout = delay })
    else if c.setup.resolver_joinable
    then ok (handle_error getaddr_in_progress c)
    else open_parts w (parse_cs w.depth w.getenv c.setup.current_cs)
        (record c { autoreconnect_timeout = general_timeout; autoreconnect_ticks = none })

-- connection::push_handler, which the thread of the resolver also does at its end.
unfoldable pub push_handler : Notification → Connection → Connection
push_handler n c =
    let c' = record c {
      setup = record c.setup { notifications = c.setup.notifications ++ n ∷ [] };
    } in
    if c.setup.has_notify then emit notify_request c' else c'

abbrev pub joined : Connection → Connection
joined c = record c { setup = record c.setup { resolver_joinable = false } }

-- The call of a handler in the queue.
pub run_handler : Notification → Connection → Result Connection
unfolding address_resolved handle_error
run_handler (resolved addresses) c = address_resolved addresses (joined c)
run_handler not_resolved c =
    ok (reconnect_in 0 (handle_error getaddr (record (joined c) { state = disconnected })))
run_handler (handler n) c = ok (emit (called n) c)

pub run_handlers : List Notification → Connection → Result Connection
unfolding run_handler
run_handlers [] c = ok c
run_handlers (n ∷ ns) c = run_handler n c >>= run_handlers ns

-- connection::acquire_notifications
unfoldable pub acquire_notifications : Connection → Result Connection
unfolding run_handlers
acquire_notifications c =
    run_handlers c.setup.notifications (record c { setup = record c.setup { notifications = [] } })

-- connection::set_connection_string
unfoldable pub set_connection_string : Bytes → Connection → Result Connection
set_connection_string cs c =
    if State-eq c.state disconnected
    then ok (record c { setup = record c.setup { current_cs = cs } })
    else thrown connection_busy c

-- connection::set_required_proto
unfoldable pub set_required_proto : ProtoId → Connection → Connection
set_required_proto proto c = record c { setup = record c.setup { required_proto = proto } }

-- ===== src/Connection/Close/Kept.antt =====
-- connection.cpp: what `close` and the reports to the application leave of the state.
use cpp2tnt.Prelude.{
  ℕ, Bool, true, false, not, ◌&&◌, ◌≡◌, refl, ◌∙◌, Option, none, some, if◌then◌else◌,
}
use cpp2tnt.Outcome.{Result, ok, thrown, undefined, OnOk, OnOk-bind}
use cpp2tnt.WtfBuffer.{WtfBuffer, resize}
use cpp2tnt.Connection.{
  Connection, ErrorKind, SocketState, State, external, closed, error, watch, socket_closed,
  unwatched, disconnected, connecting,
}
use cpp2tnt.Connection.Phase.{Same, Closed, Same-if, Closed-Same}
use cpp2tnt.Connection.Close.{
  emit, handle_error, watch_socket, close, close_by, closing, close_socket, cut_partial,
  notify_closed, clear_sender, State-eq,
}

pub handle_error-Same : (kind : ErrorKind) (c : Connection) → Same c (handle_error kind c)
unfolding handle_error
handle_error-Same kind c =
    Same-if c.handlers.has_error c (emit (error kind) c) c (refl, refl, refl) (refl, refl, refl)

pub watch_socket-Same : (mode : SocketState) (c : Connection) → Same c (watch_socket mode c)
unfolding watch_socket
watch_socket-Same mode c =
    let c' = record c { prev_watch_mode = mode } in
    Same-if c.handlers.has_watcher c (emit (watch mode) c') c' (refl, refl, refl) (refl, refl, refl)

notify_closed-Same : (h : Option Bool) (c : Connection) → Same c (notify_closed h c)
unfolding notify_closed
notify_closed-Same none c = (refl, refl, refl)
notify_closed-Same (some true) c = (refl, refl, refl)
notify_closed-Same (some false) c = handle_error-Same external (emit closed c)

cut_partial-Same : (c : Connection) (r : Result WtfBuffer) → OnOk (Same c) (cut_partial c r)
unfolding cut_partial
cut_partial-Same c (ok b) = (refl, refl, refl)
cut_partial-Same c (thrown e b) = tt
cut_partial-Same c undefined = tt

close_socket-Closed :
    (prev : State) (call : Bool) (fd : ℕ) (c : Connection)
    → c.state ≡ disconnected
    → OnOk (Closed c) (close_socket prev call fd c)
unfolding close_socket
close_socket-Closed prev call fd c down =
    let c' = emit (socket_closed fd) (watch_socket unwatched c) in
    let c'' = record c' { socket = none; tx = clear_sender c'.tx } in
    let (state, socket, setup) = watch_socket-Same unwatched c in
    let told = not (State-eq prev connecting) && call in
    OnOk-bind (Same c'') (Closed c)
      (cut_partial c'' (resize c''.rx.receive c''.rx.last_received_head_offset))
      (λ c'''. ok (if told then notify_closed c'''.handlers.on_closed c''' else c'''))
      (cut_partial-Same c'' (resize c''.rx.receive c''.rx.last_received_head_offset))
      (λ c''' same.
        Closed-Same c c''' (if told then notify_closed c'''.handlers.on_closed c''' else c''')
          (Closed-Same c c'' c''' (state ∙ down, refl, setup) same)
          (Same-if told c''' (notify_closed c'''.handlers.on_closed c''') c'''
            (notify_closed-Same c'''.handlers.on_closed c''') (refl, refl, refl)))

close_by-Closed :
    (s : Option ℕ) (prev : State) (call : Bool) (c : Connection)
    → c.socket ≡ s
    → c.state ≡ disconnected
    → OnOk (Closed c) (close_by s prev call c)
unfolding close_by
close_by-Closed none prev call c e down = (down, e, refl)
close_by-Closed (some fd) prev call c e down = close_socket-Closed prev call fd c down

-- After `close` there is no socket, and the state is `disconnected`.
pub close-Closed : (call : Bool) (delay : ℕ) (c : Connection) → OnOk (Closed c) (close call delay c)
unfolding close
close-Closed call delay c = close_by-Closed c.socket c.state call (closing delay c) refl refl

-- ===== src/Connection/Close/Paced.antt =====
-- connection.cpp: `close` leaves the time between two attempts as it is, where it is called with no delay.
use cpp2tnt.Prelude.{
  ℕ, ◌≡◌, refl, ◌∙◌, Bool, true, false, not, ◌&&◌, Option, none, some, if◌then◌else◌,
}
use cpp2tnt.Outcome.{Result, ok, thrown, undefined, OnOk, OnOk-bind}
use cpp2tnt.WtfBuffer.{WtfBuffer, resize}
use cpp2tnt.Connection.{
  Connection, State, ErrorKind, external, closed, unwatched, socket_closed, SocketState, connecting,
}
use cpp2tnt.Connection.Close.{
  emit, handle_error, watch_socket, close, close_by, closing, close_socket, cut_partial,
  notify_closed, clear_sender, State-eq,
}

-- The time between two attempts is the same.
abbrev pub Paced : Connection → Connection → Type 0
Paced c c' = c'.autoreconnect_timeout ≡ c.autoreconnect_timeout

Paced-if : (b : Bool) (c x y : Connection) → Paced c x → Paced c y → Paced c (if b then x else y)
Paced-if true c x y h h' = h
Paced-if false c x y h h' = h'

pub handle_error-Paced : (kind : ErrorKind) (c : Connection) → Paced c (handle_error kind c)
unfolding handle_error
handle_error-Paced kind c = Paced-if c.handlers.has_error c _ c refl refl

watch_socket-Paced : (mode : SocketState) (c : Connection) → Paced c (watch_socket mode c)
unfolding watch_socket
watch_socket-Paced mode c = Paced-if c.handlers.has_watcher c _ _ refl refl

notify_closed-Paced : (h : Option Bool) (c : Connection) → Paced c (notify_closed h c)
unfolding notify_closed
notify_closed-Paced none c = refl
notify_closed-Paced (some true) c = refl
notify_closed-Paced (some false) c = handle_error-Paced external (emit closed c)

cut_partial-Paced : (c : Connection) (r : Result WtfBuffer) → OnOk (Paced c) (cut_partial c r)
unfolding cut_partial
cut_partial-Paced c (ok b) = refl
cut_partial-Paced c (thrown e b) = tt
cut_partial-Paced c undefined = tt

close_socket-Paced :
    (prev : State) (call : Bool) (fd : ℕ) (c : Connection)
    → OnOk (Paced c) (close_socket prev call fd c)
unfolding close_socket
close_socket-Paced prev call fd c =
    let c' = emit (socket_closed fd) (watch_socket unwatched c) in
    let c'' = record c' { socket = none; tx = clear_sender c'.tx } in
    let told = not (State-eq prev connecting) && call in
    OnOk-bind (Paced c'') (Paced c)
      (cut_partial c'' (resize c''.rx.receive c''.rx.last_received_head_offset))
      (λ c'''. ok (if told then notify_closed c'''.handlers.on_closed c''' else c'''))
      (cut_partial-Paced c'' (resize c''.rx.receive c''.rx.last_received_head_offset))
      (λ c''' same.
        Paced-if told c''' (notify_closed c'''.handlers.on_closed c''') c'''
          (notify_closed-Paced c'''.handlers.on_closed c''') refl
        ∙ same
        ∙ watch_socket-Paced unwatched c)

close_by-Paced :
    (s : Option ℕ) (prev : State) (call : Bool) (c : Connection)
    → OnOk (Paced c) (close_by s prev call c)
unfolding close_by
close_by-Paced none prev call c = refl
close_by-Paced (some fd) prev call c = close_socket-Paced prev call fd c

pub close-Paced : (call : Bool) (c : Connection) → OnOk (Paced c) (close call 0 c)
unfolding close
close-Paced call c = close_by-Paced c.socket c.state call (closing 0 c)

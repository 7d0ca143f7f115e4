-- ===== src/Connection/Send/Kept.antt =====
-- connection.cpp: `write` and `flush` keep the state and the socket, or close the connection.
use cpp2tnt.Prelude.{
  ℕ, ◌-◌, Bool, true, false, ◌&&◌, refl, inl, inr, List, some, ltb, ◌==◌, if◌then◌else◌,
}
use cpp2tnt.Outcome.{
  Result, ok, thrown, undefined, on_part, OnOk, OnOk-bind, OnOk-if, OnOk-guard, OnOk-on_part,
}
use cpp2tnt.Connection.{Connection, ErrorKind, connecting, system, read, read_write}
use cpp2tnt.Connection.Close.{close, handle_error, watch_socket, State-eq}
use cpp2tnt.Connection.Phase.{Same, Closed, Stays, Same-if, Same-trans, Same-Closed}
use cpp2tnt.Connection.Close.Kept.{close-Closed, handle_error-Same, watch_socket-Same}
use cpp2tnt.Connection.Send.{
  SendAnswer, Sending, sending, send_loop, write, write_connecting, finish_write, flush,
  swap_buffers, reconnect_soon,
}

-- An error that closes the connection, and is to be followed by a reconnect.
pub fails-Closed :
    (call : Bool) (kind : ErrorKind) (c : Connection)
    → OnOk (Closed c) (reconnect_soon (close call 0 (handle_error kind c)))
fails-Closed call kind c =
    let c' = handle_error kind c in
    OnOk-bind (Closed c') (Closed c) (close call 0 c')
      (λ c''. ok (record c'' { autoreconnect_ticks = some 0 })) (close-Closed call 0 c')
      (λ c'' h.
        Same-Closed c c' (record c'' { autoreconnect_ticks = some 0 }) (handle_error-Same kind c) h)

OnOk-inr : (c : Connection) (r : Result Connection) → OnOk (Closed c) r → OnOk (Stays c) r
OnOk-inr c (ok c') h = inr h
OnOk-inr c (thrown e c') h = tt
OnOk-inr c undefined h = tt

write_connecting-Stays : (b : Bool) (c : Connection) → OnOk (Stays c) (write_connecting b c)
unfolding write_connecting
write_connecting-Stays true c = inl (watch_socket-Same read c)
write_connecting-Stays false c = OnOk-inr c _ (fails-Closed false system c)

finish_write-Stays :
    (c0 c : Connection) (now : ℕ) (s : Sending) → Same c0 c → OnOk (Stays c0) (finish_write c now s)
unfolding finish_write
finish_write-Stays c0 c now s same =
    let mode = if s.left == 0 then read else read_write in
    let failed = reconnect_soon (close true 0 (handle_error system c')) in
    let done : Result Connection = ok (watch_socket mode c') in
    OnOk-if (Stays c0) s.broken failed done
      (OnOk-inr c0 failed (closed failed (fails-Closed true system c')))
      (inl (Same-trans c0 c (watch_socket mode c') same (watch_socket-Same mode c')))
  where
    c' : Connection
    c' = record c { tx = s.tx; last_write_time = if s.wrote then now else c.last_write_time }

    closed : (r : Result Connection) → OnOk (Closed c') r → OnOk (Closed c0) r
    closed (ok x) h = Same-Closed c0 c x same h
    closed (thrown e x) h = tt
    closed undefined h = tt

-- Where `write` returns it has kept the state and the socket, or the connection is closed.
pub write-Stays :
    (socket_ok : Bool) (answers : List SendAnswer) (now : ℕ) (c : Connection)
    → OnOk (Stays c) (write socket_ok answers now c)
unfolding write
write-Stays socket_ok answers now c =
    let c' = record c { idle_ticks = 0 } in
    let s = sending c'.tx in
    let unsent = s.left == 0 && ltb 0 c'.tx.uncorked_size in
    let reported = if unsent then handle_error system c' else c' in
    let back = λ (s : Sending). record reported { tx = s.tx } in
    let sent = on_part back (send_loop answers s) (finish_write reported now) in
    OnOk-if (Stays c) (State-eq c.state connecting) (write_connecting socket_ok c) _
      (write_connecting-Stays socket_ok c)
      (OnOk-guard (Stays c) _ sent (
        OnOk-on_part (Stays c) back (send_loop answers s) (finish_write reported now) (λ s' e.
          finish_write-Stays c reported now s' (
            Same-if unsent c (handle_error system c') c' (handle_error-Same system c')
              (refl, refl, refl)))))

first-if :
    (P : Connection → Type 0) (b : Bool) (x y : Result Connection × Bool)
    → OnOk P x.0
    → OnOk P y.0
    → OnOk P (if b then x else y).0
first-if P true x y h h' = h
first-if P false x y h h' = h'

pub flush-Stays :
    (socket_ok : Bool) (answers : List SendAnswer) (now : ℕ) (c : Connection)
    → OnOk (Stays c) (flush socket_ok answers now c).0
unfolding flush
flush-Stays socket_ok answers now c =
    let swapped = record c { tx = swap_buffers c.tx } in
    let sent = write socket_ok answers now swapped in
    let kept : Result Connection =
      ok (record c { tx = record c.tx { uncorked_size = c.tx.output.used } }) in
    first-if (Stays c) (c.tx.output.used == 0) (ok c, true) _ (inl (refl, refl, refl))
      (first-if (Stays c) (c.tx.send.used - c.tx.next_to_send == 0) (sent, true) (kept, false)
        (write-Stays socket_ok answers now swapped) (inl (refl, refl, refl)))

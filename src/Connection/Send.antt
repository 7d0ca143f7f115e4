-- ===== src/Connection/Send.antt =====
-- connection.cpp: `write`, `flush` and the corking of the sending side. The answers of `send(2)`
-- are a list, after whose end the socket would block.
pub mod Stream
pub mod Write
pub mod Kept
use cpp2tnt.Prelude.{
  ℕ, suc, ◌+◌, ◌-◌, min, Bool, true, false, ◌&&◌, Option, none, some, List, [], ◌∷◌, ◌++◌, Bytes,
  take, drop, ltb, leb, ◌==◌, if◌then◌else◌,
}
use cpp2tnt.Outcome.{Result, ok, thrown, undefined, ◌>>=◌, guard, on_part}
use cpp2tnt.WtfBuffer.{WtfBuffer, clear, resize, poke, content}
use cpp2tnt.Connection.Close.{handle_error, watch_socket, close, State-eq}
use cpp2tnt.Connection.{Connection, Sender, system, read, read_write, connecting}

-- `taken k`: the kernel takes `k + 1` bytes, or all if there are fewer. The others are the values
-- of `errno`: EAGAIN or EWOULDBLOCK, EINTR, any other.
pub data SendAnswer : Type 0 where
  taken : ℕ → SendAnswer
  again interrupted failed : SendAnswer

-- The variables of the loop in `write`: `left` is `bytes_to_send`, `broken` says that an error ended
-- the loop, and `wrote` that `_last_write_time` was set.
pub record Sending : Type 0 where
  pub tx : Sender
  pub left : ℕ
  pub broken : Bool
  pub wrote : Bool

-- _send_buffer.clear(); std::swap(_send_buffer, _output_buffer); _next_to_send = _send_buffer.data();
-- and `_uncorked_size` is set to 0, as wherever the buffers are swapped.
abbrev pub swap_buffers : Sender → Sender
swap_buffers t = record t {
  send = t.output;
  output = clear t.send;
  next_to_send = 0;
  uncorked_size = 0;
}

-- The corked tail goes back to the output buffer; its room there is not checked.
pub return_tail : ℕ → Sending → Result Sending
return_tail n s =
    let tail = drop n (content s.tx.send) in
    let set_output = λ (b : WtfBuffer). record s { tx = record s.tx { output = b } } in
    on_part set_output (poke s.tx.output 0 tail) λ b.
      on_part set_output (resize b (s.tx.send.used - n)) λ b'.
        on_part (λ (q : WtfBuffer). record s { tx = record s.tx { output = b'; send = q } })
          (resize s.tx.send n) λ q. ok (record s { tx = record s.tx { output = b'; send = q } })

-- The send buffer is done, and the output buffer has data to send.
pub refill : Sending → Result Sending
unfolding return_tail
refill s =
    let n = s.tx.uncorked_size in
    let s' = record s { tx = swap_buffers s.tx; left = n } in
    if ltb n s.tx.output.used then return_tail n s' else ok s'

-- The bytes that the kernel took.
abbrev pub advance : ℕ → Sending → Sending
advance r s = record s {
  tx = record s.tx {
    next_to_send = s.tx.next_to_send + r;
    wire = s.tx.wire ++ take r (drop s.tx.next_to_send (content s.tx.send));
  };
  left = s.left - r;
  wrote = true;
}

pub after_send : ℕ → Sending → Result Sending
unfolding refill
after_send r s =
    let s' = advance r s in if s'.left == 0 && ltb 0 s'.tx.uncorked_size then refill s' else ok s'

-- while (bytes_to_send > 0)
pub send_loop : List SendAnswer → Sending → Result Sending
unfolding after_send
send_loop [] s = ok s
send_loop (taken k ∷ more) s =
    let rest = after_send (min (suc k) s.left) s >>= send_loop more in
    if s.left == 0 then ok s else rest
send_loop (again ∷ more) s = ok s
send_loop (interrupted ∷ more) s = let rest = send_loop more s in if s.left == 0 then ok s else rest
send_loop (failed ∷ more) s = if s.left == 0 then ok s else ok (record s { broken = true })

-- After an error of the socket: report, close, and reconnect soon.
abbrev pub reconnect_soon : Result Connection → Result Connection
reconnect_soon r = r >>= λ c. ok (record c { autoreconnect_ticks = some 0 })

-- The end of `write`, behind the loop.
pub finish_write : Connection → ℕ → Sending → Result Connection
finish_write c now s =
    let c' = record c { tx = s.tx; last_write_time = if s.wrote then now else c.last_write_time } in
    if s.broken
    then reconnect_soon (close true 0 (handle_error system c'))
    else ok (watch_socket (if s.left == 0 then read else read_write) c')

-- `write` for a connection that is being established: `socket_ok` is what `getsockopt` says.
write_connecting : Bool → Connection → Result Connection
write_connecting true c = ok (watch_socket read c)
write_connecting false c = reconnect_soon (close false 0 (handle_error system c))

abbrev pub sending : Sender → Sending
sending t = record { tx = t; left = t.send.used - t.next_to_send; broken = false; wrote = false }

-- connection::write. Its `assert` is the guard.
unfoldable pub write : Bool → List SendAnswer → ℕ → Connection → Result Connection
unfolding write_connecting finish_write send_loop handle_error
write socket_ok answers now c =
    let c' = record c { idle_ticks = 0 } in
    let s = sending c'.tx in
    let reported =
      if s.left == 0 && ltb 0 c'.tx.uncorked_size then handle_error system c' else c' in
    if State-eq c.state connecting
    then write_connecting socket_ok c
    else guard (leb c.tx.next_to_send c.tx.send.used) (
        on_part (λ (s : Sending). record reported { tx = s.tx }) (send_loop answers s)
          (finish_write reported now))

-- connection::flush; the Boolean is its result.
unfoldable pub flush : Bool → List SendAnswer → ℕ → Connection → Result Connection × Bool
unfolding write
flush socket_ok answers now c =
    let t = c.tx in
    let swapped = record c { tx = swap_buffers t } in
    if t.output.used == 0
    then (ok c, true)
    else if t.send.used - t.next_to_send == 0
    then (write socket_ok answers now swapped, true)
    else (ok (record c { tx = record t { uncorked_size = t.output.used } }), false)

unfoldable pub cork : Connection → Connection
cork c = record c { is_corked = true }

unfoldable pub uncork : Bool → List SendAnswer → ℕ → Connection → Result Connection
unfolding flush
uncork socket_ok answers now c =
    (flush socket_ok answers now c).0 >>= λ c'. ok (record c' { is_corked = false })

-- connection::bytes_to_send
unfoldable pub bytes_to_send : Connection → ℕ
bytes_to_send c = c.tx.send.used - c.tx.next_to_send + c.tx.uncorked_size

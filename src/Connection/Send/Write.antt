-- ===== src/Connection/Send/Write.antt =====
-- `write` and `flush` on a connection, by the laws of the loop.
use cpp2tnt.Prelude.{
  ℕ, suc, ◌+◌, ◌-◌, ◌≤◌, ◌<◌, min, ◌≡◌, ap, ◌∙◌, Bool, false, ◌&&◌, List, [], ◌∷◌, length, drop,
  ltb, ◌==◌, if◌then◌else◌, arith, lt→ltb, le→leb, ==_ne, ==_refl, length-drop,
}
use cpp2tnt.Outcome.{ok, undefined}
use cpp2tnt.WtfBuffer.{clear, content, capacity}
use cpp2tnt.WtfBuffer.Content.{poke-undefined, length-content}
use cpp2tnt.Connection.{Connection, Sender, SocketState, connecting, read, read_write, system}
use cpp2tnt.Connection.Close.{State-eq, handle_error, watch_socket}
use cpp2tnt.Connection.Send.{
  SendAnswer, taken, again, interrupted, failed, Sending, return_tail, refill, advance, send_loop,
  sending, write, finish_write,
}
use cpp2tnt.Connection.Send.Stream.{
  advance-IsSending, IsSending, stream, CanUncork, Counted, IsCalm, send_loop-Keeps,
}

-- The mode in which the socket is watched behind a `write` that has not failed.
abbrev pub watch_mode : Sender → SocketState
watch_mode t = if t.send.used - t.next_to_send == 0 then read else read_write

abbrev pub Written : Connection → Connection → Type 0
Written c c' =
    IsSending c'.tx
    × CanUncork c'.tx
    × (stream c'.tx ≡ stream c.tx)
    × (c'.state ≡ c.state)
    × (c'.prev_watch_mode ≡ watch_mode c'.tx)

-- A report changes nothing but the log of events.
report_lem :
    (b : Bool) (c : Connection)
    → let c' = if b then handle_error system c else c in (c'.tx ≡ c.tx) × (c'.state ≡ c.state)
unfolding handle_error
report_lem b c = ground arith

watch_socket_lem :
    (mode : SocketState) (c : Connection)
    → let c' = watch_socket mode c in
      (c'.tx ≡ c.tx) × (c'.state ≡ c.state) × (c'.prev_watch_mode ≡ mode)
unfolding watch_socket
watch_socket_lem mode c = ground arith

finish_write-calm :
    (c : Connection) (now : ℕ) (s : Sending)
    → s.broken ≡ false
    → Counted s
    → (c' : Connection) × (finish_write c now s ≡ ok c')
      × (c'.tx ≡ s.tx)
      × (c'.state ≡ c.state)
      × (c'.prev_watch_mode ≡ watch_mode s.tx)
unfolding finish_write
finish_write-calm c now s calm counted =
    let mode = if s.left == 0 then read else read_write in
    let c' = record c { tx = s.tx; last_write_time = if s.wrote then now else c.last_write_time } in
    let (same, still, watched) = watch_socket_lem mode c' in
    let e : s.left ≡ s.tx.send.used - s.tx.next_to_send = omega arith in
    (
      watch_socket mode c',
      rw calm,
      same,
      still,
      watched ∙ ap (λ n. if n == 0 then read else read_write) e,
    )

-- `write` past connecting, by the outcome of its loop.
write_calm :
    (socket_ok : Bool) (answers : List SendAnswer) (now : ℕ) (c : Connection) (s : Sending)
    → State-eq c.state connecting ≡ false
    → c.tx.next_to_send ≤ c.tx.send.used
    → send_loop answers (sending c.tx) ≡ ok s
    → s.broken ≡ false
    → Counted s
    → (c' : Connection) × (write socket_ok answers now c ≡ ok c')
      × (c'.tx ≡ s.tx)
      × (c'.state ≡ c.state)
      × (c'.prev_watch_mode ≡ watch_mode s.tx)
unfolding write
write_calm socket_ok answers now c s st within e calm counted =
    let idle = record c { idle_ticks = 0 } in
    let b = c.tx.send.used - c.tx.next_to_send == 0 && ltb 0 c.tx.uncorked_size in
    let (c', f, tx, state, mode) =
      finish_write-calm (if b then handle_error system idle else idle) now s calm counted in
    (c', rw (st, le→leb _ _ within, e) f, tx, state ∙ (report_lem b idle).1, mode)

-- On a connection that is past connecting, `write` with no socket error succeeds. What the kernel
-- has taken, followed by what waits, stays the same sequence of bytes, and the socket is watched for
-- writing exactly if the send buffer holds unsent bytes. It wants the corked tail to fit into the
-- storage of the send buffer.
pub write-Written :
    (socket_ok : Bool) (answers : List SendAnswer) (now : ℕ) (c : Connection)
    → State-eq c.state connecting ≡ false
    → IsSending c.tx
    → CanUncork c.tx
    → IsCalm answers
    → (c' : Connection) × (write socket_ok answers now c ≡ ok c') × Written c c'
write-Written socket_ok answers now c st v t calm =
    let (s', e, v', t', counted, same, less, unbroken) =
      send_loop-Keeps answers (sending c.tx) v t (omega arith) in
    let (c', w, tx, state, mode) =
      write_calm socket_ok answers now c s' st v.sent_in e (unbroken calm) counted in
    (c', w, rw tx (v', t', same, state, mode))

-- Every answer of the kernel takes bytes.
abbrev pub AllTaken : List SendAnswer → Type 0
AllTaken [] = Unit
AllTaken (taken k ∷ more) = AllTaken more
AllTaken (again ∷ more) = ⊥
AllTaken (interrupted ∷ more) = ⊥
AllTaken (failed ∷ more) = ⊥

refill-undefined :
    (s : Sending)
    → IsSending s.tx
    → s.tx.uncorked_size + capacity s.tx.send < s.tx.output.used
    → refill s ≡ undefined
unfolding refill return_tail clear
refill-undefined s v h =
    let tail = drop s.tx.uncorked_size (content s.tx.output) in
    let len : capacity s.tx.send < 0 + length tail = omega (
      arith,
      length-drop s.tx.uncorked_size (content s.tx.output),
      length-content s.tx.output v.output_valid,
    ) in
    rw (
      lt→ltb s.tx.uncorked_size s.tx.output.used (omega arith),
      poke-undefined (clear s.tx.send) 0 tail len,
    )

-- Past connecting `write` has undefined behaviour when the kernel takes the whole rest of the send
-- buffer at once, bytes are uncorked, and the corked tail behind them is longer than the storage of
-- the send buffer: the tail is copied into that storage before the buffer is resized.
pub write-undefined :
    (socket_ok : Bool) (more : List SendAnswer) (k now : ℕ) (c : Connection)
    → State-eq c.state connecting ≡ false
    → IsSending c.tx
    → c.tx.next_to_send + suc k ≡ c.tx.send.used
    → 0 < c.tx.uncorked_size
    → c.tx.uncorked_size + capacity c.tx.send < c.tx.output.used
    → write socket_ok (taken k ∷ more) now c ≡ undefined
unfolding write
write-undefined socket_ok more k now c st v e u h =
    let s = sending c.tx in
    let r = min (suc k) s.left in
    let (a, _, _) = advance-IsSending r s v (omega arith) (omega arith) in
    rw (
      st,
      le→leb _ _ v.sent_in,
      ==_ne s.left 0 (omega arith),
      ==_refl (s.left - r) 0 (omega arith),
      lt→ltb 0 c.tx.uncorked_size u,
      refill-undefined (advance r s) a h,
    )

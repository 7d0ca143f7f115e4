-- ===== src/Connection/Read.antt =====
-- connection.cpp: `read`. The answers of `recv(2)` are a list, after whose end there is nothing to read.
pub mod Stream
pub mod Kept
use cpp2tnt.Prelude.{
  ℕ, suc, ◌+◌, ◌-◌, ◌*◌, ◌/◌, ◌%◌, Bool, true, Option, none, some, List, [], ◌∷◌, Bytes, take,
  length, ltb, ◌==◌, if◌then◌else◌, u64_mod,
}
use cpp2tnt.Outcome.{Result, ok, thrown, undefined, ◌>>=◌, on_part}
use cpp2tnt.WtfBuffer.{WtfBuffer, capacity, reserve, put, content, clear}
use cpp2tnt.Msgpuck.{Msgpuck}
use cpp2tnt.MpWriter.{MpWriter}
use cpp2tnt.IprotoWriter.{encode_id_request}
use cpp2tnt.Connection.{
  Connection, Receiver, ErrorKind, closed_by_peer, system, connecting, features_request,
}
use cpp2tnt.Connection.Close.{handle_error, close, State-eq}
use cpp2tnt.Connection.Send.{SendAnswer, reconnect_soon}
use cpp2tnt.Connection.Send
use cpp2tnt.Connection.Receive.{clear_receive_buffer, process_receive_buffer}

-- `received b bs`: the bytes that are there, of which as many are taken as there is room for. Then a peer
-- that has closed, and the values of `errno`: EAGAIN or EWOULDBLOCK, EINTR, any other.
pub data RecvAnswer : Type 0 where
  received : ℕ → Bytes → RecvAnswer
  peer_closed again interrupted failed : RecvAnswer

-- How the loop ends: there is nothing more to read, or the connection was closed.
pub data Ended : Type 0 where
  drained closed : Connection → Ended

-- tnt::GREETING_SIZE
abbrev pub greeting_size : ℕ
greeting_size = 128

-- Room for 1024 bytes, where the buffer can grow by as much.
pub make_space : WtfBuffer → Result WtfBuffer
unfolding reserve
make_space b = if ltb (capacity b - b.used) 1024 then reserve b (capacity b * 3 / 2) else ok b

abbrev as_closed : Result Connection → Result Ended
as_closed (ok c) = ok (closed c)
as_closed (thrown e c) = thrown e (closed c)
as_closed undefined = undefined

lose : ErrorKind → Connection → Result Ended
unfolding close handle_error
lose kind c = as_closed (reconnect_soon (close true 0 (handle_error kind c)))

abbrev pub with_receive : Connection → WtfBuffer → Connection
with_receive c b = record c { rx = record c.rx { receive = b } }

-- The end of a round, where the buffer has its room.
pub take_answer : RecvAnswer → (Connection → Result Ended) → Connection → Result Ended
unfolding lose put
take_answer (received b bs) go_on c =
    let buf = c.rx.receive in
    let bytes = take (capacity buf - buf.used) (b ∷ bs) in
    if length bytes == 0
    then lose closed_by_peer c
    else on_part (λ b. drained (with_receive c b)) (put buf bytes) λ b. go_on (with_receive c b)
take_answer peer_closed go_on c = lose closed_by_peer c
take_answer again go_on c = ok (drained c)
take_answer interrupted go_on c = go_on c
take_answer failed go_on c = lose system c

-- The loop of connection::read
pub recv_loop : List RecvAnswer → Connection → Result Ended
unfolding make_space take_answer
recv_loop [] c =
    on_part (λ b. drained (with_receive c b)) (make_space c.rx.receive)
      λ b. ok (drained (with_receive c b))
recv_loop (answer ∷ more) c =
    on_part (λ b. drained (with_receive c b)) (make_space c.rx.receive)
      λ b. take_answer answer (recv_loop more) (with_receive c b)

-- The greeting is there: the request of the features is sent.
greet : Msgpuck → List SendAnswer → ℕ → Connection → Result Connection
unfolding Send.write encode_id_request clear_receive_buffer
greet m answers now c =
    let c' = record c {
      greeting = content c.rx.receive;
      rx = clear_receive_buffer c.rx;
      state = features_request;
      tx = record c.tx { send = clear c.tx.send; next_to_send = 0 };
      request_id = suc c.request_id % u64_mod;
    } in
    let set_send = λ (w : MpWriter). record c' { tx = record c'.tx { send = w.buf } } in
    on_part set_send
      (encode_id_request m c.setup.required_proto c.request_id
        (record { opened = []; buf = c'.tx.send }))
      λ w. Send.write true answers now (set_send w)

-- connection::read, behind the loop.
pub after_recv :
    Msgpuck
    → (Connection → Result Connection)
    → List SendAnswer
    → ℕ
    → Connection
    → Result Connection
unfolding greet process_receive_buffer
after_recv m handshake answers now c =
    if State-eq c.state connecting
    then (if ltb c.rx.receive.used greeting_size then ok c else greet m answers now c)
    else process_receive_buffer m handshake c

abbrev from_ended : (Connection → Result Connection) → Result Ended → Result Connection
from_ended k (ok (drained c)) = k c
from_ended k (ok (closed c)) = ok c
from_ended k (thrown e (drained c)) = thrown e c
from_ended k (thrown e (closed c)) = thrown e c
from_ended k undefined = undefined

read_from :
    Option ℕ
    → Msgpuck
    → (Connection → Result Connection)
    → List RecvAnswer
    → List SendAnswer
    → ℕ
    → Connection
    → Result Connection
unfolding recv_loop after_recv
read_from none m handshake arrived answers now c = ok c
read_from (some fd) m handshake arrived answers now c =
    from_ended (after_recv m handshake answers now)
      (recv_loop arrived (record c { idle_ticks = 0 }))

-- connection::read
unfoldable pub read :
    Msgpuck
    → (Connection → Result Connection)
    → List RecvAnswer
    → List SendAnswer
    → ℕ
    → Connection
    → Result Connection
unfolding read_from
read m handshake arrived answers now c = read_from c.socket m handshake arrived answers now c

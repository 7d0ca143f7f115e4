-- ===== src/Connection/Read/Kept.antt =====
-- connection.cpp: what `read` leaves of the state.
use cpp2tnt.Prelude.{
  ℕ, ◌-◌, suc, ◌%◌, Bool, true, false, Bool-cases, inl, inr, ◌≡◌, refl, subst, Option, none, some,
  List, [], ◌∷◌, ltb, ◌==◌, u64_mod, take, length,
}
use cpp2tnt.Outcome.{Result, ok, thrown, undefined, OnOk, OnOk-if, OnOk-on_part}
use cpp2tnt.WtfBuffer.{WtfBuffer, clear, content, put, capacity}
use cpp2tnt.Msgpuck.{Msgpuck}
use cpp2tnt.MpWriter.{MpWriter}
use cpp2tnt.IprotoWriter.{encode_id_request}
use cpp2tnt.Connection.{
  Connection, State, ErrorKind, closed_by_peer, system, connecting, features_request,
}
use cpp2tnt.Connection.Close.{State-eq}
use cpp2tnt.Connection.Phase.{
  Stays-OnOk, Keeps, Same, Closed, Fits, Phases, IsCoherent, Same-IsCoherent, Closed-IsCoherent,
}
use cpp2tnt.Connection.Send.{SendAnswer, reconnect_soon}
use cpp2tnt.Connection.Send
use cpp2tnt.Connection.Send.Kept.{fails-Closed, write-Stays}
use cpp2tnt.Connection.Receive.{clear_receive_buffer}
use cpp2tnt.Connection.Receive.Kept.{process-IsCoherent}
use cpp2tnt.Connection.Read.{
  RecvAnswer, received, peer_closed, again, interrupted, failed, Ended, drained, closed, as_closed,
  lose, make_space, take_answer, recv_loop, with_receive, greet, after_recv, from_ended, read,
  read_from, greeting_size,
}

-- How the loop ends: as it began, or with a closed connection.
abbrev Ends : Connection → Ended → Type 0
Ends c (drained c') = Same c c'
Ends c (closed c') = Closed c c'

as_closed-Ends :
    (c : Connection) (r : Result Connection) → OnOk (Closed c) r → OnOk (Ends c) (as_closed r)
as_closed-Ends c (ok c') h = h
as_closed-Ends c (thrown e c') h = tt
as_closed-Ends c undefined h = tt

lose-Ends : (kind : ErrorKind) (c : Connection) → OnOk (Ends c) (lose kind c)
unfolding lose
lose-Ends kind c = as_closed-Ends c _ (fails-Closed true kind c)

take_answer-Ends :
    (a : RecvAnswer) (go_on : Connection → Result Ended) (c : Connection)
    → ((b : WtfBuffer) → OnOk (Ends c) (go_on (with_receive c b)))
    → OnOk (Ends c) (go_on c)
    → OnOk (Ends c) (take_answer a go_on c)
unfolding take_answer
take_answer-Ends (received b bs) go_on c h h' =
    let bytes = take (capacity c.rx.receive - c.rx.receive.used) (b ∷ bs) in
    OnOk-if (Ends c) (length bytes == 0) (lose closed_by_peer c) _ (lose-Ends closed_by_peer c) (
      OnOk-on_part (Ends c) (λ b. drained (with_receive c b)) (put c.rx.receive bytes)
        (λ b. go_on (with_receive c b)) (λ b e. h b))
take_answer-Ends peer_closed go_on c h h' = lose-Ends closed_by_peer c
take_answer-Ends again go_on c h h' = (refl, refl, refl)
take_answer-Ends interrupted go_on c h h' = h'
take_answer-Ends failed go_on c h h' = lose-Ends system c

recv_loop-Ends : (answers : List RecvAnswer) (c : Connection) → OnOk (Ends c) (recv_loop answers c)
unfolding recv_loop
recv_loop-Ends [] c =
    OnOk-on_part (Ends c) (λ b. drained (with_receive c b)) (make_space c.rx.receive)
      (λ b. ok (drained (with_receive c b))) (λ b e. (refl, refl, refl))
recv_loop-Ends (answer ∷ more) c =
    OnOk-on_part (Ends c) (λ b. drained (with_receive c b)) (make_space c.rx.receive)
      (λ b. take_answer answer (recv_loop more) (with_receive c b))
      (λ b e.
        take_answer-Ends answer (recv_loop more) (with_receive c b)
          (λ b'. recv_loop-Ends more (with_receive c b')) (recv_loop-Ends more (with_receive c b)))

Fits-features : (k : Option ℕ) (j : Bool) → Fits connecting k j → Fits features_request k j
Fits-features none true h = absurd h
Fits-features none false h = absurd h
Fits-features (some fd) true h = absurd h
Fits-features (some fd) false h = tt

greet-IsCoherent :
    (m : Msgpuck) (answers : List SendAnswer) (now : ℕ) (c : Connection)
    → Phases connecting c.socket c.setup
    → OnOk IsCoherent (greet m answers now c)
unfolding greet
greet-IsCoherent m answers now c h =
    let c' = record c {
      greeting = content c.rx.receive;
      rx = clear_receive_buffer c.rx;
      state = features_request;
      tx = record c.tx { send = clear c.tx.send; next_to_send = 0 };
      request_id = suc c.request_id % u64_mod;
    } in
    let set_send = λ (w : MpWriter). record c' { tx = record c'.tx { send = w.buf } } in
    OnOk-on_part IsCoherent set_send
      (encode_id_request m c.setup.required_proto c.request_id
        (record { opened = []; buf = c'.tx.send }))
      (λ w. Send.write true answers now (set_send w))
      (λ w e.
        Stays-OnOk (set_send w) _ (Fits-features c.socket c.setup.resolver_joinable h.0, h.1)
          (write-Stays true answers now (set_send w)))

State-eq_connecting : (s : State) → State-eq s connecting ≡ true → s ≡ connecting
State-eq_connecting connecting e = refl
State-eq_connecting State.disconnected e = cc
State-eq_connecting State.address_resolving e = cc
State-eq_connecting features_request e = cc
State-eq_connecting State.authentication e = cc
State-eq_connecting State.connected e = cc

module _ (handshake : Connection → Result Connection) (kept : Keeps handshake) where
  after_recv-IsCoherent :
      (m : Msgpuck) (answers : List SendAnswer) (now : ℕ) (c : Connection)
      → IsCoherent c
      → OnOk IsCoherent (after_recv m handshake answers now c)
  unfolding after_recv
  after_recv-IsCoherent m answers now c h = elim (Bool-cases (State-eq c.state connecting)) [
    | inl e ↦ rw e (
        OnOk-if IsCoherent (ltb c.rx.receive.used greeting_size) (ok c) (greet m answers now c) h (
          greet-IsCoherent m answers now c
            (subst (λ s. Phases s c.socket c.setup) (State-eq_connecting c.state e) h)))
    | inr e ↦ rw e (process-IsCoherent handshake kept m c h)
  ]

  from_ended-IsCoherent :
      (m : Msgpuck) (answers : List SendAnswer) (now : ℕ) (c : Connection) (r : Result Ended)
      → IsCoherent c
      → OnOk (Ends c) r
      → OnOk IsCoherent (from_ended (after_recv m handshake answers now) r)
  from_ended-IsCoherent m answers now c (ok (drained c')) h s =
      after_recv-IsCoherent m answers now c' (Same-IsCoherent c c' s h)
  from_ended-IsCoherent m answers now c (ok (closed c')) h s = Closed-IsCoherent c c' s h
  from_ended-IsCoherent m answers now c (thrown e (drained c')) h s = tt
  from_ended-IsCoherent m answers now c (thrown e (closed c')) h s = tt
  from_ended-IsCoherent m answers now c undefined h s = tt

  read_from-IsCoherent :
      (fd : Option ℕ) (m : Msgpuck) (arrived : List RecvAnswer) (answers : List SendAnswer)
      (now : ℕ) (c : Connection)
      → IsCoherent c
      → OnOk IsCoherent (read_from fd m handshake arrived answers now c)
  unfolding read_from
  read_from-IsCoherent none m arrived answers now c h = h
  read_from-IsCoherent (some fd) m arrived answers now c h =
      let c' = record c { idle_ticks = 0 } in
      from_ended-IsCoherent m answers now c' (recv_loop arrived c') h (recv_loop-Ends arrived c')

  pub read-IsCoherent :
      (m : Msgpuck) (arrived : List RecvAnswer) (answers : List SendAnswer) (now : ℕ)
      (c : Connection)
      → IsCoherent c
      → OnOk IsCoherent (read m handshake arrived answers now c)
  unfolding read
  read-IsCoherent m arrived answers now c h =
      read_from-IsCoherent c.socket m arrived answers now c h

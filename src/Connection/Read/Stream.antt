-- ===== src/Connection/Read/Stream.antt =====
-- connection.cpp: `read` appends what arrives to the receive buffer, and hands whole responses on.
use cpp2tnt.Prelude.{
  ℕ, suc, ◌+◌, ◌-◌, ◌*◌, ◌/◌, ◌≤◌, ◌<◌, ◌≡◌, ◌≢◌, refl, sym, ap, ◌∙◌, inl, inr, Bool, true, false,
  Bool-cases, some, List, [], ◌∷◌, ◌++◌, append-nil, append_assoc, Bytes, length, take, take_all,
  ltb, ltb→lt, ==_ne, if◌then◌else◌, arith,
}
use cpp2tnt.Outcome.{Result, ok}
use cpp2tnt.WtfBuffer.{WtfBuffer, capacity, content}
use cpp2tnt.WtfBuffer.Content.{IsValid, IsOwned, put_lem}
use cpp2tnt.WtfBuffer.Content.Room.{reserve_owned, reserve-IsOwned, put-IsOwned}
use cpp2tnt.Msgpuck.{Msgpuck}
use cpp2tnt.Msgpuck.Laws.{Uint32Laws}
use cpp2tnt.Connection.{Connection, connecting, connected, response}
use cpp2tnt.Connection.Close.{State-eq}
use cpp2tnt.Connection.Send.{SendAnswer}
use cpp2tnt.Connection.Receive.{process_receive_buffer}
use cpp2tnt.Connection.Receive.Framing.{frames, AllSmall, Partial, Expects}
use cpp2tnt.Connection.Receive.Deliver.{IsReceiving, process-delivers}
use cpp2tnt.Connection.Read.{
  RecvAnswer, received, drained, recv_loop, make_space, take_answer, with_receive, after_recv,
  greet, greeting_size, from_ended, read, read_from,
}

-- What arrives: pieces of at least a byte.
abbrev pub Pieces : Type 0
Pieces = List (ℕ × Bytes)

abbrev pub arriving : Pieces → List RecvAnswer
arriving [] = []
arriving ((b, bs) ∷ more) = received b bs ∷ arriving more

abbrev pub joined : Pieces → Bytes
joined [] = []
joined ((b, bs) ∷ more) = (b ∷ bs) ++ joined more

abbrev pub AllShort : Pieces → Type 0
AllShort [] = Unit
AllShort ((b, bs) ∷ more) = (length bs < 1024) × AllShort more

-- A buffer that `read` can make as large as it needs.
pub record IsRoomy (b : WtfBuffer) : Type 0 where
  pub valid : IsValid b
  pub is_owned : IsOwned b.target
  pub large : 2048 ≤ capacity b

make_space_lem :
    (b : WtfBuffer)
    → IsRoomy b
    → (b' : WtfBuffer) × (make_space b ≡ ok b')
      × IsRoomy b'
      × (content b' ≡ content b)
      × (b'.used + 1024 ≤ capacity b')
unfolding make_space
make_space_lem b v = elim (Bool-cases (ltb (capacity b - b.used) 1024)) [
  | inl narrow ↦
      let (b', e, (valid, same, used, cap)) =
        reserve_owned b (capacity b * 3 / 2) v.valid v.is_owned in
      let own = reserve-IsOwned b (capacity b * 3 / 2) b' v.is_owned e in
      let few = ltb→lt _ _ narrow in
      (
        b',
        rw narrow e,
        record { valid = valid; is_owned = own; large = omega (arith, v.large) },
        same,
        omega (arith, v.large, v.valid.within),
      )
  | inr wide ↦ (b, rw wide refl, v, refl, ground (arith, v.large, v.valid.within))
]

-- One piece
round :
    (n : ℕ) (bs : Bytes) (more : List RecvAnswer) (c : Connection)
    → IsRoomy c.rx.receive
    → length bs < 1024
    → (b' : WtfBuffer) × (recv_loop (received n bs ∷ more) c ≡ recv_loop more (with_receive c b'))
      × IsRoomy b'
      × (content b' ≡ content c.rx.receive ++ (n ∷ bs))
unfolding recv_loop take_answer
round n bs more c v short =
    let (b, e, v', same, room) = make_space_lem c.rx.receive v in
    let all : take (capacity b - b.used) (n ∷ bs) ≡ n ∷ bs = take_all _ (n ∷ bs) (omega arith) in
    let (b', e', valid, app, used, cap) = put_lem b (n ∷ bs) v'.valid (omega arith) in
    (
      b',
      rw (recv_loop, e, all, e') (rw (==_ne (suc (length bs)) 0 (omega arith)) refl),
      record {
        valid = valid;
        is_owned = put-IsOwned b (n ∷ bs) b' v'.is_owned e';
        large = omega (arith, v'.large, cap);
      },
      app ∙ ap (λ zs. zs ++ (n ∷ bs)) same,
    )

-- The loop of `read` appends what arrives, in order and as it is, to the receive buffer, and changes nothing
-- else. It wants an owned buffer of 2048 bytes or more, and pieces of 1024 bytes at most.
pub recv_loop-appends :
    (ps : Pieces) (c : Connection)
    → IsRoomy c.rx.receive
    → AllShort ps
    → (b' : WtfBuffer) × (recv_loop (arriving ps) c ≡ ok (drained (with_receive c b')))
      × IsRoomy b'
      × (content b' ≡ content c.rx.receive ++ joined ps)
unfolding recv_loop
recv_loop-appends [] c v short =
    let (b, e, v', same, room) = make_space_lem c.rx.receive v in
    (b, rw e refl, v', same ∙ sym (append-nil (content c.rx.receive)))
recv_loop-appends ((n, bs) ∷ more) c v short =
    let (b, e, v', app) = round n bs (arriving more) c v short.0 in
    let (b', e', v'', app') = recv_loop-appends more (with_receive c b) v' short.1 in
    (
      b',
      e ∙ e',
      v'',
      app'
          ∙ ap (λ zs. zs ++ joined more) app
          ∙ append_assoc (content c.rx.receive) (n ∷ bs) (joined more),
    )

module _ (m : Msgpuck) (laws : Uint32Laws m) (handshake : Connection → Result Connection) where
  after_recv_lem :
      (answers : List SendAnswer) (now : ℕ) (c : Connection)
      → c.state ≡ connected
      → after_recv m handshake answers now c ≡ process_receive_buffer m handshake c
  unfolding after_recv
  after_recv_lem answers now c st =
      ap
        (λ s.
          if State-eq s connecting
          then (if ltb c.rx.receive.used greeting_size then ok c else greet m answers now c)
          else process_receive_buffer m handshake c)
        st

  -- What a read finds: a connection with no response that waits for the client, and pieces of 1 to 1024
  -- bytes that end the messages `bodies` and begin another one.
  pub record Arrives (c : Connection) (ps : Pieces) (bodies : List Bytes) (tail : Bytes) (d : ℕ)
      : Type 0 where
    pub receiving : IsReceiving c.rx
    pub large : 2048 ≤ capacity c.rx.receive
    pub short : AllShort ps
    pub none_found : c.rx.last_received_head_offset ≡ 0
    pub bytes : content c.rx.receive ++ joined ps ≡ frames m bodies tail
    pub small : AllSmall m bodies
    pub partial : Partial m tail d
    pub expects : Expects m c.rx.detected_response_size bodies d
    pub nonempty : bodies ≢ []

  -- `read` on an established connection: from the pieces that arrive the client gets, in one call, the
  -- messages that are whole, and the bytes behind them stay in the receive buffer. It wants a client that
  -- is idle and a response handler that returns; buffers that own their vectors, and a receive buffer with
  -- a storage of 2048 bytes or more, in which no whole message was found before; pieces of 1 to 1024 bytes, one for each `recv`, and then no more,
  -- without an error; and bytes that are, with those in the buffer, at least one whole message and
  -- perhaps the beginning of another, each message of less than 2 ^ 32 bytes.
  pub read-delivers :
      (c : Connection) (fd : ℕ) (ps : Pieces) (answers : List SendAnswer) (now : ℕ)
      (returns : Bytes → Bool) (bodies : List Bytes) (tail : Bytes) (d : ℕ)
      → c.socket ≡ some fd
      → c.state ≡ connected
      → c.rx.caller_idle ≡ true
      → c.handlers.on_response ≡ some returns
      → returns (frames m bodies []) ≡ true
      → Arrives c ps bodies tail d
      → (c' : Connection) × (read m handshake (arriving ps) answers now c ≡ ok c')
        × IsReceiving c'.rx
        × (c'.events ≡ c.events ++ response (frames m bodies []) ∷ [])
        × (content c'.rx.receive ≡ tail)
        × (c'.rx.caller_idle ≡ false)
  unfolding read read_from after_recv
  read-delivers c fd ps answers now returns bodies tail d sock st idle handler quiet a =
      let roomy : IsRoomy c.rx.receive = record {
        valid = a.receiving.receive_valid;
        is_owned = a.receiving.receive_owned;
        large = a.large;
      } in
      let c0 = record c { idle_ticks = 0 } in
      let (b, e, v, app) = recv_loop-appends ps c0 roomy a.short in
      let c1 = with_receive c0 b in
      let (c', run, ok', events, rest, _, _, busy) =
        process-delivers m laws handshake c1 returns bodies tail d
          (record {
            input_valid = a.receiving.input_valid;
            receive_valid = v.valid;
            input_owned = a.receiving.input_owned;
            receive_owned = v.is_owned;
            head_in = omega (arith, a.none_found);
          })
          (record {
            bytes = app ∙ a.bytes;
            found = a.none_found;
            small = a.small;
            partial = a.partial;
            expects = a.expects;
          })
          a.nonempty st idle handler quiet in
      (
        c',
        ap (λ s. read_from s m handshake (arriving ps) answers now c) sock
            ∙ ap (from_ended (after_recv m handshake answers now)) e
            ∙ after_recv_lem answers now c1 st
            ∙ run,
        ok',
        events,
        rest,
        busy,
      )

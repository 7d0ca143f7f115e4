-- ===== src/Tests/Opening.antt =====
-- Opening a connection, and its timer, at concrete inputs.
use cpp2tnt.Prelude.{
  ℕ, zero, suc, ◌≡◌, refl, true, false, none, some, [], ◌∷◌, Bytes, length, replicate, arith,
}
use cpp2tnt.Outcome.{Result, ok, thrown, undefined}
use cpp2tnt.CsParser.{parse_cs}
use cpp2tnt.IprotoWriter.Auth.{Digests, scramble_prepare}
use cpp2tnt.IprotoWriter.Auth.Scramble.{AllBytes, DigestLaws, recovered, scramble-recovered}
use cpp2tnt.Connection.{
  Connection, resolved, attempt, pending, no_socket, connecting, authentication, connected,
  disconnected,
}
use cpp2tnt.Connection.Close.Destroy.{
  DestructHandler, throws_exception, destroy, Gone, destroy-Gone,
}
use cpp2tnt.Connection.Phase.{IsCoherent}
use cpp2tnt.Connection.Open.{
  World, open_connection, push_handler, acquire_notifications, reconnect_in,
}
use cpp2tnt.Connection.Setters.{create, set_handler, on_error}
use cpp2tnt.Connection.Timer.Waits.{ticks, ticks-reconnect}
use cpp2tnt.Connection.Timer.GiveUp.{ticks-give_up}
use cpp2tnt.Connection.Reach.{
  Reach, here, next, sets, opens, resolver_ends, acquires, create-IsCoherent,
}
use cpp2tnt.Tests.Format.{format}
use cpp2tnt.Connection.Handshake.{handshake}
use cpp2tnt.WtfBuffer.{owned, resize, clear}
use cpp2tnt.Tests.Sending.{connection, busy_sender, empty_buffer}

abbrev world : World
world = record { getenv = λ name. none; depth = 1; unix = no_socket }

-- A digest that is always the same.
abbrev pub digests : Digests
digests = record { sha1 = λ bs. replicate 20 7; base64_decode = λ bs. bs }

abbrev state_of : Connection → Result Connection → Connection
state_of c (ok c') = c'
state_of c (thrown e c') = c'
state_of c undefined = c

-- "3301", a port of the local host
abbrev port : Bytes
port = b'3' ∷ b'3' ∷ b'0' ∷ b'1' ∷ []

abbrev made : Connection
made = set_handler (on_error true) (create port)

abbrev resolving : Connection
resolving = state_of made (open_connection world 0 made)

abbrev answered : Connection
answered = push_handler (resolved (no_socket ∷ attempt 5 pending ∷ [])) resolving

abbrev connecting_5 : Connection
connecting_5 = state_of answered (acquire_notifications answered)

steps : Reach format digests (create port) connecting_5
unfolding create parse_cs set_handler open_connection push_handler acquire_notifications
steps =
    next
      (next (next (next here (sets (on_error true) refl)) (opens world 0 refl))
        (resolver_ends (resolved (no_socket ∷ attempt 5 pending ∷ [])) tt (refl, tt) refl))
      (acquires refl)

create-IsCoherent_example : IsCoherent connecting_5
create-IsCoherent_example = create-IsCoherent format digests port connecting_5 steps

-- What came of it: the second address gave a socket.
connecting_5_run : (connecting_5.state ≡ connecting) × (connecting_5.socket ≡ some 5)
unfolding create parse_cs set_handler open_connection push_handler acquire_notifications
connecting_5_run = (refl, refl)

abbrev waiting : Connection
waiting = record (create port) { autoreconnect_ticks = some 2 }

ticks-reconnect_example :
    (ticks world [] 0 7 waiting ≡ ok (reconnect_in 9 waiting))
    × (ticks world [] 0 8 waiting ≡ open_connection world 0 (reconnect_in 10 waiting))
unfolding create
ticks-reconnect_example = ticks-reconnect world [] 0 7 2 waiting refl refl refl

abbrev slow : Connection
slow = record (connection busy_sender) { state = connecting; autoreconnect_ticks = some 8 }

ticks-give_up_example :
    (ticks world [] 0 1 slow ≡ ok (reconnect_in 9 slow))
    × (c : Connection) × (ticks world [] 0 2 slow ≡ ok c)
    × (c.state ≡ disconnected)
    × (c.socket ≡ none)
    × (ticks world [] 0 9 c ≡ ok (reconnect_in 9 c))
    × (ticks world [] 0 10 c ≡ open_connection world 0 (reconnect_in 10 c))
ticks-give_up_example =
    ticks-give_up world [] 0 1 8 slow refl refl refl
      (record { within = omega arith; managed = refl }) tt

seven_bytes : (n : ℕ) → AllBytes (replicate n 7)
seven_bytes zero = tt
seven_bytes (suc n) = (omega arith, seven_bytes n)

digests-DigestLaws : DigestLaws digests
digests-DigestLaws = record { length_sha1 = λ bs. refl; bytes_sha1 = λ bs. seven_bytes 20 }

scramble-recovered_example :
    let stored = digests.sha1 (digests.sha1 port) in
    let digest = recovered digests (1 ∷ []) stored (scramble_prepare digests (1 ∷ []) port) in
    (digest ≡ digests.sha1 port) × (digests.sha1 digest ≡ stored)
scramble-recovered_example =
    scramble-recovered digests digests-DigestLaws (1 ∷ []) port (omega arith)

-- The answer to an authentication request, as connection.cpp gives it.
abbrev ok_answer : Bytes
ok_answer =
    0xce ∷ 0 ∷ 0 ∷ 0 ∷ 0x18 ∷ 0x83 ∷ 0 ∷ 0xce ∷ 0 ∷ 0 ∷ 0 ∷ 0 ∷ 1 ∷ 0xcf ∷ 0 ∷ 0 ∷ 0 ∷ 0 ∷ 0 ∷ 0 ∷ 0
    ∷ 0 ∷ 5 ∷ 0xce ∷ 0 ∷ 0 ∷ 0 ∷ 0x9b ∷ 0x80 ∷ []

abbrev authenticating : Bytes → Connection
authenticating bytes = record (connection busy_sender) {
  state = authentication;
  rx = record {
    input = empty_buffer;
    receive = record { target = owned (length bytes); store = bytes; used = length bytes };
    caller_idle = true;
    last_received_head_offset = length bytes;
    detected_response_size = 0;
  };
}

handshake_run :
    (state_of made (handshake format digests [] 0 (authenticating ok_answer))).state ≡ connected
unfolding handshake
handshake_run = refl

-- The same answer with the code 0x802f, and no text: the connection is closed.
handshake_refused_run :
    (state_of made (
      handshake format digests [] 0 (
        authenticating
          (0xce ∷ 0 ∷ 0 ∷ 0 ∷ 7 ∷ 0x81 ∷ 0 ∷ 0xcd ∷ 0x80 ∷ 0x2f ∷ 0x81 ∷ 0x31 ∷ 0xa0 ∷ [])))).state
    ≡ disconnected
unfolding handshake resize clear
handshake_refused_run = refl

-- The end of a connection, with a handler that takes back the handler for errors, and then throws.
abbrev unhooking : DestructHandler
unhooking = record { acts = λ c. ok (set_handler (on_error false) c); ending = throws_exception }

destroy-Gone_example :
    (c' : Connection) × (destroy (some unhooking) none (connection busy_sender) ≡ ok c') × Gone c'
unfolding set_handler
destroy-Gone_example =
    destroy-Gone (some unhooking) none (connection busy_sender)
      (record { within = omega arith; managed = refl }) tt (λ c h. (_, refl, h)) tt

-- ===== src/Connection/Receive.antt =====
-- connection.cpp: the receiving side. `detect` is the loop that finds the ends of the responses.
pub mod Framing
pub mod Deliver
pub mod Kept
use cpp2tnt.Prelude.{
  ℕ, zero, suc, ◌+◌, ◌-◌, ◌%◌, Bool, true, false, ◌&&◌, ◌||◌, not, Option, none, some, List, [],
  ◌∷◌, ◌++◌, Bytes, u64_mod, length, take, drop, ltb, leb, ◌==◌, if◌then◌else◌,
}
use cpp2tnt.Outcome.{Result, ok, thrown, undefined, ◌>>=◌, on_part}
use cpp2tnt.WtfBuffer.{WtfBuffer, clear, resize, poke, content}
use cpp2tnt.Msgpuck.{Msgpuck, MpType, uint}
use cpp2tnt.Connection.Close.{emit, handle_error, State-eq}
use cpp2tnt.Connection.{
  Connection, Receiver, response, system, unexpected_data, features_request, authentication,
}

-- The offset behind the last whole response, the size of the response that begins there, or 0 if it
-- is not known, and whether what begins there is no message.
pub record Frames : Type 0 where
  pub head : ℕ
  pub detected : ℕ
  pub incorrect : Bool

abbrev is_uint : MpType → Bool
is_uint uint = true
is_uint _ = false

-- `mp_typeof` of the byte that is read; `detect` reads it with five bytes at hand.
abbrev head_is_uint : Msgpuck → Bytes → Bool
head_is_uint m [] = false
head_is_uint m (b ∷ bs) = is_uint (m.type_of b)

-- The first `if` of the loop: the size of the next response, if its header is there.
pub read_header : Msgpuck → Bytes → Frames → Frames
read_header m bytes f =
    if f.detected == 0 && leb 5 (length bytes - f.head)
    then (if head_is_uint m (drop f.head bytes)
        then record f { detected = ((m.decode_uint (drop f.head bytes)).0 + 5) % u64_mod }
        else record f { incorrect = true })
    else f

-- do … while (true) in `process_receive_buffer`; `none` means that the fuel ran out.
pub detect : ℕ → Msgpuck → Bytes → Frames → Option Frames
detect zero m bytes f = none
detect (suc fuel) m bytes f =
    let g = read_header m bytes f in
    let rest = detect fuel m bytes (record g { head = g.head + g.detected; detected = 0 }) in
    if not g.incorrect && ltb 0 g.detected && leb g.detected (length bytes - g.head)
    then rest
    else some g

-- The response handler is called. Where it throws, the error is reported and `input_processed`
-- called, whose `pass_response_to_caller` returns at once, since the offset is 0 by then.
call_handler : Option (Bytes → Bool) → Connection → Connection
unfolding handle_error
call_handler none c = record c { rx = record c.rx { input = clear c.rx.input } }
call_handler (some returns) c =
    let bytes = content c.rx.input in
    let c' = emit (response bytes) (record c { rx = record c.rx { caller_idle = false } }) in
    if returns bytes
    then c'
    else let c'' = handle_error system c' in
      record c'' { rx = record c''.rx { caller_idle = true } }

-- The partial response behind the whole ones moves to the other buffer.
move_partial : ℕ → Receiver → Result Receiver
move_partial orphaned r =
    let partial = drop r.last_received_head_offset (content r.input) in
    let set_receive = λ (b : WtfBuffer). record r { receive = b } in
    on_part set_receive (resize r.receive orphaned) λ b.
      on_part set_receive (poke b 0 partial) λ b'.
        on_part (λ (i : WtfBuffer). record r { receive = b'; input = i })
          (resize r.input (r.input.used - orphaned)) λ i. ok (record r { receive = b'; input = i })

-- connection::pass_response_to_caller
unfoldable pub pass_response_to_caller : Connection → Result Connection
unfolding call_handler move_partial
pass_response_to_caller c =
    let r = c.rx in
    let orphaned = r.receive.used - r.last_received_head_offset in
    let swapped = record r { input = r.receive; receive = clear r.input } in
    let set_rx = λ (r' : Receiver). record c { rx = r' } in
    if r.last_received_head_offset == 0
    then ok c
    else on_part set_rx (if orphaned == 0 then ok swapped else move_partial orphaned swapped) λ r'.
      ok (
        call_handler c.handlers.on_response
          (record c { rx = record r' { last_received_head_offset = 0 } }))

-- connection::input_processed
unfoldable pub input_processed : Connection → Result Connection
unfolding pass_response_to_caller
input_processed c = pass_response_to_caller (record c { rx = record c.rx { caller_idle = true } })

-- connection::clear_receive_buffer
unfoldable pub clear_receive_buffer : Receiver → Receiver
clear_receive_buffer r = record r {
  receive = clear r.receive;
  last_received_head_offset = 0;
  detected_response_size = 0;
}

-- The state behind the loop. An incorrect message is reported, and cut off with all that follows it.
note_frames : Frames → Connection → Result Connection
unfolding handle_error
note_frames f c =
    let c' = record c {
      rx = record c.rx { last_received_head_offset = f.head; detected_response_size = f.detected };
    } in
    let c'' = handle_error unexpected_data c' in
    if f.incorrect
    then (on_part (λ (b : WtfBuffer). record c'' { rx = record c''.rx { receive = b } })
        (resize c''.rx.receive f.head) λ b. ok (record c'' { rx = record c''.rx { receive = b } }))
    else ok c'

-- Behind the loop: whole responses go to the handshake while it is going on, else to the caller, if
-- that is idle. The handshake, which reads the answer to the features or authentication request,
-- is a parameter here, for Connection/Handshake.
pub dispatch : (Connection → Result Connection) → Connection → Result Connection
dispatch handshake c =
    if c.rx.last_received_head_offset == 0
    then ok c
    else if State-eq c.state features_request || State-eq c.state authentication
    then handshake c
    else if c.rx.caller_idle
    then pass_response_to_caller c
    else ok c

after_detect : (Connection → Result Connection) → Connection → Option Frames → Result Connection
unfolding note_frames dispatch
after_detect handshake c none = undefined
after_detect handshake c (some f) = note_frames f c >>= dispatch handshake

-- connection::process_receive_buffer. Each round of the loop passes over a byte at least, so one
-- round more than there are bytes is enough fuel.
unfoldable pub process_receive_buffer :
    Msgpuck → (Connection → Result Connection) → Connection → Result Connection
unfolding after_detect
process_receive_buffer m handshake c =
    let start : Frames = record {
      head = c.rx.last_received_head_offset;
      detected = c.rx.detected_response_size;
      incorrect = false;
    } in
    after_detect handshake c (detect (suc (c.rx.receive.used)) m (content c.rx.receive) start)

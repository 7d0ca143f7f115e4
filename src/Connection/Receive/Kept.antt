-- ===== src/Connection/Receive/Kept.antt =====
-- connection.cpp: what the delivery of responses leaves of the state.
use cpp2tnt.Prelude.{
  suc, ◌-◌, Bool, true, false, refl, Option, none, some, Bytes, ◌==◌, if◌then◌else◌,
}
use cpp2tnt.Outcome.{Result, ok, on_part, OnOk, OnOk-bind, OnOk-if, OnOk-cases, OnOk-on_part}
use cpp2tnt.WtfBuffer.{WtfBuffer, clear, content, resize}
use cpp2tnt.Msgpuck.{Msgpuck}
use cpp2tnt.Connection.{Connection, Receiver, response, system, unexpected_data}
use cpp2tnt.Connection.Close.{emit, handle_error}
use cpp2tnt.Connection.Close.Kept.{handle_error-Same}
use cpp2tnt.Connection.Phase.{Same-OnOk, Keeps, shakes, Same, Same-if, IsCoherent, Same-IsCoherent}
use cpp2tnt.Connection.Receive.{
  Frames, call_handler, move_partial, pass_response_to_caller, note_frames, dispatch, after_detect,
  process_receive_buffer, detect,
}

call_handler-Same : (h : Option (Bytes → Bool)) (c : Connection) → Same c (call_handler h c)
unfolding call_handler
call_handler-Same none c = (refl, refl, refl)
call_handler-Same (some returns) c =
    let c' =
      emit (response (content c.rx.input))
        (record c { rx = record c.rx { caller_idle = false } }) in
    let c'' = handle_error system c' in
    let same = handle_error-Same system c' in
    Same-if (returns (content c.rx.input)) c c'
      (record c'' { rx = record c''.rx { caller_idle = true } }) (refl, refl, refl) same

pub pass_response-Same : (c : Connection) → OnOk (Same c) (pass_response_to_caller c)
unfolding pass_response_to_caller
pass_response-Same c =
    let r = c.rx in
    let orphaned = r.receive.used - r.last_received_head_offset in
    let swapped = record r { input = r.receive; receive = clear r.input } in
    let parted = if orphaned == 0 then ok swapped else move_partial orphaned swapped in
    let given = λ (r' : Receiver). record c { rx = record r' { last_received_head_offset = 0 } } in
    OnOk-if (Same c) (c.rx.last_received_head_offset == 0) (ok c) _ (refl, refl, refl)
      (OnOk-on_part (Same c) (λ (r' : Receiver). record c { rx = r' }) parted
        (λ r'. ok (call_handler c.handlers.on_response (given r')))
        (λ r' e. call_handler-Same c.handlers.on_response (given r')))

note_frames-Same : (f : Frames) (c : Connection) → OnOk (Same c) (note_frames f c)
unfolding note_frames
note_frames-Same f c =
    let c' = record c {
      rx = record c.rx { last_received_head_offset = f.head; detected_response_size = f.detected };
    } in
    let c'' = handle_error unexpected_data c' in
    let back = λ (b : WtfBuffer). record c'' { rx = record c''.rx { receive = b } } in
    OnOk-if (Same c) f.incorrect (on_part back (resize c''.rx.receive f.head) λ b. ok (back b))
      (ok c')
      (OnOk-on_part (Same c) back (resize c''.rx.receive f.head) (λ b. ok (back b))
        (λ b e. handle_error-Same unexpected_data c'))
      (refl, refl, refl)

module _ (handshake : Connection → Result Connection) (kept : Keeps handshake) where
  dispatch-IsCoherent : (c : Connection) → IsCoherent c → OnOk IsCoherent (dispatch handshake c)
  unfolding dispatch
  dispatch-IsCoherent c h = OnOk-if IsCoherent (c.rx.last_received_head_offset == 0) (ok c) _ h (
      OnOk-cases IsCoherent (shakes c.state) (handshake c) _ (λ e. kept c e h)
        (λ e.
          OnOk-if IsCoherent c.rx.caller_idle (pass_response_to_caller c) (ok c)
            (Same-OnOk c (pass_response_to_caller c) h (pass_response-Same c)) h))

  after_detect-IsCoherent :
      (c : Connection) (f : Option Frames)
      → IsCoherent c
      → OnOk IsCoherent (after_detect handshake c f)
  unfolding after_detect
  after_detect-IsCoherent c none h = tt
  after_detect-IsCoherent c (some f) h =
      OnOk-bind (Same c) IsCoherent (note_frames f c) (dispatch handshake) (note_frames-Same f c)
        (λ c' same. dispatch-IsCoherent c' (Same-IsCoherent c c' same h))

  pub process-IsCoherent :
      (m : Msgpuck) (c : Connection)
      → IsCoherent c
      → OnOk IsCoherent (process_receive_buffer m handshake c)
  unfolding process_receive_buffer
  process-IsCoherent m c h =
      let start : Frames = record {
        head = c.rx.last_received_head_offset;
        detected = c.rx.detected_response_size;
        incorrect = false;
      } in
      after_detect-IsCoherent c (detect (suc c.rx.receive.used) m (content c.rx.receive) start) h

-- ===== src/Connection/Timer/GiveUp.antt =====
-- connection.cpp: `tick_1sec` of a connection that does not get further than connecting.
use cpp2tnt.Prelude.{ℕ, suc, ◌+◌, ◌≡◌, refl, ap, ◌∙◌, true, false, none, some, List, arith}
use cpp2tnt.Outcome.{Result, ok, ◌>>=◌, OnOk-ok}
use cpp2tnt.WtfBuffer.Content.{IsValid, IsOwned}
use cpp2tnt.Connection.{Connection, timeout, connecting, disconnected, connected}
use cpp2tnt.Connection.Phase.{Closed}
use cpp2tnt.Connection.Close.{handle_error, close, State-eq}
use cpp2tnt.Connection.Close.Paced.{Paced, close-Paced, handle_error-Paced}
use cpp2tnt.Connection.Close.Kept.{close-Closed, handle_error-Same}
use cpp2tnt.Connection.Close.Destroy.{close_returns}
use cpp2tnt.Connection.Send.{SendAnswer}
use cpp2tnt.Connection.Open.{World, open_connection, reconnect_in}
use cpp2tnt.Connection.Timer.Waits.{
  ticks, ticks-expire, bind-ok, expire-closes, waits, ticks-reconnect,
}

-- By the ticks in a row, a connection that is still connecting when the time is over, and whose receive
-- buffer is well-formed and owns its vector, is closed at that second and not before: it is
-- disconnected and has no socket. The timer begins again, and when the time is over once more the
-- connection is opened.
pub ticks-give_up :
    (w : World) (answers : List SendAnswer) (now n t : ℕ) (c : Connection)
    → c.state ≡ connecting
    → c.autoreconnect_ticks ≡ some t
    → suc t + n ≡ c.autoreconnect_timeout
    → IsValid c.rx.receive
    → IsOwned c.rx.receive.target
    → (ticks w answers now n c ≡ ok (reconnect_in (t + n) c))
      × (c' : Connection) × (ticks w answers now (suc n) c ≡ ok c')
      × (c'.state ≡ disconnected)
      × (c'.socket ≡ none)
      × (ticks w answers now (t + n) c' ≡ ok (reconnect_in (t + n) c'))
      × (ticks w answers now (suc (t + n)) c'
          ≡ open_connection w 0 (reconnect_in c.autoreconnect_timeout c'))
ticks-give_up w answers now n t c st e sum v owned =
    let late = reconnect_in c.autoreconnect_timeout c in
    let quiet : State-eq c.state connected ≡ false = ap (λ s. State-eq s connected) st in
    let (x, is) = close_returns true 0 late v owned in
    let (down, none_open, _) =
      OnOk-ok (Closed late) (close true 0 late) x (close-Closed true 0 late) is in
    let paced = OnOk-ok (Paced late) (close true 0 late) x (close-Paced true late) is in
    let (state, socket, _) = handle_error-Same timeout x in
    let c' = reconnect_in 0 (handle_error timeout x) in
    let same : c'.autoreconnect_timeout ≡ c.autoreconnect_timeout =
      handle_error-Paced timeout x ∙ paced in
    let (idle, opens) =
      ticks-reconnect w answers now (t + n) 0 c' (state ∙ down) refl (omega (arith, same)) in
    (
      waits w answers now n t c e (omega arith) quiet,
      c',
      ticks-expire w answers now n t c e sum quiet
          ∙ bind-ok w answers now _
          ∙ expire-closes w answers now late st
          ∙ ap (λ (r : Result Connection). r >>= λ y. ok (reconnect_in 0 (handle_error timeout y)))
              is,
      state ∙ down,
      socket ∙ none_open,
      idle ∙ ap (λ (k : ℕ). ok (reconnect_in k c')) (omega arith),
      opens ∙ ap (λ (k : ℕ). open_connection w 0 (reconnect_in k c')) same,
    )

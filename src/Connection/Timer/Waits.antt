-- ===== src/Connection/Timer/Waits.antt =====
-- connection.cpp: the timer, over several calls of `tick_1sec`.
use cpp2tnt.Prelude.{
  ℕ, zero, suc, ◌+◌, ◌≤◌, ◌<◌, ◌≡◌, refl, ap, ◌∙◌, true, false, Option, some, List, le→leb,
  leb-eq_false, if◌then◌else◌, arith,
}
use cpp2tnt.Outcome.{Result, ok, thrown, undefined, ◌>>=◌}
use cpp2tnt.Connection.{Connection, timeout, disconnected, connected, connecting}
use cpp2tnt.Connection.Close.{handle_error, close, State-eq}
use cpp2tnt.Connection.Send.{SendAnswer}
use cpp2tnt.Connection.Open.{World, open_connection, reconnect_in}
use cpp2tnt.Connection.Timer.{expire, tick_opened, tick_by, tick_1sec}

module _ (w : World) (answers : List SendAnswer) (now : ℕ) where
  -- `n` seconds
  pub ticks : ℕ → Connection → Result Connection
  unfolding tick_1sec
  ticks zero c = ok c
  ticks (suc n) c = tick_1sec w answers now c >>= ticks n

  tick_opened-closed :
      (c : Connection) → State-eq c.state connected ≡ false → tick_opened answers now c ≡ ok c
  unfolding tick_opened
  tick_opened-closed c e = rw e refl

  -- Before its time a tick only counts.
  tick-counts :
      (c : Connection) (t : ℕ)
      → c.autoreconnect_ticks ≡ some t
      → suc t < c.autoreconnect_timeout
      → State-eq c.state connected ≡ false
      → tick_1sec w answers now c ≡ ok (reconnect_in (suc t) c)
  unfolding tick_1sec tick_by
  tick-counts c t e early st =
      ap (tick_by w answers now c) e
      ∙ ap
          (λ b.
            if b
            then expire w (reconnect_in (suc t) c)
            else tick_opened answers now (reconnect_in (suc t) c))
          (leb-eq_false c.autoreconnect_timeout (suc t) early)
      ∙ tick_opened-closed (reconnect_in (suc t) c) st

  tick-expires :
      (c : Connection) (t : ℕ)
      → c.autoreconnect_ticks ≡ some t
      → c.autoreconnect_timeout ≤ suc t
      → tick_1sec w answers now c ≡ expire w (reconnect_in (suc t) c)
  unfolding tick_1sec tick_by
  tick-expires c t e late =
      ap (tick_by w answers now c) e
      ∙ ap
          (λ b.
            if b
            then expire w (reconnect_in (suc t) c)
            else tick_opened answers now (reconnect_in (suc t) c))
          (le→leb c.autoreconnect_timeout (suc t) late)

  -- With `n` seconds to go the timer expires at the tick behind them, and nothing happens before.
  pub ticks-expire :
      (n t : ℕ) (c : Connection)
      → c.autoreconnect_ticks ≡ some t
      → suc t + n ≡ c.autoreconnect_timeout
      → State-eq c.state connected ≡ false
      → ticks (suc n) c ≡ (expire w (reconnect_in c.autoreconnect_timeout c) >>= λ c'. ok c')
  unfolding ticks
  ticks-expire zero t c e sum st =
      ap (λ r. r >>= λ c'. ok c')
        (tick-expires c t e (omega arith)
          ∙ ap (λ (k : ℕ). expire w (reconnect_in k c)) (omega arith))
  ticks-expire (suc n) t c e sum st =
      ap (λ r. r >>= ticks (suc n)) (tick-counts c t e (omega arith) st)
      ∙ ticks-expire n (suc t) (reconnect_in (suc t) c) refl (omega arith) st

  same_ticks : (t : ℕ) (c : Connection) → c.autoreconnect_ticks ≡ some t → c ≡ reconnect_in t c
  same_ticks t c e = ap (λ (o : Option ℕ). record c { autoreconnect_ticks = o }) e

  pub waits :
      (n t : ℕ) (c : Connection)
      → c.autoreconnect_ticks ≡ some t
      → suc t + n ≤ c.autoreconnect_timeout
      → State-eq c.state connected ≡ false
      → ticks n c ≡ ok (reconnect_in (t + n) c)
  unfolding ticks
  waits zero t c e early st =
      ap ok (same_ticks t c e ∙ ap (λ (k : ℕ). reconnect_in k c) (omega arith))
  waits (suc n) t c e early st =
      ap (λ r. r >>= ticks n) (tick-counts c t e (omega arith) st)
      ∙ waits n (suc t) (reconnect_in (suc t) c) refl (omega arith) st
      ∙ ap (λ (k : ℕ). ok (reconnect_in k c)) (omega arith)

  pub bind-ok : (r : Result Connection) → (r >>= λ c. ok c) ≡ r
  bind-ok (ok c) = refl
  bind-ok (thrown e c) = refl
  bind-ok undefined = refl

  expire-opens : (c : Connection) → c.state ≡ disconnected → expire w c ≡ open_connection w 0 c
  unfolding expire
  expire-opens c e =
      ap
        (λ s.
          if State-eq s disconnected
          then open_connection w 0 c
          else close true 0 c >>= λ c'. ok (reconnect_in 0 (handle_error timeout c')))
        e

  pub expire-closes :
      (c : Connection)
      → c.state ≡ connecting
      → expire w c ≡ (close true 0 c >>= λ c'. ok (reconnect_in 0 (handle_error timeout c')))
  unfolding expire
  expire-closes c e =
      ap
        (λ s.
          if State-eq s disconnected
          then open_connection w 0 c
          else close true 0 c >>= λ c'. ok (reconnect_in 0 (handle_error timeout c')))
        e

  -- A disconnected connection whose timer runs is opened again when the time is over, at the second that
  -- the timeout says and not before.
  pub ticks-reconnect :
      (n t : ℕ) (c : Connection)
      → c.state ≡ disconnected
      → c.autoreconnect_ticks ≡ some t
      → suc t + n ≡ c.autoreconnect_timeout
      → (ticks n c ≡ ok (reconnect_in (t + n) c))
        × (ticks (suc n) c ≡ open_connection w 0 (reconnect_in c.autoreconnect_timeout c))
  ticks-reconnect n t c st e sum = (
    waits n t c e (omega arith) quiet,
    ticks-expire n t c e sum quiet
        ∙ bind-ok (expire w (reconnect_in c.autoreconnect_timeout c))
        ∙ expire-opens (reconnect_in c.autoreconnect_timeout c) st,
  )
    where
      quiet : State-eq c.state connected ≡ false
      quiet = ap (λ s. State-eq s connected) st

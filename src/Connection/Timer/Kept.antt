-- ===== src/Connection/Timer/Kept.antt =====
-- connection.cpp: `tick_1sec` keeps the phases of a connection.
use cpp2tnt.Prelude.{ℕ, suc, ◌-◌, true, ◌&&◌, refl, Option, none, some, List, ltb, leb}
use cpp2tnt.Outcome.{ok, OnOk, OnOk-bind, OnOk-if}
use cpp2tnt.Connection.{Connection, timeout, uncorked_data_jam, idle, disconnected, connected}
use cpp2tnt.Connection.Close.{emit, handle_error, close, State-eq}
use cpp2tnt.Connection.Close.Kept.{close-Closed, handle_error-Same}
use cpp2tnt.Connection.Phase.{
  Stays-OnOk, IsCoherent, Same, Closed, Same-if, Same-IsCoherent, Closed-IsCoherent,
}
use cpp2tnt.Connection.Send.{SendAnswer, flush}
use cpp2tnt.Connection.Send.Kept.{flush-Stays}
use cpp2tnt.Connection.Open.{World, open_connection, reconnect_in}
use cpp2tnt.Connection.Open.Kept.Started.{open-IsCoherent}
use cpp2tnt.Connection.Timer.{expire, flush_jam, count_idle, tick_opened, tick_by, tick_1sec}

expire-IsCoherent : (w : World) (c : Connection) → IsCoherent c → OnOk IsCoherent (expire w c)
unfolding expire
expire-IsCoherent w c h =
    OnOk-if IsCoherent (State-eq c.state disconnected) (open_connection w 0 c) _
      (open-IsCoherent w 0 c h)
      (OnOk-bind (Closed c) IsCoherent (close true 0 c)
        (λ c'. ok (reconnect_in 0 (handle_error timeout c'))) (close-Closed true 0 c)
        (λ c' closed.
          Same-IsCoherent c' (reconnect_in 0 (handle_error timeout c'))
            (handle_error-Same timeout c') (Closed-IsCoherent c c' closed h)))

flush_jam-IsCoherent :
    (answers : List SendAnswer) (now : ℕ) (c : Connection)
    → IsCoherent c
    → OnOk IsCoherent (flush_jam answers now c)
unfolding flush_jam
flush_jam-IsCoherent answers now c h =
    let c' = handle_error uncorked_data_jam c in
    OnOk-if IsCoherent (ltb 0 c.tx.uncorked_size && ltb 10 (now - c.last_write_time))
      (flush true answers now c').0 (ok c)
      (Stays-OnOk c' (flush true answers now c').0
        (Same-IsCoherent c c' (handle_error-Same uncorked_data_jam c) h)
        (flush-Stays true answers now c'))
      h

count_idle-Same : (c : Connection) → Same c (count_idle c)
unfolding count_idle
count_idle-Same c =
    let c' = record c { idle_ticks = suc c.idle_ticks } in
    Same-if (leb c.setup.idle_timeout (suc c.idle_ticks) && c.setup.has_idle) c
      (record (emit idle c') { idle_ticks = 0 }) c' (refl, refl, refl) (refl, refl, refl)

tick_opened-IsCoherent :
    (answers : List SendAnswer) (now : ℕ) (c : Connection)
    → IsCoherent c
    → OnOk IsCoherent (tick_opened answers now c)
unfolding tick_opened
tick_opened-IsCoherent answers now c h =
    OnOk-if IsCoherent (State-eq c.state connected) _ (ok c)
      (OnOk-bind IsCoherent IsCoherent (flush_jam answers now c) (λ c'. ok (count_idle c'))
        (flush_jam-IsCoherent answers now c h)
        (λ c' h'. Same-IsCoherent c' (count_idle c') (count_idle-Same c') h'))
      h

tick_by-IsCoherent :
    (w : World) (answers : List SendAnswer) (now : ℕ) (c : Connection) (t : Option ℕ)
    → IsCoherent c
    → OnOk IsCoherent (tick_by w answers now c t)
unfolding tick_by
tick_by-IsCoherent w answers now c none h = tick_opened-IsCoherent answers now c h
tick_by-IsCoherent w answers now c (some t) h =
    let c' = reconnect_in (suc t) c in
    OnOk-if IsCoherent (leb c.autoreconnect_timeout (suc t)) (expire w c')
      (tick_opened answers now c') (expire-IsCoherent w c' h)
      (tick_opened-IsCoherent answers now c' h)

pub tick-IsCoherent :
    (w : World) (answers : List SendAnswer) (now : ℕ) (c : Connection)
    → IsCoherent c
    → OnOk IsCoherent (tick_1sec w answers now c)
unfolding tick_1sec
tick-IsCoherent w answers now c h = tick_by-IsCoherent w answers now c c.autoreconnect_ticks h

-- ===== src/Connection/Timer.antt =====
-- connection.cpp: `tick_1sec`, which is called every second.
pub mod Kept
pub mod Waits
pub mod GiveUp
use cpp2tnt.Prelude.{
  ℕ, suc, ◌-◌, Bool, true, ◌&&◌, Option, none, some, List, ltb, leb, if◌then◌else◌,
}
use cpp2tnt.Outcome.{Result, ok, ◌>>=◌}
use cpp2tnt.Connection.{Connection, timeout, uncorked_data_jam, idle, disconnected, connected}
use cpp2tnt.Connection.Close.{emit, handle_error, close, State-eq}
use cpp2tnt.Connection.Send.{SendAnswer, flush}
use cpp2tnt.Connection.Open.{World, open_connection, reconnect_in}

-- The time of reconnecting, or of giving up, has come.
pub expire : World → Connection → Result Connection
unfolding open_connection close handle_error
expire w c =
    if State-eq c.state disconnected
    then open_connection w 0 c
    else close true 0 c >>= λ c'. ok (reconnect_in 0 (handle_error timeout c'))

-- Uncorked data that was not written for ten seconds is reported and flushed.
flush_jam : List SendAnswer → ℕ → Connection → Result Connection
unfolding flush handle_error
flush_jam answers now c =
    if ltb 0 c.tx.uncorked_size && ltb 10 (now - c.last_write_time)
    then (flush true answers now (handle_error uncorked_data_jam c)).0
    else ok c

count_idle : Connection → Connection
count_idle c =
    let c' = record c { idle_ticks = suc c.idle_ticks } in
    if leb c.setup.idle_timeout (suc c.idle_ticks) && c.setup.has_idle
    then record (emit idle c') { idle_ticks = 0 }
    else c'

pub tick_opened : List SendAnswer → ℕ → Connection → Result Connection
unfolding flush_jam count_idle
tick_opened answers now c =
    if State-eq c.state connected
    then (flush_jam answers now c >>= λ c'. ok (count_idle c'))
    else ok c

pub tick_by : World → List SendAnswer → ℕ → Connection → Option ℕ → Result Connection
unfolding expire tick_opened
tick_by w answers now c none = tick_opened answers now c
tick_by w answers now c (some t) =
    let c' = reconnect_in (suc t) c in
    if leb c.autoreconnect_timeout (suc t) then expire w c' else tick_opened answers now c'

-- connection::tick_1sec. The idle handler returns.
unfoldable pub tick_1sec : World → List SendAnswer → ℕ → Connection → Result Connection
unfolding tick_by
tick_1sec w answers now c = tick_by w answers now c c.autoreconnect_ticks

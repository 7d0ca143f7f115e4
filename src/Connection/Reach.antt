-- ===== src/Connection/Reach.antt =====
-- connection.cpp: the calls of a connection as steps, and the states that they lead to.
use cpp2tnt.Prelude.{ℕ, Bool, true, false, ◌≡◌, sym, subst, List, Bytes}
use cpp2tnt.Outcome.{ok, OnOk, OnOk-ok, OnOk-bind}
use cpp2tnt.Msgpuck.{Msgpuck}
use cpp2tnt.Iproto.{ProtoId}
use cpp2tnt.Connection.{Connection, Notification, handler}
use cpp2tnt.Connection.Close.{close}
use cpp2tnt.Connection.Close.Kept.{close-Closed}
use cpp2tnt.Connection.Phase.{Stays-OnOk, Same-OnOk, Closed-OnOk, IsCoherent}
use cpp2tnt.Connection.Send.{SendAnswer, flush, cork, uncork}
use cpp2tnt.Connection.Send
use cpp2tnt.Connection.Send.Kept.{write-Stays, flush-Stays}
use cpp2tnt.Connection.Receive.{input_processed}
use cpp2tnt.Connection.Receive.Kept.{pass_response-Same}
use cpp2tnt.Connection.Open.{
  World, open_connection, acquire_notifications, push_handler, set_connection_string,
  set_required_proto,
}
use cpp2tnt.Connection.Open.Kept.{acquire_notifications-IsCoherent}
use cpp2tnt.Connection.Open.Kept.Started.{
  open-IsCoherent, push_handler-IsCoherent, resolver_ends-IsCoherent,
  set_connection_string-IsCoherent, IsRunning, IsAnswer,
}
use cpp2tnt.Connection.Timer.{tick_1sec}
use cpp2tnt.Connection.Timer.Kept.{tick-IsCoherent}
use cpp2tnt.Connection.Read.{RecvAnswer}
use cpp2tnt.Connection.Read
use cpp2tnt.Connection.Read.Kept.{read-IsCoherent}
use cpp2tnt.IprotoWriter.Auth.{Digests}
use cpp2tnt.Connection.Handshake.{handshake}
use cpp2tnt.Connection.Handshake.Kept.{handshake-IsCoherent}
use cpp2tnt.Connection.Setters.{Setting, set_handler, create}

module _ (m : Msgpuck) (d : Digests) where
  -- A call that returns, or the end of the resolver's thread.
  pub data Step (c c' : Connection) : Type 0 where
    opens : (w : World) (delay : ℕ) → open_connection w delay c ≡ ok c' → Step c c'
    closes : (call : Bool) (delay : ℕ) → close call delay c ≡ ok c' → Step c c'
    writes :
        (socket_ok : Bool) (answers : List SendAnswer) (now : ℕ)
        → Send.write socket_ok answers now c ≡ ok c'
        → Step c c'
    flushes :
        (socket_ok : Bool) (answers : List SendAnswer) (now : ℕ)
        → (flush socket_ok answers now c).0 ≡ ok c'
        → Step c c'
    uncorks :
        (socket_ok : Bool) (answers : List SendAnswer) (now : ℕ)
        → uncork socket_ok answers now c ≡ ok c'
        → Step c c'
    corks : c' ≡ cork c → Step c c'
    reads :
        (arrived : List RecvAnswer) (answers : List SendAnswer) (now : ℕ)
        → Read.read m (handshake m d answers now) arrived answers now c ≡ ok c'
        → Step c c'
    processed : input_processed c ≡ ok c' → Step c c'
    ticks :
        (w : World) (answers : List SendAnswer) (now : ℕ)
        → tick_1sec w answers now c ≡ ok c'
        → Step c c'
    acquires : acquire_notifications c ≡ ok c' → Step c c'
    pushes : (k : ℕ) → c' ≡ push_handler (handler k) c → Step c c'
    resolver_ends :
        (n : Notification) → IsAnswer n → IsRunning c → c' ≡ push_handler n c → Step c c'
    renames : (cs : Bytes) → set_connection_string cs c ≡ ok c' → Step c c'
    requires : (proto : ProtoId) → c' ≡ set_required_proto proto c → Step c c'
    sets : (s : Setting) → c' ≡ set_handler s c → Step c c'

  pub data Reach (c : Connection) : Connection → Type 0 where
    here : Reach c c
    next : {c' c'' : Connection} → Reach c c' → Step c' c'' → Reach c c''

  uncork-IsCoherent :
      (socket_ok : Bool) (answers : List SendAnswer) (now : ℕ) (c : Connection)
      → IsCoherent c
      → OnOk IsCoherent (uncork socket_ok answers now c)
  unfolding uncork
  uncork-IsCoherent socket_ok answers now c h =
      OnOk-bind IsCoherent IsCoherent (flush socket_ok answers now c).0
        (λ c'. ok (record c' { is_corked = false }))
        (Stays-OnOk c (flush socket_ok answers now c).0 h (flush-Stays socket_ok answers now c))
        (λ c' h'. h')

  processed-IsCoherent : (c : Connection) → IsCoherent c → OnOk IsCoherent (input_processed c)
  unfolding input_processed
  processed-IsCoherent c h =
      let c' = record c { rx = record c.rx { caller_idle = true } } in
      Same-OnOk c' (input_processed c) h (pass_response-Same c')

  set_handler-IsCoherent :
      (s : Setting) (c : Connection) → IsCoherent c → IsCoherent (set_handler s c)
  unfolding set_handler
  set_handler-IsCoherent (Setting.on_opened h) c v = v
  set_handler-IsCoherent (Setting.on_closed h) c v = v
  set_handler-IsCoherent (Setting.on_idle timeout has) c v = v
  set_handler-IsCoherent (Setting.on_error has) c v = v
  set_handler-IsCoherent (Setting.on_socket_watcher_request has) c v = v
  set_handler-IsCoherent (Setting.on_notify_request has) c v = v
  set_handler-IsCoherent (Setting.on_response h) c v = v

  Step-IsCoherent : {c c' : Connection} → Step c c' → IsCoherent c → IsCoherent c'
  unfolding cork set_required_proto
  Step-IsCoherent {c = c} {c' = c'} (opens w delay e) h =
      OnOk-ok IsCoherent (open_connection w delay c) c' (open-IsCoherent w delay c h) e
  Step-IsCoherent {c = c} {c' = c'} (closes call delay e) h =
      OnOk-ok IsCoherent (close call delay c) c'
        (Closed-OnOk c (close call delay c) h (close-Closed call delay c)) e
  Step-IsCoherent {c = c} {c' = c'} (writes b answers now e) h =
      OnOk-ok IsCoherent (Send.write b answers now c) c'
        (Stays-OnOk c (Send.write b answers now c) h (write-Stays b answers now c)) e
  Step-IsCoherent {c = c} {c' = c'} (flushes b answers now e) h =
      OnOk-ok IsCoherent (flush b answers now c).0 c'
        (Stays-OnOk c (flush b answers now c).0 h (flush-Stays b answers now c)) e
  Step-IsCoherent {c = c} {c' = c'} (uncorks b answers now e) h =
      OnOk-ok IsCoherent (uncork b answers now c) c' (uncork-IsCoherent b answers now c h) e
  Step-IsCoherent {c = c} {c' = c'} (corks e) h = subst IsCoherent (sym e) h
  Step-IsCoherent {c = c} {c' = c'} (reads arrived answers now e) h =
      OnOk-ok IsCoherent (Read.read m (handshake m d answers now) arrived answers now c) c'
        (read-IsCoherent (handshake m d answers now) (handshake-IsCoherent m d answers now) m
          arrived answers now c h)
        e
  Step-IsCoherent {c = c} {c' = c'} (processed e) h =
      OnOk-ok IsCoherent (input_processed c) c' (processed-IsCoherent c h) e
  Step-IsCoherent {c = c} {c' = c'} (ticks w answers now e) h =
      OnOk-ok IsCoherent (tick_1sec w answers now c) c' (tick-IsCoherent w answers now c h) e
  Step-IsCoherent {c = c} {c' = c'} (acquires e) h =
      OnOk-ok IsCoherent (acquire_notifications c) c' (acquire_notifications-IsCoherent c h) e
  Step-IsCoherent {c = c} {c' = c'} (pushes k e) h =
      subst IsCoherent (sym e) (push_handler-IsCoherent k c h)
  Step-IsCoherent {c = c} {c' = c'} (resolver_ends n a running e) h =
      subst IsCoherent (sym e) (resolver_ends-IsCoherent n c a running h)
  Step-IsCoherent {c = c} {c' = c'} (renames cs e) h =
      OnOk-ok IsCoherent (set_connection_string cs c) c' (set_connection_string-IsCoherent cs c h) e
  Step-IsCoherent {c = c} {c' = c'} (requires proto e) h = subst IsCoherent (sym e) h
  Step-IsCoherent {c = c} {c' = c'} (sets s e) h =
      subst IsCoherent (sym e) (set_handler-IsCoherent s c h)

  Reach-IsCoherent : {c c' : Connection} → Reach c c' → IsCoherent c → IsCoherent c'
  Reach-IsCoherent here h = h
  Reach-IsCoherent (next r s) h = Step-IsCoherent s (Reach-IsCoherent r h)

  -- Whatever is called in whatever order, a connection has a socket exactly from the state
  -- `connecting` on, a resolver that is not joined only where there is no socket, and at most one
  -- notification of the resolver in its queue, which is there only before the resolver is joined.
  pub create-IsCoherent : (cs : Bytes) (c : Connection) → Reach (create cs) c → IsCoherent c
  unfolding create
  create-IsCoherent cs c r = Reach-IsCoherent r (tt, tt)

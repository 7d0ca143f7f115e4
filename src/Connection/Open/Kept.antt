-- ===== src/Connection/Open/Kept.antt =====
-- connection.cpp: opening takes a socket only where there is none, and starts a resolver only where none
-- is running.
pub mod Started
use cpp2tnt.Prelude.{
  ℕ, Bool, true, false, not, Bool-cases, inl, inr, ◌≡◌, refl, sym, ap, ◌∙◌, subst, Option, none,
  some, List, [], ◌∷◌, ◌++◌, Bytes, length, ltb, leb, if◌then◌else◌,
}
use cpp2tnt.Outcome.{
  Result, ok, thrown, undefined, ◌>>=◌, guard, OnOk, OnOk-bind, OnOk-if, OnOk-guard,
}
use cpp2tnt.CsParser.{CsParts, Parsed, found, stuck, unfinished, parse_cs}
use cpp2tnt.Connection.{
  Connection, State, Setup, Attempt, no_socket, attempt, ConnectAnswer, established, pending,
  refused, Notification, resolved, not_resolved, handler, invalid_parameter, bad_call_sequence,
  getaddr_in_progress, system, getaddr, read, write, notify_request, socket_closed, disconnected,
  address_resolving, connecting, connected,
}
use cpp2tnt.Connection.Close.{emit, handle_error, watch_socket, close, State-eq}
use cpp2tnt.Connection.Close.Kept.{close-Closed, handle_error-Same, watch_socket-Same}
use cpp2tnt.Connection.Phase.{
  Fits, Queued, Phases, IsCoherent, Same, Closed, Same-if, Same-IsCoherent,
}
use cpp2tnt.Connection.Open.{
  World, general_timeout, path_size, reconnect_in, replace_socket, take_socket, give_up,
  after_connect, try_addresses, address_resolved, open_unix, open_parts, open_connection,
  push_handler, joined, run_handler, run_handlers, acquire_notifications,
}

-- A state that fits its socket, without a resolver.
abbrev Settled : Connection → Connection → Type 0
Settled c c' = Fits c'.state c'.socket false × (c'.setup ≡ c.setup)

Settled_lem :
    (c c' : Connection) (s : State) (k : Option ℕ)
    → c'.state ≡ s
    → c'.socket ≡ k
    → c'.setup ≡ c.setup
    → Fits s k false
    → Settled c c'
Settled_lem c c' s k a b d h =
    (subst (λ s. Fits s c'.socket false) (sym a) (subst (λ k. Fits s k false) (sym b) h), d)

Settled-Same : (c t c' : Connection) → Settled c t → Same t c' → Settled c c'
Settled-Same c t c' (h, d) (a, b, d') = Settled_lem c c' t.state t.socket a b (d' ∙ d) h

Settled-Closed : (c t c' : Connection) → t.setup ≡ c.setup → Closed t c' → Settled c c'
Settled-Closed c t c' e (a, b, d) = Settled_lem c c' disconnected none a b (d ∙ e) tt

replace_socket_lem :
    (k : Option ℕ) (fd : ℕ) (c : Connection)
    → k ≡ none
    → replace_socket k fd c ≡ record c { socket = some fd }
unfolding replace_socket
replace_socket_lem k fd c e = ap (λ k. replace_socket k fd c) e

take_socket-Settled :
    (fd : ℕ) (c : Connection)
    → c.state ≡ connecting
    → c.socket ≡ none
    → Settled c (take_socket fd c)
unfolding take_socket
take_socket-Settled fd c st empty =
    subst (λ t. Settled c t) (sym (replace_socket_lem c.socket fd c empty))
      (Settled_lem c (record c { socket = some fd }) connecting (some fd) st refl refl tt)

give_up-Settled : (fd : ℕ) (c : Connection) → OnOk (Settled c) (give_up fd c)
unfolding give_up
give_up-Settled fd c =
    let c' = handle_error system c in
    let (_, _, setup) = handle_error-Same system c in
    OnOk-bind (Closed c') (Settled c) (close false 0 c')
      (λ c''. ok (emit (socket_closed fd) (reconnect_in 0 c''))) (close-Closed false 0 c')
      (λ c'' h. Settled-Closed c c' (emit (socket_closed fd) (reconnect_in 0 c'')) setup h)

after_connect-Settled :
    (fd : ℕ) (answer : ConnectAnswer) (c : Connection)
    → c.state ≡ connecting
    → c.socket ≡ none
    → OnOk (Settled c) (after_connect fd answer c)
unfolding after_connect
after_connect-Settled fd established c st empty =
    let t = take_socket fd c in
    Settled-Same c t (watch_socket read t) (take_socket-Settled fd c st empty)
      (watch_socket-Same read t)
after_connect-Settled fd pending c st empty =
    let t = take_socket fd c in
    Settled-Same c t (reconnect_in 0 (watch_socket write t)) (take_socket-Settled fd c st empty)
      (watch_socket-Same write t)
after_connect-Settled fd refused c st empty = give_up-Settled fd c

OnOk-Settled :
    (c c' : Connection) (r : Result Connection)
    → c'.setup ≡ c.setup
    → OnOk (Settled c') r
    → OnOk (Settled c) r
OnOk-Settled c c' (ok x) e (h, d) = (h, d ∙ e)
OnOk-Settled c c' (thrown why x) e h = tt
OnOk-Settled c c' undefined e h = tt

try_addresses-Settled :
    (addresses : List Attempt) (c : Connection)
    → c.socket ≡ none
    → OnOk (Settled c) (try_addresses addresses c)
unfolding try_addresses
try_addresses-Settled [] c empty =
    Settled_lem c (reconnect_in 0 (record c { state = disconnected })) disconnected none refl empty
      refl tt
try_addresses-Settled (no_socket ∷ more) c empty =
    let c' = handle_error system c in
    let (_, socket, setup) = handle_error-Same system c in
    OnOk-Settled c c' (try_addresses more c') setup (try_addresses-Settled more c' (socket ∙ empty))
try_addresses-Settled (attempt fd answer ∷ more) c empty =
    after_connect-Settled fd answer (record c { state = connecting }) refl empty

-- A connection with a resolver that is not joined has no socket.
socket_none : (s : State) (k : Option ℕ) → Fits s k true → k ≡ none
socket_none s none h = refl
socket_none disconnected (some fd) h = absurd h
socket_none address_resolving (some fd) h = absurd h
socket_none connecting (some fd) h = absurd h
socket_none State.features_request (some fd) h = absurd h
socket_none State.authentication (some fd) h = absurd h
socket_none connected (some fd) h = absurd h

not_resolving :
    (s : State) (k : Option ℕ)
    → Fits s k true
    → State-eq s address_resolving ≡ false
    → Fits s k false
not_resolving disconnected none h e = tt
not_resolving disconnected (some fd) h e = absurd h
not_resolving address_resolving k h e = cc
not_resolving connecting none h e = absurd h
not_resolving connecting (some fd) h e = absurd h
not_resolving State.features_request none h e = absurd h
not_resolving State.features_request (some fd) h e = absurd h
not_resolving State.authentication none h e = absurd h
not_resolving State.authentication (some fd) h e = absurd h
not_resolving connected none h e = absurd h
not_resolving connected (some fd) h e = absurd h

address_resolved-Settled :
    (addresses : List Attempt) (c : Connection)
    → Fits c.state c.socket true
    → OnOk (Settled c) (address_resolved addresses c)
unfolding address_resolved
address_resolved-Settled addresses c h = elim (Bool-cases (State-eq c.state address_resolving)) [
  | inl e ↦ rw e (try_addresses-Settled addresses c (socket_none c.state c.socket h))
  | inr e ↦ rw e (not_resolving c.state c.socket h e, refl)
]

-- While the queue is run: what is left of it, and nothing new.
abbrev Running : List Notification → Connection → Type 0
Running ns c =
    Fits c.state c.socket c.setup.resolver_joinable
    × Queued c.setup.resolver_joinable ns
    × (c.setup.notifications ≡ [])

Settled-Running :
    (ns : List Notification) (c c' : Connection)
    → c.setup.resolver_joinable ≡ false
    → c.setup.notifications ≡ []
    → Queued false ns
    → Settled c c'
    → Running ns c'
Settled-Running ns c c' j n q (h, d) =
    let j' : c'.setup.resolver_joinable ≡ false = ap (λ (u : Setup). u.resolver_joinable) d ∙ j in
    (
      subst (λ j. Fits c'.state c'.socket j) (sym j') h,
      subst (λ j. Queued j ns) (sym j') q,
      ap (λ (u : Setup). u.notifications) d ∙ n,
    )

-- A notification of the resolver comes while it is not joined.
joinable_lem :
    (j : Bool) (ns : List Notification)
    → Queued j (not_resolved ∷ ns)
    → (j ≡ true) × Queued false ns
joinable_lem true ns q = (refl, q)
joinable_lem false ns q = absurd q

joinable_lem' :
    (j : Bool) (a : List Attempt) (ns : List Notification)
    → Queued j (resolved a ∷ ns)
    → Queued j (not_resolved ∷ ns)
joinable_lem' true a ns q = q
joinable_lem' false a ns q = q

run_handler-Running :
    (n : Notification) (ns : List Notification) (c : Connection)
    → Running (n ∷ ns) c
    → OnOk (Running ns) (run_handler n c)
unfolding run_handler
run_handler-Running (handler n) ns c h = h
run_handler-Running (resolved a) ns c (fits, queued, empty) =
    let (j, q) =
      joinable_lem c.setup.resolver_joinable ns
        (joinable_lem' c.setup.resolver_joinable a ns queued) in
    settled (address_resolved a (joined c)) q
      (address_resolved-Settled a (joined c) (subst (λ j. Fits c.state c.socket j) j fits))
  where
    settled :
        (r : Result Connection)
        → Queued false ns
        → OnOk (Settled (joined c)) r
        → OnOk (Running ns) r
    settled (ok c') q s = Settled-Running ns (joined c) c' refl empty q s
    settled (thrown e c') q s = tt
    settled undefined q s = tt
run_handler-Running not_resolved ns c (fits, queued, empty) =
    let (j, q) = joinable_lem c.setup.resolver_joinable ns queued in
    let down = record (joined c) { state = disconnected } in
    let c' = reconnect_in 0 (handle_error getaddr down) in
    let none' = socket_none c.state c.socket (subst (λ j. Fits c.state c.socket j) j fits) in
    Settled-Running ns down c' refl empty q (
      Settled-Same down down c' (Settled_lem down down disconnected none refl none' refl tt)
        (handle_error-Same getaddr down))

run_handlers-IsCoherent :
    (ns : List Notification) (c : Connection) → Running ns c → OnOk IsCoherent (run_handlers ns c)
unfolding run_handlers
run_handlers-IsCoherent [] c (fits, queued, empty) =
    (fits, subst (λ ns. Queued c.setup.resolver_joinable ns) (sym empty) tt)
run_handlers-IsCoherent (n ∷ ns) c h =
    OnOk-bind (Running ns) IsCoherent (run_handler n c) (run_handlers ns)
      (run_handler-Running n ns c h) (run_handlers-IsCoherent ns)

pub acquire_notifications-IsCoherent :
    (c : Connection) → IsCoherent c → OnOk IsCoherent (acquire_notifications c)
unfolding acquire_notifications
acquire_notifications-IsCoherent c (fits, queued) =
    run_handlers-IsCoherent c.setup.notifications
      (record c { setup = record c.setup { notifications = [] } }) (fits, queued, refl)

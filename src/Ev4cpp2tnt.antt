-- ===== src/Ev4cpp2tnt.antt =====
-- ev4cpp2tnt.h, ev4cpp2tnt.cpp: the watchers of the connections in an event loop of libev. libev is no
-- part of the repository, so the loop is a parameter. A watcher is known by its address, and so is the
-- pair of watchers that is allocated for a connection; an address is not used again.
pub mod Owned
pub mod Bound
pub mod Tended
pub mod Watching
pub mod Calls
pub mod Life
use cpp2tnt.Prelude.{
  ℕ, zero, suc, ◌+◌, ◌*◌, ◌≡◌, ◌≢◌, Bool, true, false, not, ◌||◌, Option, none, some, List, [], ◌∷◌,
  length, ◌==◌, if◌then◌else◌,
}
use cpp2tnt.Outcome.{Result, ok, thrown, undefined, ◌>>=◌, on_part, guard}
use cpp2tnt.Connection.{Connection, SocketState, unwatched, read, write, read_write}

-- What a watcher waits for: ev_async, ev_timer, and ev_io with a descriptor (`none` is -1) and events.
pub data Interest : Type 0 where
  signal second : Interest
  socket : Option ℕ → SocketState → Interest

-- The calls of libev. `active` tells of a watcher whether the loop has it, and with what.
pub record Libev : Type 1 where
  pub Loop : Type 0
  pub active : Loop → ℕ → Option Interest
  pub start : ℕ → Interest → Loop → Loop
  pub stop : ℕ → Loop → Loop
  pub unref : Loop → Loop

-- What libev says of them: a watcher that is stopped can be started, one that is active can be stopped,
-- and the others are left alone.
pub record LibevLaws (L : Libev) : Type 0 where
  pub started :
      (l : L.Loop) (w : ℕ) (x : Interest)
      → L.active l w ≡ none
      → L.active (L.start w x l) w ≡ some x
  pub stopped : (l : L.Loop) (w : ℕ) → L.active (L.stop w l) w ≡ none
  pub start_other :
      (l : L.Loop) (v w : ℕ) (x : Interest) → v ≢ w → L.active (L.start w x l) v ≡ L.active l v
  pub stop_other : (l : L.Loop) (v w : ℕ) → v ≢ w → L.active (L.stop w l) v ≡ L.active l v
  pub unref_all : (l : L.Loop) (v : ℕ) → L.active (L.unref l) v ≡ L.active l v

-- std::pair<ev_async, ev_io>, with the fields that ev_io_set sets, under the connection that it is for
pub record Bundle : Type 0 where
  pub connection : ℕ
  pub id : ℕ
  pub fd : Option ℕ
  pub events : SocketState

-- The addresses of the timer and of the two watchers of a bundle.
abbrev pub timer_of : ℕ
timer_of = 0

abbrev pub async_of : ℕ → ℕ
async_of id = 2 * id + 1

abbrev pub io_of : ℕ → ℕ
io_of id = 2 * id + 2

-- The handlers of a connection that ev4cpp2tnt sets: on_notify_request and on_socket_watcher_request
-- with the bundle that they are bound to, and whether there is one for on_destruct.
pub record Hooks : Type 0 where
  pub notify : Option ℕ
  pub watcher : Option ℕ
  pub destruct : Bool

abbrev pub no_hooks : Hooks
no_hooks = record { notify = none; watcher = none; destruct = false }

-- ev_data, with the handlers of the connections and whether those of all connections are set; and which
-- connections are alive: a call of one that is freed has undefined behaviour.
pub record EvData (L : Libev) : Type 0 where
  pub loop : L.Loop
  pub bundles : List Bundle
  pub fresh : ℕ
  pub hooks : ℕ → Hooks
  pub global : Bool
  pub alive : ℕ → Bool

abbrev pub update_alive : (ℕ → Bool) → ℕ → Bool → ℕ → Bool
update_alive f cn b i = if i == cn then b else f i

abbrev pub update : (ℕ → Hooks) → ℕ → Hooks → ℕ → Hooks
update f cn h i = if i == cn then h else f i

abbrev pub or_else {ℓ} : {A : Type ℓ} → Bool → A → Option A → Option A
or_else true a o = some a
or_else false a o = o

-- per_connection_watchers.find
abbrev pub find : ℕ → List Bundle → Option Bundle
find cn [] = none
find cn (b ∷ bs) = or_else (b.connection == cn) b (find cn bs)

abbrev pub choose {ℓ} : {A : Type ℓ} → Bool → A → A → A
choose true a b = a
choose false a b = b

-- per_connection_watchers.extract
abbrev pub remove : ℕ → List Bundle → List Bundle
remove cn [] = []
remove cn (b ∷ bs) = choose (b.connection == cn) bs (b ∷ remove cn bs)

-- ev_io_set
abbrev pub set_io : ℕ → Option ℕ → SocketState → List Bundle → List Bundle
set_io cn fd mode [] = []
set_io cn fd mode (b ∷ bs) =
    choose (b.connection == cn) (record b { fd = fd; events = mode } ∷ bs)
      (b ∷ set_io cn fd mode bs)

abbrev pub is_some {ℓ} : {A : Type ℓ} → Option A → Bool
is_some none = false
is_some (some a) = true

abbrev pub SocketState-code : SocketState → ℕ
SocketState-code unwatched = 0
SocketState-code read = 1
SocketState-code write = 2
SocketState-code read_write = 3

abbrev pub SocketState-eq : SocketState → SocketState → Bool
SocketState-eq a b = SocketState-code a == SocketState-code b

module _ (L : Libev) where
  -- The bundle that try_emplace adds, whose watchers are initialised and whose ev_async is started.
  added : ℕ → EvData L → EvData L
  added cn e = record e {
    loop = L.start (async_of e.fresh) signal e.loop;
    bundles = record { connection = cn; id = e.fresh; fd = some 0; events = unwatched } ∷ e.bundles;
    fresh = suc e.fresh;
    hooks =
        update e.hooks cn (record (e.hooks cn) { notify = some e.fresh; watcher = some e.fresh });
  }

  abbrev if_absent : Option Bundle → EvData L → EvData L → EvData L
  if_absent none e present = e
  if_absent (some b) e present = present

  -- register_connection
  unfoldable pub register_connection : ℕ → EvData L → EvData L
  unfolding added
  register_connection cn e = if_absent (find cn e.bundles) (added cn e) e

  -- if (ev_is_active(w)) ev_…_stop(loop, w)
  pub stop_active : ℕ → L.Loop → L.Loop
  stop_active w l = if is_some (L.active l w) then L.stop w l else l

  -- The end of unregister_connection, with the node that was extracted.
  pub release : ℕ → Option Bundle → EvData L → EvData L
  unfolding stop_active
  release cn none e = e
  release cn (some b) e = record e {
    loop = stop_active (io_of b.id) (stop_active (async_of b.id) e.loop);
    bundles = remove cn e.bundles;
    hooks = update e.hooks cn (record (e.hooks cn) { watcher = none });
  }

  -- unregister_connection, of a connection that is alive or whose destructor is running
  unfoldable pub unregister_connection : ℕ → EvData L → EvData L
  unfolding release
  unregister_connection cn e = release cn (find cn e.bundles) e

  -- The part of the handler that has something to change: the watcher is stopped, set and started.
  pub rewatch : ℕ → Bundle → Option ℕ → SocketState → EvData L → EvData L
  unfolding stop_active
  rewatch cn b fd mode e =
      let w = io_of b.id in
      let l = stop_active w e.loop in
      record e {
        loop = if SocketState-eq mode unwatched then l else L.start w (socket fd mode) l;
        bundles = set_io cn fd mode e.bundles;
      }

  -- The handler for on_socket_watcher_request of the bundle `id`, which is gone if the map does not
  -- have it; `fd` is the socket_handle() of the connection.
  pub socket_request : ℕ → ℕ → Option ℕ → SocketState → EvData L → Option Bundle → Result (EvData L)
  unfolding rewatch
  socket_request cn id fd mode e none = undefined
  socket_request cn id fd mode e (some b) =
      if not (b.id == id)
      then undefined
      else if not (is_some (L.active e.loop (io_of id))) || not (SocketState-eq b.events mode)
      then ok (rewatch cn b fd mode e)
      else ok e

  -- A connection calls its handler for on_socket_watcher_request, if it has one.
  pub call_watcher : ℕ → Option ℕ → SocketState → Option ℕ → EvData L → Result (EvData L)
  unfolding socket_request
  call_watcher cn fd mode none e = ok e
  call_watcher cn fd mode (some id) e = socket_request cn id fd mode e (find cn e.bundles)

  unfoldable pub request_watcher : ℕ → Option ℕ → SocketState → EvData L → Result (EvData L)
  unfolding call_watcher
  request_watcher cn fd mode e = guard (e.alive cn) (call_watcher cn fd mode (e.hooks cn).watcher e)

  -- ev_async_send of the bundle `id`
  pub async_send : ℕ → EvData L → Option Bundle → Result (EvData L)
  async_send id e none = undefined
  async_send id e (some b) = if b.id == id then ok e else undefined

  -- A connection calls its handler for on_notify_request, if it has one.
  pub call_notify : ℕ → Option ℕ → EvData L → Result (EvData L)
  unfolding async_send
  call_notify cn none e = ok e
  call_notify cn (some id) e = async_send id e (find cn e.bundles)

  unfoldable pub request_notify : ℕ → EvData L → Result (EvData L)
  unfolding call_notify
  request_notify cn e = guard (e.alive cn) (call_notify cn (e.hooks cn).notify e)

  -- ev4cpp2tnt::take_care
  unfoldable pub take_care : ℕ → EvData L → Result (EvData L)
  unfolding register_connection
  take_care cn e =
      let e' = register_connection cn e in
      guard (e.alive cn)
        (ok (record e' { hooks = update e'.hooks cn (record (e'.hooks cn) { destruct = true }) }))

  -- ev4cpp2tnt::enable_globally, disable_globally
  unfoldable pub set_globally : Bool → EvData L → EvData L
  set_globally on e = record e { global = on }

  -- What the constructor of a connection and its destructor do for the loop. Behind the destructor the
  -- connection is freed, also where the map still has it.
  unfoldable pub construct_connection : ℕ → EvData L → EvData L
  unfolding register_connection
  construct_connection cn e =
      let e' = record e {
        hooks = update e.hooks cn no_hooks;
        alive = update_alive e.alive cn true;
      } in
      if e.global then register_connection cn e' else e'

  freed : ℕ → EvData L → EvData L
  freed cn e = record e { alive = update_alive e.alive cn false }

  unfoldable pub destruct_connection : ℕ → EvData L → Result (EvData L)
  unfolding unregister_connection freed
  destruct_connection cn e =
      guard (e.alive cn) (
        ok (freed cn (if (e.hooks cn).destruct || e.global then unregister_connection cn e else e)))

  -- ev4cpp2tnt::ev4cpp2tnt(loop) of a loop
  unfoldable pub create : L.Loop → EvData L
  create l = record {
    loop = L.unref (L.start timer_of second l);
    bundles = [];
    fresh = 0;
    hooks = λ cn. no_hooks;
    global = false;
    alive = λ cn. false;
  }

  abbrev forget_destruct : ℕ → EvData L → EvData L
  forget_destruct cn e = record e {
    hooks = update e.hooks cn (record (e.hooks cn) { destruct = false });
  }

  -- The loop of ev4cpp2tnt::~ev4cpp2tnt, by the bundle that begin() refers to; each round takes a
  -- bundle at least. The connection of the bundle is called.
  pub unregister_all : ℕ → List Bundle → EvData L → Result (EvData L)
  unfolding unregister_connection
  unregister_all fuel [] e = ok e
  unregister_all zero (b ∷ bs) e = undefined
  unregister_all (suc fuel) (b ∷ bs) e =
      let e' = unregister_connection b.connection (forget_destruct b.connection e) in
      guard (e.alive b.connection) (unregister_all fuel e'.bundles e')

  -- ev4cpp2tnt::~ev4cpp2tnt
  unfoldable pub destroy : EvData L → Result (EvData L)
  unfolding unregister_all
  destroy e = unregister_all (length e.bundles) e.bundles e >>= λ e'.
      ok (record e' { loop = L.stop timer_of e'.loop })

abbrev put_connection : (ℕ → Connection) → ℕ → Connection → ℕ → Connection
put_connection cns cn c i = if i == cn then c else cns i

-- timer_cb: every connection of the map is ticked, if it is alive.
unfoldable pub timer_cb :
    (ℕ → Connection → Result Connection)
    → (ℕ → Bool)
    → List Bundle
    → (ℕ → Connection)
    → Result (ℕ → Connection)
timer_cb tick alive [] cns = ok cns
timer_cb tick alive (b ∷ bs) cns = guard (alive b.connection) (
    on_part (put_connection cns b.connection) (tick b.connection (cns b.connection))
      λ c. timer_cb tick alive bs (put_connection cns b.connection c))

abbrev asks_write : SocketState → Bool
asks_write unwatched = false
asks_write read = false
asks_write write = true
asks_write read_write = true

abbrev asks_read : SocketState → Bool
asks_read unwatched = false
asks_read read = true
asks_read write = false
asks_read read_write = true

-- socket_event_cb, with connection::write and connection::read as they go by the answers of the system
unfoldable pub socket_event_cb :
    (Connection → Result Connection)
    → (Connection → Result Connection)
    → SocketState
    → Connection
    → Result Connection
socket_event_cb send receive revents c = (if asks_write revents then send c else ok c) >>= λ c'.
    if asks_read revents then receive c' else ok c'

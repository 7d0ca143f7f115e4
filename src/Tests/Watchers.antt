-- ===== src/Tests/Watchers.antt =====
-- ev4cpp2tnt.cpp at concrete inputs, over a loop that is a table of its active watchers.
use cpp2tnt.Prelude.{
  ℕ, ◌≡◌, refl, inl, inr, true, false, Option, none, some, List, [], ◌∷◌, ◌==◌, ==_refl, ==_ne,
  if◌then◌else◌,
}
use cpp2tnt.Outcome.{ok, undefined, ◌>>=◌}
use cpp2tnt.Connection.{unwatched, read, write, read_write}
use cpp2tnt.Ev4cpp2tnt.{
  Interest, Libev, LibevLaws, EvData, signal, create, destroy, set_globally, construct_connection,
  destruct_connection, take_care, request_watcher, request_notify,
}
use cpp2tnt.Ev4cpp2tnt.Calls.{
  Call, construction, destruction, care, globally, request, notification, run, step, Orderly,
}
use cpp2tnt.Ev4cpp2tnt.Life.{run-destroy}
use cpp2tnt.Ev4cpp2tnt.Watching.{Watches, request_all, request_all-Watches, Requests}

abbrev set_entry : ℕ → Option Interest → (ℕ → Option Interest) → ℕ → Option Interest
set_entry w x l v = if v == w then x else l v

abbrev table : Libev
table = record {
  Loop = ℕ → Option Interest;
  active = λ l w. l w;
  start = λ w x. set_entry w (some x);
  stop = λ w. set_entry w none;
  unref = λ l. l;
}

table-LibevLaws : LibevLaws table
table-LibevLaws = record {
  started = λ l w x h. rw (==_refl w w refl) refl;
  stopped = λ l w. rw (==_refl w w refl) refl;
  start_other = λ l v w x ne. rw (==_ne v w ne) refl;
  stop_other = λ l v w ne. rw (==_ne v w ne) refl;
  unref_all = λ l v. refl;
}

abbrev empty_table : ℕ → Option Interest
empty_table w = none

abbrev session : List Call
session =
    construction 7
    ∷ care 7
    ∷ request 7 (some 3) write
    ∷ globally true
    ∷ construction 8
    ∷ request 8 (some 4) read_write
    ∷ notification 7
    ∷ request 7 (some 3) unwatched
    ∷ destruction 8
    ∷ globally false
    ∷ notification 7
    ∷ []

session-Orderly : Orderly table table-LibevLaws session (create table empty_table)
unfolding create step construct_connection destruct_connection take_care set_globally
    request_watcher request_notify
session-Orderly =
    (refl, (refl, (refl, (tt, (refl, (refl, (refl, (refl, (refl, ((refl, tt), (refl, tt)))))))))))

run-destroy_example :
    (e : EvData table) × (run table table-LibevLaws session (create table empty_table) ≡ ok e)
    × (e' : EvData table) × (destroy table e ≡ ok e')
    × (e'.bundles ≡ [])
    × ((w : ℕ) → table.active e'.loop w ≡ none)
run-destroy_example =
    run-destroy table table-LibevLaws empty_table session (λ w ne. refl) session-Orderly

-- One connection, registered, whose socket is not watched yet.
abbrev watching : EvData table
watching = record {
  loop = set_entry 1 (some signal) empty_table;
  bundles = record { connection = 7; id = 0; fd = some 0; events = unwatched } ∷ [];
  fresh = 1;
  hooks = λ cn. record { notify = some 0; watcher = some 0; destruct = true };
  global = false;
  alive = λ cn. cn == 7;
}

watching-Watches : Watches table table-LibevLaws 7 none unwatched watching
watching-Watches = record {
  living = refl;
  bundle = record { connection = 7; id = 0; fd = some 0; events = unwatched };
  found = refl;
  bound = refl;
  watched = refl;
  same_events = λ h. absurd (h refl);
}

abbrev requests : Requests table table-LibevLaws
requests = (some 3, write) ∷ (some 3, read_write) ∷ (some 3, unwatched) ∷ (some 5, read) ∷ []

request_all-Watches_example :
    (e : EvData table) × (request_all table table-LibevLaws 7 requests watching ≡ ok e)
    × Watches table table-LibevLaws 7 (some 5) read e
request_all-Watches_example =
    request_all-Watches table table-LibevLaws 7 requests none unwatched watching watching-Watches
      (inl refl, (inr refl, (inr refl, (inl refl, tt))))

-- disable_globally before a connection ends: the connection stays in the map, and the destructor of
-- ev4cpp2tnt calls it.
disabled_run :
    (destruct_connection table 8 (
        set_globally table false
          (construct_connection table 8 (set_globally table true (create table empty_table))))
      >>= destroy table)
    ≡ undefined
unfolding destruct_connection set_globally construct_connection create destroy
disabled_run = refl

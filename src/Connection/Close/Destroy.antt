-- ===== src/Connection/Close/Destroy.antt =====
-- connection.cpp: the destructor of a connection.
use cpp2tnt.Prelude.{
  ℕ, Bool, true, false, not, ◌&&◌, if◌then◌else◌, sym, subst, ◌≡◌, refl, ap, ◌∙◌, inl, inr,
  Bool-cases, Option, none, some,
}
use cpp2tnt.Outcome.{Result, ok, ◌>>=◌, OnOk-ok}
use cpp2tnt.WtfBuffer.{WtfBuffer}
use cpp2tnt.WtfBuffer.Content.{IsValid, IsOwned, resize_owned}
use cpp2tnt.Connection.{
  Connection, State, Setup, Receiver, SocketState, disconnected, connecting, external, unwatched,
  socket_closed,
}
use cpp2tnt.Connection.Phase.{Closed}
use cpp2tnt.Connection.Close.{
  close, close_by, close_socket, closing, handle_error, emit, cut_partial, clear_sender,
  watch_socket, State-eq, notify_closed,
}
use cpp2tnt.Connection.Close.Kept.{close-Closed, handle_error-Same}

-- How a handler for the end of a connection ends itself.
pub data Ending : Type 0 where
  returns throws_exception throws_other : Ending

-- A handler for the end of a connection: what its calls do to the connection, and how it ends.
pub record DestructHandler : Type 0 where
  pub acts : Connection → Result Connection
  pub ending : Ending

-- What is caught behind the handler.
pub end_with : Ending → Connection → Connection
unfolding handle_error
end_with returns c = c
end_with throws_exception c = handle_error external c
end_with throws_other c = c

-- The handler of on_destruct, or else the one of on_destruct_global.
pub call_destruct : Option DestructHandler → Option DestructHandler → Connection → Result Connection
unfolding end_with
call_destruct (some own) global c = own.acts c >>= λ c'. ok (end_with own.ending c')
call_destruct none (some global) c = global.acts c >>= λ c'. ok (end_with global.ending c')
call_destruct none none c = ok c

-- join() of the thread that resolves addresses
abbrev join : Connection → Connection
join c = record c { setup = record c.setup { resolver_joinable = false } }

-- connection::~connection
unfoldable pub destroy :
    Option DestructHandler → Option DestructHandler → Connection → Result Connection
unfolding close call_destruct
destroy own global c = close true 0 c >>= λ c'. call_destruct own global (join c')

abbrev pub Gone : Connection → Type 0
Gone c = (c.state ≡ disconnected) × (c.socket ≡ none) × (c.setup.resolver_joinable ≡ false)

end_with-Gone : (e : Ending) (c : Connection) → Gone c → Gone (end_with e c)
unfolding end_with
end_with-Gone returns c h = h
end_with-Gone throws_other c h = h
end_with-Gone throws_exception c (a, b, d) =
    let (s, k, u) = handle_error-Same external c in
    (s ∙ a, k ∙ b, ap (λ (x : Setup). x.resolver_joinable) u ∙ d)

-- A handler whose calls come to an end and open nothing.
abbrev pub LeavesGone : Option DestructHandler → Type 0
LeavesGone none = Unit
LeavesGone (some h) = (c : Connection) → Gone c → (c' : Connection) × (h.acts c ≡ ok c') × Gone c'

call_destruct-Gone :
    (own global : Option DestructHandler) (c : Connection)
    → LeavesGone own
    → LeavesGone global
    → Gone c
    → (c' : Connection) × (call_destruct own global c ≡ ok c') × Gone c'
unfolding call_destruct
call_destruct-Gone (some own) global c quiet _ h =
    let (c', is, h') = quiet c h in
    (
      end_with own.ending c',
      ap (λ (r : Result Connection). r >>= λ x. ok (end_with own.ending x)) is,
      end_with-Gone own.ending c' h',
    )
call_destruct-Gone none (some global) c _ quiet h =
    let (c', is, h') = quiet c h in
    (
      end_with global.ending c',
      ap (λ (r : Result Connection). r >>= λ x. ok (end_with global.ending x)) is,
      end_with-Gone global.ending c' h',
    )
call_destruct-Gone none none c _ _ h = (c, refl, h)

watch_socket-rx : (mode : SocketState) (c : Connection) → (watch_socket mode c).rx ≡ c.rx
unfolding watch_socket
watch_socket-rx mode c = elim (Bool-cases c.handlers.has_watcher) [
  | inl has ↦ rw has refl
  | inr has_not ↦ rw has_not refl
]

close_socket_returns :
    (prev : State) (call : Bool) (fd : ℕ) (c : Connection)
    → IsValid c.rx.receive
    → IsOwned c.rx.receive.target
    → (c' : Connection) × (close_socket prev call fd c ≡ ok c')
unfolding close_socket cut_partial
close_socket_returns prev call fd c v owned =
    let rx = watch_socket-rx unwatched c in
    let w = watch_socket unwatched c in
    let (b, e, done) =
      resize_owned w.rx.receive w.rx.last_received_head_offset
        (subst (λ (x : Receiver). IsValid x.receive) (sym rx) v)
        (subst (λ (x : Receiver). IsOwned x.receive.target) (sym rx) owned) in
    let c' = emit (socket_closed fd) w in
    let c'' = record c' { socket = none; tx = clear_sender c'.tx } in
    (
      _,
      ap
          (λ (r : Result WtfBuffer). cut_partial c'' r >>= λ x. ok (
            if not (State-eq prev connecting) && call
            then notify_closed x.handlers.on_closed x
            else x))
          e,
    )

-- `close` gives a result where the receive buffer owns its vector.
pub close_returns :
    (call : Bool) (delay : ℕ) (c : Connection)
    → IsValid c.rx.receive
    → IsOwned c.rx.receive.target
    → (c' : Connection) × (close call delay c ≡ ok c')
unfolding close close_by
close_returns call delay c v owned = by c.socket
  where
    by : (o : Option ℕ) → (c' : Connection) × (close_by o c.state call (closing delay c) ≡ ok c')
    by none = (closing delay c, refl)
    by (some fd) = close_socket_returns c.state call fd (closing delay c) v owned

-- The destructor comes to its end, and leaves no socket open and no thread behind. It wants a receive
-- buffer that owns its vector, and handlers for on_destruct and on_destruct_global that come to an
-- end, by returning or by an exception, and whose calls leave a connection that is closed so. The
-- handler for on_closed returns or throws, and does not call the connection.
pub destroy-Gone :
    (own global : Option DestructHandler) (c : Connection)
    → IsValid c.rx.receive
    → IsOwned c.rx.receive.target
    → LeavesGone own
    → LeavesGone global
    → (c' : Connection) × (destroy own global c ≡ ok c') × Gone c'
unfolding destroy
destroy-Gone own global c v owned quiet quiet' =
    let (c', e) = close_returns true 0 c v owned in
    let (down, none_open, setup) =
      OnOk-ok (Closed c) (close true 0 c) c' (close-Closed true 0 c) e in
    let (c'', called, gone) =
      call_destruct-Gone own global (join c') quiet quiet' (down, none_open, refl) in
    (
      c'',
      ap (λ (r : Result Connection). r >>= λ x. call_destruct own global (join x)) e ∙ called,
      gone,
    )

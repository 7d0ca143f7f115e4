-- ===== src/Connection/Open/Kept/Started.antt =====
-- connection.cpp: `open` and `push_handler` keep the phases of a connection.
use cpp2tnt.Prelude.{
  ℕ, Bool, true, false, not, ◌≡◌, refl, sym, ap, ◌∙◌, subst, Option, none, some, List, [], ◌∷◌,
  ◌++◌, Bytes, length, ltb, leb, if◌then◌else◌,
}
use cpp2tnt.Outcome.{
  Result, ok, thrown, undefined, connection_busy, OnOk, OnOk-if, OnOk-cases, OnOk-guard,
}
use cpp2tnt.CsParser.{Parsed, found, stuck, unfinished, parse_cs}
use cpp2tnt.Connection.{
  Connection, ErrorKind, State, Setup, Attempt, no_socket, attempt, Notification, resolved,
  not_resolved, handler, invalid_parameter, bad_call_sequence, getaddr_in_progress, system,
  notify_request, disconnected, address_resolving, connecting, connected,
}
use cpp2tnt.Connection.Close.{emit, handle_error, State-eq}
use cpp2tnt.Connection.Close.Kept.{handle_error-Same}
use cpp2tnt.Connection.Phase.{Fits, Queued, IsCoherent, Same-if, Same-IsCoherent}
use cpp2tnt.Connection.Open.{
  World, general_timeout, path_size, after_connect, open_unix, open_parts, open_connection,
  push_handler, set_connection_string,
}
use cpp2tnt.Connection.Open.Kept.{Settled, Settled_lem, after_connect-Settled}

-- A connection that may be opened.
abbrev IsIdle : Connection → Type 0
IsIdle c =
    (c.state ≡ disconnected)
    × (c.socket ≡ none)
    × (c.setup.resolver_joinable ≡ false)
    × Queued false c.setup.notifications

Settled-IsCoherent :
    (c : Connection) (r : Result Connection)
    → c.setup.resolver_joinable ≡ false
    → Queued false c.setup.notifications
    → OnOk (Settled c) r
    → OnOk IsCoherent r
Settled-IsCoherent c (ok c') j q (h, d) =
    let j' : c'.setup.resolver_joinable ≡ false = ap (λ (u : Setup). u.resolver_joinable) d ∙ j in
    (
      subst (λ j. Fits c'.state c'.socket j) (sym j') h,
      subst (λ j. Queued j c'.setup.notifications) (sym j')
          (subst (λ (u : Setup). Queued false u.notifications) (sym d) q),
    )
Settled-IsCoherent c (thrown e c') j q h = tt
Settled-IsCoherent c undefined j q h = tt

open_unix-Settled :
    (a : Attempt) (c : Connection)
    → c.state ≡ disconnected
    → c.socket ≡ none
    → OnOk (Settled c) (open_unix a c)
unfolding open_unix
open_unix-Settled no_socket c st empty =
    let c' = handle_error system c in
    let (state, socket, setup) = handle_error-Same system c in
    Settled_lem c c' disconnected none (state ∙ st) (socket ∙ empty) setup tt
open_unix-Settled (attempt fd answer) c st empty =
    let c' = record c { state = connecting } in
    OnOk-guard (Settled c) (leb (length c.setup.cs_parts.unix_socket_path) path_size)
      (after_connect fd answer c') (after_connect-Settled fd answer c' refl empty)

Queued-true : (ns : List Notification) → Queued false ns → Queued true ns
Queued-true [] q = tt
Queued-true (handler n ∷ ns) q = Queued-true ns q
Queued-true (resolved a ∷ ns) q = absurd q
Queued-true (not_resolved ∷ ns) q = absurd q

idle-IsCoherent : (c : Connection) → IsIdle c → IsCoherent c
idle-IsCoherent c (st, empty, j, q) =
    Settled-IsCoherent c (ok c) j q (Settled_lem c c disconnected none st empty refl tt)

open_parts-IsCoherent :
    (w : World) (p : Parsed) (c : Connection) → IsIdle c → OnOk IsCoherent (open_parts w p c)
unfolding open_parts
open_parts-IsCoherent w (found parts) c (st, empty, j, q) =
    let c' = record c { setup = record c.setup { cs_parts = parts } } in
    let resolving = record c' {
      state = address_resolving;
      setup = record c'.setup { resolver_joinable = true };
    } in
    let wrong = handle_error invalid_parameter c' in
    OnOk-if IsCoherent (ltb 0 (length parts.host)) (ok resolving) _
      (
        subst (λ k. Fits address_resolving k true) (sym empty) tt,
        Queued-true c.setup.notifications q,
      )
      (OnOk-if IsCoherent (ltb 0 (length parts.unix_socket_path)) (open_unix w.unix c') (ok wrong)
        (Settled-IsCoherent c' (open_unix w.unix c') j q (open_unix-Settled w.unix c' st empty))
        (Same-IsCoherent c' wrong (handle_error-Same invalid_parameter c')
          (idle-IsCoherent c' (st, empty, j, q))))
open_parts-IsCoherent w stuck c h = tt
open_parts-IsCoherent w unfinished c h = tt

disconnected_lem : (s : State) → not (State-eq s disconnected) ≡ false → s ≡ disconnected
disconnected_lem disconnected e = refl
disconnected_lem address_resolving e = cc
disconnected_lem connecting e = cc
disconnected_lem State.features_request e = cc
disconnected_lem State.authentication e = cc
disconnected_lem connected e = cc

Fits-empty : (k : Option ℕ) (j : Bool) → Fits disconnected k j → k ≡ none
Fits-empty none j h = refl
Fits-empty (some fd) j h = absurd h

pub open-IsCoherent :
    (w : World) (delay : ℕ) (c : Connection)
    → IsCoherent c
    → OnOk IsCoherent (open_connection w delay c)
unfolding open_connection
open-IsCoherent w delay c h =
    let parts = parse_cs w.depth w.getenv c.setup.current_cs in
    let told =
      λ (kind : ErrorKind). Same-IsCoherent c (handle_error kind c) (handle_error-Same kind c) h in
    let fresh = record c { autoreconnect_timeout = general_timeout; autoreconnect_ticks = none } in
    OnOk-if IsCoherent (State-eq c.state connected) (ok c) _ h (
      OnOk-cases IsCoherent (not (State-eq c.state disconnected))
        (ok (handle_error bad_call_sequence c)) _ (λ e. told bad_call_sequence)
        (λ e.
          OnOk-if IsCoherent (ltb 0 delay)
            (ok (record c { autoreconnect_ticks = some 0; autoreconnect_timeout = delay })) _ h
            (OnOk-cases IsCoherent c.setup.resolver_joinable
              (ok (handle_error getaddr_in_progress c)) (open_parts w parts fresh)
              (λ j. told getaddr_in_progress)
              (λ j. open_parts-IsCoherent w parts fresh (idle e j)))))
  where
    idle :
        not (State-eq c.state disconnected) ≡ false → c.setup.resolver_joinable ≡ false → IsIdle c
    idle e j =
        let st = disconnected_lem c.state e in
        (
          st,
          Fits-empty c.socket c.setup.resolver_joinable
              (subst (λ s. Fits s c.socket c.setup.resolver_joinable) st h.0),
          j,
          subst (λ j. Queued j c.setup.notifications) j h.1,
        )

Queued-append :
    (j : Bool) (ns : List Notification) (n : Notification)
    → Queued j ns
    → ((j : Bool) → Queued j (n ∷ []))
    → Queued j (ns ++ n ∷ [])
Queued-append j [] n q one = one j
Queued-append j (handler k ∷ ns) n q one = Queued-append j ns n q one
Queued-append true (resolved a ∷ ns) n q one = Queued-append false ns n q one
Queued-append false (resolved a ∷ ns) n q one = absurd q
Queued-append true (not_resolved ∷ ns) n q one = Queued-append false ns n q one
Queued-append false (not_resolved ∷ ns) n q one = absurd q

-- The resolver ends once: none of its notifications is in the queue then.
abbrev pub IsRunning : Connection → Type 0
IsRunning c = (c.setup.resolver_joinable ≡ true) × Queued false c.setup.notifications

abbrev pub IsAnswer : Notification → Type 0
IsAnswer (handler n) = ⊥
IsAnswer _ = Unit

Queued-last :
    (ns : List Notification) (n : Notification)
    → IsAnswer n
    → Queued false ns
    → Queued true (ns ++ n ∷ [])
Queued-last [] (handler k) a q = absurd a
Queued-last [] (resolved addresses) a q = tt
Queued-last [] not_resolved a q = tt
Queued-last (handler k ∷ ns) n a q = Queued-last ns n a q
Queued-last (resolved addresses ∷ ns) n a q = absurd q
Queued-last (not_resolved ∷ ns) n a q = absurd q

pushed-IsCoherent :
    (n : Notification) (c : Connection)
    → Fits c.state c.socket c.setup.resolver_joinable
    → Queued c.setup.resolver_joinable (c.setup.notifications ++ n ∷ [])
    → IsCoherent (push_handler n c)
unfolding push_handler
pushed-IsCoherent n c fits q =
    let c' = record c {
      setup = record c.setup { notifications = c.setup.notifications ++ n ∷ [] };
    } in
    Same-IsCoherent c' (if c.setup.has_notify then emit notify_request c' else c')
      (Same-if c.setup.has_notify c' (emit notify_request c') c' (refl, refl, refl)
        (refl, refl, refl))
      (fits, q)

pub push_handler-IsCoherent :
    (k : ℕ) (c : Connection) → IsCoherent c → IsCoherent (push_handler (handler k) c)
push_handler-IsCoherent k c (fits, q) =
    pushed-IsCoherent (handler k) c fits
      (Queued-append c.setup.resolver_joinable c.setup.notifications (handler k) q (λ j. tt))

pub resolver_ends-IsCoherent :
    (n : Notification) (c : Connection)
    → IsAnswer n
    → IsRunning c
    → IsCoherent c
    → IsCoherent (push_handler n c)
resolver_ends-IsCoherent n c a (j, free) (fits, q) = pushed-IsCoherent n c fits (
    subst (λ j. Queued j (c.setup.notifications ++ n ∷ [])) (sym j)
      (Queued-last c.setup.notifications n a free))

pub set_connection_string-IsCoherent :
    (cs : Bytes) (c : Connection) → IsCoherent c → OnOk IsCoherent (set_connection_string cs c)
unfolding set_connection_string
set_connection_string-IsCoherent cs c h =
    OnOk-if IsCoherent (State-eq c.state disconnected)
      (ok (record c { setup = record c.setup { current_cs = cs } })) (thrown connection_busy c) h tt

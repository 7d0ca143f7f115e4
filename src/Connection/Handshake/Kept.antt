-- ===== src/Connection/Handshake/Kept.antt =====
-- connection.cpp: the handshake keeps the phases of a connection.
use cpp2tnt.Prelude.{
  ℕ, suc, ◌%◌, Bool, true, false, ◌&&◌, ◌≡◌, refl, Option, none, some, List, [], ◌==◌,
  if◌then◌else◌, u64_mod,
}
use cpp2tnt.Outcome.{Result, ok, thrown, undefined, OnOk, OnOk-if}
use cpp2tnt.WtfBuffer.{content, clear}
use cpp2tnt.Msgpuck.{Msgpuck}
use cpp2tnt.Iproto.{ProtoId}
use cpp2tnt.MpWriter.{MpWriter}
use cpp2tnt.IprotoWriter.Auth.{Digests, encode_auth_request}
use cpp2tnt.MpReader.{Reader, Read, value, failed}
use cpp2tnt.MpReader
use cpp2tnt.Connection.{
  Connection, State, ErrorKind, opened, external, system, features, auth, disconnected,
  address_resolving, connecting, features_request, authentication, connected,
}
use cpp2tnt.Connection.Close.{emit, handle_error, close, State-eq}
use cpp2tnt.Connection.Close.Kept.{close-Closed, handle_error-Same}
use cpp2tnt.Connection.Phase.{
  Stays-OnOk, Fits, IsCoherent, Keeps, shakes, Same, Closed, Same-IsCoherent, Closed-IsCoherent,
}
use cpp2tnt.Connection.Send.{SendAnswer, reconnect_soon}
use cpp2tnt.Connection.Send
use cpp2tnt.Connection.Send.Kept.{write-Stays}
use cpp2tnt.Connection.Handshake.{
  cleared, refuse, call_opened, set_connected, is_guest, sent, authenticate, on_read, kind_of,
  accept, reject, read_code, read_proto, read_error, handshake,
}

reconnect_soon-IsCoherent :
    (c : Connection) (r : Result Connection)
    → IsCoherent c
    → OnOk (Closed c) r
    → OnOk IsCoherent (reconnect_soon r)
reconnect_soon-IsCoherent c (ok c') h s = Closed-IsCoherent c c' s h
reconnect_soon-IsCoherent c (thrown e c') h s = tt
reconnect_soon-IsCoherent c undefined h s = tt

refuse-IsCoherent :
    (kind : ErrorKind) (c : Connection) → IsCoherent c → OnOk IsCoherent (refuse kind c)
unfolding refuse
refuse-IsCoherent kind c h =
    let c' = cleared (handle_error kind c) in
    reconnect_soon-IsCoherent c' (close false 0 c')
      (Same-IsCoherent c c' (handle_error-Same kind c) h) (close-Closed false 0 c')

call_opened-Same : (o : Option Bool) (c : Connection) → Same c (call_opened o c)
unfolding call_opened
call_opened-Same none c = (refl, refl, refl)
call_opened-Same (some true) c = (refl, refl, refl)
call_opened-Same (some false) c = handle_error-Same external (emit opened c)

not_shaking : false ≡ true → ⊥
not_shaking e = cc

-- What fits the states of the handshake fits those behind it.
Fits-connected :
    (s : State) (k : Option ℕ) (j : Bool)
    → shakes s ≡ true
    → Fits s k j
    → Fits authentication k j × Fits connected k j
Fits-connected disconnected k j e h = absurd (not_shaking e)
Fits-connected address_resolving k j e h = absurd (not_shaking e)
Fits-connected connecting k j e h = absurd (not_shaking e)
Fits-connected connected k j e h = absurd (not_shaking e)
Fits-connected features_request none j e h = absurd h
Fits-connected features_request (some fd) true e h = absurd h
Fits-connected features_request (some fd) false e h = (tt, tt)
Fits-connected authentication none j e h = absurd h
Fits-connected authentication (some fd) true e h = absurd h
Fits-connected authentication (some fd) false e h = (tt, tt)

module _ (m : Msgpuck) (d : Digests) (answers : List SendAnswer) (now : ℕ) where
  set_connected-IsCoherent :
      (c : Connection) → shakes c.state ≡ true → IsCoherent c → IsCoherent (set_connected c)
  unfolding set_connected
  set_connected-IsCoherent c e (fits, queued) =
      let c' = record (cleared c) { state = connected; autoreconnect_ticks = none } in
      Same-IsCoherent c' (call_opened c.handlers.on_opened c')
        (call_opened-Same c.handlers.on_opened c')
        ((Fits-connected c.state c.socket c.setup.resolver_joinable e fits).1, queued)

  sent-IsCoherent :
      (c : Connection) (r : Result MpWriter) → IsCoherent c → OnOk IsCoherent (sent answers now c r)
  unfolding sent
  sent-IsCoherent c (ok w) h =
      let c' = record c { tx = record c.tx { send = w.buf } } in
      Stays-OnOk c' (Send.write true answers now c') h (write-Stays true answers now c')
  sent-IsCoherent c (thrown e w) h =
      refuse-IsCoherent system (record c { tx = record c.tx { send = w.buf } }) h
  sent-IsCoherent c undefined h = tt

  authenticate-IsCoherent :
      (c : Connection)
      → shakes c.state ≡ true
      → IsCoherent c
      → OnOk IsCoherent (authenticate m d answers now c)
  unfolding authenticate
  authenticate-IsCoherent c e (fits, queued) =
      let parts = c.setup.cs_parts in
      let c' = record (cleared c) {
        state = authentication;
        tx = record c.tx { send = clear c.tx.send; next_to_send = 0 };
        request_id = suc c.request_id % u64_mod;
      } in
      let w : MpWriter = record { opened = []; buf = c'.tx.send } in
      let request =
        encode_auth_request m d c.greeting parts.user parts.password c.server_proto.auth
          c.request_id w in
      OnOk-if IsCoherent (is_guest parts.user) (ok (set_connected c)) (sent answers now c' request)
        (set_connected-IsCoherent c e (fits, queued))
        (sent-IsCoherent c' request
          ((Fits-connected c.state c.socket c.setup.resolver_joinable e fits).0, queued))

  on_read-IsCoherent :
      {A : Type 0} (c : Connection) (x : Read A) (k : A → Reader → Result Connection)
      → IsCoherent c
      → ((a : A) (r : Reader) → OnOk IsCoherent (k a r))
      → OnOk IsCoherent (on_read c x k)
  on_read-IsCoherent c (value a r) k h f = f a r
  on_read-IsCoherent c (failed e r) k h f = refuse-IsCoherent (kind_of e) c h
  on_read-IsCoherent c MpReader.stuck k h f = tt

  accept-IsCoherent :
      (c : Connection) (response : Reader)
      → shakes c.state ≡ true
      → IsCoherent c
      → OnOk IsCoherent (accept m d answers now c response)
  unfolding accept
  accept-IsCoherent c response e h =
      let fields = read_proto m (content c.rx.receive) c.server_proto response in
      let k = λ (proto : ProtoId) (r : Reader).
        authenticate m d answers now (record c { server_proto = proto }) in
      OnOk-if IsCoherent (State-eq c.state features_request) (on_read c fields k)
        (ok (set_connected c))
        (on_read-IsCoherent c fields k h
          (λ proto r. authenticate-IsCoherent (record c { server_proto = proto }) e h))
        (set_connected-IsCoherent c e h)

  reject-IsCoherent :
      (c : Connection) (code : ℕ) (response : Reader)
      → shakes c.state ≡ true
      → IsCoherent c
      → OnOk IsCoherent (reject m d answers now c code response)
  unfolding reject
  reject-IsCoherent c code response e h =
      let asked = State-eq c.state features_request in
      let text = read_error m (content c.rx.receive) response in
      let k = λ (t : Bool) (r : Reader). refuse (if asked then features else auth) c in
      OnOk-if IsCoherent (asked && code % 0x8000 == 0x30) (authenticate m d answers now c)
        (on_read c text k) (authenticate-IsCoherent c e h)
        (on_read-IsCoherent c text k h
          (λ t r. refuse-IsCoherent (if asked then features else auth) c h))

  -- The handshake ends connected, authenticating or closed.
  pub handshake-IsCoherent : Keeps (handshake m d answers now)
  unfolding handshake
  handshake-IsCoherent c e h =
      let k = λ (code : ℕ) (response : Reader).
        if code == 0
        then accept m d answers now c response
        else reject m d answers now c code response in
      on_read-IsCoherent c (read_code m (content c.rx.receive)) k h (λ code response.
        OnOk-if IsCoherent (code == 0) (accept m d answers now c response)
          (reject m d answers now c code response) (accept-IsCoherent c response e h)
          (reject-IsCoherent c code response e h))

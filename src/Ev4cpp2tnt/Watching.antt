-- ===== src/Ev4cpp2tnt/Watching.antt =====
-- ev4cpp2tnt.cpp: what the socket watcher of a connection waits for.
use cpp2tnt.Prelude.{
  ℕ, zero, suc, ◌≡◌, ◌≢◌, refl, sym, ap, ◌∙◌, subst, ◌⊎◌, inl, inr, Bool, true, false, not, ◌||◌,
  Bool-cases, Option, none, some, List, [], ◌∷◌, ◌==◌, ==_refl, ==_iff, if◌then◌else◌,
}
use cpp2tnt.Outcome.{Result, ok, ◌>>=◌, guard}
use cpp2tnt.Connection.{SocketState, unwatched, read, write, read_write}
use cpp2tnt.Ev4cpp2tnt.{
  Libev, LibevLaws, Interest, socket, Bundle, EvData, find, set_io, is_some, io_of, request_watcher,
  rewatch, stop_active, SocketState-eq, SocketState-code, call_watcher, socket_request,
}
use cpp2tnt.Ev4cpp2tnt.Owned.{stop_active_self}

-- The specification: the socket of a connection is watched for what was asked for last.
abbrev pub wanted : Option ℕ → SocketState → Option Interest
wanted fd unwatched = none
wanted fd read = some (socket fd read)
wanted fd write = some (socket fd write)
wanted fd read_write = some (socket fd read_write)

wanted-code :
    (fd : Option ℕ) (mode : SocketState)
    → SocketState-eq mode unwatched ≡ false
    → wanted fd mode ≡ some (socket fd mode)
wanted-code fd unwatched h = absurd (cc h)
wanted-code fd read h = refl
wanted-code fd write h = refl
wanted-code fd read_write h = refl

wanted-none :
    (fd : Option ℕ) (mode : SocketState)
    → SocketState-eq mode unwatched ≡ true
    → wanted fd mode ≡ none
wanted-none fd unwatched h = refl
wanted-none fd read h = absurd (cc h)
wanted-none fd write h = absurd (cc h)
wanted-none fd read_write h = absurd (cc h)

decode : ℕ → SocketState
decode zero = unwatched
decode (suc zero) = read
decode (suc (suc zero)) = write
decode (suc (suc (suc n))) = read_write

decode-code : (a : SocketState) → decode (SocketState-code a) ≡ a
unfolding decode
decode-code unwatched = refl
decode-code read = refl
decode-code write = refl
decode-code read_write = refl

eq_same : (a b : SocketState) → SocketState-eq a b ≡ true → a ≡ b
eq_same a b h =
    sym (decode-code a)
    ∙ ap decode ((==_iff (SocketState-code a) (SocketState-code b)).0 h)
    ∙ decode-code b

find-set_io :
    (cn : ℕ) (fd : Option ℕ) (mode : SocketState) (bs : List Bundle) (b : Bundle)
    → find cn bs ≡ some b
    → find cn (set_io cn fd mode bs) ≡ some (record b { fd = fd; events = mode })
find-set_io cn fd mode [] b e = cc
find-set_io cn fd mode (x ∷ xs) b e = elim (Bool-cases (x.connection == cn)) [
  | inl here ↦
      let same : x ≡ b = cc (rw here at e) in
      rw (here, here) (ap (λ (y : Bundle). some (record y { fd = fd; events = mode })) same)
  | inr there ↦ rw (there, there) (find-set_io cn fd mode xs b (rw there at e))
]

both_false : (a b : Bool) → (not a || not b) ≡ false → (a ≡ true) × (b ≡ true)
both_false true true h = (refl, refl)
both_false true false h = absurd (cc h)
both_false false b h = absurd (cc h)

some-wanted :
    (fd : Option ℕ) (mode : SocketState) → is_some (wanted fd mode) ≡ true → mode ≢ unwatched
some-wanted fd unwatched h = absurd (cc h)
some-wanted fd read h = λ e. absurd (cc e)
some-wanted fd write h = λ e. absurd (cc e)
some-wanted fd read_write h = λ e. absurd (cc e)

module _ (L : Libev) (laws : LibevLaws L) where
  -- The connection is alive and registered, its handler is there, and its socket is watched for `mode`.
  pub record Watches (cn : ℕ) (fd : Option ℕ) (mode : SocketState) (e : EvData L) : Type 0 where
    pub living : e.alive cn ≡ true
    pub bundle : Bundle
    pub found : find cn e.bundles ≡ some bundle
    pub bound : (e.hooks cn).watcher ≡ some bundle.id
    pub watched : L.active e.loop (io_of bundle.id) ≡ wanted fd mode
    pub same_events : mode ≢ unwatched → bundle.events ≡ mode

  rewatch-Watches :
      (cn : ℕ) (fd : Option ℕ) (mode : SocketState) (e : EvData L) (b : Bundle)
      → find cn e.bundles ≡ some b
      → (e.hooks cn).watcher ≡ some b.id
      → e.alive cn ≡ true
      → Watches cn fd mode (rewatch L cn b fd mode e)
  unfolding rewatch
  rewatch-Watches cn fd mode e b found bound living = record {
    living = living;
    bundle = record b { fd = fd; events = mode };
    found = find-set_io cn fd mode e.bundles b found;
    bound = bound;
    watched =
        let l = stop_active L (io_of b.id) e.loop in
        let off = stop_active_self L laws (io_of b.id) e.loop in
        elim (Bool-cases (SocketState-eq mode unwatched)) [
          | inl none_asked ↦ rw none_asked (off ∙ sym (wanted-none fd mode none_asked))
          | inr some_asked ↦ rw some_asked (
              laws.started l (io_of b.id) (socket fd mode) off
              ∙ sym (wanted-code fd mode some_asked))
        ];
    same_events = λ h. refl;
  }

  -- Whatever the watcher was set to, behind a request the loop watches the connection's socket for what
  -- was asked, or not at all where nothing was. It wants that the socket was not replaced while it was
  -- watched.
  pub request-Watches :
      (cn : ℕ) (fd fd' : Option ℕ) (mode mode' : SocketState) (e : EvData L)
      → Watches cn fd mode e
      → (mode ≡ unwatched) ⊎ (fd ≡ fd')
      → (e' : EvData L) × (request_watcher L cn fd' mode' e ≡ ok e') × Watches cn fd' mode' e'
  unfolding request_watcher call_watcher socket_request
  request-Watches cn fd fd' mode mode' e w steady =
      let b = w.bundle in
      let c = not (is_some (L.active e.loop (io_of b.id))) || not (SocketState-eq b.events mode') in
      let (e', is, done) = decided c refl in
      (
        e',
        ap (λ b. guard b (call_watcher L cn fd' mode' (e.hooks cn).watcher e)) w.living
            ∙ ap (λ o. call_watcher L cn fd' mode' o e) w.bound
            ∙ ap (socket_request L cn b.id fd' mode' e) w.found
            ∙ rw (==_refl b.id b.id refl) is,
        done,
      )
    where
      unchanged : mode ≢ unwatched → w.bundle.events ≡ mode' → Watches cn fd' mode' e
      unchanged on same =
          let same_mode : mode ≡ mode' = sym (w.same_events on) ∙ same in
          let same_fd : fd ≡ fd' = elim steady [ inl off ↦ absurd (on off) | inr it ↦ it ] in
          subst (λ f. Watches cn f mode' e) same_fd (subst (λ k. Watches cn fd k e) same_mode w)

      decided :
          (c : Bool)
          → (not (is_some (L.active e.loop (io_of w.bundle.id)))
              || not (SocketState-eq w.bundle.events mode'))
            ≡ c
          → (e' : EvData L) × ((if c then ok (rewatch L cn w.bundle fd' mode' e) else ok e) ≡ ok e')
            × Watches cn fd' mode' e'
      decided true h = (_, refl, rewatch-Watches cn fd' mode' e w.bundle w.found w.bound w.living)
      decided false h =
          let (on, same) =
            both_false (is_some (L.active e.loop (io_of w.bundle.id)))
              (SocketState-eq w.bundle.events mode') h in
          (
            e,
            refl,
            unchanged (some-wanted fd mode (sym (ap is_some w.watched) ∙ on))
                (eq_same w.bundle.events mode' same),
          )

  -- The requests of one connection in a row, each with the socket that it has then.
  abbrev pub Requests : Type 0
  Requests = List (Option ℕ × SocketState)

  abbrev pub last : Option ℕ → SocketState → Requests → Option ℕ × SocketState
  last fd mode [] = (fd, mode)
  last fd mode ((fd', mode') ∷ xs) = last fd' mode' xs

  -- A socket that is watched is not replaced.
  abbrev pub Steady : Option ℕ → SocketState → Requests → Type 0
  Steady fd mode [] = Unit
  Steady fd mode ((fd', mode') ∷ xs) = ((mode ≡ unwatched) ⊎ (fd ≡ fd')) × Steady fd' mode' xs

  pub request_all : ℕ → Requests → EvData L → Result (EvData L)
  unfolding request_watcher
  request_all cn [] e = ok e
  request_all cn ((fd, mode) ∷ xs) e = request_watcher L cn fd mode e >>= request_all cn xs

  -- A connection that is alive and registered, whose handler is bound to its watcher, and whose watcher
  -- is as a request has left it, asks in a row for its socket to be watched, and does not replace the
  -- socket while that is watched. The requests succeed, and behind them the loop watches the socket for
  -- the last of them, as if there had been no other.
  pub request_all-Watches :
      (cn : ℕ) (xs : Requests) (fd : Option ℕ) (mode : SocketState) (e : EvData L)
      → Watches cn fd mode e
      → Steady fd mode xs
      → (e' : EvData L) × (request_all cn xs e ≡ ok e')
        × Watches cn (last fd mode xs).0 (last fd mode xs).1 e'
  unfolding request_all
  request_all-Watches cn [] fd mode e w steady = (e, refl, w)
  request_all-Watches cn ((fd', mode') ∷ xs) fd mode e w (one, more) =
      let (e', is, w') = request-Watches cn fd fd' mode mode' e w one in
      let (e'', is', w'') = request_all-Watches cn xs fd' mode' e' w' more in
      (e'', ap (λ (r : Result (EvData L)). r >>= request_all cn xs) is ∙ is', w'')

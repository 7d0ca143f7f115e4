-- ===== src/Ev4cpp2tnt/Bound.antt =====
-- ev4cpp2tnt.cpp: which bundles the handlers of the connections are bound to.
use cpp2tnt.Prelude.{
  ℕ, ◌≡◌, refl, sym, ap, ◌∙◌, subst, inl, inr, Bool, true, false, not, ◌||◌, Bool-cases,
  Option-cases, Option, none, some, List, [], ◌∷◌, ◌==◌, ==_refl, ==_iff, ==_ne, if◌then◌else◌,
}
use cpp2tnt.Outcome.{ok, guard-true}
use cpp2tnt.Connection.{SocketState}
use cpp2tnt.Ev4cpp2tnt.{
  Libev, LibevLaws, Bundle, Hooks, no_hooks, EvData, find, remove, set_io, update, is_some, io_of,
  register_connection, unregister_connection, request_watcher, take_care, rewatch, SocketState-eq,
  construct_connection, destruct_connection, call_watcher, socket_request, freed, update_alive,
}
use cpp2tnt.Ev4cpp2tnt.Owned.{
  Owned, register_connection-Owned, unregister_connection-Owned, rewatch-Owned,
}

pub find-remove :
    (cn i : ℕ) (bs : List Bundle) → (cn == i) ≡ false → find i (remove cn bs) ≡ find i bs
find-remove cn i [] ne = refl
find-remove cn i (b ∷ bs) ne = elim (Bool-cases (b.connection == cn)) [
  | inl here ↦
      let other : (b.connection == i) ≡ false =
        ap (λ k. k == i) ((==_iff b.connection cn).0 here) ∙ ne in
      rw (here, other) refl
  | inr there ↦ elim (Bool-cases (b.connection == i)) [
    | inl it ↦ rw (there, it) refl
    | inr not_it ↦ rw (there, not_it) (find-remove cn i bs ne)
  ]
]

pub flip_true : (i j : ℕ) → (i == j) ≡ true → (j == i) ≡ true
flip_true i j h = ==_refl j i (sym ((==_iff i j).0 h))

pub flip_false : (i j : ℕ) → (i == j) ≡ false → (j == i) ≡ false
flip_false i j h = ==_ne j i (λ e. absurd (cc (sym h ∙ ==_refl i j (sym e))))

-- A change of a connection's handlers that leaves the one for the watcher.
pub update_watcher :
    (f : ℕ → Hooks) (cn : ℕ) (h : Hooks) (i : ℕ)
    → h.watcher ≡ (f cn).watcher
    → (update f cn h i).watcher ≡ (f i).watcher
update_watcher f cn h i same = elim (Bool-cases (i == cn)) [
  | inl it ↦ rw it (same ∙ ap (λ k. (f k).watcher) (sym ((==_iff i cn).0 it)))
  | inr other ↦ rw other refl
]

-- The bundle under a key after ev_io_set is the one that was there.
abbrev pub SameId : Option Bundle → Option Bundle → Type 0
SameId none o = o ≡ none
SameId (some b) o = (b' : Bundle) × (o ≡ some b') × (b'.id ≡ b.id)

SameId-refl : (o : Option Bundle) → SameId o o
SameId-refl none = refl
SameId-refl (some b) = (b, refl, refl)

pub find-set_io :
    (cn i : ℕ) (fd : Option ℕ) (mode : SocketState) (bs : List Bundle)
    → SameId (find i bs) (find i (set_io cn fd mode bs))
find-set_io cn i fd mode [] = refl
find-set_io cn i fd mode (b ∷ bs) = elim (Bool-cases (b.connection == cn)) [
  | inl here ↦ elim (Bool-cases (b.connection == i)) [
    | inl it ↦ rw (here, it) (_, refl, refl)
    | inr not_it ↦ rw (here, not_it) (SameId-refl (find i bs))
  ]
  | inr there ↦ elim (Bool-cases (b.connection == i)) [
    | inl it ↦ rw (there, it) (_, refl, refl)
    | inr not_it ↦ rw (there, not_it) (find-set_io cn i fd mode bs)
  ]
]

-- The handler of a connection is bound to the bundle that the map has for it.
abbrev pub BoundTo : Option ℕ → Option Bundle → Type 0
BoundTo none o = Unit
BoundTo (some id) o = (b : Bundle) × (o ≡ some b) × (b.id ≡ id)

pub BoundTo-SameId :
    (w : Option ℕ) (o o' : Option Bundle) → SameId o o' → BoundTo w o → BoundTo w o'
BoundTo-SameId none o o' s t = tt
BoundTo-SameId (some id) none o' s (b, e, same) = absurd (cc e)
BoundTo-SameId (some id) (some x) o' (x', e', same') (b, e, same) =
    let it : x ≡ b = cc e in (x', e', same' ∙ ap (λ (y : Bundle). y.id) it ∙ same)

module _ (L : Libev) (laws : LibevLaws L) where
  abbrev pub Bound : EvData L → Type 0
  Bound e = (cn : ℕ) → BoundTo (e.hooks cn).watcher (find cn e.bundles)

  -- No watcher is active that the map does not hold, and no handler is bound to one that is freed.
  abbrev pub IsSafe : EvData L → Type 0
  IsSafe e = Owned L laws e × Bound e

  register-Bound : (cn : ℕ) (e : EvData L) → Bound e → Bound (register_connection L cn e)
  unfolding register_connection
  register-Bound cn e h = elim (Option-cases (find cn e.bundles)) [
    | inl absent ↦ rw absent (λ i. elim (Bool-cases (i == cn)) [
      | inl it ↦ rw (it, flip_true i cn it) (_, refl, refl)
      | inr other ↦ rw (other, flip_false i cn other) (h i)
    ])
    | inr (b, present) ↦ rw present h
  ]

  unregister-Bound : (cn : ℕ) (e : EvData L) → Bound e → Bound (unregister_connection L cn e)
  unfolding unregister_connection
  unregister-Bound cn e h = elim (Option-cases (find cn e.bundles)) [
    | inl absent ↦ rw absent h
    | inr (b, present) ↦ rw present (λ i. elim (Bool-cases (i == cn)) [
      | inl it ↦ rw it tt
      | inr other ↦ rw other (
          subst (BoundTo (e.hooks i).watcher)
            (sym (find-remove cn i e.bundles (flip_false i cn other))) (h i))
    ])
  ]

  -- Only handlers change, and not those for the watchers.
  pub Bound-hooks :
      (e : EvData L) (f : ℕ → Hooks)
      → ((i : ℕ) → (f i).watcher ≡ (e.hooks i).watcher)
      → Bound e
      → Bound (record e { hooks = f })
  Bound-hooks e f same h i = subst (λ o. BoundTo o (find i e.bundles)) (sym (same i)) (h i)

  rewatch-Bound :
      (cn : ℕ) (b : Bundle) (fd : Option ℕ) (mode : SocketState) (e : EvData L)
      → Bound e
      → Bound (rewatch L cn b fd mode e)
  unfolding rewatch
  rewatch-Bound cn b fd mode e h i =
      BoundTo-SameId (e.hooks i).watcher (find i e.bundles) (find i (set_io cn fd mode e.bundles))
        (find-set_io cn i fd mode e.bundles) (h i)

  pub request_watcher-IsSafe :
      (cn : ℕ) (fd : Option ℕ) (mode : SocketState) (e : EvData L)
      → e.alive cn ≡ true
      → IsSafe e
      → (e' : EvData L) × (request_watcher L cn fd mode e ≡ ok e') × IsSafe e'
  unfolding request_watcher call_watcher socket_request
  request_watcher-IsSafe cn fd mode e living (own, bound) =
      let (e', is, safe) = called (e.hooks cn).watcher refl (bound cn) in (e', rw living is, safe)
    where
      changed :
          (b : Bundle) (c : Bool)
          → find cn e.bundles ≡ some b
          → (e' : EvData L) × ((if c then ok (rewatch L cn b fd mode e) else ok e) ≡ ok e')
            × IsSafe e'
      changed b true found = (
        _,
        refl,
        (rewatch-Owned L laws cn b fd mode e found own, rewatch-Bound cn b fd mode e bound),
      )
      changed b false found = (e, refl, (own, bound))

      called :
          (o : Option ℕ)
          → (e.hooks cn).watcher ≡ o
          → BoundTo o (find cn e.bundles)
          → (e' : EvData L) × (call_watcher L cn fd mode o e ≡ ok e') × IsSafe e'
      called none is t = (e, refl, (own, bound))
      called (some id) is (b, found, same) =
          let w = is_some (L.active e.loop (io_of id)) in
          let (e', is', safe) = changed b (not w || not (SocketState-eq b.events mode)) found in
          (e', rw (found, ==_refl b.id id same) is', safe)

  pub construct-IsSafe : (cn : ℕ) (e : EvData L) → IsSafe e → IsSafe (construct_connection L cn e)
  unfolding construct_connection
  construct-IsSafe cn e (own, bound) = registered e.global
    where
      e' : EvData L
      e' = record e { hooks = update e.hooks cn no_hooks; alive = update_alive e.alive cn true }

      bound' : Bound e'
      bound' i = elim (Bool-cases (i == cn)) [ inl it ↦ rw it tt | inr other ↦ rw other (bound i) ]

      registered : (on : Bool) → IsSafe (if on then register_connection L cn e' else e')
      registered true = (register_connection-Owned L laws cn e' own, register-Bound cn e' bound')
      registered false = (own, bound')

  pub unregister-IsSafe : (cn : ℕ) (e : EvData L) → IsSafe e → IsSafe (unregister_connection L cn e)
  unregister-IsSafe cn e (own, bound) =
      (unregister_connection-Owned L laws cn e own, unregister-Bound cn e bound)

  pub destruct-IsSafe :
      (cn : ℕ) (e : EvData L)
      → e.alive cn ≡ true
      → IsSafe e
      → (e' : EvData L) × (destruct_connection L cn e ≡ ok e') × IsSafe e'
  unfolding destruct_connection freed
  destruct-IsSafe cn e living safe =
      (_, guard-true (e.alive cn) _ living, released ((e.hooks cn).destruct || e.global))
    where
      released : (b : Bool) → IsSafe (freed L cn (if b then unregister_connection L cn e else e))
      released true = unregister-IsSafe cn e safe
      released false = safe

  pub take_care-IsSafe :
      (cn : ℕ) (e : EvData L)
      → e.alive cn ≡ true
      → IsSafe e
      → (e' : EvData L) × (take_care L cn e ≡ ok e') × IsSafe e'
  unfolding take_care
  take_care-IsSafe cn e living (own, bound) =
      let e' = register_connection L cn e in
      let f = update e'.hooks cn (record (e'.hooks cn) { destruct = true }) in
      let same =
        λ (i : ℕ). update_watcher e'.hooks cn (record (e'.hooks cn) { destruct = true }) i refl in
      (
        record e' { hooks = f },
        guard-true (e.alive cn) _ living,
        (
          register_connection-Owned L laws cn e own,
          Bound-hooks e' f same (register-Bound cn e bound),
        ),
      )

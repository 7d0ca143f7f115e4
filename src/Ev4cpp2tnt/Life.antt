-- ===== src/Ev4cpp2tnt/Life.antt =====
-- ev4cpp2tnt.cpp: its destructor behind any calls.
use cpp2tnt.Prelude.{
  ℕ, zero, suc, ◌≤◌, ◌≡◌, ◌≢◌, refl, sym, ap, ◌∙◌, inl, inr, true, false, Bool-cases, Option-cases,
  Option, none, some, List, [], ◌∷◌, length, ◌==◌, ==_refl, ==_iff, arith,
}
use cpp2tnt.Outcome.{Result, ok, undefined, ◌>>=◌, guard-true}
use cpp2tnt.Ev4cpp2tnt.{
  Libev, LibevLaws, Bundle, EvData, timer_of, find, remove, update, register_connection,
  unregister_connection, request_notify, second, create, destroy, unregister_all, release,
  call_notify,
}
use cpp2tnt.Ev4cpp2tnt.Owned.{owns, ne_of_false}
use cpp2tnt.Ev4cpp2tnt.Bound.{
  IsSafe, Bound-hooks, update_watcher, unregister-IsSafe, find-remove, flip_false,
}
use cpp2tnt.Ev4cpp2tnt.Tended.{IsTended, Told}
use cpp2tnt.Ev4cpp2tnt.Calls.{Call, run, Orderly, run-Sound}

module _ (L : Libev) (laws : LibevLaws L) where
  create-IsSafe :
      (l : L.Loop) → ((w : ℕ) → w ≢ timer_of → L.active l w ≡ none) → IsSafe L laws (create L l)
  unfolding create
  create-IsSafe l clean = (
    λ w ne free.
        laws.unref_all (L.start timer_of second l) w
        ∙ laws.start_other l w timer_of second ne
        ∙ clean w ne,
    λ cn. tt,
  )

  create-IsTended : (l : L.Loop) → IsTended L laws (create L l)
  unfolding create
  create-IsTended l = record {
    distinct = tt;
    each = λ i. record { told = tt; notified = λ living. absurd (cc living) };
  }

  -- No connection of the map is freed.
  abbrev Living : EvData L → Type 0
  Living e = (i : ℕ) (b : Bundle) → find i e.bundles ≡ some b → e.alive i ≡ true

  IsTended-Living : (e : EvData L) → IsTended L laws e → Living e
  IsTended-Living e t i b found = by (find i e.bundles) found (t.each i).told
    where
      by :
          (o : Option Bundle)
          → o ≡ some b
          → Told (e.alive i) (e.hooks i) e.global o
          → e.alive i ≡ true
      by none is h = absurd (cc is)
      by (some x) is (living, _) = living

  unregister-Living :
      (cn : ℕ) (e : EvData L) → e.alive cn ≡ true → Living e → Living (unregister_connection L cn e)
  unfolding unregister_connection release
  unregister-Living cn e living all = elim (Option-cases (find cn e.bundles)) [
    | inl absent ↦ rw absent all
    | inr (b, present) ↦ rw present (λ i x found. elim (Bool-cases (i == cn)) [
      | inl it ↦ ap e.alive ((==_iff i cn).0 it) ∙ living
      | inr other ↦ all i x (sym (find-remove cn i e.bundles (flip_false i cn other)) ∙ found)
    ])
  ]

  unregister_first :
      (b : Bundle) (bs : List Bundle) (e : EvData L)
      → e.bundles ≡ b ∷ bs
      → (unregister_connection L b.connection e).bundles ≡ bs
  unfolding unregister_connection release
  unregister_first b bs e is =
      let cn = b.connection in
      let it = ==_refl cn cn refl in
      let found : find cn e.bundles ≡ some b = ap (find cn) is ∙ rw it refl in
      ap (λ o. (release L cn o e).bundles) found ∙ ap (remove cn) is ∙ rw it refl

  unregister_all-IsSafe :
      (fuel : ℕ) (bs : List Bundle) (e : EvData L)
      → e.bundles ≡ bs
      → length bs ≤ fuel
      → IsSafe L laws e
      → Living e
      → (e' : EvData L) × (unregister_all L fuel bs e ≡ ok e')
        × (e'.bundles ≡ [])
        × IsSafe L laws e'
  unfolding unregister_all
  unregister_all-IsSafe fuel [] e is few safe all = (e, refl, is, safe)
  unregister_all-IsSafe zero (b ∷ bs) e is few safe all = absurd (omega arith)
  unregister_all-IsSafe (suc fuel) (b ∷ bs) e is few (own, bound) all =
      let cn = b.connection in
      let f = update e.hooks cn (record (e.hooks cn) { destruct = false }) in
      let e1 = record e { hooks = f } in
      let safe1 : IsSafe L laws e1 = (
        own,
        Bound-hooks L laws e f
            (λ i. update_watcher e.hooks cn (record (e.hooks cn) { destruct = false }) i refl)
            bound,
      ) in
      let living : e.alive cn ≡ true = all cn b (ap (find cn) is ∙ rw (==_refl cn cn refl) refl) in
      let rest = unregister_first b bs e1 is in
      let (e2, is', none_left, safe2) =
        unregister_all-IsSafe fuel bs (unregister_connection L cn e1) rest (omega arith)
          (unregister-IsSafe L laws cn e1 safe1) (unregister-Living cn e1 living all) in
      (
        e2,
        guard-true (e.alive cn) _ living
            ∙ ap (λ bs. unregister_all L fuel bs (unregister_connection L cn e1)) rest
            ∙ is',
        none_left,
        safe2,
      )

  destroy-IsSafe :
      (e : EvData L)
      → IsSafe L laws e
      → Living e
      → (e' : EvData L) × (destroy L e ≡ ok e')
        × (e'.bundles ≡ [])
        × ((w : ℕ) → L.active e'.loop w ≡ none)
  unfolding destroy
  destroy-IsSafe e safe all =
      let (e', is, none_left, (own, bound)) =
        unregister_all-IsSafe (length e.bundles) e.bundles e refl (omega arith) safe all in
      (
        record e' { loop = L.stop timer_of e'.loop },
        ap (λ (r : Result (EvData L)). r >>= λ x. ok (record x { loop = L.stop timer_of x.loop }))
            is,
        none_left,
        λ w. elim (Bool-cases (w == timer_of)) [
          | inl it ↦
              ap (L.active (L.stop timer_of e'.loop)) ((==_iff w timer_of).0 it)
              ∙ laws.stopped e'.loop timer_of
          | inr other ↦
              let ne = ne_of_false w timer_of other in
              laws.stop_other e'.loop w timer_of ne ∙ own w ne (ap (λ bs. owns bs w) none_left)
        ],
      )

  -- Connections that come, go, are taken care of, notify and ask for their sockets to be watched, in any
  -- order, and a destructor of ev4cpp2tnt behind them: no call uses a watcher or a connection that is
  -- freed, and in the end the map is empty and the loop has none of the watchers that it was given. It
  -- wants a loop that had none of them before, connections that are constructed where none is alive and
  -- called and ended only while they are, and disable_globally only when take_care was called of each
  -- connection in the map.
  pub run-destroy :
      (l : L.Loop) (xs : List Call)
      → ((w : ℕ) → w ≢ timer_of → L.active l w ≡ none)
      → Orderly L laws xs (create L l)
      → (e : EvData L) × (run L laws xs (create L l) ≡ ok e)
        × (e' : EvData L) × (destroy L e ≡ ok e')
        × (e'.bundles ≡ [])
        × ((w : ℕ) → L.active e'.loop w ≡ none)
  run-destroy l xs clean orderly =
      let (e, is, (safe, tended)) =
        run-Sound L laws xs (create L l) orderly (create-IsSafe l clean, create-IsTended l) in
      let (e', is', none_left, off) = destroy-IsSafe e safe (IsTended-Living e tended) in
      (e, is, e', is', none_left, off)

  -- Only the handler for the watcher is taken back: where a connection that was registered is not any
  -- more, its handler for on_notify_request is still bound to the watcher that was freed.
  pub request_notify_freed :
      (cn : ℕ) (e : EvData L)
      → find cn e.bundles ≡ none
      → e.alive cn ≡ true
      → request_notify L cn (unregister_connection L cn (register_connection L cn e)) ≡ undefined
  unfolding request_notify call_notify unregister_connection register_connection release
  request_notify_freed cn e absent living =
      let it = ==_refl cn cn refl in rw (absent, it, living, update, it, absent) refl

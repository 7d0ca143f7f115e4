-- ===== src/Ev4cpp2tnt/Owned.antt =====
-- ev4cpp2tnt.cpp: which watchers are active.
use cpp2tnt.Prelude.{
  ℕ, ◌≡◌, ◌≢◌, refl, sym, ap, ◌∙◌, inl, inr, Bool, true, false, ◌||◌, Bool-cases, Option, none,
  some, List, [], ◌∷◌, ◌==◌, ==_refl, ==_iff, Option-cases, ◌⊎◌,
}
use cpp2tnt.Connection.{SocketState, unwatched}
use cpp2tnt.Ev4cpp2tnt.{
  Libev, LibevLaws, Bundle, EvData, async_of, io_of, timer_of, find, remove, set_io, is_some,
  stop_active, rewatch, SocketState-eq, socket, signal, register_connection, unregister_connection,
}

-- Whether the watcher at an address is one of the bundle's, or of the bundles'.
abbrev pub is_of : ℕ → Bundle → Bool
is_of w b = w == async_of b.id || w == io_of b.id

abbrev pub owns : List Bundle → ℕ → Bool
owns [] w = false
owns (b ∷ bs) w = is_of w b || owns bs w

or_false : (a b : Bool) → (a || b) ≡ false → (a ≡ false) × (b ≡ false)
or_false true b h = absurd (cc h)
or_false false b h = (refl, h)

or_true : (a b : Bool) → (a || b) ≡ true → (a ≡ true) ⊎ (b ≡ true)
or_true true b h = inl refl
or_true false b h = inr h

or_both : (a b : Bool) → a ≡ false → b ≡ false → (a || b) ≡ false
or_both a b h g = rw (h, g) refl

pub ne_of_false : (v w : ℕ) → (v == w) ≡ false → v ≢ w
ne_of_false v w h = λ e. absurd (cc (sym h ∙ ==_refl v w e))

-- A bundle that is taken out, or set, leaves the watchers of the others.
owns-remove :
    (cn w : ℕ) (bs : List Bundle) (b : Bundle)
    → find cn bs ≡ some b
    → is_of w b ≡ false
    → owns (remove cn bs) w ≡ false
    → owns bs w ≡ false
owns-remove cn w [] b e f h = refl
owns-remove cn w (x ∷ xs) b e f h = elim (Bool-cases (x.connection == cn)) [
  | inl here ↦
      let same : x ≡ b = cc (rw here at e) in
      or_both (is_of w x) (owns xs w) (ap (is_of w) same ∙ f) (rw here at h)
  | inr there ↦
      let (h', hs) = or_false (is_of w x) (owns (remove cn xs) w) (rw there at h) in
      or_both (is_of w x) (owns xs w) h' (owns-remove cn w xs b (rw there at e) f hs)
]

owns-set_io :
    (cn w : ℕ) (fd : Option ℕ) (mode : SocketState) (bs : List Bundle)
    → owns (set_io cn fd mode bs) w ≡ owns bs w
owns-set_io cn w fd mode [] = refl
owns-set_io cn w fd mode (x ∷ xs) = elim (Bool-cases (x.connection == cn)) [
  | inl here ↦ rw here refl
  | inr there ↦ rw there (ap (λ c. is_of w x || c) (owns-set_io cn w fd mode xs))
]

owns_found :
    (cn w : ℕ) (bs : List Bundle) (b : Bundle)
    → find cn bs ≡ some b
    → owns bs w ≡ false
    → is_of w b ≡ false
owns_found cn w [] b e h = cc
owns_found cn w (x ∷ xs) b e h =
    let (h', hs) = or_false (is_of w x) (owns xs w) h in
    elim (Bool-cases (x.connection == cn)) [
      | inl here ↦ let same : x ≡ b = cc (rw here at e) in ap (is_of w) (sym same) ∙ h'
      | inr there ↦ owns_found cn w xs b (rw there at e) hs
    ]

is_of_ne : (w : ℕ) (b : Bundle) → is_of w b ≡ false → (w ≢ async_of b.id) × (w ≢ io_of b.id)
is_of_ne w b h =
    let (a, i) = or_false (w == async_of b.id) (w == io_of b.id) h in
    (ne_of_false w (async_of b.id) a, ne_of_false w (io_of b.id) i)

pub is_some-false {ℓ} : {A : Type ℓ} (o : Option A) → is_some o ≡ false → o ≡ none
is_some-false none h = refl
is_some-false (some a) h = absurd (cc h)

module _ (L : Libev) (laws : LibevLaws L) where
  -- Every active watcher but the timer belongs to a bundle of the map.
  abbrev pub Owned : EvData L → Type 0
  Owned e = (w : ℕ) → w ≢ timer_of → owns e.bundles w ≡ false → L.active e.loop w ≡ none

  pub stop_active_self : (w : ℕ) (l : L.Loop) → L.active (stop_active L w l) w ≡ none
  unfolding stop_active
  stop_active_self w l = elim (Bool-cases (is_some (L.active l w))) [
    | inl e ↦ rw e (laws.stopped l w)
    | inr e ↦ rw e (is_some-false (L.active l w) e)
  ]

  pub stop_active_other :
      (v w : ℕ) (l : L.Loop) → v ≢ w → L.active (stop_active L w l) v ≡ L.active l v
  unfolding stop_active
  stop_active_other v w l ne = elim (Bool-cases (is_some (L.active l w))) [
    | inl e ↦ rw e (laws.stop_other l v w ne)
    | inr e ↦ rw e refl
  ]

  -- A watcher that is not active stays so.
  stop_active-none :
      (v w : ℕ) (l : L.Loop) → L.active l v ≡ none → L.active (stop_active L w l) v ≡ none
  stop_active-none v w l h = elim (Bool-cases (v == w)) [
    | inl same ↦ ap (L.active (stop_active L w l)) ((==_iff v w).0 same) ∙ stop_active_self w l
    | inr other ↦ stop_active_other v w l (ne_of_false v w other) ∙ h
  ]

  pub register_connection-Owned :
      (cn : ℕ) (e : EvData L) → Owned e → Owned (register_connection L cn e)
  unfolding register_connection
  register_connection-Owned cn e h = elim (Option-cases (find cn e.bundles)) [
    | inl absent ↦ rw absent (λ w ne free.
        let b : Bundle = record {
          connection = cn;
          id = e.fresh;
          fd = some 0;
          events = unwatched;
        } in
        let (own, rest) = or_false (is_of w b) (owns e.bundles w) free in
        laws.start_other e.loop w (async_of e.fresh) signal (is_of_ne w b own).0 ∙ h w ne rest)
    | inr (b, present) ↦ rw present h
  ]

  pub unregister_connection-Owned :
      (cn : ℕ) (e : EvData L) → Owned e → Owned (unregister_connection L cn e)
  unfolding unregister_connection
  unregister_connection-Owned cn e h = elim (Option-cases (find cn e.bundles)) [
    | inl absent ↦ rw absent h
    | inr (b, present) ↦
        rw present (λ w ne free. released b present w ne free (Bool-cases (is_of w b)))
  ]
    where
      released :
          (b : Bundle)
          → find cn e.bundles ≡ some b
          → (w : ℕ) → w ≢ timer_of
          → owns (remove cn e.bundles) w ≡ false
          → (is_of w b ≡ true) ⊎ (is_of w b ≡ false)
          → L.active (stop_active L (io_of b.id) (stop_active L (async_of b.id) e.loop)) w ≡ none
      released b present w ne free (inl own) =
          elim (or_true (w == async_of b.id) (w == io_of b.id) own) [
            | inl is_async ↦
                stop_active-none w (io_of b.id) (stop_active L (async_of b.id) e.loop) (
                  ap (L.active (stop_active L (async_of b.id) e.loop))
                    ((==_iff w (async_of b.id)).0 is_async)
                  ∙ stop_active_self (async_of b.id) e.loop)
            | inr is_io ↦
                ap (L.active (stop_active L (io_of b.id) (stop_active L (async_of b.id) e.loop)))
                  ((==_iff w (io_of b.id)).0 is_io)
                ∙ stop_active_self (io_of b.id) (stop_active L (async_of b.id) e.loop)
          ]
      released b present w ne free (inr other) =
          stop_active-none w (io_of b.id) (stop_active L (async_of b.id) e.loop) (
            stop_active-none w (async_of b.id) e.loop
              (h w ne (owns-remove cn w e.bundles b present other free)))

  pub rewatch-Owned :
      (cn : ℕ) (b : Bundle) (fd : Option ℕ) (mode : SocketState) (e : EvData L)
      → find cn e.bundles ≡ some b
      → Owned e
      → Owned (rewatch L cn b fd mode e)
  unfolding rewatch
  rewatch-Owned cn b fd mode e f h w ne free =
      let free' : owns e.bundles w ≡ false = sym (owns-set_io cn w fd mode e.bundles) ∙ free in
      let ne' = (is_of_ne w b (owns_found cn w e.bundles b f free')).1 in
      let off = stop_active-none w (io_of b.id) e.loop (h w ne free') in
      elim (Bool-cases (SocketState-eq mode unwatched)) [
        | inl none_asked ↦ rw none_asked off
        | inr some_asked ↦ rw some_asked (
            laws.start_other (stop_active L (io_of b.id) e.loop) w (io_of b.id) (socket fd mode) ne'
            ∙ off)
      ]

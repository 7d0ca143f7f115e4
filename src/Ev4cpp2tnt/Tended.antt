-- ===== src/Ev4cpp2tnt/Tended.antt =====
-- ev4cpp2tnt.cpp: the connections in the map are alive, and will tell when they end.
pub mod Steps
pub mod Requests
use cpp2tnt.Prelude.{
  ℕ, ◌≡◌, refl, sym, ap, ◌∙◌, subst, inl, inr, Bool, true, false, ◌||◌, Bool-cases, Option-cases,
  Option, none, some, List, [], ◌∷◌, ◌==◌, ==_refl, ==_iff, if◌then◌else◌,
}
use cpp2tnt.Outcome.{Result, ok, guard, guard-true}
use cpp2tnt.Connection.{SocketState}
use cpp2tnt.Ev4cpp2tnt.{
  Libev, LibevLaws, Bundle, Hooks, no_hooks, EvData, find, remove, set_io, update, update_alive,
  register_connection, unregister_connection, request_notify, call_notify, async_send, take_care,
  construct_connection, destruct_connection, freed,
}
use cpp2tnt.Ev4cpp2tnt.Bound.{find-remove, flip_true, flip_false, BoundTo}

-- No connection has two bundles.
abbrev pub Distinct : List Bundle → Type 0
Distinct [] = Unit
Distinct (b ∷ bs) = (find b.connection bs ≡ none) × Distinct bs

remove-none : (cn i : ℕ) (bs : List Bundle) → find i bs ≡ none → find i (remove cn bs) ≡ none
remove-none cn i [] h = refl
remove-none cn i (b ∷ bs) h = elim (Bool-cases (b.connection == i)) [
  | inl it ↦ absurd (cc (rw it at h))
  | inr other ↦ elim (Bool-cases (b.connection == cn)) [
    | inl here ↦ rw here (rw other at h)
    | inr there ↦ rw (there, other) (remove-none cn i bs (rw other at h))
  ]
]

pub remove-Distinct : (cn : ℕ) (bs : List Bundle) → Distinct bs → Distinct (remove cn bs)
remove-Distinct cn [] d = tt
remove-Distinct cn (b ∷ bs) (new, d) = elim (Bool-cases (b.connection == cn)) [
  | inl here ↦ rw here d
  | inr there ↦ rw there (remove-none cn b.connection bs new, remove-Distinct cn bs d)
]

pub find-remove_same : (cn : ℕ) (bs : List Bundle) → Distinct bs → find cn (remove cn bs) ≡ none
find-remove_same cn [] d = refl
find-remove_same cn (b ∷ bs) (new, d) = elim (Bool-cases (b.connection == cn)) [
  | inl here ↦ rw here (ap (λ i. find i bs) (sym ((==_iff b.connection cn).0 here)) ∙ new)
  | inr there ↦ rw (there, there) (find-remove_same cn bs d)
]

pub true_or : (a b : Bool) → b ≡ true → (a || b) ≡ true
true_or true b h = refl
true_or false b h = h

pub left_or : (a b : Bool) → a ≡ true → (a || b) ≡ true
left_or true b h = refl
left_or false b h = absurd (cc h)

-- What is true of a connection, by its bundle: it is alive, and its end will be told.
abbrev pub Told : Bool → Hooks → Bool → Option Bundle → Type 0
Told alive h global none = Unit
Told alive h global (some b) = (alive ≡ true) × ((h.destruct || global) ≡ true)

module _ (L : Libev) (laws : LibevLaws L) where
  pub record TendedAt (e : EvData L) (i : ℕ) : Type 0 where
    pub told : Told (e.alive i) (e.hooks i) e.global (find i e.bundles)
    pub notified : e.alive i ≡ true → BoundTo (e.hooks i).notify (find i e.bundles)

  -- No connection of the map is freed or would be without notice, and a connection that is alive has its
  -- handler for on_notify_request bound to its watcher.
  pub record IsTended (e : EvData L) : Type 0 where
    pub distinct : Distinct e.bundles
    pub each : (i : ℕ) → TendedAt e i

  -- A change of one connection.
  pub record OnlyAt (cn : ℕ) (e e' : EvData L) : Type 0 where
    pub bundle : (i : ℕ) → (i == cn) ≡ false → find i e'.bundles ≡ find i e.bundles
    pub hooks : (i : ℕ) → (i == cn) ≡ false → e'.hooks i ≡ e.hooks i
    pub alive : (i : ℕ) → (i == cn) ≡ false → e'.alive i ≡ e.alive i
    pub global : e'.global ≡ e.global

  only-TendedAt :
      (cn i : ℕ) (e e' : EvData L)
      → OnlyAt cn e e'
      → (i == cn) ≡ false
      → TendedAt e i
      → TendedAt e' i
  only-TendedAt cn i e e' o ne t = record {
    told =
        subst (λ f. Told (e'.alive i) (e'.hooks i) e'.global f) (sym (o.bundle i ne))
          (subst (λ h. Told (e'.alive i) h e'.global (find i e.bundles)) (sym (o.hooks i ne))
            (subst (λ a. Told a (e.hooks i) e'.global (find i e.bundles)) (sym (o.alive i ne))
              (subst (λ g. Told (e.alive i) (e.hooks i) g (find i e.bundles)) (sym o.global)
                t.told)));
    notified = λ living.
        subst (λ f. BoundTo (e'.hooks i).notify f) (sym (o.bundle i ne))
          (subst (λ (h : Hooks). BoundTo h.notify (find i e.bundles)) (sym (o.hooks i ne))
            (t.notified (sym (o.alive i ne) ∙ living)));
  }

  pub only-IsTended :
      (cn : ℕ) (e e' : EvData L)
      → OnlyAt cn e e'
      → IsTended e
      → Distinct e'.bundles
      → TendedAt e' cn
      → IsTended e'
  only-IsTended cn e e' o t d at = record {
    distinct = d;
    each = λ i. elim (Bool-cases (i == cn)) [
      | inl it ↦ subst (TendedAt e') (sym ((==_iff i cn).0 it)) at
      | inr other ↦ only-TendedAt cn i e e' o other (t.each i)
    ];
  }

  -- A connection that is not alive has no bundle.
  pub absent_of :
      (cn : ℕ) (e : EvData L) → IsTended e → e.alive cn ≡ false → find cn e.bundles ≡ none
  absent_of cn e t dead = by (find cn e.bundles) (t.each cn).told
    where
      by : (o : Option Bundle) → Told (e.alive cn) (e.hooks cn) e.global o → o ≡ none
      by none h = refl
      by (some b) (living, h) = absurd (cc (sym dead ∙ living))

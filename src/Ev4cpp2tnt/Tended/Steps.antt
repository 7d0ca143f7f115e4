-- ===== src/Ev4cpp2tnt/Tended/Steps.antt =====
-- ev4cpp2tnt.cpp: what each call leaves of the invariant on the connections of the map.
use cpp2tnt.Prelude.{
  ℕ, ◌≡◌, refl, sym, ◌∙◌, inl, inr, Bool, true, false, ◌||◌, Bool-cases, Option-cases, Option, none,
  some, ==_refl, if◌then◌else◌,
}
use cpp2tnt.Outcome.{OnOk}
use cpp2tnt.Ev4cpp2tnt.{
  Libev, LibevLaws, Bundle, no_hooks, EvData, find, update, update_alive, register_connection,
  unregister_connection, take_care, construct_connection, destruct_connection, freed, added,
  release,
}
use cpp2tnt.Ev4cpp2tnt.Bound.{find-remove, flip_false}
use cpp2tnt.Ev4cpp2tnt.Tended.{
  Distinct, remove-Distinct, find-remove_same, Told, IsTended, OnlyAt, only-IsTended, absent_of,
}

module _ (L : Libev) (laws : LibevLaws L) where
  pub construct-IsTended :
      (cn : ℕ) (e : EvData L)
      → e.alive cn ≡ false
      → IsTended L laws e
      → IsTended L laws (construct_connection L cn e)
  unfolding construct_connection register_connection added
  construct-IsTended cn e dead t = by e.global refl
    where
      e' : EvData L
      e' = record e { hooks = update e.hooks cn no_hooks; alive = update_alive e.alive cn true }

      absent : find cn e.bundles ≡ none
      absent = absent_of L laws cn e t dead

      by :
          (on : Bool)
          → e.global ≡ on
          → IsTended L laws (if on then register_connection L cn e' else e')
      by true on = rw absent (
          only-IsTended L laws cn e _
            (record {
              bundle = λ i ne. rw (flip_false i cn ne) refl;
              hooks = λ i ne. rw ne refl;
              alive = λ i ne. rw ne refl;
              global = refl;
            })
            t (absent, t.distinct)
            (record {
              told = rw (==_refl cn cn refl) (refl, on);
              notified = λ living. rw (==_refl cn cn refl) (_, refl, refl);
            }))
      by false off =
          only-IsTended L laws cn e e'
            (record {
              bundle = λ i ne. refl;
              hooks = λ i ne. rw ne refl;
              alive = λ i ne. rw ne refl;
              global = refl;
            })
            t t.distinct
            (record { told = rw absent tt; notified = λ living. rw (==_refl cn cn refl) tt })

  pub take_care-IsTended :
      (cn : ℕ) (e : EvData L)
      → e.alive cn ≡ true
      → IsTended L laws e
      → OnOk (IsTended L laws) (take_care L cn e)
  unfolding take_care register_connection added
  take_care-IsTended cn e living t = rw living (elim (Option-cases (find cn e.bundles)) [
    | inl absent ↦ rw absent (
        only-IsTended L laws cn e _
          (record {
            bundle = λ i ne. rw (flip_false i cn ne) refl;
            hooks = λ i ne. rw ne refl;
            alive = λ i ne. refl;
            global = refl;
          })
          t (absent, t.distinct)
          (record {
            told = rw (==_refl cn cn refl) (living, refl);
            notified = λ _. rw (==_refl cn cn refl) (_, refl, refl);
          }))
    | inr (b, present) ↦ rw present (
        only-IsTended L laws cn e _
          (record {
            bundle = λ i ne. refl;
            hooks = λ i ne. rw ne refl;
            alive = λ i ne. refl;
            global = refl;
          })
          t t.distinct
          (record {
            told = rw (present, ==_refl cn cn refl) (living, refl);
            notified = λ _. rw (==_refl cn cn refl) ((t.each cn).notified living);
          }))
  ])

  -- What the destructor does before the connection is freed.
  record Left (cn : ℕ) (e e' : EvData L) : Type 0 where
    only : OnlyAt L laws cn e e'
    gone : find cn e'.bundles ≡ none
    distinct : Distinct e'.bundles

  unregister-Left :
      (cn : ℕ) (e : EvData L) → IsTended L laws e → Left cn e (unregister_connection L cn e)
  unfolding unregister_connection release
  unregister-Left cn e t = elim (Option-cases (find cn e.bundles)) [
    | inl absent ↦ rw absent (record {
      only = record {
        bundle = λ i ne. refl;
        hooks = λ i ne. refl;
        alive = λ i ne. refl;
        global = refl;
      };
      gone = absent;
      distinct = t.distinct;
    })
    | inr (b, present) ↦ rw present (record {
      only = record {
        bundle = λ i ne. find-remove cn i e.bundles (flip_false i cn ne);
        hooks = λ i ne. rw ne refl;
        alive = λ i ne. refl;
        global = refl;
      };
      gone = find-remove_same cn e.bundles t.distinct;
      distinct = remove-Distinct cn e.bundles t.distinct;
    })
  ]

  -- A connection that tells of its end neither itself nor globally has no bundle.
  silent-Left :
      (cn : ℕ) (e : EvData L)
      → ((e.hooks cn).destruct || e.global) ≡ false
      → IsTended L laws e
      → Left cn e e
  silent-Left cn e silent t = record {
    only = record {
      bundle = λ i ne. refl;
      hooks = λ i ne. refl;
      alive = λ i ne. refl;
      global = refl;
    };
    gone = by (find cn e.bundles) (t.each cn).told;
    distinct = t.distinct;
  }
    where
      by : (o : Option Bundle) → Told (e.alive cn) (e.hooks cn) e.global o → o ≡ none
      by none h = refl
      by (some b) (_, h) = absurd (cc (sym silent ∙ h))

  freed-IsTended :
      (cn : ℕ) (e e' : EvData L)
      → Left cn e e'
      → IsTended L laws e
      → IsTended L laws (freed L cn e')
  unfolding freed
  freed-IsTended cn e e' l t =
      only-IsTended L laws cn e _
        (record {
          bundle = l.only.bundle;
          hooks = l.only.hooks;
          alive = λ i ne. rw ne (l.only.alive i ne);
          global = l.only.global;
        })
        t l.distinct
        (record {
          told = rw (l.gone) tt;
          notified = λ living. absurd (cc (rw (==_refl cn cn refl) at living));
        })

  pub destruct-IsTended :
      (cn : ℕ) (e : EvData L)
      → e.alive cn ≡ true
      → IsTended L laws e
      → OnOk (IsTended L laws) (destruct_connection L cn e)
  unfolding destruct_connection
  destruct-IsTended cn e living t =
      rw living (elim (Bool-cases ((e.hooks cn).destruct || e.global)) [
        | inl told ↦ rw told (freed-IsTended cn e _ (unregister-Left cn e t) t)
        | inr silent ↦ rw silent (freed-IsTended cn e e (silent-Left cn e silent t) t)
      ])

-- ===== src/Ev4cpp2tnt/Calls.antt =====
-- ev4cpp2tnt.cpp: the calls of an application and of its connections, in any order.
use cpp2tnt.Prelude.{
  ℕ, ◌≡◌, refl, ap, ◌∙◌, inl, inr, true, false, Bool, Bool-cases, Option, none, some, List, [], ◌∷◌,
  ◌==◌, ==_iff, subst,
}
use cpp2tnt.Outcome.{Result, ok, ◌>>=◌, OnOk, OnOk-ok}
use cpp2tnt.Connection.{SocketState}
use cpp2tnt.Ev4cpp2tnt.{
  Libev, LibevLaws, Bundle, Hooks, EvData, find, request_watcher, request_notify, take_care,
  set_globally, construct_connection, destruct_connection,
}
use cpp2tnt.Ev4cpp2tnt.Bound.{
  IsSafe, request_watcher-IsSafe, construct-IsSafe, destruct-IsSafe, take_care-IsSafe,
}
use cpp2tnt.Ev4cpp2tnt.Tended.{IsTended, Told, true_or, left_or}
use cpp2tnt.Ev4cpp2tnt.Tended.Steps.{construct-IsTended, take_care-IsTended, destruct-IsTended}
use cpp2tnt.Ev4cpp2tnt.Tended.Requests.{request_watcher-IsTended, notify_lem}

-- What the application and the connections call, the destructor of ev4cpp2tnt left aside.
pub data Call : Type 0 where
  construction destruction care notification : ℕ → Call
  globally : Bool → Call
  request : ℕ → Option ℕ → SocketState → Call

-- Each connection of the map has a handler of its own for its end.
abbrev pub AllCared : (ℕ → Hooks) → List Bundle → Type 0
AllCared hooks [] = Unit
AllCared hooks (b ∷ bs) = ((hooks b.connection).destruct ≡ true) × AllCared hooks bs

AllCared-find :
    (hooks : ℕ → Hooks) (cn : ℕ) (bs : List Bundle) (b : Bundle)
    → AllCared hooks bs
    → find cn bs ≡ some b
    → (hooks cn).destruct ≡ true
AllCared-find hooks cn [] b all found = absurd (cc found)
AllCared-find hooks cn (x ∷ xs) b (cared, all) found = elim (Bool-cases (x.connection == cn)) [
  | inl here ↦ subst (λ i. (hooks i).destruct ≡ true) ((==_iff x.connection cn).0 here) cared
  | inr there ↦ AllCared-find hooks cn xs b all (rw there at found)
]

module _ (L : Libev) (laws : LibevLaws L) where
  -- One call.
  unfoldable pub step : Call → EvData L → Result (EvData L)
  unfolding construct_connection destruct_connection take_care set_globally request_watcher
      request_notify
  step (construction cn) e = ok (construct_connection L cn e)
  step (destruction cn) e = destruct_connection L cn e
  step (care cn) e = take_care L cn e
  step (notification cn) e = request_notify L cn e
  step (globally on) e = ok (set_globally L on e)
  step (request cn fd mode) e = request_watcher L cn fd mode e

  unfoldable pub run : List Call → EvData L → Result (EvData L)
  unfolding step
  run [] e = ok e
  run (x ∷ xs) e = step x e >>= run xs

  -- What an application has to keep to: a connection is constructed where there is none, and is used
  -- and ended only where it is alive; and the handlers of all connections are taken back only when
  -- each connection of the map has been taken care of by take_care.
  abbrev pub Allowed : Call → EvData L → Type 0
  Allowed (construction cn) e = e.alive cn ≡ false
  Allowed (destruction cn) e = e.alive cn ≡ true
  Allowed (care cn) e = e.alive cn ≡ true
  Allowed (notification cn) e = e.alive cn ≡ true
  Allowed (globally true) e = Unit
  Allowed (globally false) e = AllCared e.hooks e.bundles
  Allowed (request cn fd mode) e = e.alive cn ≡ true

  -- Each call is allowed when its turn comes.
  abbrev pub Orderly : List Call → EvData L → Type 0
  Orderly [] e = Unit
  Orderly (x ∷ xs) e = Allowed x e × OnOk (Orderly xs) (step x e)

  abbrev pub Sound : EvData L → Type 0
  Sound e = IsSafe L laws e × IsTended L laws e

  globally-IsTended :
      (on : Bool) (e : EvData L)
      → Allowed (globally on) e
      → IsTended L laws e
      → IsTended L laws (set_globally L on e)
  unfolding set_globally
  globally-IsTended on e all t = record {
    distinct = t.distinct;
    each = λ i. record {
      told = by on all i (find i e.bundles) refl (t.each i).told;
      notified = (t.each i).notified;
    };
  }
    where
      by :
          (on : Bool)
          → Allowed (globally on) e
          → (i : ℕ) (o : Option Bundle) → find i e.bundles ≡ o
          → Told (e.alive i) (e.hooks i) e.global o
          → Told (e.alive i) (e.hooks i) on o
      by on all i none is h = tt
      by true all i (some b) is (living, _) = (living, true_or (e.hooks i).destruct true refl)
      by false all i (some b) is (living, _) =
          (living, left_or (e.hooks i).destruct false (AllCared-find e.hooks i e.bundles b all is))

  -- The two invariants together, where one of them tells that the call succeeds.
  both :
      (r : Result (EvData L))
      → ((e' : EvData L) × (r ≡ ok e') × IsSafe L laws e')
      → OnOk (IsTended L laws) r
      → (e' : EvData L) × (r ≡ ok e') × Sound e'
  both r (e', is, safe) t = (e', is, (safe, OnOk-ok (IsTended L laws) r e' t is))

  globally-IsSafe :
      (on : Bool) (e : EvData L) → IsSafe L laws e → IsSafe L laws (set_globally L on e)
  unfolding set_globally
  globally-IsSafe on e s = s

  step-Sound :
      (x : Call) (e : EvData L)
      → Allowed x e
      → Sound e
      → (e' : EvData L) × (step x e ≡ ok e') × Sound e'
  unfolding step
  step-Sound (construction cn) e dead (s, t) =
      (_, refl, (construct-IsSafe L laws cn e s, construct-IsTended L laws cn e dead t))
  step-Sound (destruction cn) e living (s, t) =
      both (destruct_connection L cn e) (destruct-IsSafe L laws cn e living s)
        (destruct-IsTended L laws cn e living t)
  step-Sound (care cn) e living (s, t) =
      both (take_care L cn e) (take_care-IsSafe L laws cn e living s)
        (take_care-IsTended L laws cn e living t)
  step-Sound (notification cn) e living (s, t) = (e, notify_lem L laws cn e living t, (s, t))
  step-Sound (globally on) e all (s, t) =
      (_, refl, (globally-IsSafe on e s, globally-IsTended on e all t))
  step-Sound (request cn fd mode) e living (s, t) =
      both (request_watcher L cn fd mode e) (request_watcher-IsSafe L laws cn fd mode e living s)
        (request_watcher-IsTended L laws cn fd mode e t)

  pub run-Sound :
      (xs : List Call) (e : EvData L)
      → Orderly xs e
      → Sound e
      → (e' : EvData L) × (run xs e ≡ ok e') × Sound e'
  unfolding run
  run-Sound [] e orderly s = (e, refl, s)
  run-Sound (x ∷ xs) e (allowed, more) s =
      let (e', is, s') = step-Sound x e allowed s in
      let (e'', is', s'') = run-Sound xs e' (OnOk-ok (Orderly xs) (step x e) e' more is) s' in
      (e'', ap (λ (r : Result (EvData L)). r >>= run xs) is ∙ is', s'')

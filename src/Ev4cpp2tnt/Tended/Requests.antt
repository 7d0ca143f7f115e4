-- ===== src/Ev4cpp2tnt/Tended/Requests.antt =====
-- ev4cpp2tnt.cpp: what the requests of connections leave of the invariant on the connections of the map.
use cpp2tnt.Prelude.{
  ℕ, ◌≡◌, refl, sym, ◌∙◌, subst, inl, inr, Bool, true, not, ◌||◌, Bool-cases, Option, none, some,
  List, [], ◌∷◌, ◌==◌, ==_refl, if◌then◌else◌,
}
use cpp2tnt.Outcome.{ok, guard-true, OnOk, OnOk-guard, OnOk-if, undefined}
use cpp2tnt.Connection.{SocketState}
use cpp2tnt.Ev4cpp2tnt.{
  Libev, LibevLaws, Bundle, Hooks, EvData, find, set_io, request_notify, call_notify, async_send,
  request_watcher, call_watcher, socket_request, rewatch, io_of, is_some, SocketState-eq,
}
use cpp2tnt.Ev4cpp2tnt.Bound.{BoundTo, SameId, find-set_io, BoundTo-SameId}
use cpp2tnt.Ev4cpp2tnt.Tended.{Distinct, Told, IsTended}

set_io-Distinct :
    (cn : ℕ) (fd : Option ℕ) (mode : SocketState) (bs : List Bundle)
    → Distinct bs
    → Distinct (set_io cn fd mode bs)
set_io-Distinct cn fd mode [] d = tt
set_io-Distinct cn fd mode (b ∷ bs) (new, d) = elim (Bool-cases (b.connection == cn)) [
  | inl here ↦ rw here (new, d)
  | inr there ↦ rw there (
    subst (λ o. SameId o (find b.connection (set_io cn fd mode bs))) new
        (find-set_io cn b.connection fd mode bs),
    set_io-Distinct cn fd mode bs d,
  )
]

Told-SameId :
    (a : Bool) (h : Hooks) (g : Bool) (o o' : Option Bundle)
    → SameId o o'
    → Told a h g o
    → Told a h g o'
Told-SameId a h g none o' s t = subst (Told a h g) (sym s) tt
Told-SameId a h g (some b) o' (b', is, _) t = subst (Told a h g) (sym is) t

module _ (L : Libev) (laws : LibevLaws L) where
  rewatch-IsTended :
      (cn : ℕ) (b : Bundle) (fd : Option ℕ) (mode : SocketState) (e : EvData L)
      → IsTended L laws e
      → IsTended L laws (rewatch L cn b fd mode e)
  unfolding rewatch
  rewatch-IsTended cn b fd mode e t = record {
    distinct = set_io-Distinct cn fd mode e.bundles t.distinct;
    each = λ i. record {
      told =
          Told-SameId (e.alive i) (e.hooks i) e.global (find i e.bundles)
            (find i (set_io cn fd mode e.bundles)) (find-set_io cn i fd mode e.bundles)
            (t.each i).told;
      notified = λ living.
          BoundTo-SameId (e.hooks i).notify (find i e.bundles)
            (find i (set_io cn fd mode e.bundles)) (find-set_io cn i fd mode e.bundles)
            ((t.each i).notified living);
    };
  }

  pub request_watcher-IsTended :
      (cn : ℕ) (fd : Option ℕ) (mode : SocketState) (e : EvData L)
      → IsTended L laws e
      → OnOk (IsTended L laws) (request_watcher L cn fd mode e)
  unfolding request_watcher call_watcher socket_request
  request_watcher-IsTended cn fd mode e t =
      OnOk-guard (IsTended L laws) (e.alive cn) _ (called (e.hooks cn).watcher)
    where
      asked :
          (id : ℕ) (o : Option Bundle) → OnOk (IsTended L laws) (socket_request L cn id fd mode e o)
      asked id none = tt
      asked id (some b) =
          let stale =
            not (is_some (L.active e.loop (io_of id))) || not (SocketState-eq b.events mode) in
          let set = ok (rewatch L cn b fd mode e) in
          OnOk-if (IsTended L laws) (not (b.id == id)) undefined (if stale then set else ok e) tt
            (OnOk-if (IsTended L laws) stale set (ok e) (rewatch-IsTended cn b fd mode e t) t)

      called : (o : Option ℕ) → OnOk (IsTended L laws) (call_watcher L cn fd mode o e)
      called none = t
      called (some id) = asked id (find cn e.bundles)

  -- A connection that is alive can notify.
  pub notify_lem :
      (cn : ℕ) (e : EvData L) → e.alive cn ≡ true → IsTended L laws e → request_notify L cn e ≡ ok e
  unfolding request_notify call_notify async_send
  notify_lem cn e living t =
      guard-true (e.alive cn) _ living ∙ by (e.hooks cn).notify ((t.each cn).notified living)
    where
      by : (o : Option ℕ) → BoundTo o (find cn e.bundles) → call_notify L cn o e ≡ ok e
      by none h = refl
      by (some id) (b, is, same) = rw (is, ==_refl b.id id same) refl

-- ===== src/Connection/Phase.antt =====
-- The phases of a connection: which states have a socket, and what the address resolver may still do.
use cpp2tnt.Prelude.{
  ℕ, Bool, true, false, ◌≡◌, sym, ◌∙◌, subst, ◌||◌, ◌⊎◌, inl, inr, Option, none, some, List, [],
  ◌∷◌, if◌then◌else◌,
}
use cpp2tnt.Outcome.{Result, ok, thrown, undefined, OnOk}
use cpp2tnt.Connection.Close.{State-eq}
use cpp2tnt.Connection.{
  features_request, authentication, Connection, State, Setup, Notification, resolved, not_resolved,
  handler, disconnected, address_resolving,
}

-- The state, with the socket it has and whether the resolver is not joined yet. A socket is there while
-- connecting and later, and there is no resolver then.
abbrev pub Fits : State → Option ℕ → Bool → Type 0
Fits disconnected none joinable = Unit
Fits disconnected (some fd) joinable = ⊥
Fits address_resolving none true = Unit
Fits address_resolving _ _ = ⊥
Fits _ (some fd) false = Unit
Fits _ _ _ = ⊥

-- The resolver has at most one notification in the queue, and is not joined before it is run.
abbrev pub Queued : Bool → List Notification → Type 0
Queued joinable [] = Unit
Queued joinable (handler n ∷ ns) = Queued joinable ns
Queued true (resolved addresses ∷ ns) = Queued false ns
Queued true (not_resolved ∷ ns) = Queued false ns
Queued false (resolved addresses ∷ ns) = ⊥
Queued false (not_resolved ∷ ns) = ⊥

abbrev pub Phases : State → Option ℕ → Setup → Type 0
Phases s k u = Fits s k u.resolver_joinable × Queued u.resolver_joinable u.notifications

abbrev pub IsCoherent : Connection → Type 0
IsCoherent c = Phases c.state c.socket c.setup

-- The states in which responses go to the handshake.
abbrev pub shakes : State → Bool
shakes s = State-eq s features_request || State-eq s authentication

abbrev pub Keeps : (Connection → Result Connection) → Type 0
Keeps handshake =
    (c : Connection) → shakes c.state ≡ true → IsCoherent c → OnOk IsCoherent (handshake c)

-- Nothing of this changes.
abbrev pub Same : Connection → Connection → Type 0
Same c c' = (c'.state ≡ c.state) × (c'.socket ≡ c.socket) × (c'.setup ≡ c.setup)

-- The connection is closed.
abbrev pub Closed : Connection → Connection → Type 0
Closed c c' = (c'.state ≡ disconnected) × (c'.socket ≡ none) × (c'.setup ≡ c.setup)

abbrev pub Stays : Connection → Connection → Type 0
Stays c c' = Same c c' ⊎ Closed c c'

pub Same-trans : (c c' c'' : Connection) → Same c c' → Same c' c'' → Same c c''
Same-trans c c' c'' (a, b, d) (a', b', d') = (a' ∙ a, b' ∙ b, d' ∙ d)

pub Same-Closed : (c c' c'' : Connection) → Same c c' → Closed c' c'' → Closed c c''
Same-Closed c c' c'' (a, b, d) (a', b', d') = (a', b', d' ∙ d)

pub Closed-Same : (c c' c'' : Connection) → Closed c c' → Same c' c'' → Closed c c''
Closed-Same c c' c'' (a, b, d) (a', b', d') = (a' ∙ a, b' ∙ b, d' ∙ d)

pub Same-if : (b : Bool) (c x y : Connection) → Same c x → Same c y → Same c (if b then x else y)
Same-if true c x y h h' = h
Same-if false c x y h h' = h'

Phases_lem :
    (s s' : State) (k k' : Option ℕ) (u u' : Setup)
    → s' ≡ s
    → k' ≡ k
    → u' ≡ u
    → Phases s k u
    → Phases s' k' u'
Phases_lem s s' k k' u u' a b d h =
    subst (λ s. Phases s k' u') (sym a)
      (subst (λ k. Phases s k u') (sym b) (subst (λ u. Phases s k u) (sym d) h))

pub Same-IsCoherent : (c c' : Connection) → Same c c' → IsCoherent c → IsCoherent c'
Same-IsCoherent c c' (a, b, d) h =
    Phases_lem c.state c'.state c.socket c'.socket c.setup c'.setup a b d h

pub Closed-IsCoherent : (c c' : Connection) → Closed c c' → IsCoherent c → IsCoherent c'
Closed-IsCoherent c c' (a, b, d) h =
    Phases_lem disconnected c'.state none c'.socket c.setup c'.setup a b d (tt, h.1)

pub Stays-IsCoherent : (c c' : Connection) → Stays c c' → IsCoherent c → IsCoherent c'
Stays-IsCoherent c c' (inl s) h = Same-IsCoherent c c' s h
Stays-IsCoherent c c' (inr s) h = Closed-IsCoherent c c' s h

-- The same for what a call comes to.
pub Same-OnOk :
    (c : Connection) (r : Result Connection) → IsCoherent c → OnOk (Same c) r → OnOk IsCoherent r
Same-OnOk c (ok c') h s = Same-IsCoherent c c' s h
Same-OnOk c (thrown e c') h s = tt
Same-OnOk c undefined h s = tt

pub Closed-OnOk :
    (c : Connection) (r : Result Connection) → IsCoherent c → OnOk (Closed c) r → OnOk IsCoherent r
Closed-OnOk c (ok c') h s = Closed-IsCoherent c c' s h
Closed-OnOk c (thrown e c') h s = tt
Closed-OnOk c undefined h s = tt

pub Stays-OnOk :
    (c : Connection) (r : Result Connection) → IsCoherent c → OnOk (Stays c) r → OnOk IsCoherent r
Stays-OnOk c (ok c') h s = Stays-IsCoherent c c' s h
Stays-OnOk c (thrown e c') h s = tt
Stays-OnOk c undefined h s = tt

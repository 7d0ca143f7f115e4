-- ===== src/WtfBuffer/Content.antt =====
-- What the operations of a buffer do to its content.
pub mod Room
use cpp2tnt.Prelude.{
  ℕ, ◌+◌, ◌-◌, ◌≤◌, ◌<◌, max, ◌≡◌, refl, sym, ap, ◌∙◌, Bool-cases, inl, inr, none, some, ◌++◌,
  Bytes, length, take, replicate, overwrite, leb, ltb, leb→le, le→leb, leb-eq_false, ltb-eq_false,
  arith, length-append, length-take, length-replicate, length-overwrite, take-append_le, take-take,
  take-overwrite, take-overwrite_inside, take-replicate, take-append_ge, ap₂, subst, if◌then◌else◌,
}
use cpp2tnt.Outcome.{Result, ok, thrown, undefined}
use cpp2tnt.WtfBuffer.{
  set_end, WtfBuffer, Target, raw, borrowed, owned, capacity, content, reserve, resize, put, poke,
  resize_vector, grow,
}

-- A vector counts all of the storage as its own. The caller's `realloc` gives as many bytes as it
-- is asked for, and keeps the old ones.
abbrev pub IsManaged : Target → ℕ → Type 0
IsManaged (raw none) cap = Unit
IsManaged (raw (some realloc)) cap =
    (n : ℕ) (old : Bytes)
    → length old ≤ n
    → (length (realloc.storage n old) ≡ n) × (take (length old) (realloc.storage n old) ≡ old)
IsManaged (borrowed live) cap = live ≡ cap
IsManaged (owned live) cap = live ≡ cap

pub record IsValid (b : WtfBuffer) : Type 0 where
  pub within : b.used ≤ capacity b
  pub managed : IsManaged b.target (capacity b)

-- The outcome of a call that can need more room: it succeeds in a state that meets `P`, or the
-- target is raw memory that cannot grow, and nothing has changed.
abbrev pub Succeeds : WtfBuffer → Result WtfBuffer → (WtfBuffer → Type 0) → Type 0
Succeeds b (ok b') P = P b'
Succeeds b (thrown e b') P = (b.target ≡ raw none) × (b' ≡ b)
Succeeds b undefined P = ⊥

-- The storage after `vector::resize` in a vector that owns all of it.
resize_vector_lem :
    (cells : Bytes) (live k n : ℕ)
    → live ≡ length cells
    → k ≤ live
    → live ≤ n
    → (length (resize_vector cells live n) ≡ n)
      × (take k (resize_vector cells live n) ≡ take k cells)
resize_vector_lem cells live k n e h g = (
  omega (
    arith,
    length-append (take live cells) (replicate (n - live) 0),
    length-take live cells,
    length-replicate {0} {A = ℕ} (n - live) 0,
  ),
  take-append_le (take live cells) (replicate (n - live) 0) k
        (omega (arith, length-take live cells))
      ∙ take-take k live cells h,
)

-- `reserve` keeps the content, and leaves room for `max n capacity` bytes.
abbrev pub Reserved : WtfBuffer → ℕ → WtfBuffer → Type 0
Reserved b n b' =
    IsValid b' × (content b' ≡ content b) × (b'.used ≡ b.used) × (capacity b' ≡ max n (capacity b))

grow-Reserved :
    (t : Target) (b : WtfBuffer) (n : ℕ)
    → b.target ≡ t
    → capacity b ≤ n
    → b.used ≤ capacity b
    → IsManaged t (capacity b)
    → Succeeds b (grow t b n) (Reserved b n)
unfolding grow
grow-Reserved (raw none) b n e h u m = (e, refl)
grow-Reserved (raw (some realloc)) b n e h u m =
    let k = m n b.store h in
    (
      record { within = omega (arith, k.0); managed = rw e m },
      sym (take-take b.used (capacity b) (realloc.storage n b.store) u) ∙ ap (take b.used) k.1,
      refl,
      omega (arith, k.0),
    )
grow-Reserved (borrowed live) b n e h u m =
    let k = resize_vector_lem b.store live b.used n m (omega arith) (omega arith) in
    (record { within = omega (arith, k.0); managed = sym k.0 }, k.1, refl, omega (arith, k.0))
grow-Reserved (owned live) b n e h u m =
    let k = resize_vector_lem b.store live b.used n m (omega arith) (omega arith) in
    (record { within = omega (arith, k.0); managed = sym k.0 }, k.1, refl, omega (arith, k.0))

-- Of a valid buffer `reserve(n)` keeps the content and the validity, and leaves a capacity of
-- `max n` of the old one; it throws only for raw memory that has no `realloc`, and then changes
-- nothing.
pub reserve-Reserved : (b : WtfBuffer) (n : ℕ) → IsValid b → Succeeds b (reserve b n) (Reserved b n)
unfolding reserve
reserve-Reserved b n v = elim (Bool-cases (leb n (capacity b))) [
  | inl fits ↦ rw fits (v, refl, refl, omega (arith, leb→le n (capacity b)))
  | inr more ↦ rw more (grow-Reserved b.target b n refl (ground arith) v.within v.managed)
]

-- After `resize(n)` the buffer is valid and holds `n` bytes, of which those that it held before are
-- the old ones.
abbrev pub Resized : WtfBuffer → ℕ → WtfBuffer → Type 0
Resized b n b' =
    IsValid b'
    × (b'.used ≡ n)
    × (capacity b' ≡ max n (capacity b))
    × ((k : ℕ) → k ≤ b.used → k ≤ n → take k (content b') ≡ take k (content b))

-- The result of `reserve`, with `end` moved.
Reserved-Resized :
    (b : WtfBuffer) (n : ℕ) (b' : WtfBuffer)
    → Reserved b n b'
    → Resized b n (record b' { used = n })
Reserved-Resized b n b' r = (
  record { within = omega (arith, r.3); managed = r.0.managed },
  refl,
  r.3,
  λ k h g.
      take-take k n b'.store g
      ∙ sym (take-take k b'.used b'.store (omega (arith, r.2)))
      ∙ ap (take k) r.1,
)

set_end-Resized :
    (b : WtfBuffer) (n : ℕ) (r : Result WtfBuffer)
    → Succeeds b r (Reserved b n)
    → Succeeds b (set_end n r) (Resized b n)
unfolding set_end
set_end-Resized b n (ok b') h = Reserved-Resized b n b' h
set_end-Resized b n (thrown e b') h = h
set_end-Resized b n undefined h = h

-- Of a valid buffer `resize(n)` succeeds as `Resized` says, or throws for raw memory that has no
-- `realloc` and then changes nothing.
pub resize-Resized : (b : WtfBuffer) (n : ℕ) → IsValid b → Succeeds b (resize b n) (Resized b n)
unfolding resize
resize-Resized b n v = elim (Bool-cases (ltb (capacity b) n)) [
  | inl more ↦ rw more (set_end-Resized b n (reserve b n) (reserve-Reserved b n v))
  | inr fits ↦ rw fits (Reserved-Resized b n b (v, refl, refl, ground arith))
]

-- `put` of bytes that fit appends them to the content; bytes that do not fit are written outside
-- of the storage.
pub put_lem :
    (b : WtfBuffer) (bs : Bytes)
    → IsValid b
    → b.used + length bs ≤ capacity b
    → (b' : WtfBuffer) × (put b bs ≡ ok b')
      × IsValid b'
      × (content b' ≡ content b ++ bs)
      × (b'.used ≡ b.used + length bs)
      × (capacity b' ≡ capacity b)
unfolding put
put_lem b bs v h = (
  record b { store = overwrite b.store b.used bs; used = b.used + length bs },
  rw (le→leb _ _ h),
  record {
    within = omega (arith, length-overwrite b.store b.used bs h);
    managed = rw (length-overwrite b.store b.used bs h) v.managed;
  },
  take-overwrite b.store b.used _ bs v.within refl,
  refl,
  length-overwrite b.store b.used bs h,
)

pub put-undefined :
    (b : WtfBuffer) (bs : Bytes) → capacity b < b.used + length bs → put b bs ≡ undefined
unfolding put
put-undefined b bs h = rw (leb-eq_false _ _ h)

-- A write of `bs` over the content at `i` changes those bytes of it, and no other.
pub poke_lem :
    (b : WtfBuffer) (i : ℕ) (bs : Bytes)
    → IsValid b
    → i + length bs ≤ b.used
    → (b' : WtfBuffer) × (poke b i bs ≡ ok b')
      × IsValid b'
      × (content b' ≡ overwrite (content b) i bs)
      × (b'.used ≡ b.used)
      × (capacity b' ≡ capacity b)
unfolding poke
poke_lem b i bs v h =
    let len = length-overwrite b.store i bs (omega (arith, v.within)) in
    (
      record b { store = overwrite b.store i bs },
      rw (le→leb (i + length bs) (capacity b) (omega (arith, v.within))),
      record { within = omega (arith, len, v.within); managed = rw len v.managed },
      take-overwrite_inside b.store i b.used bs h v.within,
      refl,
      len,
    )

-- A write at `data()` of bytes that fit in the storage, whatever the content.
pub poke_head :
    (b : WtfBuffer) (bs : Bytes)
    → IsValid b
    → length bs ≤ capacity b
    → (b' : WtfBuffer) × (poke b 0 bs ≡ ok b')
      × IsValid b'
      × (take (length bs) b'.store ≡ bs)
      × (capacity b' ≡ capacity b)
      × (b'.used ≡ b.used)
unfolding poke
poke_head b bs v h =
    let len = length-overwrite b.store 0 bs (omega arith) in
    (
      record b { store = overwrite b.store 0 bs },
      rw (le→leb (0 + length bs) (capacity b) (omega arith)),
      record { within = omega (arith, len, v.within); managed = rw len v.managed },
      take-overwrite b.store 0 (length bs) bs (omega arith) (omega arith),
      len,
      refl,
    )

pub poke-undefined :
    (b : WtfBuffer) (i : ℕ) (bs : Bytes) → capacity b < i + length bs → poke b i bs ≡ undefined
unfolding poke
poke-undefined b i bs h = rw (leb-eq_false _ _ h)

-- `resize` inside the capacity moves `end` and nothing else.
pub resize_within :
    (b : WtfBuffer) (n : ℕ) → n ≤ capacity b → resize b n ≡ ok (record b { used = n })
unfolding resize
resize_within b n h = rw (ltb-eq_false (capacity b) n h)

pub used-IsValid :
    (b : WtfBuffer) (n : ℕ) → IsValid b → n ≤ capacity b → IsValid (record b { used = n })
used-IsValid b n v h = record { within = h; managed = v.managed }

pub length-content : (b : WtfBuffer) → IsValid b → length (content b) ≡ b.used
length-content b v = omega (arith, length-take b.used b.store, v.within)

-- The buffers of a connection own their vectors.
abbrev pub IsOwned : Target → Type 0
IsOwned (raw realloc) = ⊥
IsOwned (borrowed live) = ⊥
IsOwned (owned live) = Unit

grow-IsOwned :
    (t : Target) (b : WtfBuffer) (n : ℕ) (b' : WtfBuffer)
    → IsOwned t
    → grow t b n ≡ ok b'
    → IsOwned b'.target
unfolding grow
grow-IsOwned (raw realloc) b n b' h e = absurd h
grow-IsOwned (borrowed live) b n b' h e = absurd h
grow-IsOwned (owned live) b n b' h e =
    let same : record b { target = owned n; store = resize_vector b.store live n } ≡ b' = cc in
    subst (λ (x : WtfBuffer). IsOwned x.target) same tt

set_end-ok :
    (b : WtfBuffer) (n : ℕ) (r : Result WtfBuffer)
    → IsOwned b.target
    → Succeeds b r (Resized b n)
    → (b' : WtfBuffer) × (r ≡ ok b') × Resized b n b'
set_end-ok b n (ok b') h s = (b', refl, s)
set_end-ok b n (thrown e b') h s = absurd (subst IsOwned s.0 h)
set_end-ok b n undefined h s = absurd s

-- A buffer that owns its vector can always be resized.
pub resize_owned :
    (b : WtfBuffer) (n : ℕ)
    → IsValid b
    → IsOwned b.target
    → (b' : WtfBuffer) × (resize b n ≡ ok b') × Resized b n b'
resize_owned b n v h = set_end-ok b n (resize b n) h (resize-Resized b n v)

set_end-IsOwned :
    (n : ℕ) (r : Result WtfBuffer) (b' : WtfBuffer)
    → ((b : WtfBuffer) → r ≡ ok b → IsOwned b.target)
    → set_end n r ≡ ok b'
    → IsOwned b'.target
unfolding set_end
set_end-IsOwned n (ok b) b' h e =
    let same : record b { used = n } ≡ b' = cc in
    subst (λ (x : WtfBuffer). IsOwned x.target) same (h b refl)
set_end-IsOwned n (thrown why b) b' h e = cc
set_end-IsOwned n undefined b' h e = cc

pub resize-IsOwned :
    (b : WtfBuffer) (n : ℕ) (b' : WtfBuffer)
    → IsOwned b.target
    → resize b n ≡ ok b'
    → IsOwned b'.target
unfolding resize
resize-IsOwned b n b' h e = set_end-IsOwned n _ b' (λ x p. reserved x p) e
  where
    reserved :
        (x : WtfBuffer)
        → (if ltb (capacity b) n then reserve b n else ok b) ≡ ok x
        → IsOwned x.target
    reserved x p = elim (Bool-cases (ltb (capacity b) n)) [
      | inl more ↦ grown (rw more at p)
      | inr fits ↦
          let same : b ≡ x = cc (rw fits at p) in subst (λ (y : WtfBuffer). IsOwned y.target) same h
    ]
      where
        grown : reserve b n ≡ ok x → IsOwned x.target
        grown q = elim (Bool-cases (leb n (capacity b))) [
          | inl small ↦
              let same : b ≡ x = cc (rw small at q) in
              subst (λ (y : WtfBuffer). IsOwned y.target) same h
          | inr large ↦ grow-IsOwned b.target b n x h (rw large at q)
        ]

pub poke-IsOwned :
    (b : WtfBuffer) (i : ℕ) (bs : Bytes) (b' : WtfBuffer)
    → IsOwned b.target
    → poke b i bs ≡ ok b'
    → IsOwned b'.target
unfolding poke
poke-IsOwned b i bs b' h e = elim (Bool-cases (leb (i + length bs) (capacity b))) [
  | inl fits ↦
      let same : record b { store = overwrite b.store i bs } ≡ b' = cc (rw fits at e) in
      subst (λ (x : WtfBuffer). IsOwned x.target) same h
  | inr out ↦ cc (rw out at e)
]

-- What a vector does not count as its own is lost when the buffer grows: the content from there on
-- is zeros, whatever was written.
pub reserve_loses :
    (b : WtfBuffer) (live n : ℕ)
    → b.target ≡ borrowed live
    → live ≤ b.used
    → b.used ≤ capacity b
    → capacity b < n
    → (b' : WtfBuffer) × (reserve b n ≡ ok b')
      × (content b' ≡ take live (content b) ++ replicate (b.used - live) 0)
unfolding reserve grow
reserve_loses b live n e h u g = (
  record b { target = borrowed n; store = resize_vector b.store live n },
  rw (leb-eq_false n (capacity b) g, e),
  take-append_ge (take live b.store) (replicate (n - live) 0) b.used (omega (arith, len))
      ∙ ap₂ ◌++◌ (sym (take-take live b.used b.store h)) (
          take-replicate (b.used - length (take live b.store)) (n - live) 0 (omega (arith, len))
          ∙ ap (λ k. replicate k 0) (omega (arith, len))),
)
  where
    len : length (take live b.store) ≡ live
    len = omega (arith, length-take live b.store)

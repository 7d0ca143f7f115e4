-- ===== src/Outcome.antt =====
-- What a call of the library can come to: a result, a C++ exception, or undefined behaviour.
-- An exception carries the state that it leaves behind, since the objects outlive it.
use cpp2tnt.Prelude.{ap, Bool, true, false, ◌≡◌, refl, subst, if◌then◌else◌}

-- One constructor for each exception that the sources throw.
pub data Error : Type 0 where
  -- wtf_buffer.cpp
  raw_buffer_fixed : Error
  -- mp_writer.cpp
  no_container array_header_exceeded map_header_exceeded odd_map_items : Error
  unexpected_header not_implemented truncated no_opened_containers string_too_long : Error
  float_overflow : Error
  -- iproto_writer.cpp
  no_request request_size_exceeded : Error
  -- mp_reader.h
  no_data out_of_bounds invalid_messagepack type_expected value_overflow not_a_number : Error
  no_right_bound invalid_packet partial_packet key_not_found no_error_stack : Error
  -- connection.cpp
  connection_busy : Error

pub data Result {ℓ} (A : Type ℓ) : Type ℓ where
  ok : A → Result A
  thrown : Error → A → Result A
  -- an access outside of the objects that the code owns
  undefined : Result A

module _ {ℓ} {A : Type ℓ} where
  -- The next call starts only where the one before it has returned.
  infixl 5 ◌>>=◌
  abbrev pub ◌>>=◌ : Result A → (A → Result A) → Result A
  undefined >>= next = undefined
  thrown why state >>= next = thrown why state
  ok state >>= next = next state

  -- A call that is defined under a condition.
  abbrev pub guard : Bool → Result A → Result A
  guard true r = r
  guard false r = undefined

-- A call on a part of an object: `back` puts the part into its place before an exception leaves.
abbrev pub on_part {ℓ κ} :
    {A : Type ℓ} {B : Type κ} → (A → B) → Result A → (A → Result B) → Result B
on_part back (ok a) k = k a
on_part back (thrown e a) k = thrown e (back a)
on_part back undefined k = undefined

-- What holds where a call has returned.
abbrev pub OnOk {ℓ κ} : {A : Type ℓ} → (A → Type κ) → Result A → Type κ
OnOk P (ok a) = P a
OnOk P (thrown e a) = Unit
OnOk P undefined = Unit

pub OnOk-bind {ℓ κ μ} :
    {A : Type ℓ} (P : A → Type κ) (Q : A → Type μ) (r : Result A) (k : A → Result A)
    → OnOk P r
    → ((a : A) → P a → OnOk Q (k a))
    → OnOk Q (r >>= k)
OnOk-bind P Q (ok a) k h f = f a h
OnOk-bind P Q (thrown e a) k h f = tt
OnOk-bind P Q undefined k h f = tt

pub OnOk-if {ℓ κ} :
    {A : Type ℓ} (P : A → Type κ) (b : Bool) (r r' : Result A)
    → OnOk P r
    → OnOk P r'
    → OnOk P (if b then r else r')
OnOk-if P true r r' h h' = h
OnOk-if P false r r' h h' = h'

-- The same, where the test says what each branch may rely on.
pub OnOk-cases {ℓ κ} :
    {A : Type ℓ} (P : A → Type κ) (b : Bool) (r r' : Result A)
    → (b ≡ true → OnOk P r)
    → (b ≡ false → OnOk P r')
    → OnOk P (if b then r else r')
OnOk-cases P true r r' h h' = h refl
OnOk-cases P false r r' h h' = h' refl

pub OnOk-ok {ℓ κ} : {A : Type ℓ} (P : A → Type κ) (r : Result A) (a : A) → OnOk P r → r ≡ ok a → P a
OnOk-ok P r a h e = subst (OnOk P) e h

pub OnOk-on_part {ℓ κ μ} :
    {A : Type ℓ} {B : Type κ} (P : B → Type μ) (back : A → B) (r : Result A) (k : A → Result B)
    → ((a : A) → r ≡ ok a → OnOk P (k a))
    → OnOk P (on_part back r k)
OnOk-on_part P back (ok a) k f = f a refl
OnOk-on_part P back (thrown e a) k f = tt
OnOk-on_part P back undefined k f = tt

pub OnOk-guard {ℓ κ} :
    {A : Type ℓ} (P : A → Type κ) (b : Bool) (r : Result A) → OnOk P r → OnOk P (guard b r)
OnOk-guard P true r h = h
OnOk-guard P false r h = tt

pub guard-true {ℓ} : {A : Type ℓ} (b : Bool) (r : Result A) → b ≡ true → guard b r ≡ r
guard-true b r h = ap (λ b. guard b r) h

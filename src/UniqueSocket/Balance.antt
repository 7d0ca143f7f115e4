-- ===== src/UniqueSocket/Balance.antt =====
-- unique_socket.cpp: who holds the descriptors, and which were closed.
use cpp2tnt.Prelude.{
  ℕ, zero, suc, ◌+◌, ◌<◌, ◌≡◌, ◌≢◌, refl, ap, ◌∙◌, sym, true, false, Bool-cases, inl, inr, Option,
  none, some, List, [], ◌∷◌, length, ◌==◌, if◌then◌else◌, set, arith, ==_refl,
}
use cpp2tnt.UniqueSocket.{
  Sockets, handle, note, close, assign, move_assign, construct, move_construct, Call, closes,
  destroys, assigns, moves, constructs, takes, apply, run,
}

abbrev one : ℕ → Option ℕ → ℕ
one d none = 0
one d (some fd) = if fd == d then 1 else 0

-- How many objects hold the descriptor `d`.
abbrev pub held : ℕ → List (Option ℕ) → ℕ
held d [] = 0
held d (fd ∷ fds) = one d fd + held d fds

abbrev pub count : ℕ → List ℕ → ℕ
count d [] = 0
count d (fd ∷ fds) = one d (some fd) + count d fds

-- Each time `d` was given to an object, it is held or has been closed.
abbrev pub Balanced : ℕ → Sockets → Type 0
Balanced d s = held d s.objects + count d s.closed ≡ count d s.given

count-note : (d : ℕ) (fd : Option ℕ) (fds : List ℕ) → count d (note fd fds) ≡ one d fd + count d fds
count-note d none fds = omega arith
count-note d (some fd) fds = refl

held-set :
    (d : ℕ) (fds : List (Option ℕ)) (i : ℕ) (fd : Option ℕ)
    → i < length fds
    → held d (set fds i fd) + one d (handle fds i) ≡ held d fds + one d fd
held-set d [] i fd h = absurd (omega arith)
held-set d (x ∷ fds) zero fd h = omega arith
held-set d (x ∷ fds) (suc i) fd h = omega (arith, held-set d fds i fd (omega arith))

length-set : (fds : List (Option ℕ)) (i : ℕ) (fd : Option ℕ) → length (set fds i fd) ≡ length fds
length-set [] i fd = refl
length-set (x ∷ fds) zero fd = refl
length-set (x ∷ fds) (suc i) fd = ap suc (length-set fds i fd)

handle-set :
    (fds : List (Option ℕ)) (i : ℕ) (fd : Option ℕ) → i < length fds → handle (set fds i fd) i ≡ fd
handle-set [] i fd h = absurd (omega arith)
handle-set (x ∷ fds) zero fd h = refl
handle-set (x ∷ fds) (suc i) fd h = handle-set fds i fd (omega arith)

handle-set_other :
    (fds : List (Option ℕ)) (i j : ℕ) (fd : Option ℕ)
    → i ≢ j
    → handle (set fds i fd) j ≡ handle fds j
handle-set_other [] i j fd h = refl
handle-set_other (x ∷ fds) zero zero fd h = absurd (h refl)
handle-set_other (x ∷ fds) zero (suc j) fd h = refl
handle-set_other (x ∷ fds) (suc i) zero fd h = refl
handle-set_other (x ∷ fds) (suc i) (suc j) fd h = handle-set_other fds i j fd (λ e. h (ap suc e))

-- A call is on objects that exist.
abbrev pub Exists : Call → Sockets → Type 0
Exists (closes i) s = i < length s.objects
Exists (destroys i) s = i < length s.objects
Exists (assigns i fd) s = i < length s.objects
Exists (moves i j) s = (i < length s.objects) × (j < length s.objects)
Exists (constructs fd) s = Unit
Exists (takes j) s = j < length s.objects

abbrev pub AllExist : List Call → Sockets → Type 0
AllExist [] s = Unit
AllExist (call ∷ calls) s = Exists call s × AllExist calls (apply call s)

close-Balanced :
    (d i : ℕ) (s : Sockets) → i < length s.objects → Balanced d s → Balanced d (close i s)
unfolding close
close-Balanced d i s h b =
    omega (arith, held-set d s.objects i none h, count-note d (handle s.objects i) s.closed)

apply-Balanced :
    (d : ℕ) (call : Call) (s : Sockets) → Exists call s → Balanced d s → Balanced d (apply call s)
unfolding apply assign move_assign construct move_construct close
apply-Balanced d (closes i) s h b = close-Balanced d i s h b
apply-Balanced d (destroys i) s h b = close-Balanced d i s h b
apply-Balanced d (assigns i fd) s h b = omega (
  arith,
  close-Balanced d i s h b,
  held-set d (set s.objects i none) i fd (omega (arith, length-set s.objects i none)),
  ap (one d) (handle-set s.objects i none h),
  count-note d fd s.given,
)
apply-Balanced d (moves i j) s h b = elim (Bool-cases (i == j)) [
  | inl same ↦ rw same b
  | inr other ↦
      let differ : i ≢ j = λ e. let both : true ≡ false = sym (==_refl i j e) ∙ other in cc in
      let emptied = set s.objects i none in
      let fd = handle emptied j in
      rw other (
        omega (
          arith,
          close-Balanced d i s h.0 b,
          held-set d emptied i fd (omega (arith, length-set s.objects i none, h.0)),
          ap (one d) (handle-set s.objects i none h.0),
          held-set d (set emptied i fd) j none
              (omega (arith, length-set emptied i fd, length-set s.objects i none, h.1)),
          ap (one d) (handle-set_other emptied i j fd differ),
        ))
]
apply-Balanced d (constructs fd) s h b = omega (arith, b, count-note d fd s.given)
apply-Balanced d (takes j) s h b = omega (arith, b, held-set d s.objects j none h)

-- Whatever calls are made on objects that exist, each time a descriptor was given to an object it is
-- held by one, or has been closed: it is neither lost nor closed twice.
pub run-Balanced :
    (d : ℕ) (calls : List Call) (s : Sockets)
    → AllExist calls s
    → Balanced d s
    → Balanced d (run calls s)
unfolding run
run-Balanced d [] s h b = b
run-Balanced d (call ∷ calls) s h b =
    run-Balanced d calls (apply call s) h.1 (apply-Balanced d call s h.0 b)

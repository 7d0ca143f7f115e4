-- ===== src/UniqueSocket.antt =====
-- unique_socket.h, unique_socket.cpp: objects that own descriptors. A descriptor is `none` where `_fd`
-- is negative.
pub mod Balance
use cpp2tnt.Prelude.{
  ℕ, zero, suc, ◌+◌, Bool, true, false, Option, none, some, List, [], ◌∷◌, ◌++◌, ◌==◌,
  if◌then◌else◌, set,
}

-- The objects the newest first, the descriptors that were given to them, and those
-- that were closed. A destroyed object stays in the list with no descriptor.
pub record Sockets : Type 0 where
  pub objects : List (Option ℕ)
  pub given : List ℕ
  pub closed : List ℕ

-- unique_socket::handle
abbrev pub handle : List (Option ℕ) → ℕ → Option ℕ
handle [] i = none
handle (fd ∷ fds) zero = fd
handle (fd ∷ fds) (suc i) = handle fds i

abbrev pub note : Option ℕ → List ℕ → List ℕ
note none fds = fds
note (some fd) fds = fd ∷ fds

-- unique_socket::close
pub close : ℕ → Sockets → Sockets
close i s = record s { objects = set s.objects i none; closed = note (handle s.objects i) s.closed }

-- unique_socket::operator=(int fd)
pub assign : ℕ → Option ℕ → Sockets → Sockets
unfolding close
assign i fd s =
    let s' = close i s in record s' { objects = set s'.objects i fd; given = note fd s'.given }

-- unique_socket::operator=(unique_socket &&src)
pub move_assign : ℕ → ℕ → Sockets → Sockets
unfolding close
move_assign i j s =
    let s' = close i s in
    let moved = set s'.objects i (handle s'.objects j) in
    if i == j then s else record s' { objects = set moved j none }

-- unique_socket::unique_socket(int fd)
pub construct : Option ℕ → Sockets → Sockets
construct fd s = record s { objects = fd ∷ s.objects; given = note fd s.given }

-- unique_socket::unique_socket(unique_socket &&src)
pub move_construct : ℕ → Sockets → Sockets
move_construct j s = record s { objects = handle s.objects j ∷ set s.objects j none }

-- A call on objects that exist; the destructor is `close`.
pub data Call : Type 0 where
  closes destroys : ℕ → Call
  assigns : ℕ → Option ℕ → Call
  moves : ℕ → ℕ → Call
  constructs : Option ℕ → Call
  takes : ℕ → Call

pub apply : Call → Sockets → Sockets
unfolding close assign move_assign construct move_construct
apply (closes i) = close i
apply (destroys i) = close i
apply (assigns i fd) = assign i fd
apply (moves i j) = move_assign i j
apply (constructs fd) = construct fd
apply (takes j) = move_construct j

unfoldable pub run : List Call → Sockets → Sockets
unfolding apply
run [] s = s
run (call ∷ calls) s = run calls (apply call s)

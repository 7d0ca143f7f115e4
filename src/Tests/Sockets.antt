-- ===== src/Tests/Sockets.antt =====
-- Descriptors at concrete inputs.
use cpp2tnt.Prelude.{◌≡◌, refl, some, none, List, [], ◌∷◌, arith}
use cpp2tnt.UniqueSocket.{Sockets, Call, closes, assigns, moves, constructs, takes, run}
use cpp2tnt.UniqueSocket.Balance.{Balanced, AllExist, run-Balanced}

abbrev no_sockets : Sockets
no_sockets = record { objects = []; given = []; closed = [] }

-- One object gets 5, another one takes it over, the first gets 6 and takes over what the second has.
abbrev calls : List Call
calls = constructs (some 5) ∷ takes 0 ∷ assigns 1 (some 6) ∷ moves 1 0 ∷ closes 1 ∷ []

-- In the end both are closed, 6 first.
both_closed :
    run calls no_sockets
    ≡ record { objects = none ∷ none ∷ []; given = 6 ∷ 5 ∷ []; closed = 5 ∷ 6 ∷ [] }
unfolding run
both_closed = refl

calls-AllExist : AllExist calls no_sockets
unfolding run
calls-AllExist = (tt, (omega arith, (omega arith, ((omega arith, omega arith), (omega arith, tt)))))

run-Balanced_example : Balanced 5 (run calls no_sockets)
run-Balanced_example = run-Balanced 5 calls no_sockets calls-AllExist refl

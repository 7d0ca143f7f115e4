-- ===== src/Tests/Parsing.antt =====
-- Connection strings at concrete inputs.
use cpp2tnt.Prelude.{◌≡◌, ◌≢◌, refl, Option, none, some, [], ◌∷◌, Bytes}
use cpp2tnt.CsParser.{no_parts, defaults, found, stuck, unfinished, parse_cs}
use cpp2tnt.CsParser.Rounds.{Finds, parse_cs-Finds, parse_cs_ends}
use cpp2tnt.CsParser.Print.{parse_cs-print, parse_cs-print_host, parse_cs_stuck}

abbrev unset : Bytes → Option Bytes
unset name = none

-- "me:pw@db:3301"
abbrev with_user : Bytes
with_user =
    b'm' ∷ b'e' ∷ b':' ∷ b'p' ∷ b'w' ∷ b'@' ∷ b'd' ∷ b'b' ∷ b':' ∷ b'3' ∷ b'3' ∷ b'0' ∷ b'1' ∷ []

abbrev port_3301 : Bytes
port_3301 = b'3' ∷ b'3' ∷ b'0' ∷ b'1' ∷ []

parse_cs-print_example :
    parse_cs 1 unset with_user
    ≡ found (record {
      unix_socket_path = [];
      user = b'm' ∷ b'e' ∷ [];
      password = b'p' ∷ b'w' ∷ [];
      host = b'd' ∷ b'b' ∷ [];
      port = port_3301;
    })
parse_cs-print_example =
    parse_cs-print 0 unset (b'm' ∷ b'e' ∷ []) (b'p' ∷ b'w' ∷ []) (b'd' ∷ b'b' ∷ []) port_3301
      (refl, (refl, tt)) (refl, (refl, tt)) (refl, (refl, tt)) (refl, (refl, (refl, (refl, tt))))
      refl

parse_cs-print_host_example :
    parse_cs 1 unset (b'd' ∷ b'b' ∷ b':' ∷ port_3301)
    ≡ found (defaults (record no_parts { host = b'd' ∷ b'b' ∷ []; port = port_3301 }))
parse_cs-print_host_example =
    parse_cs-print_host 0 unset (b'd' ∷ b'b' ∷ []) port_3301 (refl, (refl, tt))
      (refl, (refl, (refl, (refl, tt)))) refl

parse_cs_stuck_example : parse_cs 1 unset (b'd' ∷ b'b' ∷ b':' ∷ []) ≡ stuck
parse_cs_stuck_example = parse_cs_stuck 0 unset (b'd' ∷ b'b' ∷ []) (refl, (refl, tt))

-- "env/:A" where A is "3301".
abbrev one_variable : Bytes → Option Bytes
one_variable name = some port_3301

abbrev env_string : Bytes
env_string = b'e' ∷ b'n' ∷ b'v' ∷ b'/' ∷ b':' ∷ b'A' ∷ []

parse_cs-Finds_example : Finds one_variable (parse_cs 2 one_variable env_string)
parse_cs-Finds_example = parse_cs-Finds one_variable 2 env_string

parse_cs_ends_example : parse_cs 2 unset env_string ≢ unfinished
parse_cs_ends_example = parse_cs_ends unset 1 env_string (λ v value e. cc)

-- ===== src/CsParser/Print.antt =====
-- cs_parser.cpp: `parse_cs` on strings that are put together from parts.
use cpp2tnt.Prelude.{
  ℕ, suc, ◌+◌, ◌≡◌, refl, ap, ap₂, ◌∙◌, Bool, true, false, Option, [], ◌∷◌, ◌++◌, Bytes, length,
  length-append, ◌==◌, if◌then◌else◌, arith,
}
use cpp2tnt.CsParser.{
  CsParts, next, parsed, no_parts, is_separator, chunk, behind, is_port, password_or_port, colon,
  after_chunk, on_next, rounds, defaults, found, stuck, finish, parse_cs,
}

-- A part without separators.
abbrev pub IsClean : Bytes → Type 0
IsClean [] = Unit
IsClean (c ∷ cs) = (is_separator c ≡ false) × IsClean cs

chunk-append :
    (cs : Bytes) (c : ℕ) (rest : Bytes)
    → IsClean cs
    → is_separator c ≡ true
    → chunk is_separator (cs ++ c ∷ rest) ≡ cs
unfolding chunk
chunk-append [] c rest h e = rw e refl
chunk-append (b ∷ cs) c rest h e = rw (h.0) (ap (λ zs. b ∷ zs) (chunk-append cs c rest h.1 e))

behind-append :
    (cs : Bytes) (c : ℕ) (rest : Bytes)
    → IsClean cs
    → is_separator c ≡ true
    → behind is_separator (cs ++ c ∷ rest) ≡ c ∷ rest
unfolding behind
behind-append [] c rest h e = rw e refl
behind-append (b ∷ cs) c rest h e = rw (h.0) (behind-append cs c rest h.1 e)

chunk_all : (cs : Bytes) → IsClean cs → chunk is_separator cs ≡ cs
unfolding chunk
chunk_all [] h = refl
chunk_all (b ∷ cs) h = rw (h.0) (ap (λ zs. b ∷ zs) (chunk_all cs h.1))

behind_all : (cs : Bytes) → IsClean cs → behind is_separator cs ≡ []
unfolding behind
behind_all [] h = refl
behind_all (b ∷ cs) h = rw (h.0) (behind_all cs h.1)

-- A separator is no '/' unless it is that; what is clean does not begin with one.
no_slash : (c : ℕ) → is_separator c ≡ false → (c == b'/') ≡ false
no_slash c h = grind arith

if_no {ℓ} : {A : Type ℓ} (t : Bool) (a b : A) → t ≡ false → (if t then a else b) ≡ b
if_no true a b h = cc
if_no false a b h = refl

colon_lem :
    (res : CsParts) (first : Bytes) (c : ℕ) (tail : Bytes)
    → (c == b'/') ≡ false
    → colon res first (c ∷ tail)
      ≡ password_or_port res first (chunk is_separator (c ∷ tail)) (behind is_separator (c ∷ tail))
unfolding colon
colon_lem res first c tail h = if_no (c == b'/') _ _ h

-- A round that begins with "first:".
colon_round :
    (getenv : Bytes → Option Bytes) (is_first : Bool) (res : CsParts) (first tail : Bytes)
    → IsClean first
    → after_chunk getenv is_first res
        (chunk is_separator (first ++ b':' ∷ tail))
        (behind is_separator (first ++ b':' ∷ tail))
      ≡ colon res first tail
unfolding after_chunk
colon_round getenv is_first res first tail h =
    rw (chunk-append first b':' tail h refl, behind-append first b':' tail h refl) refl

-- The round of "host:port".
host_port :
    (res : CsParts) (host port : Bytes)
    → IsClean port
    → is_port port ≡ true
    → colon res host port ≡ parsed (record res { host = host; port = port })
unfolding password_or_port
host_port res host [] cp v = cc
host_port res host (c ∷ port) cp v =
    colon_lem res host c port (no_slash c cp.0)
    ∙ ap₂ (password_or_port res host) (chunk_all (c ∷ port) cp) (behind_all (c ∷ port) cp)
    ∙ valid
  where
    valid :
        password_or_port res host (c ∷ port) []
        ≡ parsed (record res { host = host; port = c ∷ port })
    valid = rw v refl

-- The round of "user:password@", whatever stands behind it.
user_password :
    (res : CsParts) (user password tail : Bytes)
    → IsClean password
    → colon res user (password ++ b'@' ∷ tail)
      ≡ next (record res { user = user; password = password }) tail
unfolding password_or_port
user_password res user [] tail cp =
    colon_lem res user b'@' tail refl
    ∙ ap₂ (password_or_port res user) (chunk-append [] b'@' tail tt refl)
        (behind-append [] b'@' tail tt refl)
user_password res user (c ∷ password) tail cp =
    colon_lem res user c (password ++ b'@' ∷ tail) (no_slash c cp.0)
    ∙ ap₂ (password_or_port res user) (chunk-append (c ∷ password) b'@' tail cp refl)
        (behind-append (c ∷ password) b'@' tail cp refl)

parse_cs_lem :
    (depth : ℕ) (getenv : Bytes → Option Bytes) (cs : Bytes) (n : ℕ)
    → length cs ≡ suc n
    → parse_cs (suc depth) getenv cs
      ≡ finish (parse_cs depth getenv) (rounds (suc (suc n)) getenv (length cs) no_parts cs)
unfolding parse_cs
parse_cs_lem depth getenv [] n h = absurd (omega arith)
parse_cs_lem depth getenv (c ∷ cs) n h =
    ap
      (λ k.
        finish (parse_cs depth getenv) (rounds (suc k) getenv (length (c ∷ cs)) no_parts (c ∷ cs)))
      h

-- One round on "host:port".
host_port_rounds :
    (n : ℕ) (getenv : Bytes → Option Bytes) (len : ℕ) (res : CsParts) (host port : Bytes)
    → IsClean host
    → IsClean port
    → is_port port ≡ true
    → rounds (suc n) getenv len res (host ++ b':' ∷ port)
      ≡ parsed (record res { host = host; port = port })
unfolding rounds on_next
host_port_rounds n getenv len res host port ch cp v = ap (on_next (rounds n getenv len)) (
    colon_round getenv (length (host ++ b':' ∷ port) == len) res host port ch
    ∙ host_port res host port cp v)

-- Of parts without separators, with a valid port, "user:password@host:port" is taken apart into them;
-- an empty user is "guest", an empty host "localhost".
pub parse_cs-print :
    (depth : ℕ) (getenv : Bytes → Option Bytes) (user password host port : Bytes)
    → IsClean user
    → IsClean password
    → IsClean host
    → IsClean port
    → is_port port ≡ true
    → parse_cs (suc depth) getenv (user ++ b':' ∷ (password ++ b'@' ∷ (host ++ b':' ∷ port)))
      ≡ found (
          defaults (record {
            unix_socket_path = [];
            user = user;
            password = password;
            host = host;
            port = port;
          }))
unfolding finish rounds on_next
parse_cs-print depth getenv user password host port cu cw ch cp v =
    let tail = host ++ b':' ∷ port in
    let rest = password ++ b'@' ∷ tail in
    let cs = user ++ b':' ∷ rest in
    let n = length user + length rest in
    let res : CsParts = record no_parts { user = user; password = password } in
    parse_cs_lem depth getenv cs n (omega (arith, length-append user (b':' ∷ rest)))
    ∙ ap (finish (parse_cs depth getenv)) (
        ap (on_next (rounds (suc n) getenv (length cs))) (
          colon_round getenv (length cs == length cs) no_parts user rest cu
          ∙ user_password no_parts user password tail cw)
        ∙ host_port_rounds n getenv (length cs) res host port ch cp v)

-- The same without a user: "host:port".
pub parse_cs-print_host :
    (depth : ℕ) (getenv : Bytes → Option Bytes) (host port : Bytes)
    → IsClean host
    → IsClean port
    → is_port port ≡ true
    → parse_cs (suc depth) getenv (host ++ b':' ∷ port)
      ≡ found (defaults (record no_parts { host = host; port = port }))
unfolding finish
parse_cs-print_host depth getenv host port ch cp v =
    let n = length host + length port in
    parse_cs_lem depth getenv (host ++ b':' ∷ port) n
      (omega (arith, length-append host (b':' ∷ port)))
    ∙ ap (finish (parse_cs depth getenv))
        (host_port_rounds (suc n) getenv (length (host ++ b':' ∷ port)) no_parts host port ch cp v)

-- A string that ends with the ':' behind the host: `front()` is called on an empty view.
pub parse_cs_stuck :
    (depth : ℕ) (getenv : Bytes → Option Bytes) (host : Bytes)
    → IsClean host
    → parse_cs (suc depth) getenv (host ++ b':' ∷ []) ≡ stuck
unfolding finish rounds on_next colon
parse_cs_stuck depth getenv host ch =
    let cs = host ++ b':' ∷ [] in
    parse_cs_lem depth getenv cs (length host) (omega (arith, length-append host (b':' ∷ [])))
    ∙ ap (finish (parse_cs depth getenv)) (
        ap (on_next (rounds (suc (length host)) getenv (length cs)))
          (colon_round getenv (length cs == length cs) no_parts host [] ch))

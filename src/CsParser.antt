-- ===== src/CsParser.antt =====
-- cs_parser.h, cs_parser.cpp: connection strings. `front()` and `[1]` on a view that is too short are
-- undefined.
pub mod Rounds
pub mod Print
use cpp2tnt.Prelude.{
  ℕ, zero, suc, ◌+◌, ◌-◌, ◌*◌, Bool, true, false, ◌&&◌, ◌||◌, not, Option, none, some, List, [],
  ◌∷◌, ◌++◌, Bytes, length, ltb, leb, ◌==◌, if◌then◌else◌,
}

-- struct cs_parts
pub record CsParts : Type 0 where
  pub unix_socket_path : Bytes
  pub user : Bytes
  pub password : Bytes
  pub host : Bytes
  pub port : Bytes

abbrev pub no_parts : CsParts
no_parts = record { unix_socket_path = []; user = []; password = []; host = []; port = [] }

-- What a round of the loop comes to: the function returns, the loop goes on or ends, the function is
-- called for the value of a variable, or the behaviour is undefined.
pub data Round : Type 0 where
  returned : CsParts → Round
  next : CsParts → Bytes → Round
  parsed : CsParts → Round
  redirected : Bytes → Round
  undefined : Round

-- one of ":/@["
abbrev pub is_separator : ℕ → Bool
is_separator c = c == b':' || c == b'/' || c == b'@' || c == b'['

abbrev pub is_bracket : ℕ → Bool
is_bracket c = c == b']'

-- get_chunk: what it returns, and what it leaves in `tail`
pub chunk : (ℕ → Bool) → Bytes → Bytes
chunk sep [] = []
chunk sep (c ∷ cs) = let rest = chunk sep cs in if sep c then [] else c ∷ rest

pub behind : (ℕ → Bool) → Bytes → Bytes
behind sep [] = []
behind sep (c ∷ cs) = let rest = behind sep cs in if sep c then c ∷ cs else rest

abbrev is_digit : ℕ → Bool
is_digit c = leb b'0' c && leb c b'9'

abbrev all_digits : Bytes → Bool
all_digits [] = true
all_digits (c ∷ cs) = is_digit c && all_digits cs

abbrev number : ℕ → Bytes → ℕ
number n [] = n
number n (c ∷ cs) = number (10 * n + (c - b'0')) cs

-- chunk2port: a `uint16_t` that `from_chars` reads to the end of at most five bytes
abbrev pub is_port : Bytes → Bool
is_port cs = leb (length cs) 5 && leb 1 (length cs) && all_digits cs && leb (number 0 cs) 0xffff

-- The second chunk, behind a ':'.
pub password_or_port : CsParts → Bytes → Bytes → Bytes → Round
password_or_port res first second [] =
    if is_port second
    then parsed (record res { host = first; port = second })
    else returned no_parts
password_or_port res first second (c ∷ tail) =
    if c == b'@'
    then next (record res { user = first; password = second }) tail
    else returned no_parts

-- case ':'
colon : CsParts → Bytes → Bytes → Round
unfolding chunk behind password_or_port
colon res first [] = undefined
colon res first (c ∷ tail) =
    if c == b'/'
    then returned (record res { unix_socket_path = c ∷ tail })
    else password_or_port res first (chunk is_separator (c ∷ tail)) (behind is_separator (c ∷ tail))

-- The end of case '/': a path, unless there is a user.
abbrev socket_path : CsParts → Bytes → Round
socket_path res path =
    if length res.user == 0
    then returned (record res { unix_socket_path = path })
    else returned no_parts

abbrev bytes_eq : Bytes → Bytes → Bool
bytes_eq [] [] = true
bytes_eq [] (c ∷ cs) = false
bytes_eq (b ∷ bs) [] = false
bytes_eq (b ∷ bs) (c ∷ cs) = b == c && bytes_eq bs cs

abbrev variable : Option Bytes → Round
variable none = returned no_parts
variable (some value) = redirected value

-- case '/'; `tail` is what stands behind the '/'.
slash : (Bytes → Option Bytes) → CsParts → Bytes → Bytes → Round
slash getenv res first [] = undefined
slash getenv res first (c ∷ tail) =
    if c == b':'
    then (if bytes_eq first (b'e' ∷ b'n' ∷ b'v' ∷ [])
        then variable (getenv tail)
        else if bytes_eq first (b'u' ∷ b'n' ∷ b'i' ∷ b'x' ∷ [])
        then socket_path res tail
        else returned no_parts)
    else socket_path res (b'/' ∷ c ∷ tail)

-- What stands behind the ']' of an address.
address_port : CsParts → Bytes → Bytes → Round
address_port res address [] = returned no_parts
address_port res address (c ∷ tail) =
    if c == b':' && is_port tail
    then parsed (record res { host = address; port = tail })
    else returned no_parts

-- The chunk up to the ']', and what it leaves.
address_end : CsParts → Bytes → Bytes → Round
unfolding address_port
address_end res [] tail = returned no_parts
address_end res address [] = undefined
address_end res address (c ∷ tail) = address_port res address tail

-- case '['
bracket : CsParts → Bytes → Bytes → Round
unfolding chunk behind address_end
bracket res [] tail = address_end res (chunk is_bracket tail) (behind is_bracket tail)
bracket res (c ∷ cs) tail = returned no_parts

-- The body of the loop behind `get_chunk()`; `is_first` tells whether the chunk is at the beginning
-- of the string.
pub after_chunk : (Bytes → Option Bytes) → Bool → CsParts → Bytes → Bytes → Round
unfolding colon slash bracket
after_chunk getenv is_first res first [] =
    if is_first && is_port first then parsed (record res { port = first }) else returned no_parts
after_chunk getenv is_first res first (c ∷ tail) =
    if c == b':'
    then colon res first tail
    else if c == b'/'
    then slash getenv res first tail
    else if c == b'['
    then bracket res first tail
    else next (record res { user = first }) tail

-- The next round, where there is one.
pub on_next : (CsParts → Bytes → Round) → Round → Round
on_next k (next res tail) = k res tail
on_next k (returned res) = returned res
on_next k (parsed res) = parsed res
on_next k (redirected cs) = redirected cs
on_next k undefined = undefined

-- while (res.port.empty()), in a string of `len` bytes: `next` comes out only where the fuel has run
-- out.
pub rounds : ℕ → (Bytes → Option Bytes) → ℕ → CsParts → Bytes → Round
unfolding after_chunk chunk behind on_next
rounds zero getenv len res tail = next res tail
rounds (suc n) getenv len res tail = on_next (rounds n getenv len) (
    after_chunk getenv (length tail == len) res (chunk is_separator tail)
      (behind is_separator tail))

-- The defaults of the user and the host.
abbrev pub defaults : CsParts → CsParts
defaults res = record res {
  user = if length res.user == 0 then b'g' ∷ b'u' ∷ b'e' ∷ b's' ∷ b't' ∷ [] else res.user;
  host =
      if length res.host == 0
      then b'l' ∷ b'o' ∷ b'c' ∷ b'a' ∷ b'l' ∷ b'h' ∷ b'o' ∷ b's' ∷ b't' ∷ []
      else res.host;
}

-- What parse_cs comes to: parts, undefined behaviour, or more variables that name one another than
-- the fuel allows for.
pub data Parsed : Type 0 where
  found : CsParts → Parsed
  stuck : Parsed
  unfinished : Parsed

pub finish : (Bytes → Parsed) → Round → Parsed
finish again (returned res) = found res
finish again (parsed res) = found (defaults res)
finish again (redirected cs) = again cs
finish again undefined = stuck
finish again (next res tail) = unfinished

-- parse_cs, with `depth` calls for the values of variables at most. A string takes fewer rounds than
-- it has bytes and one more.
unfoldable pub parse_cs : ℕ → (Bytes → Option Bytes) → Bytes → Parsed
unfolding rounds finish
parse_cs zero getenv cs = unfinished
parse_cs (suc depth) getenv [] = found no_parts
parse_cs (suc depth) getenv (c ∷ cs) =
    finish (parse_cs depth getenv)
      (rounds (suc (length (c ∷ cs))) getenv (length (c ∷ cs)) no_parts (c ∷ cs))

-- ===== src/CsParser/Rounds.antt =====
-- cs_parser.cpp: the loop of `parse_cs`, round by round.
use cpp2tnt.Prelude.{
  ℕ, zero, suc, ◌≤◌, ◌<◌, ◌≡◌, ◌≢◌, refl, Bool, true, false, ◌&&◌, Bool-cases, Option-cases, inl,
  inr, ◌⊎◌, Option, some, [], ◌∷◌, Bytes, length, ◌==◌, if◌then◌else◌, arith,
}
use cpp2tnt.CsParser.{
  CsParts, Round, returned, next, parsed, redirected, undefined, no_parts, is_separator, is_bracket,
  chunk, behind, is_port, password_or_port, colon, slash, bracket, after_chunk, on_next, rounds,
  address_end, address_port, socket_path, variable, bytes_eq, Parsed, found, stuck, unfinished,
  finish, parse_cs,
}

module _ (getenv : Bytes → Option Bytes) where
  -- What a round may come to: a port is valid, no other parts have one, and less than `n` bytes are
  -- left to the next round.
  abbrev pub Sound : ℕ → Round → Type 0
  Sound n (next res tail) = (length tail < n) × (res.port ≡ [])
  Sound n (returned res) = res.port ≡ []
  Sound n (parsed res) = is_port res.port ≡ true
  Sound n (redirected cs) = (v : Bytes) × (getenv v ≡ some cs)
  Sound n undefined = Unit

  if-Sound :
      (n : ℕ) (t : Bool) (a b : Round)
      → (t ≡ true → Sound n a)
      → (t ≡ false → Sound n b)
      → Sound n (if t then a else b)
  if-Sound n true a b ha hb = ha refl
  if-Sound n false a b ha hb = hb refl

  length-behind : (sep : ℕ → Bool) (cs : Bytes) → length (behind sep cs) ≤ length cs
  unfolding behind
  length-behind sep [] = omega arith
  length-behind sep (c ∷ cs) = elim (Bool-cases (sep c)) [
    | inl here ↦ rw here (omega arith)
    | inr later ↦ rw later (omega (arith, length-behind sep cs))
  ]

  password_or_port-Sound :
      (n : ℕ) (res : CsParts) (first second tail : Bytes)
      → res.port ≡ []
      → length tail ≤ n
      → Sound n (password_or_port res first second tail)
  unfolding password_or_port
  password_or_port-Sound n res first second [] e h =
      if-Sound n (is_port second) _ _ (λ v. v) (λ v. refl)
  password_or_port-Sound n res first second (c ∷ tail) e h =
      if-Sound n (c == b'@') _ _ (λ v. (omega arith, e)) (λ v. refl)

  colon-Sound :
      (n : ℕ) (res : CsParts) (first tail : Bytes)
      → res.port ≡ []
      → length tail ≤ n
      → Sound n (colon res first tail)
  unfolding colon
  colon-Sound n res first [] e h = tt
  colon-Sound n res first (c ∷ tail) e h =
      if-Sound n (c == b'/') _ _ (λ v. e)
        (λ v.
          password_or_port-Sound n res first (chunk is_separator (c ∷ tail))
            (behind is_separator (c ∷ tail)) e
            (omega (arith, length-behind is_separator (c ∷ tail))))

  socket_path-Sound :
      (n : ℕ) (res : CsParts) (path : Bytes) → res.port ≡ [] → Sound n (socket_path res path)
  socket_path-Sound n res path e = if-Sound n (length res.user == 0) _ _ (λ v. e) (λ v. refl)

  variable-Sound : (n : ℕ) (v : Bytes) → Sound n (variable (getenv v))
  variable-Sound n v = elim (Option-cases (getenv v)) [
    | inl unset ↦ rw unset refl
    | inr (value, set) ↦ rw set (v, set)
  ]

  slash-Sound :
      (n : ℕ) (res : CsParts) (first tail : Bytes)
      → res.port ≡ []
      → Sound n (slash getenv res first tail)
  unfolding slash
  slash-Sound n res first [] e = tt
  slash-Sound n res first (c ∷ tail) e =
      if-Sound n (c == b':') _ _
        (λ v.
          if-Sound n (bytes_eq first (b'e' ∷ b'n' ∷ b'v' ∷ [])) (variable (getenv tail))
            (if bytes_eq first (b'u' ∷ b'n' ∷ b'i' ∷ b'x' ∷ [])
              then socket_path res tail
              else returned no_parts)
            (λ v'. variable-Sound n tail)
            (λ v'.
              if-Sound n (bytes_eq first (b'u' ∷ b'n' ∷ b'i' ∷ b'x' ∷ [])) (socket_path res tail)
                (returned no_parts) (λ v''. socket_path-Sound n res tail e) (λ v''. refl)))
        (λ v. socket_path-Sound n res (b'/' ∷ c ∷ tail) e)

  address_port-Sound :
      (n : ℕ) (res : CsParts) (address tail : Bytes) → Sound n (address_port res address tail)
  unfolding address_port
  address_port-Sound n res address [] = refl
  address_port-Sound n res address (c ∷ tail) =
      if-Sound n (c == b':' && is_port tail) _ _ (λ v. valid v) (λ v. refl)
    where
      valid : (c == b':' && is_port tail) ≡ true → is_port tail ≡ true
      valid v = grind arith

  bracket-Sound : (n : ℕ) (res : CsParts) (first tail : Bytes) → Sound n (bracket res first tail)
  unfolding bracket address_end
  bracket-Sound n res (c ∷ cs) tail = refl
  bracket-Sound n res [] tail = ends (chunk is_bracket tail) (behind is_bracket tail)
    where
      ends : (address rest : Bytes) → Sound n (address_end res address rest)
      ends [] rest = refl
      ends (a ∷ address) [] = tt
      ends (a ∷ address) (c ∷ rest) = address_port-Sound n res (a ∷ address) rest

  after_chunk-Sound :
      (n : ℕ) (is_first : Bool) (res : CsParts) (first tail : Bytes)
      → res.port ≡ []
      → length tail ≤ n
      → Sound n (after_chunk getenv is_first res first tail)
  unfolding after_chunk
  after_chunk-Sound n is_first res first [] e h =
      if-Sound n (is_first && is_port first) _ _ (λ v. valid v) (λ v. refl)
    where
      valid : (is_first && is_port first) ≡ true → is_port first ≡ true
      valid v = grind arith
  after_chunk-Sound n is_first res first (c ∷ tail) e h =
      if-Sound n (c == b':') _ _ (λ v. colon-Sound n res first tail e (omega arith))
        (λ v.
          if-Sound n (c == b'/') _ _ (λ v'. slash-Sound n res first tail e)
            (λ v'.
              if-Sound n (c == b'[') _ _ (λ v''. bracket-Sound n res first tail)
                (λ v''. (omega arith, e))))

  on_next-Sound :
      (n : ℕ) (k : CsParts → Bytes → Round) (r : Round)
      → Sound n r
      → ((res : CsParts) (tail : Bytes) → res.port ≡ [] → length tail < n → Sound 0 (k res tail))
      → Sound 0 (on_next k r)
  unfolding on_next
  on_next-Sound n k (next res tail) s h = h res tail s.1 s.0
  on_next-Sound n k (returned res) s h = s
  on_next-Sound n k (parsed res) s h = s
  on_next-Sound n k (redirected cs) s h = s
  on_next-Sound n k undefined s h = s

  -- With a round more than there are bytes left the loop ends: what comes out of it is no `next`, and
  -- is a string with a valid port, parts without a port, a variable's value, or undefined.
  pub rounds-Sound :
      (n : ℕ) (len : ℕ) (res : CsParts) (tail : Bytes)
      → res.port ≡ []
      → length tail < n
      → Sound 0 (rounds n getenv len res tail)
  unfolding rounds
  rounds-Sound zero len res tail e h = absurd (omega arith)
  rounds-Sound (suc n) len res tail e h =
      on_next-Sound (length tail) (rounds n getenv len)
        (after_chunk getenv (length tail == len) res (chunk is_separator tail)
          (behind is_separator tail))
        (after_chunk-Sound (length tail) (length tail == len) res (chunk is_separator tail)
          (behind is_separator tail) e (length-behind is_separator tail))
        (λ res' tail' e' h'. rounds-Sound n len res' tail' e' (omega (arith, h')))

  -- What the parts that are found have to meet.
  abbrev pub Finds : Parsed → Type 0
  Finds (found res) = (res.port ≡ []) ⊎ (is_port res.port ≡ true)
  Finds stuck = Unit
  Finds unfinished = Unit

  finish-Finds :
      (again : Bytes → Parsed) (r : Round)
      → Sound 0 r
      → ((cs : Bytes) → Finds (again cs))
      → Finds (finish again r)
  unfolding finish
  finish-Finds again (returned res) s h = inl s
  finish-Finds again (parsed res) s h = inr s
  finish-Finds again (redirected cs) s h = h cs
  finish-Finds again undefined s h = tt
  finish-Finds again (next res tail) s h = tt

  -- Whatever the string and the environment, the parts that parse_cs finds have a valid port number,
  -- or none.
  pub parse_cs-Finds : (depth : ℕ) (cs : Bytes) → Finds (parse_cs depth getenv cs)
  unfolding parse_cs
  parse_cs-Finds zero cs = tt
  parse_cs-Finds (suc depth) [] = inl refl
  parse_cs-Finds (suc depth) (c ∷ cs) =
      finish-Finds (parse_cs depth getenv)
        (rounds (suc (length (c ∷ cs))) getenv (length (c ∷ cs)) no_parts (c ∷ cs))
        (rounds-Sound (suc (length (c ∷ cs))) (length (c ∷ cs)) no_parts (c ∷ cs) refl
          (omega arith))
        (parse_cs-Finds depth)

  finish_ends :
      (again : Bytes → Parsed) (r : Round)
      → Sound 0 r
      → ((v cs : Bytes) → getenv v ≡ some cs → again cs ≢ unfinished)
      → finish again r ≢ unfinished
  unfolding finish
  finish_ends again (returned res) s h = λ e. cc
  finish_ends again (parsed res) s h = λ e. cc
  finish_ends again (redirected cs) s h = h s.0 cs s.1
  finish_ends again undefined s h = λ e. cc
  finish_ends again (next res tail) s h = absurd (omega (arith, s.0))

  -- parse_cs ends, if it ends for the value of each variable with one call less.
  pub parse_cs_ends :
      (depth : ℕ) (cs : Bytes)
      → ((v value : Bytes) → getenv v ≡ some value → parse_cs depth getenv value ≢ unfinished)
      → parse_cs (suc depth) getenv cs ≢ unfinished
  unfolding parse_cs
  parse_cs_ends depth [] h = λ e. cc
  parse_cs_ends depth (c ∷ cs) h =
      finish_ends (parse_cs depth getenv)
        (rounds (suc (length (c ∷ cs))) getenv (length (c ∷ cs)) no_parts (c ∷ cs))
        (rounds-Sound (suc (length (c ∷ cs))) (length (c ∷ cs)) no_parts (c ∷ cs) refl
          (omega arith))
        h

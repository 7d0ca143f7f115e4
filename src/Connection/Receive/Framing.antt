-- ===== src/Connection/Receive/Framing.antt =====
-- The loop of `process_receive_buffer` finds the ends of the responses.
use cpp2tnt.Prelude.{
  ℕ, zero, suc, ◌+◌, ◌-◌, ◌%◌, ◌*◌, ◌≤◌, ◌<◌, ◌≡◌, refl, sym, ap, ap₂, ◌∙◌, ◌⊎◌, inl, inr, true,
  false, some, List, [], ◌∷◌, ◌++◌, append_assoc, Bytes, length, drop, arith, length-append,
  drop-append, u64_mod, u32_mod, lt→ltb, le→leb, leb-eq_false, ==_ne,
}
use cpp2tnt.Msgpuck.{Msgpuck}
use cpp2tnt.Msgpuck.Laws.{Uint32Laws}
use cpp2tnt.Connection.Receive.{Frames, detect, read_header, head_is_uint, is_uint}

module _ (m : Msgpuck) where
  -- A message on the wire: its size in the five bytes of a `uint32`, then its header and body.
  abbrev pub frame : Bytes → Bytes
  frame body = 0xce ∷ (m.store_u32 (length body) ++ body)

  -- Messages one behind the other, then some bytes.
  abbrev pub frames : List Bytes → Bytes → Bytes
  frames [] tail = tail
  frames (body ∷ bodies) tail = frame body ++ frames bodies tail

  abbrev pub total : List Bytes → ℕ
  total [] = 0
  total (body ∷ bodies) = 5 + length body + total bodies

  abbrev pub AllSmall : List Bytes → Type 0
  AllSmall [] = Unit
  AllSmall (body ∷ bodies) = (length body + 5 < u32_mod) × AllSmall bodies

  -- The beginning of a message that is not there as a whole, and the size that its header, if that is
  -- whole, announces.
  pub data Partial : Bytes → ℕ → Type 0 where
    short : {tail : Bytes} → length tail < 5 → Partial tail 0
    headed :
        {tail : Bytes} {d : ℕ} (n : ℕ) (rest : Bytes)
        → n + 5 < u32_mod
        → tail ≡ 0xce ∷ (m.store_u32 n ++ rest)
        → length rest < n
        → d ≡ n + 5
        → Partial tail d

  -- What the loop may know of the size of the next message: nothing, or the size.
  abbrev pub Expects : ℕ → List Bytes → ℕ → Type 0
  Expects known [] d = (known ≡ 0) ⊎ (known ≡ d)
  Expects known (body ∷ bodies) d = (known ≡ 0) ⊎ (known ≡ 5 + length body)

  abbrev at : ℕ → ℕ → Frames
  at head detected = record { head = head; detected = detected; incorrect = false }

  pub length-frame : Uint32Laws m → (body : Bytes) → length (frame body) ≡ 5 + length body
  length-frame laws body =
      omega (arith, length-append (m.store_u32 (length body)) body, laws.length_u32 (length body))

  pub decode-frame :
      Uint32Laws m
      → (body rest : Bytes) → length body + 5 < u32_mod
      → m.decode_uint (frame body ++ rest) ≡ (length body, body ++ rest)
  decode-frame laws body rest h =
      ap (λ zs. m.decode_uint (0xce ∷ zs)) (append_assoc (m.store_u32 (length body)) body rest)
      ∙ laws.decode_u32 (length body) (body ++ rest) (omega arith)

  -- The header at the offset is read where the size is not known yet.
  read_header-known :
      (pre tail : Bytes) (n : ℕ) (rest : Bytes) (known : ℕ)
      → drop (length pre) (pre ++ tail) ≡ tail
      → head_is_uint m tail ≡ true
      → m.decode_uint tail ≡ (n, rest)
      → 5 ≤ length tail
      → n + 5 < u32_mod
      → (known ≡ 0) ⊎ (known ≡ n + 5)
      → read_header m (pre ++ tail) (at (length pre) known) ≡ at (length pre) (n + 5)
  unfolding read_header
  read_header-known pre tail n rest known cut type value long small (inl unknown) =
      let len : 5 ≤ length (pre ++ tail) - length pre = omega (arith, length-append pre tail) in
      let fits : (n + 5) % u64_mod ≡ n + 5 = omega arith in
      rw (unknown, le→leb 5 (length (pre ++ tail) - length pre) len, cut, type, value)
        (ap (at (length pre)) fits)
  read_header-known pre tail n rest known cut type value long small (inr e) =
      rw (e, ==_ne (n + 5) 0 (omega arith))

  read_header-short :
      (pre tail : Bytes) (known : ℕ)
      → length tail < 5
      → known ≡ 0
      → read_header m (pre ++ tail) (at (length pre) known) ≡ at (length pre) 0
  unfolding read_header
  read_header-short pre tail known h e =
      let len : length (pre ++ tail) - length pre < 5 = omega (arith, length-append pre tail) in
      rw (e, leb-eq_false 5 (length (pre ++ tail) - length pre) len)

  -- One round passes over a whole message.
  detect-frame :
      Uint32Laws m
      → (fuel : ℕ) (pre body rest : Bytes) (known : ℕ) → length body + 5 < u32_mod
      → (known ≡ 0) ⊎ (known ≡ 5 + length body)
      → detect (suc fuel) m (pre ++ (frame body ++ rest)) (at (length pre) known)
        ≡ detect fuel m (pre ++ (frame body ++ rest)) (at (length pre + (length body + 5)) 0)
  unfolding detect
  detect-frame laws fuel pre body rest known small e =
      let len : length (frame body ++ rest) ≡ 5 + length body + length rest =
        omega (arith, length-append (frame body) rest, length-frame laws body) in
      let whole : length body + 5 ≤ length (pre ++ (frame body ++ rest)) - length pre =
        omega (arith, length-append pre (frame body ++ rest), len) in
      rw (
        read_header-known pre (frame body ++ rest) (length body) (body ++ rest) known
            (drop-append pre (frame body ++ rest) (length pre) refl) (ap is_uint laws.type_u32)
            (decode-frame laws body rest small) (omega (arith, len)) small (omega arith),
        lt→ltb 0 (length body + 5) (omega arith),
        le→leb (length body + 5) (length (pre ++ (frame body ++ rest)) - length pre) whole,
      )

  -- At a message that is not whole the loop ends.
  detect-Partial :
      Uint32Laws m
      → (fuel : ℕ) (pre tail : Bytes) (known d : ℕ) → Partial tail d
      → (known ≡ 0) ⊎ (known ≡ d)
      → detect (suc fuel) m (pre ++ tail) (at (length pre) known) ≡ some (at (length pre) d)
  unfolding detect
  detect-Partial laws fuel pre tail known d (short h) e =
      rw (read_header-short pre tail known h (omega arith))
  detect-Partial laws fuel pre tail known d (headed n rest small shape h e') e =
      let len : length tail ≡ 5 + length rest =
        omega (arith, ap length shape, length-append (m.store_u32 n) rest, laws.length_u32 n) in
      let open_end : length (pre ++ tail) - length pre < n + 5 =
        omega (arith, length-append pre tail) in
      rw (
        read_header-known pre tail n rest known (drop-append pre tail (length pre) refl)
            (rw shape (ap is_uint laws.type_u32)) (rw shape (laws.decode_u32 n rest (omega arith)))
            (omega arith) small (omega arith),
        lt→ltb 0 (n + 5) (omega arith),
        leb-eq_false (n + 5) (length (pre ++ tail) - length pre) open_end,
        e',
      )

  Expects-unknown : (bodies : List Bytes) (d : ℕ) → Expects 0 bodies d
  Expects-unknown [] d = inl refl
  Expects-unknown (body ∷ bodies) d = inl refl

  -- Whatever messages lie behind the offset, the loop ends behind the last whole one, and knows the
  -- size of the next as soon as its header is there.
  pub detect-frames :
      Uint32Laws m
      → (bodies : List Bytes) (fuel : ℕ) (pre tail : Bytes) (known d : ℕ) → length bodies < fuel
      → AllSmall bodies
      → Partial tail d
      → Expects known bodies d
      → detect fuel m (pre ++ frames bodies tail) (at (length pre) known)
        ≡ some (at (length pre + total bodies) d)
  detect-frames laws bodies zero pre tail known d h small p e = absurd (omega arith)
  detect-frames laws [] (suc fuel) pre tail known d h small p e =
      detect-Partial laws fuel pre tail known d p e ∙ ap (λ k. some (at k d)) (omega arith)
  detect-frames laws (body ∷ bodies) (suc fuel) pre tail known d h small p e =
      let rest = frames bodies tail in
      let ends : length pre + (length body + 5) ≡ length (pre ++ frame body) =
        omega (arith, length-append pre (frame body), length-frame laws body) in
      let sum : length (pre ++ frame body) + total bodies ≡ length pre + total (body ∷ bodies) =
        omega arith in
      detect-frame laws fuel pre body rest known small.0 e
      ∙ ap₂ (λ zs k. detect fuel m zs (at k 0)) (sym (append_assoc pre (frame body) rest)) ends
      ∙ detect-frames laws bodies fuel (pre ++ frame body) tail 0 d (omega arith) small.1 p
          (Expects-unknown bodies d)
      ∙ ap (λ k. some (at k d)) sum

  pub frames-append :
      (bodies : List Bytes) (tail : Bytes) → frames bodies tail ≡ frames bodies [] ++ tail
  frames-append [] tail = refl
  frames-append (body ∷ bodies) tail =
      ap (λ zs. frame body ++ zs) (frames-append bodies tail)
      ∙ sym (append_assoc (frame body) (frames bodies []) tail)

  pub length-frames :
      Uint32Laws m
      → (bodies : List Bytes) (tail : Bytes)
      → length (frames bodies tail) ≡ total bodies + length tail
  length-frames laws [] tail = omega arith
  length-frames laws (body ∷ bodies) tail = omega (
    arith,
    length-append (frame body) (frames bodies tail),
    length-frame laws body,
    length-frames laws bodies tail,
  )

  pub length-le-total : (bodies : List Bytes) → 5 * length bodies ≤ total bodies
  length-le-total [] = omega arith
  length-le-total (body ∷ bodies) = omega (arith, length-le-total bodies)

  decode-headed :
      Uint32Laws m
      → (tail chunk : Bytes) (n : ℕ) (rest : Bytes) → n < u32_mod
      → tail ≡ 0xce ∷ (m.store_u32 n ++ rest)
      → (m.decode_uint (tail ++ chunk)).0 ≡ n
  decode-headed laws tail chunk n rest h shape =
      ap (λ zs. (m.decode_uint (zs ++ chunk)).0) shape
      ∙ ap (λ zs. (m.decode_uint (0xce ∷ zs)).0) (append_assoc (m.store_u32 n) rest chunk)
      ∙ ap (λ p. p.0) (laws.decode_u32 n (rest ++ chunk) h)

  -- The size that a header announces is the size of the message that it begins: more bytes behind
  -- the beginning of a message meet what the loop expects of them.
  pub Partial-Expects :
      Uint32Laws m
      → (tail chunk : Bytes) (known : ℕ) (bodies : List Bytes) (tail' : Bytes) (d : ℕ)
      → Partial tail known
      → tail ++ chunk ≡ frames bodies tail'
      → AllSmall bodies
      → Partial tail' d
      → Expects known bodies d
  Partial-Expects laws tail chunk known [] tail' d (short h) e small p = inl refl
  Partial-Expects laws tail chunk known (body ∷ bodies) tail' d (short h) e small p = inl refl
  Partial-Expects laws tail chunk known [] tail' d (headed n rest s shape h is) e small (short h') =
      absurd (
        omega (
          arith,
          ap length e,
          ap length shape,
          length-append tail chunk,
          length-append (m.store_u32 n) rest,
          laws.length_u32 n,
        ))
  Partial-Expects laws tail chunk known [] tail' d (headed n rest s shape h is) e small
        (headed n' rest' s' shape' h' is') =
      let same : n ≡ n' =
        sym (decode-headed laws tail chunk n rest (omega arith) shape)
        ∙ ap (λ zs. (m.decode_uint zs).0) (e ∙ shape')
        ∙ ap (λ p. p.0) (laws.decode_u32 n' rest' (omega arith)) in
      inr (omega arith)
  Partial-Expects laws tail chunk known (body ∷ bodies) tail' d (headed n rest s shape h is) e small
        p =
      let same : n ≡ length body =
        sym (decode-headed laws tail chunk n rest (omega arith) shape)
        ∙ ap (λ zs. (m.decode_uint zs).0) e
        ∙ ap (λ p. p.0) (decode-frame laws body (frames bodies tail') small.0) in
      inr (omega arith)

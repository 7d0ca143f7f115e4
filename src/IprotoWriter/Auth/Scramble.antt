-- ===== src/IprotoWriter/Auth/Scramble.antt =====
-- iproto_writer.cpp: what the server makes of the scramble.
use cpp2tnt.Prelude.{
  ℕ, zero, suc, ◌+◌, ◌*◌, ◌/◌, ◌%◌, ◌≤◌, ◌<◌, ◌≡◌, refl, ap, ap₂, ◌∙◌, Bytes, [], ◌∷◌, ◌++◌, length,
  take, take_all, arith, subst, u32_mod,
}
use cpp2tnt.IprotoWriter.Auth.{Digests, xor_bits, xor_all, scramble_prepare, scramble_size, hashed}

-- A number of `n` bits.
abbrev Bits : ℕ → ℕ → Type 0
Bits zero a = a ≡ 0
Bits (suc n) a = Bits n (a / 2)

xor_bits_twice : (n a b : ℕ) → Bits n a → xor_bits n (xor_bits n a b) b ≡ a
xor_bits_twice zero a b h = omega arith
xor_bits_twice (suc n) a b h =
    let rest = xor_bits n (a / 2) (b / 2) in
    let x = (a + b) % 2 + 2 * rest in
    let half : x / 2 ≡ rest = omega arith in
    let same : xor_bits n (x / 2) (b / 2) ≡ a / 2 =
      ap (λ y. xor_bits n y (b / 2)) half ∙ xor_bits_twice n (a / 2) (b / 2) h in
    omega (arith, same)

abbrev pub AllBytes : Bytes → Type 0
AllBytes [] = Unit
AllBytes (a ∷ rest) = (a < 256) × AllBytes rest

xor_all_twice :
    (xs ys : Bytes) → length xs ≤ length ys → AllBytes xs → xor_all (xor_all xs ys) ys ≡ xs
xor_all_twice [] ys h bytes = refl
xor_all_twice (x ∷ xs) [] h bytes = absurd (omega arith)
xor_all_twice (x ∷ xs) (y ∷ ys) h (small, bytes) =
    ap₂ ◌∷◌ (xor_bits_twice 8 x y (omega arith)) (xor_all_twice xs ys (omega arith) bytes)

-- What chap-sha1 has the server do with a scramble, where it holds the digest of the digest of the password:
-- take the digest of the salt and of what it holds off the scramble.
abbrev pub recovered : Digests → Bytes → Bytes → Bytes → Bytes
recovered d salt stored scramble = xor_all scramble (d.sha1 (take scramble_size salt ++ stored))

-- A digest has 20 bytes.
pub record DigestLaws (d : Digests) : Type 0 where
  pub length_sha1 : (bs : Bytes) → length (d.sha1 bs) ≡ scramble_size
  pub bytes_sha1 : (bs : Bytes) → AllBytes (d.sha1 bs)

-- What the server recovers is the digest of the bytes of the password that were hashed.
hashed-recovered :
    (d : Digests)
    → DigestLaws d
    → (salt password : Bytes)
    → recovered d salt (d.sha1 (d.sha1 (hashed password))) (scramble_prepare d salt password)
      ≡ d.sha1 (hashed password)
unfolding scramble_prepare
hashed-recovered d laws salt password =
    let hash1 = d.sha1 (hashed password) in
    let stored = d.sha1 hash1 in
    let key = d.sha1 (take scramble_size salt ++ stored) in
    let hash2 : d.sha1 (take scramble_size hash1) ≡ stored =
      ap d.sha1
        (take_all scramble_size hash1 (omega (arith, laws.length_sha1 (hashed password)))) in
    let whole : take scramble_size (d.sha1 (take scramble_size hash1)) ≡ stored =
      ap (take scramble_size) hash2
      ∙ take_all scramble_size stored (omega (arith, laws.length_sha1 hash1)) in
    let sent : scramble_prepare d salt password ≡ xor_all hash1 key =
      ap (λ h. xor_all hash1 (d.sha1 (take scramble_size salt ++ h))) whole in
    ap (λ s. xor_all s key) sent
    ∙ xor_all_twice hash1 key
        (omega (
          arith,
          laws.length_sha1 (hashed password),
          laws.length_sha1 (take scramble_size salt ++ stored),
        ))
        (laws.bytes_sha1 (hashed password))

hashed_whole : (password : Bytes) → length password < u32_mod → hashed password ≡ password
hashed_whole password short = take_all (length password % u32_mod) password (omega arith)

-- From the scramble of a password of less than 2 ^ 32 bytes a server that holds the digest of the
-- password's digest recovers the digest, whose own digest is then the one that it holds.
pub scramble-recovered :
    (d : Digests)
    → DigestLaws d
    → (salt password : Bytes) → length password < u32_mod
    → let stored = d.sha1 (d.sha1 password) in
      let digest = recovered d salt stored (scramble_prepare d salt password) in
      (digest ≡ d.sha1 password) × (d.sha1 digest ≡ stored)
scramble-recovered d laws salt password short =
    let same : recovered d salt (d.sha1 (d.sha1 password)) (scramble_prepare d salt password)
        ≡ d.sha1 password =
      subst
        (λ p. recovered d salt (d.sha1 (d.sha1 p)) (scramble_prepare d salt password) ≡ d.sha1 p)
        (hashed_whole password short) (hashed-recovered d laws salt password) in
    (same, ap d.sha1 same)

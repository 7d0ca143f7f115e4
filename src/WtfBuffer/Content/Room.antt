-- ===== src/WtfBuffer/Content/Room.antt =====
-- wtf_buffer.cpp: buffers that own their vector, which always find the room that is asked for.
use cpp2tnt.Prelude.{ℕ, ◌+◌, ◌≡◌, refl, subst, inl, inr, Bool-cases, Bytes, length, overwrite, leb}
use cpp2tnt.Outcome.{Result, ok, thrown, undefined}
use cpp2tnt.WtfBuffer.{WtfBuffer, capacity, reserve, put}
use cpp2tnt.WtfBuffer.Content.{IsValid, IsOwned, Reserved, Succeeds, reserve-Reserved, grow-IsOwned}

succeeds_owned :
    (b : WtfBuffer) (P : WtfBuffer → Type 0) (r : Result WtfBuffer)
    → IsOwned b.target
    → Succeeds b r P
    → (b' : WtfBuffer) × (r ≡ ok b') × P b'
succeeds_owned b P (ok b') h s = (b', refl, s)
succeeds_owned b P (thrown e b') h s = absurd (subst IsOwned s.0 h)
succeeds_owned b P undefined h s = absurd s

pub reserve-IsOwned :
    (b : WtfBuffer) (n : ℕ) (b' : WtfBuffer)
    → IsOwned b.target
    → reserve b n ≡ ok b'
    → IsOwned b'.target
unfolding reserve
reserve-IsOwned b n b' h e = elim (Bool-cases (leb n (capacity b))) [
  | inl fits ↦
      let same : b ≡ b' = cc (rw fits at e) in subst (λ (x : WtfBuffer). IsOwned x.target) same h
  | inr more ↦ grow-IsOwned b.target b n b' h (rw more at e)
]

pub reserve_owned :
    (b : WtfBuffer) (n : ℕ)
    → IsValid b
    → IsOwned b.target
    → (b' : WtfBuffer) × (reserve b n ≡ ok b') × Reserved b n b'
reserve_owned b n v h = succeeds_owned b (Reserved b n) (reserve b n) h (reserve-Reserved b n v)

pub put-IsOwned :
    (b : WtfBuffer) (bs : Bytes) (b' : WtfBuffer)
    → IsOwned b.target
    → put b bs ≡ ok b'
    → IsOwned b'.target
unfolding put
put-IsOwned b bs b' h e = elim (Bool-cases (leb (b.used + length bs) (capacity b))) [
  | inl fits ↦
      let same : record b { store = overwrite b.store b.used bs; used = b.used + length bs } ≡ b' =
        cc (rw fits at e) in
      subst (λ (x : WtfBuffer). IsOwned x.target) same h
  | inr past ↦ cc (rw past at e)
]

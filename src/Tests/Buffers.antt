-- ===== src/Tests/Buffers.antt =====
-- wtf_buffer.cpp at concrete inputs.
use cpp2tnt.Prelude.{◌≡◌, refl, [], ◌∷◌, arith}
use cpp2tnt.Outcome.{ok}
use cpp2tnt.WtfBuffer.{WtfBuffer, borrowed, owned, reserve, resize, put, poke, capacity, content}
use cpp2tnt.WtfBuffer.Content.{
  IsValid, Succeeds, Reserved, Resized, reserve-Reserved, resize-Resized, put_lem, poke_lem,
  reserve_loses,
}

-- Four bytes of storage, three of content.
abbrev three : WtfBuffer
three = record { target = owned 4; store = 7 ∷ 8 ∷ 9 ∷ 0 ∷ []; used = 3 }

three-IsValid : IsValid three
three-IsValid = record { within = omega arith; managed = refl }

reserve-three :
    reserve three 6 ≡ ok (record { target = owned 6; store = 7 ∷ 8 ∷ 9 ∷ 0 ∷ 0 ∷ 0 ∷ []; used = 3 })
unfolding reserve
reserve-three = refl

reserve-Reserved_example : Succeeds three (reserve three 6) (Reserved three 6)
reserve-Reserved_example = reserve-Reserved three 6 three-IsValid

resize-Resized_example : Succeeds three (resize three 2) (Resized three 2)
resize-Resized_example = resize-Resized three 2 three-IsValid

put_lem_example :
    (b' : WtfBuffer) × (put three (5 ∷ []) ≡ ok b')
    × IsValid b'
    × (content b' ≡ 7 ∷ 8 ∷ 9 ∷ 5 ∷ [])
    × (b'.used ≡ 4)
    × (capacity b' ≡ 4)
put_lem_example = put_lem three (5 ∷ []) three-IsValid (omega arith)

poke_lem_example :
    (b' : WtfBuffer) × (poke three 1 (5 ∷ []) ≡ ok b')
    × IsValid b'
    × (content b' ≡ 7 ∷ 5 ∷ 9 ∷ [])
    × (b'.used ≡ 3)
    × (capacity b' ≡ 4)
poke_lem_example = poke_lem three 1 (5 ∷ []) three-IsValid (omega arith)

-- A vector with capacity 4 and size 1, into which a client has written three bytes.
abbrev reserved_vector : WtfBuffer
reserved_vector = record { target = borrowed 1; store = 7 ∷ 8 ∷ 9 ∷ 0 ∷ []; used = 3 }

reserve_loses_example :
    (b' : WtfBuffer) × (reserve reserved_vector 6 ≡ ok b') × (content b' ≡ 7 ∷ 0 ∷ 0 ∷ [])
reserve_loses_example =
    reserve_loses reserved_vector 1 6 refl (omega arith) (omega arith) (omega arith)

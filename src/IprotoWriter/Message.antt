-- ===== src/IprotoWriter/Message.antt =====
-- iproto_writer.cpp: a message between `start_message` and `finalize`.
use cpp2tnt.Prelude.{
  ℕ, ◌+◌, ◌-◌, ◌%◌, ◌≤◌, ◌<◌, ◌≡◌, ◌≢◌, refl, sym, ap, ◌∙◌, ◌⊎◌, inl, inr, Bool-cases, none, some,
  List, [], ◌∷◌, ◌++◌, append_assoc, append-nil, Bytes, length, take, drop, get_elem?, ltb, u32_mod,
  u64_mod, arith, length-append, length-take, length-drop, le→leb, ltb-eq_false, ==_ne,
  get_elem?-take, get_elem?-append,
}
use cpp2tnt.Outcome.{Result, ok, thrown, undefined, ◌>>=◌}
use cpp2tnt.WtfBuffer.{WtfBuffer, raw, capacity, content, reserve}
use cpp2tnt.WtfBuffer.Content.{IsValid, Succeeds, Reserved, reserve-Reserved, length-content}
use cpp2tnt.Msgpuck.{Msgpuck}
use cpp2tnt.Msgpuck.Laws.{Uint32Laws}
use cpp2tnt.MpWriter.{Container, MpWriter, append, patch, container_at, set_buf}
use cpp2tnt.MpWriter.Header.{patch_behind}
use cpp2tnt.MpWriter.Items.{append-Wrote}
use cpp2tnt.Connection.Receive.Framing.{frame}
use cpp2tnt.IprotoWriter.{
  finish_message, finalize, finalize_all, finalize_rounds, make_room, open_message, start_message,
}

-- A call that started a message behind the content of `w` and wrote `body` into it; there is room
-- for `room` bytes of the message. The four bytes of its length are not set yet.
pub record Composed (room : ℕ) (w : MpWriter) (body : Bytes) (w' : MpWriter) : Type 0 where
  pub valid : IsValid w'.buf
  pub gap : Bytes
  pub gap_length : length gap ≡ 4
  pub bytes : content w'.buf ≡ content w.buf ++ (0xce ∷ (gap ++ body))
  pub items : ℕ
  pub head : w'.opened ≡ record (container_at w (u32_mod - 1)) { items_count = items } ∷ []
  pub fits : w.buf.used + room ≤ capacity w'.buf

abbrev pub Composes : ℕ → MpWriter → Bytes → Result MpWriter → Type 0
Composes room w body r = (w' : MpWriter) × (r ≡ ok w') × Composed room w body w'

Reserved-succeeds :
    (w : MpWriter) (n : ℕ) (r : Result WtfBuffer)
    → w.buf.target ≢ raw none
    → Succeeds w.buf r (Reserved w.buf n)
    → (b : WtfBuffer) × (r ≡ ok b) × Reserved w.buf n b
Reserved-succeeds w n (ok b) t s = (b, refl, s)
Reserved-succeeds w n (thrown e b) t s = absurd (t s.0)
Reserved-succeeds w n undefined t s = absurd s

make_room_lem :
    (room : ℕ) (w : MpWriter)
    → IsValid w.buf
    → w.buf.target ≢ raw none
    → (room ≤ 1024) ⊎ (w.buf.used + room ≤ capacity w.buf)
    → (w' : MpWriter) × (make_room w ≡ ok w')
      × IsValid w'.buf
      × (content w'.buf ≡ content w.buf)
      × (w'.buf.used ≡ w.buf.used)
      × (w'.opened ≡ w.opened)
      × (w.buf.used + 1024 ≤ capacity w'.buf)
      × (w.buf.used + room ≤ capacity w'.buf)
unfolding make_room
make_room_lem room w v t fits = elim (Bool-cases (ltb (capacity w.buf - w.buf.used) 1024)) [
  | inl more ↦
      let n = capacity w.buf + 1024 in
      let (b, e, (vb, same, used, cap)) =
        Reserved-succeeds w n (reserve w.buf n) t (reserve-Reserved w.buf n v) in
      rw (more, e)
        (
          set_buf w b,
          refl,
          vb,
          same,
          used,
          refl,
          omega (arith, cap, v.within),
          omega (arith, cap, v.within, fits),
        )
  | inr enough ↦
      rw enough
        (w, refl, v, refl, refl, refl, ground (arith, v.within), ground (arith, v.within, fits))
]

open_message_lem :
    (room : ℕ) (w : MpWriter)
    → IsValid w.buf
    → w.opened ≡ []
    → w.buf.used + 1024 ≤ capacity w.buf
    → w.buf.used + room ≤ capacity w.buf
    → Composes room w [] (open_message w)
unfolding open_message
open_message_lem room w v o kilobyte fits =
    let gap = take 4 (drop (w.buf.used + 1) w.buf.store) in
    let four : length gap ≡ 4 = omega (
      arith,
      length-take 4 (drop (w.buf.used + 1) w.buf.store),
      length-drop (w.buf.used + 1) w.buf.store,
    ) in
    let started = record w { opened = container_at w (u32_mod - 1) ∷ [] } in
    let (w', e, v', same, used, cap, still) =
      append-Wrote started (0xce ∷ gap) v (omega (arith, four)) in
    rw (o, le→leb (w.buf.used + 5) (capacity w.buf) (omega arith), e)
      (
        w',
        refl,
        record {
          valid = v';
          gap = gap;
          gap_length = four;
          bytes = same ∙ ap (λ zs. content w.buf ++ 0xce ∷ zs) (sym (append-nil gap));
          items = 0;
          head = still;
          fits = omega (arith, cap);
        },
      )

pub finalize_all-none : (m : Msgpuck) (w : MpWriter) → w.opened ≡ [] → finalize_all m w ≡ ok w
unfolding finalize_all finalize_rounds
finalize_all-none m w o = ap (λ (cs : List Container). finalize_rounds (length cs) m w) o

head_at : ℕ → ℕ → Container
head_at n items = record { head_offset = n; max_cardinality = u32_mod - 1; items_count = items }

-- Nothing is open, so `start_message` has nothing to finalize.
pub start_message-Composes :
    (m : Msgpuck) (room : ℕ) (w : MpWriter)
    → IsValid w.buf
    → w.opened ≡ []
    → w.buf.target ≢ raw none
    → (room ≤ 1024) ⊎ (w.buf.used + room ≤ capacity w.buf)
    → Composes room w [] (start_message m w)
unfolding start_message head_at
start_message-Composes m room w v o t fits =
    let (w', e, v', same, used, still, kilobyte, enough) = make_room_lem room w v t fits in
    let (w'', e', c) =
      open_message_lem room w' v' (still ∙ o) (omega (arith, used)) (omega (arith, used)) in
    (
      w'',
      ap (λ (r : Result MpWriter). r >>= make_room >>= open_message) (finalize_all-none m w o)
          ∙ ap (λ (r : Result MpWriter). r >>= open_message) e
          ∙ e',
      record {
        valid = c.valid;
        gap = c.gap;
        gap_length = c.gap_length;
        bytes = c.bytes ∙ ap (λ zs. zs ++ (0xce ∷ (c.gap ++ []))) same;
        items = c.items;
        head = c.head ∙ ap (λ n. head_at n c.items ∷ []) used;
        fits = omega (arith, c.fits, used);
      },
    )

-- More bytes in the message that has been started.
pub append-Composes :
    (room : ℕ) (w : MpWriter) (r : Result MpWriter) (body bs : Bytes)
    → IsValid w.buf
    → Composes room w body r
    → 5 + length body + length bs ≤ room
    → Composes room w (body ++ bs) (r >>= append bs)
append-Composes room w r body bs v (w', e, c) h =
    let len : w'.buf.used ≡ w.buf.used + 5 + length body = omega (
      arith,
      ap length c.bytes,
      length-content w'.buf c.valid,
      length-content w.buf v,
      length-append (content w.buf) (0xce ∷ (c.gap ++ body)),
      length-append c.gap body,
      c.gap_length,
    ) in
    let (w'', e', v'', same, used, cap, still) =
      append-Wrote w' bs c.valid (omega (arith, len, c.fits)) in
    (
      w'',
      ap (λ (r' : Result MpWriter). r' >>= append bs) e ∙ e',
      record {
        valid = v'';
        gap = c.gap;
        gap_length = c.gap_length;
        bytes =
            same
            ∙ ap (λ zs. zs ++ bs) c.bytes
            ∙ append_assoc (content w.buf) (0xce ∷ (c.gap ++ body)) bs
            ∙ ap (λ zs. content w.buf ++ 0xce ∷ zs) (append_assoc c.gap body bs);
        items = c.items;
        head = still ∙ c.head;
        fits = omega (arith, c.fits, cap);
      },
    )

-- The message is finished: one frame behind what `w` held, and nothing is open.
abbrev pub Framed : Msgpuck → MpWriter → Bytes → Result MpWriter → Type 0
Framed m w body r =
    (w' : MpWriter) × (r ≡ ok w')
    × IsValid w'.buf
    × (content w'.buf ≡ content w.buf ++ frame m body)
    × (w'.opened ≡ [])

pub finalize-Framed :
    (m : Msgpuck)
    → Uint32Laws m
    → (room : ℕ) (w : MpWriter) (body : Bytes) (w' : MpWriter) → IsValid w.buf
    → Composed room w body w'
    → 5 + length body < u32_mod
    → Framed m w body (finalize m w')
unfolding finalize finish_message
finalize-Framed m laws room w body w' v c small =
    let len : w'.buf.used ≡ w.buf.used + 5 + length body = omega (
      arith,
      ap length c.bytes,
      length-content w'.buf c.valid,
      length-content w.buf v,
      length-append (content w.buf) (0xce ∷ (c.gap ++ body)),
      length-append c.gap body,
      c.gap_length,
    ) in
    let at : get_elem? w'.buf.store w.buf.used ≡ some 0xce =
      sym (get_elem?-take w'.buf.store w'.buf.used w.buf.used (omega (arith, len)))
      ∙ ap (λ zs. get_elem? zs w.buf.used) c.bytes
      ∙ get_elem?-append (content w.buf) 0xce (c.gap ++ body) w.buf.used
          (sym (length-content w.buf v)) in
    let size : (w'.buf.used + u64_mod - w.buf.used) % u64_mod ≡ 5 + length body =
      omega (arith, len) in
    let trimmed : (5 + length body + u32_mod - 5) % u32_mod ≡ length body = omega arith in
    let (done, e, vd, bytes, still, cap) =
      patch_behind (record w' { opened = [] }) (content w.buf) 0xce c.gap
        (m.store_u32 (length body)) body c.valid c.bytes
        (laws.length_u32 (length body) ∙ sym c.gap_length) in
    rw
      (
        c.head,
        at,
        size,
        ==_ne (5 + length body) 0 (omega arith),
        ltb-eq_false (u32_mod - 1) (5 + length body) (omega arith),
        trimmed,
      )
      (
        done,
        ap (λ n. patch (n + 1) (m.store_u32 (length body)) (record w' { opened = [] }))
              (sym (length-content w.buf v))
            ∙ e,
        vd,
        bytes,
        still,
      )

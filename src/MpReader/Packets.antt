-- ===== src/MpReader/Packets.antt =====
-- mp_reader.h: `iproto_message`, which takes the next packet out of a reader of several.
use cpp2tnt.Prelude.{
  ℕ, ◌+◌, ◌-◌, ◌≤◌, ◌<◌, ◌≡◌, refl, sym, ap, ap₂, ◌∙◌, some, ◌∷◌, ◌++◌, append_assoc, Bytes, length,
  length-append, take, take-append, drop, drop-append, drop-drop, get_elem?-drop, u32_mod, arith,
  lt→ltb, ltb-eq_false,
}
use cpp2tnt.Outcome.{partial_packet}
use cpp2tnt.Msgpuck.{Msgpuck}
use cpp2tnt.Msgpuck.Laws.{Uint32Laws}
use cpp2tnt.Connection.Receive.Framing.{frame, length-frame, decode-frame}
use cpp2tnt.MpReader.{Reader, reader_of, iproto_message, message_at, packet, behind, value, failed}
use cpp2tnt.MpReader.Spans.{slice}

module _ (m : Msgpuck) (laws : Uint32Laws m) where
  -- A reader at the offset `p` of a memory, in which a packet and other bytes stand there.
  pub record AtPacket (mem : Bytes) (r : Reader) (p e : ℕ) (body rest : Bytes) : Type 0 where
    pub position : r.position ≡ some p
    pub end : r.end ≡ some e
    pub ahead : drop p mem ≡ frame m body ++ rest
    pub small : length body + 5 < u32_mod

  module _ (mem : Bytes) (r : Reader) (p e : ℕ) (body rest : Bytes)
      (a : AtPacket mem r p e body rest) where
    decoded : m.decode_uint (drop p mem) ≡ (length body, body ++ rest)
    decoded = ap m.decode_uint a.ahead ∙ decode-frame m laws body rest a.small

    head_lem : behind mem p (body ++ rest) ≡ p + 5
    head_lem =
        let len = length-append (frame m body) rest in
        omega (arith, ap length a.ahead, len, length-frame m laws body, length-append body rest)

    reach : 5 ≤ e - p → iproto_message m mem r ≡ packet m mem r e p (some 0xce)
    unfolding iproto_message message_at
    reach h =
        ap₂ (λ x y. message_at m mem r x y) a.end a.position
        ∙ rw (ltb-eq_false (e - p) 5 h) (
            ap (packet m mem r e p)
              (get_elem?-drop p mem 0xce ((m.store_u32 (length body) ++ body) ++ rest) a.ahead))

    drop_head : drop (p + 5) mem ≡ body ++ rest
    drop_head =
        sym (drop-drop 5 p (p + 5) mem (omega arith))
        ∙ ap (drop 5) a.ahead
        ∙ ap (drop 5) (ap (λ zs. 0xce ∷ zs) (append_assoc (m.store_u32 (length body)) body rest))
        ∙ drop-append (0xce ∷ m.store_u32 (length body)) (body ++ rest) 5
            (omega (arith, laws.length_u32 (length body)))

    body_slice : slice mem (some (p + 5)) (some (p + 5 + length body)) ≡ some body
    body_slice =
        let size : p + 5 + length body - (p + 5) ≡ length body = omega arith in
        ap some (ap₂ take size drop_head ∙ take-append body rest (length body) refl)

    packet-whole :
        p + 5 + length body ≤ e
        → packet m mem r e p (some 0xce)
          ≡ value
              (reader_of (some (p + 5)) (some (p + 5 + length body)))
              (record r { position = some (p + 5 + length body) })
    unfolding packet
    packet-whole h =
        rw (decoded, head_lem, ltb-eq_false (e - (p + 5)) (length body) (omega arith)) refl

    packet-partial :
        p + 5 ≤ e
        → e < p + 5 + length body
        → packet m mem r e p (some 0xce)
          ≡ failed partial_packet (record r { position = some (p + 5) })
    unfolding packet
    packet-partial h' h =
        rw (decoded, head_lem, lt→ltb (e - (p + 5)) (length body) (omega arith)) refl

    -- Of a packet that ends where the reader ends or before, `iproto_message` makes a reader of its body, and
    -- moves behind it.
    pub iproto_message-whole :
        p + 5 + length body ≤ e
        → (body' : Reader) × (iproto_message m mem r
            ≡ value body' (record r { position = some (p + length (frame m body)) }))
          × (slice mem body'.begin body'.end ≡ some body)
          × (body'.position ≡ body'.begin)
    iproto_message-whole h =
        let whole : p + 5 + length body ≡ p + length (frame m body) =
          omega (arith, length-frame m laws body) in
        let body' = reader_of (some (p + 5)) (some (p + 5 + length body)) in
        (
          body',
          reach (omega arith)
              ∙ packet-whole h
              ∙ ap (λ q. value body' (record r { position = some q })) whole,
          body_slice,
          refl,
        )

    -- Of a packet whose five bytes of a header are before the end of the reader and whose body is not,
    -- it throws, and leaves the reader between the two.
    pub iproto_message-partial :
        p + 5 ≤ e
        → e < p + 5 + length body
        → iproto_message m mem r ≡ failed partial_packet (record r { position = some (p + 5) })
    iproto_message-partial h h' = reach (omega arith) ∙ packet-partial h h'

    iproto_message-short_lem :
        e < p + 5 → iproto_message m mem r ≡ value (reader_of (some p) (some p)) r
    unfolding iproto_message message_at
    iproto_message-short_lem h =
        ap₂ (λ x y. message_at m mem r x y) a.end a.position ∙ rw (lt→ltb (e - p) 5 (omega arith))

-- ===== src/MpWriter/Undo.antt =====
-- mp_writer.cpp: `get_state` and `set_state`.
use cpp2tnt.Prelude.{
  ◌≤◌, ◌≡◌, refl, sym, ap, ◌∙◌, ◌++◌, Bytes, length, take, arith, length-append, take-append,
  take-take, le→leb,
}
use cpp2tnt.Outcome.{ok}
use cpp2tnt.WtfBuffer.{capacity, content}
use cpp2tnt.WtfBuffer.Content.{IsValid, length-content}
use cpp2tnt.MpWriter.{MpWriter, get_state, set_state}

-- After any writes behind the content of `w`, `set_state` with the state that `get_state` saved of
-- `w` succeeds, and brings back the content and the open containers with their counters.
pub set_state-get_state :
    (w w' : MpWriter) (bs : Bytes)
    → IsValid w.buf
    → IsValid w'.buf
    → content w'.buf ≡ content w.buf ++ bs
    → (w'' : MpWriter) × (set_state (get_state w) w' ≡ ok w'')
      × IsValid w''.buf
      × (content w''.buf ≡ content w.buf)
      × (w''.opened ≡ w.opened)
unfolding set_state get_state
set_state-get_state w w' bs v v' e =
    let more : w.buf.used ≤ w'.buf.used = omega (
      arith,
      ap length e,
      length-append (content w.buf) bs,
      length-content w.buf v,
      length-content w'.buf v',
    ) in
    rw (le→leb w.buf.used (capacity w'.buf) (omega (arith, v'.within))) (
      record { opened = w.opened; buf = record w'.buf { used = w.buf.used } },
      refl,
      record { within = omega (arith, v'.within); managed = v'.managed },
      sym (take-take w.buf.used w'.buf.used w'.buf.store more)
          ∙ ap (take w.buf.used) e
          ∙ take-append (content w.buf) bs w.buf.used (sym (length-content w.buf v)),
      refl,
    )

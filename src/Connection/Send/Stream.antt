-- ===== src/Connection/Send/Stream.antt =====
-- The stream of bytes that goes to the server: what the kernel has taken, then what is waiting.
use cpp2tnt.Prelude.{
  ℕ, suc, ◌+◌, ◌-◌, ◌≤◌, ◌<◌, min, ◌≡◌, refl, sym, ap, ap₂, ◌∙◌, ◌⊎◌, inl, inr, true, false, ◌&&◌,
  Bool-cases, List, [], ◌∷◌, ◌++◌, Bytes, append-nil, append_assoc, length, take, drop, ltb, ◌==◌,
  arith, length-drop, take-append-drop, drop-drop, drop_all, take-take,
}
use cpp2tnt.Outcome.{Result, ok, ◌>>=◌}
use cpp2tnt.WtfBuffer.{WtfBuffer, clear, content, capacity}
use cpp2tnt.WtfBuffer.Content.{IsValid, poke_head, resize_within, used-IsValid, length-content}
use cpp2tnt.Connection.{Sender}
use cpp2tnt.Connection.Send.{
  swap_buffers, SendAnswer, taken, again, interrupted, failed, Sending, return_tail, refill,
  advance, after_send, send_loop,
}

pub record IsSending (t : Sender) : Type 0 where
  pub output_valid : IsValid t.output
  pub send_valid : IsValid t.send
  pub sent_in : t.next_to_send ≤ t.send.used
  pub uncorked_in : t.uncorked_size ≤ t.output.used

-- What is accepted for sending and not yet taken by the kernel.
abbrev pub pending : Sender → Bytes
pending t = drop t.next_to_send (content t.send) ++ content t.output

abbrev pub stream : Sender → Bytes
stream t = t.wire ++ pending t

-- Nothing is uncorked; or the send buffer has unsent bytes, so that the loop gets to the uncorked
-- ones, and its storage can hold the corked tail behind these.
abbrev pub CanUncork : Sender → Type 0
CanUncork t =
    (t.uncorked_size ≡ 0)
    ⊎ ((t.next_to_send < t.send.used) × (t.output.used ≤ t.uncorked_size + capacity t.send))

-- The loop's variable `bytes_to_send` agrees with the send buffer.
abbrev pub Counted : Sending → Type 0
Counted s = s.left + s.tx.next_to_send ≡ s.tx.send.used

-- No answer of the kernel is an error.
abbrev pub IsCalm : List SendAnswer → Type 0
IsCalm [] = Unit
IsCalm (taken k ∷ more) = IsCalm more
IsCalm (again ∷ more) = IsCalm more
IsCalm (interrupted ∷ more) = IsCalm more
IsCalm (failed ∷ more) = ⊥

-- A part of the loop succeeds, keeps the stream, and leaves at most `m` bytes to send or to uncork.
-- Under `P` it does not break off.
abbrev pub Keeps : Type 0 → ℕ → Sending → Result Sending → Type 0
Keeps P m s r =
    (s' : Sending) × (r ≡ ok s')
    × IsSending s'.tx
    × CanUncork s'.tx
    × Counted s'
    × (stream s'.tx ≡ stream s.tx)
    × (s'.left + s'.tx.uncorked_size ≤ m)
    × (P → s'.broken ≡ s.broken)

Keeps-bind :
    {P : Type 0} (m n : ℕ) (s : Sending) (r : Result Sending) (f : Sending → Result Sending)
    → Keeps Unit m s r
    → ((s' : Sending)
        → IsSending s'.tx
        → CanUncork s'.tx
        → Counted s'
        → s'.left + s'.tx.uncorked_size ≤ m
        → Keeps P n s' (f s'))
    → Keeps P n s (r >>= f)
Keeps-bind m n s r f (s', e, v, t, c, same, less, calm) next =
    let (s'', e', v', t', c', same', less', calm') = next s' v t c less in
    (s'', rw e e', v', t', c', same' ∙ same, less', λ p. calm' p ∙ calm tt)

Keeps-mono :
    {P : Type 0} (m n : ℕ) (s : Sending) (r : Result Sending)
    → m ≤ n
    → Keeps P m s r
    → Keeps P n s r
Keeps-mono m n s r h (s', e, v, t, c, same, less, calm) = (s', e, v, t, c, same, omega arith, calm)

-- The tail beyond the first `n` bytes of the send buffer moves to the output buffer.
return_tail_lem :
    (n : ℕ) (s : Sending)
    → IsValid s.tx.output
    → IsValid s.tx.send
    → n ≤ s.tx.send.used
    → s.tx.send.used - n ≤ capacity s.tx.output
    → (b : WtfBuffer) × (return_tail n s
        ≡ ok (record s {
          tx = record s.tx {
            output = record b { used = s.tx.send.used - n };
            send = record s.tx.send { used = n };
          };
        }))
      × IsValid (record b { used = s.tx.send.used - n })
      × (take (s.tx.send.used - n) b.store ≡ drop n (content s.tx.send))
unfolding return_tail
return_tail_lem n s vo vs h g =
    let tail = drop n (content s.tx.send) in
    let len : length tail ≡ s.tx.send.used - n =
      omega (arith, length-drop n (content s.tx.send), length-content s.tx.send vs) in
    let p = poke_head s.tx.output tail vo (omega (arith, len)) in
    let fits : s.tx.send.used - n ≤ capacity p.0 = omega (arith, p.4) in
    (
      p.0,
      rw (
        p.1,
        resize_within p.0 (s.tx.send.used - n) fits,
        resize_within s.tx.send n (omega (arith, vs.within)),
      ),
      used-IsValid p.0 (s.tx.send.used - n) p.2 fits,
      ap (λ k. take k p.0.store) (sym len) ∙ p.3,
    )

-- A send buffer that is done holds nothing that is pending.
pub pending_done :
    (t : Sender) → IsSending t → t.next_to_send ≡ t.send.used → pending t ≡ content t.output
pending_done t v e =
    ap (λ zs. zs ++ content t.output)
      (drop_all t.next_to_send (content t.send) (omega (arith, length-content t.send v.send_valid)))

pub swap_buffers-IsSending : (t : Sender) → IsSending t → IsSending (swap_buffers t)
unfolding clear
swap_buffers-IsSending t v = record {
  output_valid = used-IsValid t.send 0 v.send_valid (omega arith);
  send_valid = v.output_valid;
  sent_in = omega arith;
  uncorked_in = omega arith;
}

-- Swapping loses no byte, once the send buffer is done.
pub swap_buffers-stream :
    (t : Sender) → IsSending t → t.next_to_send ≡ t.send.used → stream (swap_buffers t) ≡ stream t
unfolding clear
swap_buffers-stream t v e =
    ap (λ zs. t.wire ++ zs) (append-nil (content t.output) ∙ sym (pending_done t v e))

-- The output buffer, cut at `n` into the new send buffer and the returned tail.
cut_lem :
    (b q : WtfBuffer) (n : ℕ)
    → n ≤ b.used
    → take q.used q.store ≡ drop n (content b)
    → drop 0 (take n b.store) ++ content q ≡ content b
cut_lem b q n h e = ap₂ ◌++◌ (sym (take-take n b.used b.store h)) e ∙ take-append-drop n (content b)

-- When the send buffer is done, the uncorked bytes of the output buffer become the send buffer, and
-- the corked ones stay in the output buffer.
refill-Keeps :
    (s : Sending)
    → IsSending s.tx
    → s.tx.output.used ≤ s.tx.uncorked_size + capacity s.tx.send
    → s.tx.next_to_send ≡ s.tx.send.used
    → 0 < s.tx.uncorked_size
    → Keeps Unit s.tx.uncorked_size s (refill s)
unfolding refill clear
refill-Keeps s v t e u = elim (Bool-cases (ltb n s.tx.output.used)) [
  | inl corked ↦
      let r = return_tail_lem n swapped idle v.output_valid v.uncorked_in (room corked) in
      (
        record swapped {
          tx = record swapped.tx {
            output = record r.0 { used = s.tx.output.used - n };
            send = record s.tx.output { used = n };
          };
        },
        rw corked r.1,
        record {
          output_valid = r.2;
          send_valid =
              used-IsValid s.tx.output n v.output_valid (omega (arith, v.output_valid.within));
          sent_in = omega arith;
          uncorked_in = omega arith;
        },
        inl refl,
        omega arith,
        ap (λ zs. s.tx.wire ++ zs)
            (cut_lem s.tx.output (record r.0 { used = s.tx.output.used - n }) n v.uncorked_in r.3
              ∙ sym (pending_done s.tx v e)),
        omega arith,
        λ _. refl,
      )
  | inr all ↦ (
    swapped,
    rw all,
    swap_buffers-IsSending s.tx v,
    inl refl,
    ground arith,
    swap_buffers-stream s.tx v e,
    omega arith,
    λ _. refl,
  )
]
  where
    n : ℕ
    n = s.tx.uncorked_size

    swapped : Sending
    swapped = record s { tx = swap_buffers s.tx; left = n }

    idle : IsValid (clear s.tx.send)
    idle = (swap_buffers-IsSending s.tx v).output_valid

    room : ltb n s.tx.output.used ≡ true → s.tx.output.used - n ≤ capacity s.tx.send
    room c = omega arith

pub advance-IsSending :
    (r : ℕ) (s : Sending)
    → IsSending s.tx
    → Counted s
    → r ≤ s.left
    → IsSending (advance r s).tx × Counted (advance r s) × (stream (advance r s).tx ≡ stream s.tx)
advance-IsSending r s v c h = (
  record {
    output_valid = v.output_valid;
    send_valid = v.send_valid;
    sent_in = omega arith;
    uncorked_in = v.uncorked_in;
  },
  omega arith,
  append_assoc s.tx.wire (take r rest)
        (drop (s.tx.next_to_send + r) (content s.tx.send) ++ content s.tx.output)
      ∙ ap (λ zs. s.tx.wire ++ zs)
          (ap (λ zs. take r rest ++ (zs ++ content s.tx.output))
              (sym (
                drop-drop r s.tx.next_to_send (s.tx.next_to_send + r) (content s.tx.send)
                  (omega arith)))
            ∙ sym (append_assoc (take r rest) (drop r rest) (content s.tx.output))
            ∙ ap (λ zs. zs ++ content s.tx.output) (take-append-drop r rest)),
)
  where
    rest : Bytes
    rest = drop s.tx.next_to_send (content s.tx.send)

Keeps-from :
    {P : Type 0} (m n : ℕ) (s s₀ : Sending) (r : Result Sending)
    → stream s.tx ≡ stream s₀.tx
    → m ≤ n
    → s.broken ≡ s₀.broken
    → Keeps P m s r
    → Keeps P n s₀ r
Keeps-from m n s s₀ r e h b (s', e', v, t, c, same, less, calm) =
    (s', e', v, t, c, same ∙ e, omega arith, λ p. calm p ∙ b)

advance-CanUncork :
    (r : ℕ) (s : Sending)
    → IsSending s.tx
    → CanUncork s.tx
    → Counted s
    → (s.left - r == 0 && ltb 0 s.tx.uncorked_size) ≡ false
    → CanUncork (advance r s).tx
advance-CanUncork r s v t c h = ground arith

pub after_send-Keeps :
    (r : ℕ) (s : Sending)
    → IsSending s.tx
    → CanUncork s.tx
    → Counted s
    → r ≤ s.left
    → Keeps Unit (s.left + s.tx.uncorked_size - r) s (after_send r s)
unfolding after_send
after_send-Keeps r s v t c h =
    let a = advance-IsSending r s v c h in
    elim (Bool-cases (s.left - r == 0 && ltb 0 s.tx.uncorked_size)) [
      | inl done ↦ rw done (
          Keeps-from s.tx.uncorked_size (s.left + s.tx.uncorked_size - r) (advance r s) s
            (refill (advance r s)) a.2 (omega arith) refl
            (refill-Keeps (advance r s) a.0 (ground arith) (ground arith) (ground arith)))
      | inr more ↦ rw more (
        advance r s,
        refl,
        a.0,
        advance-CanUncork r s v t c more,
        a.1,
        a.2,
        omega arith,
        λ _. refl,
      )
    ]

pub send_loop-Keeps :
    (answers : List SendAnswer) (s : Sending)
    → IsSending s.tx
    → CanUncork s.tx
    → Counted s
    → Keeps (IsCalm answers) (s.left + s.tx.uncorked_size) s (send_loop answers s)
unfolding send_loop
send_loop-Keeps [] s v t c = (s, refl, v, t, c, refl, omega arith, λ _. refl)
send_loop-Keeps (again ∷ more) s v t c = (s, refl, v, t, c, refl, omega arith, λ _. refl)
send_loop-Keeps (interrupted ∷ more) s v t c = elim (Bool-cases (s.left == 0)) [
  | inl done ↦ rw done (s, refl, v, t, c, refl, omega arith, λ _. refl)
  | inr some_left ↦ rw some_left (send_loop-Keeps more s v t c)
]
send_loop-Keeps (failed ∷ more) s v t c = elim (Bool-cases (s.left == 0)) [
  | inl done ↦ rw done (s, refl, v, t, c, refl, omega arith, λ _. refl)
  | inr some_left ↦
      rw some_left (record s { broken = true }, refl, v, t, c, refl, omega arith, λ b. absurd b)
]
send_loop-Keeps (taken k ∷ more) s v t c = elim (Bool-cases (s.left == 0)) [
  | inl done ↦ rw done (s, refl, v, t, c, refl, omega arith, λ _. refl)
  | inr some_left ↦ rw some_left (
      Keeps-bind (s.left + s.tx.uncorked_size - min (suc k) s.left) (s.left + s.tx.uncorked_size) s
        (after_send (min (suc k) s.left) s) (send_loop more)
        (after_send-Keeps (min (suc k) s.left) s v t c (omega arith))
        λ s' v' t' c' less.
          Keeps-mono (s'.left + s'.tx.uncorked_size) (s.left + s.tx.uncorked_size) s'
            (send_loop more s') (omega arith) (send_loop-Keeps more s' v' t' c'))
]

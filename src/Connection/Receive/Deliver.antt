-- ===== src/Connection/Receive/Deliver.antt =====
-- What the application gets, and what stays in the receive buffer.
use cpp2tnt.Prelude.{
  ℕ, suc, ◌+◌, ◌-◌, ◌≤◌, ◌<◌, ◌≡◌, ◌≢◌, refl, sym, ap, ◌∙◌, inl, inr, Bool, true, false, Bool-cases,
  some, List, [], ◌∷◌, ◌++◌, Bytes, length, take, drop, ◌==◌, if◌then◌else◌, arith, length-append,
  length-drop, drop-append, take-append, take-take, take_all, drop_all, ==_ne,
}
use cpp2tnt.Outcome.{Result, ok}
use cpp2tnt.WtfBuffer.{clear, content, capacity}
use cpp2tnt.WtfBuffer.Content.{
  IsValid, IsOwned, resize_owned, resize_within, resize-IsOwned, poke-IsOwned, poke_head,
  used-IsValid, length-content,
}
use cpp2tnt.Msgpuck.{Msgpuck}
use cpp2tnt.Msgpuck.Laws.{Uint32Laws}
use cpp2tnt.Connection.{Connection, Receiver, response, connected}
use cpp2tnt.Connection.Receive.{
  detect, move_partial, pass_response_to_caller, process_receive_buffer, dispatch,
}
use cpp2tnt.Connection.Receive.Framing.{
  frames, total, AllSmall, Partial, Expects, detect-frames, length-frames, length-le-total,
  frames-append,
}

pub record IsReceiving (r : Receiver) : Type 0 where
  pub input_valid : IsValid r.input
  pub receive_valid : IsValid r.receive
  pub input_owned : IsOwned r.input.target
  pub receive_owned : IsOwned r.receive.target
  pub head_in : r.last_received_head_offset ≤ r.receive.used

-- The buffers with the whole responses in the one and the partial response in the other.
abbrev Parted : Bytes → ℕ → Receiver → Receiver → Type 0
Parted bytes k r r' =
    (content r'.input ≡ take k bytes)
    × (content r'.receive ≡ drop k bytes)
    × IsValid r'.input
    × IsValid r'.receive
    × IsOwned r'.input.target
    × IsOwned r'.receive.target
    × (r'.detected_response_size ≡ r.detected_response_size)

move_partial-Parted :
    (r : Receiver)
    → IsValid r.input
    → IsValid r.receive
    → IsOwned r.input.target
    → IsOwned r.receive.target
    → r.last_received_head_offset ≤ r.input.used
    → (r' : Receiver) × (move_partial (r.input.used - r.last_received_head_offset) r ≡ ok r')
      × Parted (content r.input) r.last_received_head_offset r r'
unfolding move_partial
move_partial-Parted r vi vr oi or h =
    let k = r.last_received_head_offset in
    let n = r.input.used - k in
    let partial = drop k (content r.input) in
    let len : length partial ≡ n =
      omega (arith, length-drop k (content r.input), length-content r.input vi) in
    let (b, e, (vb, used, cap, _)) = resize_owned r.receive n vr or in
    let (b', e', vb', front, cap', used') =
      poke_head b partial vb (omega (arith, vb.within, len)) in
    let back : r.input.used - n ≡ k = omega arith in
    let fits : r.input.used - n ≤ capacity r.input = omega (arith, vi.within) in
    (
      record r { receive = b'; input = record r.input { used = r.input.used - n } },
      rw (e, e', resize_within r.input (r.input.used - n) fits),
      (
        ap (λ j. take j r.input.store) back ∙ sym (take-take k r.input.used r.input.store h),
        ap (λ j. take j b'.store) (used' ∙ used ∙ sym len) ∙ front,
        used-IsValid r.input (r.input.used - n) vi fits,
        vb',
        oi,
        poke-IsOwned b 0 partial b' (resize-IsOwned r.receive n b or e) e',
        refl,
      ),
    )

abbrev swap_input : Receiver → Receiver
swap_input r = record r { input = r.receive; receive = clear r.input }

-- The same, where the partial response may be empty and the buffers are not swapped yet.
swap_input-Parted :
    (r : Receiver)
    → IsReceiving r
    → let n = r.receive.used - r.last_received_head_offset in
      (r' : Receiver) × ((if n == 0 then ok (swap_input r) else move_partial n (swap_input r))
        ≡ ok r')
      × Parted (content r.receive) r.last_received_head_offset r r'
unfolding clear
swap_input-Parted r v =
    let n = r.receive.used - r.last_received_head_offset in
    let idle = used-IsValid r.input 0 v.input_valid (omega arith) in
    let len = length-content r.receive v.receive_valid in
    elim (Bool-cases (n == 0)) [
      | inl none_left ↦ rw none_left (
        swap_input r,
        refl,
        (
          sym (take_all r.last_received_head_offset (content r.receive) (ground (arith, len))),
          sym (drop_all r.last_received_head_offset (content r.receive) (ground (arith, len))),
          v.receive_valid,
          idle,
          v.receive_owned,
          v.input_owned,
          refl,
        ),
      )
      | inr some_left ↦ rw some_left (
          move_partial-Parted (swap_input r) v.receive_valid idle v.receive_owned v.input_owned
            v.head_in)
    ]

-- What a delivery leaves: the partial response alone in the receive buffer.
pub record Delivered (bytes : Bytes) (c c' : Connection) : Type 0 where
  pub rest : content c'.rx.receive ≡ drop c.rx.last_received_head_offset bytes
  pub offset : c'.rx.last_received_head_offset ≡ 0
  pub size_kept : c'.rx.detected_response_size ≡ c.rx.detected_response_size
  pub receiving : IsReceiving c'.rx
  pub passed : c'.events ≡ c.events ++ response (take c.rx.last_received_head_offset bytes) ∷ []
  pub busy : c'.rx.caller_idle ≡ false

-- With whole responses in the receive buffer, `pass_response_to_caller` hands all of them to the
-- response handler in one call, and keeps the bytes of the partial response behind them; the
-- caller is busy from then on. It wants a handler that returns.
pub pass_response-Delivered :
    (c : Connection) (returns : Bytes → Bool)
    → IsReceiving c.rx
    → c.rx.last_received_head_offset ≢ 0
    → c.handlers.on_response ≡ some returns
    → returns (take c.rx.last_received_head_offset (content c.rx.receive)) ≡ true
    → (c' : Connection) × (pass_response_to_caller c ≡ ok c')
      × Delivered (content c.rx.receive) c c'
unfolding pass_response_to_caller
pass_response-Delivered c returns v nonempty handler quiet =
    let k = c.rx.last_received_head_offset in
    let (r, e, (front, rest, vi, vr, oi, or, same)) = swap_input-Parted c.rx v in
    (
      record c {
        rx = record r { last_received_head_offset = 0; caller_idle = false };
        events = c.events ++ response (content r.input) ∷ [];
      },
      rw (==_ne k 0 nonempty, e, handler, ap returns front ∙ quiet),
      record {
        rest = rest;
        offset = refl;
        size_kept = same;
        receiving = record {
          input_valid = vi;
          receive_valid = vr;
          input_owned = oi;
          receive_owned = or;
          head_in = omega arith;
        };
        passed = ap (λ zs. c.events ++ response zs ∷ []) front;
        busy = refl;
      },
    )

-- What the loop notes in the state.
abbrev pub noted : Connection → ℕ → ℕ → Connection
noted c head detected = record c {
  rx = record c.rx { last_received_head_offset = head; detected_response_size = detected };
}

-- The buffer holds whole messages that are found already, then `bodies`, then the beginning of a
-- message; the header of the first message that is not found may have been read.
pub record Holds (m : Msgpuck) (r : Receiver) (pre : Bytes) (bodies : List Bytes) (tail : Bytes)
    (d : ℕ) : Type 0 where
  pub bytes : content r.receive ≡ pre ++ frames m bodies tail
  pub found : r.last_received_head_offset ≡ length pre
  pub small : AllSmall m bodies
  pub partial : Partial m tail d
  pub expects : Expects m r.detected_response_size bodies d

module _ (m : Msgpuck) (laws : Uint32Laws m) (handshake : Connection → Result Connection) where
  detect-Holds :
      (r : Receiver) (pre : Bytes) (bodies : List Bytes) (tail : Bytes) (d : ℕ)
      → IsReceiving r
      → Holds m r pre bodies tail d
      → detect (suc r.receive.used) m (content r.receive) (record {
        head = r.last_received_head_offset;
        detected = r.detected_response_size;
        incorrect = false;
      })
        ≡ some (record { head = length pre + total m bodies; detected = d; incorrect = false })
  detect-Holds r pre bodies tail d v h =
      let len : r.receive.used ≡ length pre + length (frames m bodies tail) = omega (
        arith,
        ap length h.bytes,
        length-append pre (frames m bodies tail),
        length-content r.receive v.receive_valid,
      ) in
      let fuel : length bodies < suc r.receive.used =
        omega (arith, len, length-frames m laws bodies tail, length-le-total m bodies) in
      rw (h.bytes, h.found)
        (detect-frames m laws bodies (suc r.receive.used) pre tail r.detected_response_size d fuel
          h.small h.partial h.expects)

  total_ne : (bodies : List Bytes) → bodies ≢ [] → total m bodies ≢ 0
  total_ne [] h = absurd (h refl)
  total_ne (body ∷ bodies) h = omega arith

  process-dispatch :
      (c : Connection) (pre : Bytes) (bodies : List Bytes) (tail : Bytes) (d : ℕ)
      → IsReceiving c.rx
      → Holds m c.rx pre bodies tail d
      → process_receive_buffer m handshake c
        ≡ dispatch handshake (noted c (length pre + total m bodies) d)
  unfolding process_receive_buffer
  process-dispatch c pre bodies tail d v h = rw (detect-Holds c.rx pre bodies tail d v h)

  dispatch-idle :
      (c : Connection)
      → c.rx.last_received_head_offset ≢ 0
      → c.state ≡ connected
      → c.rx.caller_idle ≡ true
      → dispatch handshake c ≡ pass_response_to_caller c
  unfolding dispatch
  dispatch-idle c h st idle = ground arith

  dispatch-busy :
      (c : Connection)
      → c.state ≡ connected
      → c.rx.caller_idle ≡ false
      → dispatch handshake c ≡ ok c
  unfolding dispatch
  dispatch-busy c st busy = ground arith

  -- On a connected connection whose caller is idle, `process_receive_buffer` hands the whole
  -- messages of the receive buffer, and nothing else, to the response handler, in one call and in
  -- order; what stays in the buffer is the beginning of a message behind them, and the size of that
  -- is known as soon as its header is there. It wants a handler that returns, and messages of less
  -- than 2 ^ 32 bytes.
  pub process-delivers :
      (c : Connection) (returns : Bytes → Bool) (bodies : List Bytes) (tail : Bytes) (d : ℕ)
      → IsReceiving c.rx
      → Holds m c.rx [] bodies tail d
      → bodies ≢ []
      → c.state ≡ connected
      → c.rx.caller_idle ≡ true
      → c.handlers.on_response ≡ some returns
      → returns (frames m bodies []) ≡ true
      → (c' : Connection) × (process_receive_buffer m handshake c ≡ ok c')
        × IsReceiving c'.rx
        × (c'.events ≡ c.events ++ response (frames m bodies []) ∷ [])
        × (content c'.rx.receive ≡ tail)
        × (c'.rx.last_received_head_offset ≡ 0)
        × (c'.rx.detected_response_size ≡ d)
        × (c'.rx.caller_idle ≡ false)
  process-delivers c returns bodies tail d v h some_body st idle handler quiet =
      let k = 0 + total m bodies in
      let c₁ = noted c k d in
      let len : c.rx.receive.used ≡ total m bodies + length tail = omega (
        arith,
        ap length h.bytes,
        length-content c.rx.receive v.receive_valid,
        length-frames m laws bodies tail,
      ) in
      let receiving : IsReceiving c₁.rx = record {
        input_valid = v.input_valid;
        receive_valid = v.receive_valid;
        input_owned = v.input_owned;
        receive_owned = v.receive_owned;
        head_in = omega (arith, len);
      } in
      let whole : k ≡ length (frames m bodies []) = omega (arith, length-frames m laws bodies []) in
      let split : content c.rx.receive ≡ frames m bodies [] ++ tail =
        h.bytes ∙ frames-append m bodies tail in
      let front : take k (content c.rx.receive) ≡ frames m bodies [] =
        ap (take k) split ∙ take-append (frames m bodies []) tail k whole in
      let back : drop k (content c.rx.receive) ≡ tail =
        ap (drop k) split ∙ drop-append (frames m bodies []) tail k whole in
      let nonempty : k ≢ 0 = omega (arith, total_ne bodies some_body) in
      let (c', e, done) =
        pass_response-Delivered c₁ returns receiving nonempty handler (ap returns front ∙ quiet) in
      (
        c',
        process-dispatch c [] bodies tail d v h ∙ dispatch-idle c₁ nonempty st idle ∙ e,
        done.receiving,
        done.passed ∙ ap (λ zs. c.events ++ response zs ∷ []) front,
        done.rest ∙ back,
        done.offset,
        done.size_kept,
        done.busy,
      )

  -- On a connected connection whose caller is busy, and whose receive buffer holds whole messages of
  -- less than 2 ^ 32 bytes and perhaps the beginning of one more, `process_receive_buffer` only notes
  -- how far the whole messages go, and the size of the one that begins, where its header is there: the
  -- buffer keeps all bytes, and nothing is handed over. It wants buffers that own their vectors.
  pub process-waits :
      (c : Connection) (pre : Bytes) (bodies : List Bytes) (tail : Bytes) (d : ℕ)
      → IsReceiving c.rx
      → Holds m c.rx pre bodies tail d
      → c.state ≡ connected
      → c.rx.caller_idle ≡ false
      → process_receive_buffer m handshake c ≡ ok (noted c (length pre + total m bodies) d)
  process-waits c pre bodies tail d v h st busy =
      process-dispatch c pre bodies tail d v h
      ∙ dispatch-busy (noted c (length pre + total m bodies) d) st busy

-- ===== src/NetCommunication/Send.antt =====
-- Statements on send_message of common/net/net_communication.c.
use Prim.Native.Nat.{min}
use they_chat.Base.{
  ℕ, zero, suc, ◌+◌, ◌-◌, ◌≤◌, ◌<◌, ◌≡◌, refl, sym, ap, subst, ◌∙◌, List, [], ◌∷◌, ◌++◌, Bool-cases,
  false, inl, inr, ltb, ltb→lt, ltb→le, le→ltb, length, take, drop, take-append-drop, take_all,
  arith,
}
use they_chat.Bytes.{Endianness}
use they_chat.Message.{Message, max_message_net_size}
use they_chat.Message.IsMessage.{IsMessage}
use they_chat.MessageSerializer.Wire.{wire, serialize_message-wire}
use they_chat.MessageSerializer.Size.{FitsBuffer, wire_fits}
use they_chat.NetPrimitives.{SendEvent, net_send}
use they_chat.NetCommunication.{Sending, done, waiting, send_loop, send_message}

-- All bytes are out, or a first part of them is, because of an error or for lack of room.
abbrev pub Sends : List ℕ → Sending → Type 0
Sends bs (done out) = out ≡ bs
Sends bs (Sending.failed c out) = (rest : List ℕ) × (out ++ rest ≡ bs)
Sends bs (waiting out) = (rest : List ℕ) × (out ++ rest ≡ bs)
Sends bs Sending.exited = ⊥
Sends bs Sending.overrun = ⊥

take-nil : (n : ℕ) → take {A = ℕ} n [] ≡ []
take-nil zero = refl
take-nil (suc n) = refl

take-add : (m n : ℕ) (xs : List ℕ) → take m xs ++ take n (drop m xs) ≡ take (m + n) xs
take-add zero n xs = ap (λ t. take t xs) (omega arith)
take-add (suc m) n [] = take-nil n ∙ sym (take-nil (suc m + n))
take-add (suc m) n (x ∷ xs) =
    ap (λ t. x ∷ t) (take-add m n xs)
    ∙ (let e : suc (m + n) ≡ suc m + n = omega arith in ap (λ k. take k (x ∷ xs)) e)

module _ (buffer : List ℕ) (total : ℕ) (out : List ℕ) (o : out ≡ take total buffer) where
  -- What is out is a first part.
  part : (rest : List ℕ) × (out ++ rest ≡ buffer)
  part = (drop total buffer, ap (λ t. t ++ drop total buffer) o ∙ take-append-drop total buffer)

  all_out : ltb total (length buffer) ≡ false → out ≡ buffer
  all_out all = o ∙ take_all total buffer (ltb→le _ _ all)

  next_part : (n : ℕ) → out ++ take n (drop total buffer) ≡ take (total + n) buffer
  next_part n = ap (λ t. t ++ take n (drop total buffer)) o ∙ take-add total n buffer

send_loop-Sends :
    (buffer : List ℕ) (total : ℕ) (out : List ℕ) (es : List SendEvent)
    → out ≡ take total buffer
    → Sends buffer (send_loop buffer total out es)
unfolding send_loop net_send
send_loop-Sends buffer total out [] o = elim (Bool-cases (ltb total (length buffer))) [
  | inl more ↦ rw more (part buffer total out o)
  | inr all ↦ rw all (all_out buffer total out o all)
]
send_loop-Sends buffer total out (SendEvent.closing ∷ es) o =
    elim (Bool-cases (ltb total (length buffer))) [
      | inl more ↦ rw more (part buffer total out o)
      | inr all ↦ rw all (all_out buffer total out o all)
    ]
send_loop-Sends buffer total out (SendEvent.send_failed ∷ es) o =
    elim (Bool-cases (ltb total (length buffer))) [
      | inl more ↦ rw more (part buffer total out o)
      | inr all ↦ rw all (all_out buffer total out o all)
    ]
send_loop-Sends buffer total out (SendEvent.room n ∷ es) o =
    elim (Bool-cases (ltb total (length buffer))) [
      | inl more ↦ rw more (
          send_loop-Sends buffer (total + min n (length buffer - total))
            (out ++ take (min n (length buffer - total)) (drop total buffer)) es
            (next_part buffer total out o _))
      | inr all ↦ rw all (all_out buffer total out o all)
    ]

-- The kernel takes at least a byte each time, for so many rounds.
abbrev pub Steady : List SendEvent → Type 0
Steady [] = Unit
Steady (SendEvent.room n ∷ es) = (0 < n) × Steady es
Steady (SendEvent.closing ∷ es) = ⊥
Steady (SendEvent.send_failed ∷ es) = ⊥

-- There are as many rounds as a message can have bytes.
abbrev pub Serves : List SendEvent → Type 0
Serves events = Steady events × (max_message_net_size ≤ length events)

send_loop-done :
    (buffer : List ℕ) (total : ℕ) (out : List ℕ) (es : List SendEvent)
    → Steady es
    → length buffer ≤ total + length es
    → (final : List ℕ) × (send_loop buffer total out es ≡ done final)
unfolding send_loop net_send
send_loop-done buffer total out [] h k = (out, rw (le→ltb total (length buffer) (omega arith)))
send_loop-done buffer total out (SendEvent.closing ∷ es) h k = absurd h
send_loop-done buffer total out (SendEvent.send_failed ∷ es) h k = absurd h
send_loop-done buffer total out (SendEvent.room n ∷ es) h k =
    elim (Bool-cases (ltb total (length buffer))) [
      | inl more ↦ rw more (
          send_loop-done buffer (total + min n (length buffer - total))
            (out ++ take (min n (length buffer - total)) (drop total buffer)) es h.1
            (omega (arith, h.0, ltb→lt _ _ more)))
      | inr all ↦ (out, rw all)
    ]

send_message-loop :
    (e : Endianness) (m : Message) (es : List SendEvent)
    → IsMessage m
    → FitsBuffer m.payload
    → send_message e m es ≡ send_loop (wire m) 0 [] es
unfolding send_message
send_message-loop e m es h f = rw (
  send_message,
  serialize_message-wire e m h,
  send_message,
  le→ltb max_message_net_size (length (wire m)) (wire_fits m h f),
)

-- Whatever errors the socket has and however it takes the bytes, `send_message` of a well-formed
-- message that fits its buffer hands over all bytes of the wire format, or a first part of them
-- where it reports an error or still waits.
pub send_message-Sends :
    (e : Endianness) (m : Message) (es : List SendEvent)
    → IsMessage m
    → FitsBuffer m.payload
    → Sends (wire m) (send_message e m es)
send_message-Sends e m es h f =
    subst (Sends (wire m)) (sym (send_message-loop e m es h f))
      (send_loop-Sends (wire m) 0 [] es refl)

-- If the socket takes a byte or more in each of as many rounds as there are bytes, `send_message`
-- of a well-formed message that fits its buffer returns without an error and all bytes are handed
-- over.
pub send_message-done :
    (e : Endianness) (m : Message) (es : List SendEvent)
    → IsMessage m
    → FitsBuffer m.payload
    → Steady es
    → length (wire m) ≤ length es
    → send_message e m es ≡ done (wire m)
send_message-done e m es h f steady long =
    let (final, p) = send_loop-done (wire m) 0 [] es steady (omega arith) in
    send_message-loop e m es h f
    ∙ p
    ∙ ap done (subst (Sends (wire m)) p (send_loop-Sends (wire m) 0 [] es refl))

pub send_message-Serves :
    (e : Endianness) (m : Message) (es : List SendEvent)
    → IsMessage m
    → FitsBuffer m.payload
    → Serves es
    → send_message e m es ≡ done (wire m)
send_message-Serves e m es h f s =
    send_message-done e m es h f s.0 (omega (arith, s.1, wire_fits m h f))

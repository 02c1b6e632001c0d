-- ===== src/NetStream/Laws.antt =====
-- Statements on common/net/net_stream.c: the stream as a queue of bytes.
use they_chat.Base.{
  ℕ, ◌+◌, ◌-◌, ◌^◌, ◌≤◌, ◌<◌, ◌≡◌, refl, sym, ap, ◌∙◌, some, List, [], ◌++◌, append_assoc, ltb,
  lt→ltb, le→ltb, false, length, take, drop, length-append, length-take, length-drop,
  take-append-drop, take-append, take-take, take-append_le, Bool-cases, ltb→le, inl, inr,
  drop-append, arith,
}
use they_chat.Bytes.{Endianness, big, store}
use they_chat.Bytes.Laws.{length-store}
use they_chat.Message.{Message, Payload, message_code, payload_type}
use they_chat.Message.IsMessage.{IsMessage}
use they_chat.MessageSerializer.Wire.{wire, header_bytes, payload_bytes}
use they_chat.MessageSerializer.Size.{length-wire}
use they_chat.MessageSerializer.RoundTrip.{deserialize_message-wire}
use they_chat.NetSerializer.Laws.{ntoh32-load-store}
use they_chat.MessageSerializer.{deserialize_message}
use they_chat.NetStream.{
  stream_size, NetworkStream, init_net_stream, access_message_length, popped, incomplete,
  reads_beyond, remove_front, deliver, net_message_size, stream_pop_message, base_message_size,
}

pub record IsStream (ns : NetworkStream) : Type 0 where
  pub whole : length ns.stream ≡ stream_size
  pub within : ns.written_bytes ≤ stream_size

-- The bytes that have arrived and wait.
unfoldable pub content : NetworkStream → List ℕ
content ns = take ns.written_bytes ns.stream

pub init_net_stream-IsStream : IsStream init_net_stream × (content init_net_stream ≡ [])
unfolding init_net_stream content
init_net_stream-IsStream = (record { whole = refl; within = omega arith }, refl)

pub length-content : (ns : NetworkStream) → IsStream ns → length (content ns) ≡ ns.written_bytes
unfolding content
length-content ns h = length-take ns.written_bytes ns.stream ∙ omega (arith, h.whole, h.within)

-- The buffer is its content with what is left of older bytes behind it.
split : (ns : NetworkStream) → content ns ++ drop ns.written_bytes ns.stream ≡ ns.stream
unfolding content
split ns = take-append-drop ns.written_bytes ns.stream

module _ (ns : NetworkStream) (h : IsStream ns) (n : ℕ) (le : n ≤ ns.written_bytes) where
  pub remove_front-IsStream : IsStream (remove_front n ns)
  unfolding remove_front
  remove_front-IsStream = record {
    whole = omega (
      arith,
      h.whole,
      h.within,
      length-append (drop n ns.stream) (drop (stream_size - n) ns.stream),
      length-drop n ns.stream,
      length-drop (stream_size - n) ns.stream,
    );
    within = omega (arith, h.within);
  }

  pub content-remove_front :
      (front rest : List ℕ)
      → length front ≡ n
      → content ns ≡ front ++ rest
      → content (remove_front n ns) ≡ rest
  unfolding remove_front content
  content-remove_front front rest l e =
      let old = drop ns.written_bytes ns.stream in
      let tail = drop (stream_size - n) ns.stream in
      let whole : ns.stream ≡ front ++ (rest ++ old) =
        sym (split ns) ∙ ap (λ c. c ++ old) e ∙ append_assoc front rest old in
      let dropped : drop n ns.stream ≡ rest ++ old =
        ap (drop n) whole ∙ drop-append n front (rest ++ old) l in
      let size : length rest ≡ ns.written_bytes - n =
        omega (arith, length-content ns h, ap length e, length-append front rest) in
      ap (λ c. take (ns.written_bytes - n) (c ++ tail)) dropped
      ∙ ap (take (ns.written_bytes - n)) (append_assoc rest old tail)
      ∙ take-append (ns.written_bytes - n) rest (old ++ tail) size

-- The length field of a header in front of the buffer.
access-header :
    (e : Endianness) (m : Message) (rest : List ℕ)
    → m.net_payload_length < 256 ^ 4
    → access_message_length e (header_bytes m ++ rest) ≡ m.net_payload_length
unfolding access_message_length header_bytes
access-header e m rest h =
    let code = store big 4 (message_code (payload_type m.payload)) in
    let size = store big 4 m.net_payload_length in
    simp append_assoc (
      rw
        (
          drop-append 4 code (size ++ rest) (length-store big 4 _),
          take-append 4 size rest (length-store big 4 _),
        )
        (ntoh32-load-store e m.net_payload_length h))

length-header_bytes : (m : Message) → length (header_bytes m) ≡ base_message_size
unfolding header_bytes
length-header_bytes m =
    let code = store big 4 (message_code (payload_type m.payload)) in
    let size = store big 4 m.net_payload_length in
    omega (
      arith,
      length-append code size,
      length-store big 4 (message_code (payload_type m.payload)),
      length-store big 4 m.net_payload_length,
    )

-- What a connection can carry: the message and its header fit the buffer.
abbrev pub FitsStream : Message → Type 0
FitsStream m = base_message_size + m.net_payload_length ≤ stream_size

wire-header :
    (m : Message) (tail : List ℕ)
    → wire m ++ tail ≡ header_bytes m ++ (payload_bytes m.payload ++ tail)
unfolding wire
wire-header m tail = append_assoc (header_bytes m) (payload_bytes m.payload) tail

reads_within :
    (p : Payload) (n : ℕ) → base_message_size + n ≤ stream_size → reads_beyond p n ≡ false
reads_within (Payload.heap_sequence bs) n h = le→ltb _ _ h
reads_within (Payload.user_logout) n h = refl
reads_within _ n h = refl

module _ (e : Endianness) (ns : NetworkStream) (h : IsStream ns) (m : Message) (rest : List ℕ)
    (valid : IsMessage m) (fits : FitsStream m) where
  message_size :
      (tail : List ℕ)
      → ns.stream ≡ header_bytes m ++ tail
      → net_message_size e ns ≡ base_message_size + m.net_payload_length
  unfolding net_message_size
  message_size tail eq =
      let n : access_message_length e ns.stream ≡ m.net_payload_length =
        ap (access_message_length e) eq ∙ access-header e m tail (omega arith) in
      omega (arith, n)

  -- A stream whose content begins with a whole well-formed message that fits the buffer gives that
  -- message up and keeps the rest.
  pub stream_pop_message-popped :
      content ns ≡ wire m ++ rest
      → (ns' : NetworkStream) × (stream_pop_message e ns ≡ popped m ns')
        × IsStream ns'
        × (content ns' ≡ rest)
  unfolding stream_pop_message deliver
  stream_pop_message-popped c =
      let old = drop ns.written_bytes ns.stream in
      let eq : ns.stream ≡ wire m ++ (rest ++ old) =
        sym (split ns) ∙ ap (λ t. t ++ old) c ∙ append_assoc (wire m) rest old in
      let size =
        message_size (payload_bytes m.payload ++ (rest ++ old))
          (eq ∙ wire-header m (rest ++ old)) in
      let n = base_message_size + m.net_payload_length in
      let enough : n ≤ ns.written_bytes = omega (
        arith,
        length-content ns h,
        ap length c,
        length-append (wire m) rest,
        length-wire m valid,
      ) in
      let read : deserialize_message e ns.stream ≡ some m =
        ap (deserialize_message e) eq ∙ deserialize_message-wire e m (rest ++ old) valid in
      (
        remove_front n ns,
        rw (
          le→ltb ns.written_bytes base_message_size (omega (arith, enough)),
          size,
          le→ltb ns.written_bytes n enough,
          read,
          reads_within m.payload m.net_payload_length fits,
        ),
        remove_front-IsStream ns h n enough,
        content-remove_front ns h n enough (wire m) rest (length-wire m valid) c,
      )

  -- While bytes of the well-formed message in front are still to come, one that fits the buffer,
  -- nothing is popped.
  pub stream_pop_message-incomplete :
      (more : List ℕ)
      → content ns ++ more ≡ wire m ++ rest
      → ns.written_bytes < base_message_size + m.net_payload_length
      → stream_pop_message e ns ≡ incomplete
  unfolding stream_pop_message content
  stream_pop_message-incomplete more c short =
      elim (Bool-cases (ltb ns.written_bytes base_message_size)) [
        | inl few ↦ rw few
        | inr header ↦
            let eight : base_message_size ≤ ns.written_bytes = ltb→le _ _ header in
            let begins : take base_message_size ns.stream ≡ header_bytes m =
              sym (take-take base_message_size ns.written_bytes ns.stream eight)
              ∙ sym (
                  take-append_le base_message_size (content ns) more
                    (omega (arith, length-content ns h)))
              ∙ ap (take base_message_size) (c ∙ wire-header m rest)
              ∙ take-append base_message_size (header_bytes m) _ (length-header_bytes m) in
            let tail = drop base_message_size ns.stream in
            let eq : ns.stream ≡ header_bytes m ++ tail =
              sym (take-append-drop base_message_size ns.stream) ∙ ap (λ t. t ++ tail) begins in
            rw (header, message_size tail eq, lt→ltb _ _ short)
      ]

-- ===== src/NetCommunication/Wait.antt =====
-- Statements on wait_for_message of common/net/net_communication.c.
use they_chat.Base.{
  ℕ, zero, suc, ◌+◌, ◌-◌, ◌≤◌, ◌<◌, ◌≡◌, ◌⊎◌, inl, inr, sym, ap, subst, ◌∙◌, List, [], ◌++◌,
  append_assoc, Bool-cases, true, ltb, ltb→lt, ltb→le, suc-ne-zero, length, take, drop,
  length-append, length-take, length-drop, take-append, append-split, arith,
}
use they_chat.Bytes.{Endianness}
use they_chat.Message.{Message, MessageType, payload_type}
use they_chat.Message.IsMessage.{IsMessage}
use they_chat.MessageSerializer.Wire.{wire}
use they_chat.MessageSerializer.Size.{length-wire}
use they_chat.NetStream.{
  stream_size, base_message_size, NetworkStream, stream_pop_message, popped, incomplete,
}
use they_chat.NetStream.Laws.{
  IsStream, content, length-content, FitsStream, stream_pop_message-popped,
  stream_pop_message-incomplete,
}
use they_chat.NetPrimitives.{NetEvent}
use they_chat.NetPrimitives.Laws.{Flows, bytes, net_receive-Flows}
use they_chat.NetCommunication.{
  fill, filled, receive, Waited, received, wait_loop, wait_for_message, same_type, check_type,
  wait_for_message_type,
}

module _ (ns : NetworkStream) (h : IsStream ns) (bs : List ℕ)
    (room : ns.written_bytes + length bs ≤ stream_size) where
  fill-IsStream : IsStream (fill ns bs)
  unfolding fill
  fill-IsStream =
      let old = drop (ns.written_bytes + length bs) ns.stream in
      record {
        whole = omega (
          arith,
          h.whole,
          length-append (take ns.written_bytes ns.stream) (bs ++ old),
          length-append bs old,
          length-take ns.written_bytes ns.stream,
          length-drop (ns.written_bytes + length bs) ns.stream,
        );
        within = room;
      }

  content-fill : content (fill ns bs) ≡ content ns ++ bs
  unfolding fill content
  content-fill =
      let old = drop (ns.written_bytes + length bs) ns.stream in
      let front = take ns.written_bytes ns.stream in
      let size : length (front ++ bs) ≡ ns.written_bytes + length bs = omega (
        arith,
        h.whole,
        h.within,
        length-append front bs,
        length-take ns.written_bytes ns.stream,
      ) in
      ap (take (ns.written_bytes + length bs)) (sym (append_assoc front bs old))
      ∙ take-append (ns.written_bytes + length bs) (front ++ bs) old size

-- One round that reads: there is room, so bytes are added, or there are none.
receive-Flows :
    (ns : NetworkStream) (es : List NetEvent)
    → IsStream ns
    → Flows es
    → ns.written_bytes < stream_size
    → (bytes es ≡ [])
      ⊎ ((ns' : NetworkStream) × (es' : List NetEvent) × (receive ns es ≡ filled ns' es')
          × IsStream ns'
          × Flows es'
          × (ns.written_bytes < ns'.written_bytes)
          × (content ns' ++ bytes es' ≡ content ns ++ bytes es))
unfolding receive fill
receive-Flows ns es h f lt =
    let k = stream_size - ns.written_bytes - 1 in
    let size : stream_size - ns.written_bytes ≡ suc k = omega arith in
    elim (net_receive-Flows k es f) [
      | inl stuck ↦ inl stuck.1
      | inr r ↦
          let room : ns.written_bytes + length r.got ≤ stream_size = omega (arith, r.room) in
          inr (
            fill ns r.got,
            r.later,
            rw (size, suc-ne-zero k, r.result),
            fill-IsStream ns h r.got room,
            r.flows,
            omega (arith, r.some_got),
            ap (λ t. t ++ bytes r.later) (content-fill ns h r.got room)
                ∙ (append_assoc (content ns) r.got (bytes r.later)
                    ∙ ap (λ t. content ns ++ t) r.order),
          )
    ]

-- What the loop comes to: the message, a sound stream, and what else was on its way still in order.
abbrev pub Delivers : Waited → Message → List ℕ → Type 0
Delivers w m rest =
    (ns : NetworkStream) × (es : List NetEvent) × (w ≡ received m ns es)
    × IsStream ns
    × Flows es
    × (content ns ++ bytes es ≡ rest)

module _ (fuel : ℕ) (e : Endianness) (ns : NetworkStream) (es : List NetEvent) where
  pub wait_loop-popped :
      {m : Message} {ns' : NetworkStream}
      → stream_pop_message e ns ≡ popped m ns'
      → wait_loop (suc fuel) e ns es ≡ received m ns' es
  unfolding wait_loop
  wait_loop-popped p = rw (p, wait_loop)

  pub wait_loop-filled :
      {ns' : NetworkStream} {es' : List NetEvent}
      → stream_pop_message e ns ≡ incomplete
      → receive ns es ≡ filled ns' es'
      → wait_loop (suc fuel) e ns es ≡ wait_loop fuel e ns' es'
  unfolding wait_loop
  wait_loop-filled p r = rw (p, wait_loop, r, wait_loop)

module _ (e : Endianness) (m : Message) (rest : List ℕ) (valid : IsMessage m)
    (fits : FitsStream m) where
  wait_loop-Delivers :
      (fuel : ℕ) (ns : NetworkStream) (es : List NetEvent)
      → IsStream ns
      → Flows es
      → content ns ++ bytes es ≡ wire m ++ rest
      → stream_size - ns.written_bytes < fuel
      → Delivers (wait_loop fuel e ns es) m rest
  wait_loop-Delivers zero ns es h f c k = absurd (omega arith)
  wait_loop-Delivers (suc fuel) ns es h f c k =
      elim (Bool-cases (ltb ns.written_bytes (base_message_size + m.net_payload_length))) [
        | inl short ↦
            let lt = ltb→lt _ _ short in
            let wait = stream_pop_message-incomplete e ns h m rest valid fits (bytes es) c lt in
            elim (receive-Flows ns es h f (omega (arith, lt))) [
              | inl dry ↦ absurd (
                  omega (
                    arith,
                    lt,
                    ap length c,
                    length-append (content ns) (bytes es),
                    ap length dry,
                    length-append (wire m) rest,
                    length-wire m valid,
                    length-content ns h,
                  ))
              | inr (ns', es', r, h', f', more, c') ↦
                  subst (λ w. Delivers w m rest) (sym (wait_loop-filled fuel e ns es wait r))
                    (wait_loop-Delivers fuel ns' es' h' f' (c' ∙ c) (omega (arith, h'.within)))
            ]
        | inr enough ↦
            let le = ltb→le _ _ enough in
            let (front, back) =
              append-split (wire m) (content ns) rest (bytes es)
                (omega (arith, length-wire m valid, length-content ns h)) c in
            let (ns', p, h', c') = stream_pop_message-popped e ns h m _ valid fits front in
            (ns', es, wait_loop-popped fuel e ns es p, h', f, ap (λ t. t ++ bytes es) c' ∙ back)
      ]

  -- Take a well-formed message that fits the stream with its header. However its bytes and those
  -- of what follows it are cut up into reads, some of them waiting in the stream already and
  -- others still to arrive, with time-outs but no errors in between, `wait_for_message` returns
  -- that message and leaves what follows it, in order.
  pub wait_for_message-Delivers :
      (ns : NetworkStream) (es : List NetEvent)
      → IsStream ns
      → Flows es
      → content ns ++ bytes es ≡ wire m ++ rest
      → Delivers (wait_for_message e ns es) m rest
  unfolding wait_for_message
  wait_for_message-Delivers ns es h f c =
      wait_loop-Delivers (suc stream_size) ns es h f c (omega arith)

  pub wait_for_message_type-Delivers :
      (type : MessageType) (ns : NetworkStream) (es : List NetEvent)
      → same_type (payload_type m.payload) type ≡ true
      → IsStream ns
      → Flows es
      → content ns ++ bytes es ≡ wire m ++ rest
      → Delivers (wait_for_message_type e ns type es) m rest
  unfolding wait_for_message_type check_type
  wait_for_message_type-Delivers type ns es t h f c =
      let (ns', es', w, h', f', c') = wait_for_message-Delivers ns es h f c in
      (ns', es', ap (check_type type) w ∙ rw t, h', f', c')

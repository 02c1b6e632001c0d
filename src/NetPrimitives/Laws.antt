-- ===== src/NetPrimitives/Laws.antt =====
-- Lemmas on net_receive while bytes keep arriving.
use they_chat.Base.{
  ℕ, suc, ◌≤◌, ◌<◌, ◌≡◌, ◌⊎◌, inl, inr, refl, sym, ap, ◌∙◌, List, [], ◌∷◌, ◌++◌, append_assoc,
  length, take, drop, length-take, take-append-drop, suc-ne-zero, arith,
}
use they_chat.NetPrimitives.{NetEvent, read, blocked, leave, net_receive}

-- Nothing fails: the socket has bytes, or select() times out.
abbrev pub Flows : List NetEvent → Type 0
Flows [] = Unit
Flows (NetEvent.timed_out ∷ es) = Flows es
Flows (NetEvent.arrived b bs ∷ es) = Flows es
Flows (NetEvent.select_failed ∷ es) = ⊥
Flows (NetEvent.closing ∷ es) = ⊥
Flows (NetEvent.recv_failed ∷ es) = ⊥
Flows (NetEvent.peer_closed ∷ es) = ⊥

-- All the bytes that still arrive, in order.
abbrev pub bytes : List NetEvent → List ℕ
bytes [] = []
bytes (NetEvent.arrived b bs ∷ es) = b ∷ (bs ++ bytes es)
bytes (NetEvent.timed_out ∷ es) = bytes es
bytes (NetEvent.select_failed ∷ es) = bytes es
bytes (NetEvent.closing ∷ es) = bytes es
bytes (NetEvent.recv_failed ∷ es) = bytes es
bytes (NetEvent.peer_closed ∷ es) = bytes es

leave_lem :
    (bs : List ℕ) (es : List NetEvent)
    → Flows es
    → Flows (leave bs es) × (bytes (leave bs es) ≡ bs ++ bytes es)
leave_lem [] es h = (h, refl)
leave_lem (b ∷ bs) es h = (h, refl)

-- Some bytes were read, no more than there was room for, and the others arrive later.
pub record Reads (size : ℕ) (es : List NetEvent) : Type 0 where
  pub got : List ℕ
  pub later : List NetEvent
  pub some_got : 0 < length got
  pub room : length got ≤ size
  pub flows : Flows later
  pub order : got ++ bytes later ≡ bytes es
  pub result : net_receive size es ≡ read got later

recv-Reads :
    (size b : ℕ) (bs : List ℕ) (es : List NetEvent)
    → Flows es
    → Reads (suc size) (NetEvent.arrived b bs ∷ es)
unfolding net_receive
recv-Reads size b bs es h =
    let (flows, left) = leave_lem (drop size bs) es h in
    record {
      got = b ∷ take size bs;
      later = leave (drop size bs) es;
      some_got = omega arith;
      room = omega (arith, length-take size bs);
      flows = flows;
      order =
          ap (λ t. b ∷ t)
            (ap (λ t. take size bs ++ t) left
              ∙ (sym (append_assoc (take size bs) (drop size bs) (bytes es))
                  ∙ ap (λ t. t ++ bytes es) (take-append-drop size bs)));
      result = rw (suc-ne-zero size);
    }

pub net_receive-Flows :
    (size : ℕ) (es : List NetEvent)
    → Flows es
    → ((net_receive (suc size) es ≡ blocked) × (bytes es ≡ [])) ⊎ Reads (suc size) es
unfolding net_receive
net_receive-Flows size [] h = inl (refl, refl)
net_receive-Flows size (NetEvent.timed_out ∷ es) h = elim (net_receive-Flows size es h) [
  | inl stuck ↦ inl stuck
  | inr r ↦ inr (record {
    got = r.got;
    later = r.later;
    some_got = r.some_got;
    room = r.room;
    flows = r.flows;
    order = r.order;
    result = r.result;
  })
]
net_receive-Flows size (NetEvent.arrived b bs ∷ es) h = inr (recv-Reads size b bs es h)
net_receive-Flows size (NetEvent.select_failed ∷ es) h = absurd h
net_receive-Flows size (NetEvent.closing ∷ es) h = absurd h
net_receive-Flows size (NetEvent.recv_failed ∷ es) h = absurd h
net_receive-Flows size (NetEvent.peer_closed ∷ es) h = absurd h

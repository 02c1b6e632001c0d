-- ===== src/ClientHandler/History.antt =====
-- Statements on the clients of the server over any history: client_handler.c, state_login.c and
-- server_run of server/server.c.
use they_chat.Base.{
  ℕ, suc, ◌+◌, ◌^◌, ◌<◌, ◌≡◌, refl, ap, subst, Bool, true, false, inl, inr, ◌⊎◌, Option, none, some,
  List, [], ◌∷◌, length, arith,
}
use they_chat.CString.{c_string}
use they_chat.Message.{Message}
use they_chat.Message.Create.{create_client_on_queue}
use they_chat.NetPrimitives.{ErrorCode}
use they_chat.ClientList.{Client, client_list_add}
use they_chat.ClientList.Laws.{client_list_add_lem}
use they_chat.Sequence.Among.{Among, Among-append, Among-All}
use they_chat.World.{Channel, World, in_chat, init_client_network, write_client}
use they_chat.World.Laws.{send-SameClients}
use they_chat.ServerStates.{Notice}
use they_chat.ClientHandler.{
  Session, blocked, ended, exited, faulted, out_of_fuel, Event, accepted, started, arrived,
  survives, tell_queued, accept_client, step, run,
}
use they_chat.ClientHandler.Names.{FreshFor}
use they_chat.ClientHandler.Sound.{IsSound, IsSound-same, IsSound-write}
use they_chat.ClientHandler.Keeps.{
  SoundSession, IsArrival, server_states_handler_fsm-SoundSession, resume-SoundSession,
}

-- A message that arrives is one that the deserializer gives, and a new client's block does not say
-- that it is in the chat.
abbrev pub IsEvent : Event → Type 0
IsEvent (accepted block status_context task_context ip busy) = in_chat block ≡ false
IsEvent (started id) = Unit
IsEvent (arrived id running a) = IsArrival a

abbrev pub AllEvents : List Event → Type 0
AllEvents [] = Unit
AllEvents (e ∷ es) = IsEvent e × AllEvents es

-- What a history leaves, if the process lives to see it.
abbrev pub SoundWorld : ℕ → Option World → Type 0
SoundWorld n none = Unit
SoundWorld n (some w) = IsSound n w

IsSound-more : (n : ℕ) (w : World) → IsSound n w → IsSound (n + 1) w
IsSound-more n w h = record { valid = h.valid; names = h.names; below = omega (arith, h.below) }

abbrev added : Client → World → World
added block w = record w { clients = (client_list_add block w.clients).0 }

IsSound-add :
    (n : ℕ) (block : Client) (w : World)
    → in_chat block ≡ false
    → n + 1 < 2 ^ 32
    → IsSound n w
    → IsSound (n + 1) (added block w)
unfolding client_list_add
IsSound-add n block w outside small h = record {
  valid = (client_list_add_lem w.clients block 0 h.valid (omega (arith, h.below, small))).0;
  names = λ c d in_c in_d.
      cases c d (Among-append c w.clients.list _ in_c) (Among-append d w.clients.list _ in_d);
  below = omega (arith, h.below, small);
}
  where
    cases :
        (c d : Client)
        → Among c w.clients.list ⊎ (c ≡ record block { id = w.clients.next_client_id })
        → Among d w.clients.list ⊎ (d ≡ record block { id = w.clients.next_client_id })
        → in_chat c ≡ true
        → in_chat d ≡ true
        → c_string c.name ≡ c_string d.name
        → c.id ≡ d.id
    cases c d (inl in_c) (inl in_d) chat_c chat_d e = h.names c d in_c in_d chat_c chat_d e
    cases c d (inr ec) at_d chat_c chat_d e = let new = ap in_chat ec in cc
    cases c d (inl in_c) (inr ed) chat_c chat_d e = let new = ap in_chat ed in cc

survivor : (n : ℕ) (s : Session) → SoundSession n s → SoundWorld (n + 1) (survives s)
survivor n (blocked w) h = IsSound-more n w h
survivor n (ended w) h = IsSound-more n w h
survivor n exited h = tt
survivor n faulted h = tt
survivor n out_of_fuel h = tt

module _ (net : ℕ → Option ErrorCode) (printed : Notice → List ℕ) (blank old : List ℕ)
    (now : ℕ) where
  IsSound-accept :
      (n : ℕ) (block : Client) (status_context task_context : ℕ) (ip : List ℕ) (busy : Bool)
      (w : World)
      → in_chat block ≡ false
      → n + 1 < 2 ^ 32
      → IsSound n w
      → IsSound
          (n + 1)
          (accept_client net printed blank old now block status_context task_context ip busy w)
  unfolding accept_client init_client_network client_list_add
  IsSound-accept n block status_context task_context ip busy w outside small h =
      let id = w.clients.next_client_id in
      let f = λ (c : Client). init_client_network c status_context task_context ip in
      queued (create_client_on_queue blank) (write_client id f (added block w))
        (IsSound-write (n + 1) id f (added block w) (λ c. refl) fresh
          (IsSound-add n block w outside small h))
        busy
    where
      fresh :
          FreshFor w.clients.next_client_id
            (λ c. init_client_network c status_context task_context ip)
            (added block w)
      fresh c d in_c in_d i chat_c chat_d e = cases (Among-append c w.clients.list _ in_c)
        where
          cases :
              Among c w.clients.list ⊎ (c ≡ record block { id = w.clients.next_client_id })
              → d.id ≡ w.clients.next_client_id
          cases (inl at) =
              let low = Among-All _ c w.clients.list h.valid.below at in
              absurd (omega (arith, low, i))
          cases (inr ec) = let new = ap in_chat ec in cc

      queued :
          (o : Option Message) (v : World)
          → IsSound (n + 1) v
          → (b : Bool)
          → IsSound (n + 1) (tell_queued net printed blank old now b o w.clients.next_client_id v)
      queued none v k true = k
      queued none v k false = k
      queued (some m) v k false = k
      queued (some m) v k true =
          IsSound-same (n + 1) v _
            (send-SameClients net v w.clients.next_client_id Channel.status m) k

  step-SoundWorld :
      (n : ℕ) (w : World) (e : Event)
      → IsEvent e
      → n + 1 < 2 ^ 32
      → IsSound n w
      → SoundWorld (n + 1) (step net printed blank old now w e)
  unfolding step
  step-SoundWorld n w (accepted block s t ip busy) ok small h =
      IsSound-accept n block s t ip busy w ok small h
  step-SoundWorld n w (started id) ok small h =
      survivor n _ (server_states_handler_fsm-SoundSession net printed blank old now n id w h)
  step-SoundWorld n w (arrived id running a) ok small h =
      survivor n _ (resume-SoundSession net printed blank old now n id running a w ok h)

  -- Take a server whose clients have unique numbers below a counter that is at most `n`, no two of
  -- them in the chat under the same name. Whatever clients connect, whatever arrives from them and
  -- in whatever order: if the process lives, the numbers stay unique and no two clients in the chat
  -- have the same name. `n` and the number of things that happen are together less than 2 ^ 32,
  -- each message that arrives is one that the deserializer gives, and the block of no new client
  -- says that it is in the chat.
  pub run-SoundWorld :
      (n : ℕ) (w : World) (es : List Event)
      → AllEvents es
      → n + length es < 2 ^ 32
      → IsSound n w
      → SoundWorld (n + length es) (run net printed blank old now w es)
  unfolding run
  run-SoundWorld n w [] ok small h = subst (λ k. IsSound k w) (omega arith) h
  run-SoundWorld n w (e ∷ es) (ok, oks) small h =
      more (step net printed blank old now w e) (step-SoundWorld n w e ok (omega arith) h) (λ w' k.
        subst (λ k. SoundWorld k (run net printed blank old now w' es)) (omega arith)
          (run-SoundWorld (n + 1) w' es oks (omega (arith, small)) k))
    where
      more :
          (o : Option World)
          → SoundWorld (n + 1) o
          → ((w' : World)
              → IsSound (n + 1) w'
              → SoundWorld (n + suc (length es)) (run net printed blank old now w' es))
          → SoundWorld
              (n + suc (length es))
              (elim o [ none ↦ none | some w' ↦ run net printed blank old now w' es ])
      more none k rest = tt
      more (some w') k rest = rest w' k

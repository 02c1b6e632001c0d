-- ===== src/ClientHandler/Stops.antt =====
-- Statements on the termination of server_states_handler_fsm of server/client_handler.c.
use they_chat.Base.{
  ℕ, suc, Bool, true, false, Bool-cases, inl, inr, Option, none, some, List, ltb, length,
}
use they_chat.Message.{Message, Payload, UserChatPayload}
use they_chat.Message.Create.{create_client_connected}
use they_chat.CString.{c_string, strcpy}
use they_chat.NetPrimitives.{ErrorCode}
use they_chat.ClientList.{AppState, Client}
use they_chat.World.{World}
use they_chat.ServerStates.{
  Arrival, After, waiting, next, failed, fault, Notice, message, failure, or_fault, if_sent,
  printed_in_128, send_created_status, handle_state_connect, try_name, login_payload,
  handle_state_login, enter_chat, with_ip, chat_payload, handle_state_chat, disconnect_found,
  handle_state_disconnect,
}
use they_chat.ClientHandler.{
  Session, blocked, ended, exited, faulted, out_of_fuel, settle, or_crash, enter, marked, at_wait,
  resume, server_states_handler_fsm,
}

-- The thread is at a wait or at its end, or the process has crashed: it neither runs out of fuel
-- nor leaves the next state unset.
abbrev pub Stops : Session → Type 0
Stops (blocked w) = Unit
Stops (ended w) = Unit
Stops faulted = Unit
Stops exited = ⊥
Stops out_of_fuel = ⊥

-- A state that a handler may set.
abbrev pub IsNext : AppState → Type 0
IsNext AppState.login = Unit
IsNext AppState.chat = Unit
IsNext AppState.disconnect = Unit
IsNext AppState.end = Unit
IsNext _ = ⊥

abbrev pub SetsNext : After → Type 0
SetsNext (waiting w) = Unit
SetsNext (next s w) = IsNext s
SetsNext (failed c w) = Unit
SetsNext fault = Unit

if_sent-SetsNext :
    (r : World × Option ErrorCode) (k : World → After)
    → ((w : World) → SetsNext (k w))
    → SetsNext (if_sent r k)
unfolding if_sent
if_sent-SetsNext (w, none) k h = h w
if_sent-SetsNext (w, some c) k h = tt

or_fault-SetsNext :
    (o : Option Client) (k : Client → After)
    → ((c : Client) → SetsNext (k c))
    → SetsNext (or_fault o k)
unfolding or_fault
or_fault-SetsNext none k h = tt
or_fault-SetsNext (some c) k h = h c

printed-SetsNext :
    (text : List ℕ) (k : List ℕ → After) → SetsNext (k text) → SetsNext (printed_in_128 text k)
unfolding printed_in_128
printed-SetsNext text k h = elim (Bool-cases (ltb (length text) 128)) [
  | inl fits ↦ rw fits h
  | inr long ↦ rw long tt
]

handle_state_chat-SetsNext :
    (id : ℕ) (running : Bool) (a : Arrival) (w : World)
    → SetsNext (handle_state_chat id running a w)
unfolding handle_state_chat
handle_state_chat-SetsNext id false a w = tt
handle_state_chat-SetsNext id true (failure c) w = tt
handle_state_chat-SetsNext id true (message m) w = payload m.payload
  where
    with_ip-SetsNext : (p : UserChatPayload) (o : Option (List ℕ)) → SetsNext (with_ip p m o w)
    with_ip-SetsNext p none = tt
    with_ip-SetsNext p (some ip) = tt

    payload : (p : Payload) → SetsNext (chat_payload id w m p)
    payload (Payload.user_chat p) =
        or_fault-SetsNext _ _ (λ c. with_ip-SetsNext p (strcpy p.ip (c_string c.ip)))
    payload (Payload.task_request t) = tt
    payload _ = tt

module _ (net : ℕ → Option ErrorCode) (printed : Notice → List ℕ) (blank old : List ℕ)
    (now : ℕ) where
  handle_state_connect-SetsNext :
      (id : ℕ) (w : World) → SetsNext (handle_state_connect net printed blank old now id w)
  unfolding handle_state_connect
  handle_state_connect-SetsNext id w =
      or_fault-SetsNext _ _ (λ c. created (create_client_connected blank))
    where
      created :
          (o : Option Message)
          → SetsNext (send_created_status net printed blank old now w id o (next AppState.login))
      created none = tt
      created (some m) = if_sent-SetsNext _ _ (λ v. tt)

  try_name-SetsNext :
      (id : ℕ) (name : List ℕ) (w : World) (o : Option Client)
      → SetsNext (try_name net printed blank old now id name w o)
  try_name-SetsNext id name w none = if_sent-SetsNext _ _ (λ v. printed-SetsNext _ _ tt)
  try_name-SetsNext id name w (some other) = printed-SetsNext _ _ (if_sent-SetsNext _ _ (λ v. tt))

  handle_state_login-SetsNext :
      (id : ℕ) (a : Arrival) (w : World)
      → SetsNext (handle_state_login net printed blank old now id a w)
  unfolding handle_state_login
  handle_state_login-SetsNext id (failure c) w = tt
  handle_state_login-SetsNext id (message m) w = payload m.payload
    where
      payload : (p : Payload) → SetsNext (login_payload net printed blank old now id w p)
      payload (Payload.user_login name) = try_name-SetsNext id name w _
      payload _ = tt

  or_crash-Stops :
      (o : Option Client) (k : Client → Session)
      → ((c : Client) → Stops (k c))
      → Stops (or_crash o k)
  unfolding or_crash
  or_crash-Stops none k h = tt
  or_crash-Stops (some c) k h = h c

  enter-disconnect-Stops :
      (fuel id : ℕ) (w : World)
      → Stops (enter net printed blank old now (suc (suc fuel)) id AppState.disconnect w)
  unfolding enter handle_state_disconnect
  enter-disconnect-Stops fuel id w = or_crash-Stops _ _ (λ c. found _)
    where
      found :
          (o : Option Client)
          → Stops (
              settle
                (enter net printed blank old now (suc fuel) id)
                (disconnect_found net printed blank old now id (marked id AppState.disconnect w) o))
      found none = tt
      found (some c) = tt

  -- After any state that a handler sets, three rounds are enough.
  settle-Stops :
      (fuel id : ℕ) (r : After)
      → SetsNext r
      → Stops (settle (enter net printed blank old now (suc (suc fuel)) id) r)
  unfolding enter enter_chat
  settle-Stops fuel id (waiting w) h = tt
  settle-Stops fuel id (failed c w) h = enter-disconnect-Stops fuel id w
  settle-Stops fuel id fault h = tt
  settle-Stops fuel id (next AppState.login w) h = or_crash-Stops _ _ (λ c. tt)
  settle-Stops fuel id (next AppState.chat w) h = or_crash-Stops _ _ (λ c. tt)
  settle-Stops fuel id (next AppState.disconnect w) h = enter-disconnect-Stops fuel id w
  settle-Stops fuel id (next AppState.end w) h = tt
  settle-Stops fuel id (next _ w) h = absurd h

  resume-Stops :
      (id : ℕ) (running : Bool) (a : Arrival) (w : World)
      → Stops (resume net printed blank old now id running a w)
  unfolding resume
  resume-Stops id running a w =
      or_crash-Stops _ _ (λ c. settle-Stops 2 id _ (at_wait-SetsNext c.current_state))
    where
      at_wait-SetsNext :
          (s : AppState) → SetsNext (at_wait net printed blank old now id running a w s)
      at_wait-SetsNext AppState.login = handle_state_login-SetsNext id a w
      at_wait-SetsNext AppState.chat = handle_state_chat-SetsNext id running a w
      at_wait-SetsNext _ = tt

  -- The loop over the states ends: whether a client's thread begins or a wait of it comes back,
  -- with whatever message or error, and whatever its calls of send_message return, the thread comes
  -- to its next wait or to its end within four states, unless the process crashes; no handler
  -- forgets to set the next state.
  pub server_states_handler_fsm-Stops :
      (id : ℕ) (running : Bool) (a : Arrival) (w : World)
      → Stops (server_states_handler_fsm net printed blank old now id w)
        × Stops (resume net printed blank old now id running a w)
  unfolding server_states_handler_fsm enter
  server_states_handler_fsm-Stops id running a w = (
    or_crash-Stops _ _ (λ c. settle-Stops 1 id _ (handle_state_connect-SetsNext id _)),
    resume-Stops id running a w,
  )

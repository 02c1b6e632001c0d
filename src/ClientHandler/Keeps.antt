-- ===== src/ClientHandler/Keeps.antt =====
-- The handlers of server/state_handlers, and the loop that runs them, keep the server's invariant.
use they_chat.Base.{
  ℕ, zero, suc, ◌≡◌, refl, Bool, true, false, Bool-cases, inl, inr, Option, none, some, List, ltb,
  length,
}
use they_chat.Message.{Message, Payload, UserChatPayload, max_username_bytes}
use they_chat.Message.Create.{
  create_client_connected, create_status_msg, create_server_notification,
}
use they_chat.Message.IsMessage.{IsPayload}
use they_chat.CString.{codes, c_string, strcpy}
use they_chat.NetPrimitives.{ErrorCode}
use they_chat.ClientList.{AppState, Client, client_list_find_by_name}
use they_chat.Server.{server_remove_client_files}
use they_chat.World.{Channel, World, state_code, write_client, send, send_broadcast}
use they_chat.World.Laws.{
  send-SameClients, send_broadcast-SameClients, send_broadcast_exclude-SameClients,
  server_client_count_update-SameClients,
}
use they_chat.ServerStates.{
  Arrival, After, waiting, next, failed, fault, Notice, name_taken, logged_in, as_format, message,
  failure, or_fault, if_sent, printed_in_128, send_created_status, handle_state_connect, set_name,
  announce, try_name, login_payload, handle_state_login, enter_chat, with_ip, chat_payload,
  handle_state_chat, say_goodbye, disconnect_found, handle_state_disconnect,
}
use they_chat.ClientHandler.{
  Session, blocked, ended, exited, faulted, out_of_fuel, settle, or_crash, begin_state, enter,
  marked, at_wait, resume, server_states_handler_fsm,
}
use they_chat.ClientHandler.Sound.{
  IsSound, Reserved, IsSound-same, Reserved-same, IsSound-set_state, IsSound-enter_chat,
  IsSound-drop_client, IsSound-set_name, Reserved-set_name,
}

abbrev pub ReservedIf : ℕ → World → AppState → Type 0
ReservedIf id w AppState.chat = Reserved id w
ReservedIf id w _ = Unit

abbrev pub SoundAfter : ℕ → ℕ → After → Type 0
SoundAfter n id (waiting w) = IsSound n w
SoundAfter n id (next s w) = IsSound n w × ReservedIf id w s
SoundAfter n id (failed c w) = IsSound n w
SoundAfter n id fault = Unit

abbrev pub SoundSession : ℕ → Session → Type 0
SoundSession n (blocked w) = IsSound n w
SoundSession n (ended w) = IsSound n w
SoundSession n exited = Unit
SoundSession n faulted = Unit
SoundSession n out_of_fuel = Unit

-- What the deserializer gives.
abbrev pub IsArrival : Arrival → Type 0
IsArrival (message m) = IsPayload m.payload
IsArrival (failure c) = Unit

module _ (n id : ℕ) where
  if_sent_lem :
      (r : World × Option ErrorCode) (k : World → After)
      → IsSound n r.0
      → SoundAfter n id (k r.0)
      → SoundAfter n id (if_sent r k)
  unfolding if_sent
  if_sent_lem (w, none) k h next_sound = next_sound
  if_sent_lem (w, some c) k h next_sound = h

  or_fault_lem :
      (o : Option Client) (k : Client → After)
      → ((c : Client) → SoundAfter n id (k c))
      → SoundAfter n id (or_fault o k)
  unfolding or_fault
  or_fault_lem none k h = tt
  or_fault_lem (some c) k h = h c

  printed_lem :
      (text : List ℕ) (k : List ℕ → After)
      → SoundAfter n id (k text)
      → SoundAfter n id (printed_in_128 text k)
  unfolding printed_in_128
  printed_lem text k h = elim (Bool-cases (ltb (length text) 128)) [
    | inl fits ↦ rw fits h
    | inr long ↦ rw long tt
  ]

  handle_state_chat-SoundAfter :
      (running : Bool) (a : Arrival) (w : World)
      → IsSound n w
      → SoundAfter n id (handle_state_chat id running a w)
  unfolding handle_state_chat
  handle_state_chat-SoundAfter false a w h = (h, tt)
  handle_state_chat-SoundAfter true (failure c) w h = h
  handle_state_chat-SoundAfter true (message m) w h = payload m.payload
    where
      with_ip-SoundAfter :
          (p : UserChatPayload) (o : Option (List ℕ)) → SoundAfter n id (with_ip p m o w)
      with_ip-SoundAfter p none = tt
      with_ip-SoundAfter p (some ip) = IsSound-same n w _ (send_broadcast-SameClients _ w) h

      payload : (p : Payload) → SoundAfter n id (chat_payload id w m p)
      payload (Payload.user_chat p) =
          or_fault_lem _ _ (λ c. with_ip-SoundAfter p (strcpy p.ip (c_string c.ip)))
      payload (Payload.task_request t) = record {
        valid = h.valid;
        names = h.names;
        below = h.below;
      }
      payload _ = h

module _ (net : ℕ → Option ErrorCode) (printed : Notice → List ℕ) (blank old : List ℕ)
    (now n id : ℕ) where
  handle_state_connect-SoundAfter :
      (w : World)
      → IsSound n w
      → SoundAfter n id (handle_state_connect net printed blank old now id w)
  unfolding handle_state_connect
  handle_state_connect-SoundAfter w h =
      or_fault_lem n id _ _ (λ c. created (create_client_connected blank))
    where
      created :
          (o : Option Message)
          → SoundAfter n id
              (send_created_status net printed blank old now w id o (next AppState.login))
      created none = tt
      created (some m) =
          let v = (send net w id Channel.status m).0 in
          let h' = IsSound-same n w v (send-SameClients net w id Channel.status m) h in
          if_sent_lem n id (send net w id Channel.status m) (next AppState.login) h' (h', tt)

  announce-SoundAfter :
      (name : List ℕ) (w : World)
      → IsSound n w
      → Reserved id w
      → SoundAfter n id (announce net printed blank old now name w)
  announce-SoundAfter name w h r =
      let m =
        create_server_notification old now
          (some (printed (as_format (printed (logged_in name))))) in
      let same = send_broadcast-SameClients m w in
      printed_lem n id _ _ (
        IsSound-same n w (send_broadcast m w) same h,
        Reserved-same id w (send_broadcast m w) same r,
      )

  try_name-SoundAfter :
      (name : List ℕ) (w : World) (o : Option Client)
      → client_list_find_by_name (some w.clients) name ≡ o
      → length name ≡ max_username_bytes
      → IsSound n w
      → SoundAfter n id (try_name net printed blank old now id name w o)
  try_name-SoundAfter name w none unused size h =
      let w1 = write_client id (set_name (c_string name)) w in
      let h1 = IsSound-set_name id name w unused size n h in
      let m = create_status_msg true (some (codes "Login success")) in
      let v = (send net w1 id Channel.status m).0 in
      let same = send-SameClients net w1 id Channel.status m in
      let h2 = IsSound-same n w1 v same h1 in
      let r2 = Reserved-same id w1 v same (Reserved-set_name id name w unused size) in
      if_sent_lem n id (send net w1 id Channel.status m)
        (announce net printed blank old now (c_string name)) h2
        (announce-SoundAfter (c_string name) v h2 r2)
  try_name-SoundAfter name w (some other) taken size h =
      let text = printed (name_taken (c_string name)) in
      let m = create_status_msg false (some (printed (as_format text))) in
      let v = (send net w id Channel.status m).0 in
      let h' = IsSound-same n w v (send-SameClients net w id Channel.status m) h in
      printed_lem n id text _ (if_sent_lem n id (send net w id Channel.status m) waiting h' h')

  handle_state_login-SoundAfter :
      (a : Arrival) (w : World)
      → IsArrival a
      → IsSound n w
      → SoundAfter n id (handle_state_login net printed blank old now id a w)
  unfolding handle_state_login
  handle_state_login-SoundAfter (failure c) w ok h = h
  handle_state_login-SoundAfter (message m) w ok h = payload m.payload ok
    where
      payload :
          (p : Payload)
          → IsPayload p
          → SoundAfter n id (login_payload net printed blank old now id w p)
      payload (Payload.user_login name) size = try_name-SoundAfter name w _ refl size h
      payload _ ok = h

  handle_state_disconnect-SoundAfter :
      (w : World)
      → IsSound n w
      → SoundAfter n id (handle_state_disconnect net printed blank old now id w)
  unfolding handle_state_disconnect
  handle_state_disconnect-SoundAfter w h = found _
    where
      found :
          (o : Option Client) → SoundAfter n id (disconnect_found net printed blank old now id w o)
      found none = (h, tt)
      found (some client) =
          let (files, count) = server_remove_client_files w.files id in
          let v = record w { files = files } in
          let w1 = say_goodbye net printed blank old now id (c_string client.name) count v in
          (
            IsSound-drop_client n id w1
                (IsSound-same n w w1 (send_broadcast_exclude-SameClients _ id v) h),
            tt,
          )

  begin_state-SoundAfter :
      (s : AppState) (w : World)
      → IsSound n w
      → ReservedIf id w s
      → SoundAfter n id (begin_state net printed blank old now id s w)
  unfolding enter_chat state_code
  begin_state-SoundAfter AppState.connect w h r =
      handle_state_connect-SoundAfter _ (IsSound-set_state n id AppState.connect w refl h)
  begin_state-SoundAfter AppState.login w h r = IsSound-set_state n id AppState.login w refl h
  begin_state-SoundAfter AppState.chat w h r =
      IsSound-same n (marked id AppState.chat w) _ (server_client_count_update-SameClients _)
        (IsSound-enter_chat n id w r h)
  begin_state-SoundAfter AppState.disconnect w h r =
      handle_state_disconnect-SoundAfter _ (IsSound-set_state n id AppState.disconnect w refl h)
  begin_state-SoundAfter _ w h r = tt

  or_crash_lem :
      (o : Option Client) (k : Client → Session)
      → ((c : Client) → SoundSession n (k c))
      → SoundSession n (or_crash o k)
  unfolding or_crash
  or_crash_lem none k h = tt
  or_crash_lem (some c) k h = h c

  settle_lem :
      (go : AppState → World → Session) (r : After)
      → ((s : AppState) (w : World) → IsSound n w → ReservedIf id w s → SoundSession n (go s w))
      → SoundAfter n id r
      → SoundSession n (settle go r)
  settle_lem go (waiting w) k h = h
  settle_lem go (next AppState.null w) k h = tt
  settle_lem go (next s w) k h = k s w h.0 h.1
  settle_lem go (failed c w) k h = k AppState.disconnect w h tt
  settle_lem go fault k h = tt

  -- The loop over the states.
  enter-SoundSession :
      (fuel : ℕ) (s : AppState) (w : World)
      → IsSound n w
      → ReservedIf id w s
      → SoundSession n (enter net printed blank old now fuel id s w)
  unfolding enter
  enter-SoundSession zero s w h r = tt
  enter-SoundSession (suc fuel) AppState.end w h r = h
  enter-SoundSession (suc fuel) s w h r = or_crash_lem _ _ (λ c.
      settle_lem (enter net printed blank old now fuel id)
        (begin_state net printed blank old now id s w) (enter-SoundSession fuel)
        (begin_state-SoundAfter s w h r))

  pub server_states_handler_fsm-SoundSession :
      (w : World)
      → IsSound n w
      → SoundSession n (server_states_handler_fsm net printed blank old now id w)
  unfolding server_states_handler_fsm
  server_states_handler_fsm-SoundSession w h = enter-SoundSession 4 AppState.connect w h tt

  pub resume-SoundSession :
      (running : Bool) (a : Arrival) (w : World)
      → IsArrival a
      → IsSound n w
      → SoundSession n (resume net printed blank old now id running a w)
  unfolding resume
  resume-SoundSession running a w ok h = or_crash_lem _ _ (λ c.
      settle_lem (enter net printed blank old now 4 id)
        (at_wait net printed blank old now id running a w c.current_state) (enter-SoundSession 4)
        (at_wait-SoundAfter c.current_state))
    where
      at_wait-SoundAfter :
          (s : AppState) → SoundAfter n id (at_wait net printed blank old now id running a w s)
      at_wait-SoundAfter AppState.login = handle_state_login-SoundAfter a w ok h
      at_wait-SoundAfter AppState.chat = handle_state_chat-SoundAfter n id running a w h
      at_wait-SoundAfter _ = h

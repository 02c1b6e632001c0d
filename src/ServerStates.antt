-- ===== src/ServerStates.antt =====
-- server/client_handler.c and server/state_handlers: the states that a client goes through. A
-- thread waits in two places, for a login and for the next message of the chat, and runs from one
-- wait to the next; `Arrival` is what wait_for_message on the client's status connection comes back
-- with.
pub mod Delivery
use they_chat.Base.{
  ℕ, ◌==◌, Bool, true, false, Option, none, some, List, [], ◌∷◌, ◌++◌, ltb, length, if◌then◌else◌,
}
use they_chat.CString.{codes, c_string, strcpy, strncpy}
use they_chat.Message.{Message, Payload, UserChatPayload, max_username_bytes}
use they_chat.Message.Create.{
  create_client_connected, create_status_msg, create_server_notification,
}
use they_chat.NetPrimitives.{ErrorCode}
use they_chat.ClientList.{
  AppState, Client, client_list_remove, client_list_find_by_id, client_list_find_by_name,
}
use they_chat.Server.{server_remove_client_files}
use they_chat.World.{
  Channel, World, write_client, send, send_broadcast, send_broadcast_exclude,
  server_client_count_update, free_network_connection,
}

pub data Arrival : Type 0 where
  message : Message → Arrival
  failure : ErrorCode → Arrival

-- Where a handler stops: at a wait, with the next state, with an error, or at a null pointer or
-- past the end of an array.
pub data After : Type 0 where
  waiting : World → After
  next : AppState → World → After
  failed : ErrorCode → World → After
  fault : After

-- The formats with their arguments; `as_format` is a text that stands in the format's place.
pub data Notice : Type 0 where
  name_taken logged_in disconnected as_format : List ℕ → Notice
  disconnected_removed : List ℕ → ℕ → Notice

unfoldable pub or_fault : Option Client → (Client → After) → After
or_fault none k = fault
or_fault (some client) k = k client

abbrev pub with_client : World → ℕ → (Client → After) → After
with_client w id k = or_fault (client_list_find_by_id (some w.clients) id) k

unfoldable pub if_sent : World × Option ErrorCode → (World → After) → After
if_sent (w, none) k = k w
if_sent (w, some c) k = failed c w

-- sprintf into an array of 128 bytes
unfoldable pub printed_in_128 : List ℕ → (List ℕ → After) → After
printed_in_128 text k = if ltb (length text) 128 then k text else fault

abbrev pub set_name : List ℕ → Client → Client
set_name name client = record client { name = strncpy name max_username_bytes }

-- handle_state_chat up to its first wait
unfoldable pub enter_chat : World → After
enter_chat w = waiting (server_client_count_update w)

abbrev pub with_ip : UserChatPayload → Message → Option (List ℕ) → World → After
with_ip p m none w = fault
with_ip p m (some ip) w =
    waiting (send_broadcast (record m { payload = Payload.user_chat (record p { ip = ip }) }) w)

abbrev pub chat_payload : ℕ → World → Message → Payload → After
chat_payload id w m (Payload.user_chat p) =
    with_client w id (λ client. with_ip p m (strcpy p.ip (c_string client.ip)) w)
chat_payload id w m (Payload.task_request t) =
    waiting (record w { submitted = w.submitted ++ (id, t) ∷ [] })
chat_payload id w m _ = waiting w

-- One round of the loop of handle_state_chat. An error that says that the connection is closed
-- leaves the loop, with the next state set and the error returned.
unfoldable pub handle_state_chat : ℕ → Bool → Arrival → World → After
handle_state_chat id false a w = next AppState.disconnect w
handle_state_chat id true (message m) w = chat_payload id w m m.payload
handle_state_chat id true (failure c) w = failed c w

abbrev pub farewell : List ℕ → ℕ → Notice
farewell name count = if count == 0 then disconnected name else disconnected_removed name count

abbrev pub hang_up : Client → Client
hang_up client = record client {
  status_connection = free_network_connection client.status_connection;
  task_connection = free_network_connection client.task_connection;
}

abbrev pub drop_client : ℕ → World → World
drop_client id w =
    let w' = write_client id hang_up w in
    server_client_count_update (record w' { clients = (client_list_remove w'.clients id).0 })

-- `net` says what the n-th call of send_message returns, `printed` what a format prints; `blank`
-- and `old` are arrays on the stack, `now` is the time.
module _ (net : ℕ → Option ErrorCode) (printed : Notice → List ℕ) (blank old : List ℕ)
    (now : ℕ) where
  abbrev pub send_created_status : World → ℕ → Option Message → (World → After) → After
  send_created_status w id none k = fault
  send_created_status w id (some m) k = if_sent (send net w id Channel.status m) k

  unfoldable pub handle_state_connect : ℕ → World → After
  handle_state_connect id w =
      with_client w id
        (λ client. send_created_status w id (create_client_connected blank) (next AppState.login))

  -- The name is on the client's record before the status is sent. The notification's text is passed
  -- on as a format.
  abbrev pub announce : List ℕ → World → After
  announce name w = printed_in_128 (printed (logged_in name)) (λ text.
      next AppState.chat
        (send_broadcast (create_server_notification old now (some (printed (as_format text)))) w))

  abbrev pub accept_name : ℕ → List ℕ → World → After
  accept_name id name w =
      let w' = write_client id (set_name name) w in
      if_sent
        (send net w' id Channel.status (create_status_msg true (some (codes "Login success"))))
        (announce name)

  -- Here too the text is passed on as a format.
  abbrev pub refuse_name : ℕ → List ℕ → World → After
  refuse_name id name w = printed_in_128 (printed (name_taken name)) (λ text.
      if_sent
        (send net w id Channel.status (create_status_msg false (some (printed (as_format text)))))
        waiting)

  abbrev pub try_name : ℕ → List ℕ → World → Option Client → After
  try_name id username w none = accept_name id (c_string username) w
  try_name id username w (some other) = refuse_name id (c_string username) w

  abbrev pub login_payload : ℕ → World → Payload → After
  login_payload id w (Payload.user_login username) =
      try_name id username w (client_list_find_by_name (some w.clients) username)
  login_payload id w _ = failed ErrorCode.net_received_invalid_type w

  -- One round of the loop of handle_state_login, at its wait for a message of type USER_LOGIN.
  unfoldable pub handle_state_login : ℕ → Arrival → World → After
  handle_state_login id (message m) w = login_payload id w m.payload
  handle_state_login id (failure c) w = failed c w

  abbrev pub say_goodbye : ℕ → List ℕ → ℕ → World → World
  say_goodbye id name count w =
      send_broadcast_exclude
        (create_server_notification old now (some (printed (farewell name count)))) id w

  abbrev pub disconnect_client : ℕ → Client → World → World
  disconnect_client id client w =
      let (files, count) = server_remove_client_files w.files id in
      drop_client id (say_goodbye id (c_string client.name) count (record w { files = files }))

  -- A client that is gone already is no error.
  abbrev pub disconnect_found : ℕ → World → Option Client → After
  disconnect_found id w none = next AppState.end w
  disconnect_found id w (some client) = next AppState.end (disconnect_client id client w)

  unfoldable pub handle_state_disconnect : ℕ → World → After
  handle_state_disconnect id w = disconnect_found id w (client_list_find_by_id (some w.clients) id)

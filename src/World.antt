-- ===== src/World.antt =====
-- What the threads of the server share (include/server/server.h), and the functions that post
-- messages to its clients: server/broadcast_message.c, server_client_count_update of
-- server/server.c, common/net/net_connection.c and init_client_network of server/client.c. A call
-- of send_message is an entry of `log`; `net` says what the n-th call returns. Client pointers are
-- numbers of clients.
pub mod Laws
use they_chat.Base.{
  ℕ, ◌+◌, ◌-◌, ◌%◌, ◌^◌, ◌==◌, Bool, true, false, not, ◌&&◌, Option, none, some, List, [], ◌∷◌,
  ◌++◌, map, length, replicate, if◌then◌else◌,
}
use they_chat.CString.{codes}
use they_chat.Message.{Message, TaggedTask, max_username_bytes}
use they_chat.Message.Create.{create_connected_clients_msg}
use they_chat.NetStream.{init_net_stream}
use they_chat.NetPrimitives.{ErrorCode}
use they_chat.ClientList.{
  AppState, NetworkConnection, Client, ClientList, client_list_add, client_list_length,
}
use they_chat.Server.{Files}

pub data Channel : Type 0 where
  status task : Channel

pub record Posted : Type 0 where
  pub client : ℕ
  pub channel : Channel
  pub message : Message

-- `submitted` are the jobs of the task pool that have not begun.
pub record World : Type 0 where
  pub clients : ClientList
  pub files : Files
  pub log : List Posted
  pub submitted : List (ℕ × TaggedTask)

unfoldable pub state_code : AppState → ℕ
state_code AppState.null = 0
state_code AppState.error = 1
state_code AppState.offline = 2
state_code AppState.connect = 3
state_code AppState.onqueue = 4
state_code AppState.login = 5
state_code AppState.chat = 6
state_code AppState.disconnect = 7
state_code AppState.quit = 8
state_code AppState.end = 9

abbrev pub in_chat : Client → Bool
in_chat c = state_code c.current_state == 6

-- An assignment through a pointer to the client.
abbrev pub change_at : ℕ → (Client → Client) → Client → Client
change_at id f c = if c.id == id then f c else c

unfoldable pub write_client : ℕ → (Client → Client) → World → World
write_client id f w = record w {
  clients = record (w.clients) { list = map (change_at id f) w.clients.list };
}

unfoldable pub send :
    (ℕ → Option ErrorCode) → World → ℕ → Channel → Message → World × Option ErrorCode
send net w client channel message = (
  record w { log = w.log ++ record { client = client; channel = channel; message = message } ∷ [] },
  net (length w.log),
)

-- The loop of a broadcast, over the clients that pass; the results of its calls are dropped.
unfoldable pub posts : (Client → Bool) → Message → List Client → List Posted
posts p m [] = []
posts p m (c ∷ cs) =
    let rest = posts p m cs in
    if p c then record { client = c.id; channel = status; message = m } ∷ rest else rest

-- The list's iterator is rewound and used up.
unfoldable pub broadcast_where : (Client → Bool) → Message → World → World
broadcast_where p m w = record w {
  clients = record (w.clients) { it = [] };
  log = w.log ++ posts p m w.clients.list;
}

unfoldable pub send_broadcast : Message → World → World
send_broadcast m w = broadcast_where in_chat m w

abbrev pub other_in_chat : ℕ → Client → Bool
other_in_chat exclude_client c = not (c.id == exclude_client) && in_chat c

unfoldable pub send_broadcast_exclude : Message → ℕ → World → World
send_broadcast_exclude m exclude_client w = broadcast_where (other_in_chat exclude_client) m w

-- The count is a uint32_t.
unfoldable pub server_client_count_update : World → World
server_client_count_update w =
    send_broadcast (create_connected_clients_msg (client_list_length (some w.clients) % 2 ^ 32)) w

unfoldable pub init_network_connection : NetworkConnection
init_network_connection = record { context = none; stream = init_net_stream }

-- net_close frees the context.
unfoldable pub free_network_connection : NetworkConnection → NetworkConnection
free_network_connection connection = record connection { context = none }

-- `ip` is the array that net_get_ip leaves. The name's memcpy takes the size of a pointer, 8 bytes.
unfoldable pub init_client_network : Client → ℕ → ℕ → List ℕ → Client
init_client_network client status_context task_context ip = record client {
  ip = ip;
  name = codes "unnamed" ++ replicate (max_username_bytes - 7) 0;
  status_connection = record (init_network_connection) { context = some status_context };
  task_connection = record (init_network_connection) { context = some task_context };
}

-- ===== src/Tests/Sessions.antt =====
-- Clients of the server over a short history.
use they_chat.Base.{
  ℕ, ◌++◌, ◌<◌, length, ◌≡◌, refl, true, false, Option, none, some, List, [], ◌∷◌, replicate, arith,
}
use they_chat.CString.{c_string}
use they_chat.Message.{Message, Payload, UserChatPayload}
use they_chat.NetStream.{init_net_stream}
use they_chat.NetPrimitives.{ErrorCode}
use they_chat.Sequence.{find}
use they_chat.ClientList.{AppState, Client, client_list_find_by_id}
use they_chat.SharedFileList.{shared_file_list_create}
use they_chat.World.{World, Posted, in_chat, state_code}
use they_chat.World.Laws.{lookup}
use they_chat.ServerStates.{Arrival, message, failure, Notice, waiting, handle_state_chat}
use they_chat.ServerStates.Delivery.{copies, if_passes, AllCarry, handle_state_chat-Delivers}
use they_chat.ClientHandler.{
  Event, accepted, started, arrived, server_states_handler_fsm, resume, run,
}
use they_chat.ClientHandler.Stops.{Stops, server_states_handler_fsm-Stops}
use they_chat.ClientHandler.Ends.{Leaves, resume-Leaves}
use they_chat.ClientHandler.Sound.{IsSound}
use they_chat.ClientHandler.History.{SoundWorld, run-SoundWorld}

abbrev client : AppState → Client
client state = record {
  id = 3;
  ip = replicate 17 0;
  name = 65 ∷ replicate 31 0;
  status_connection = record { context = none; stream = init_net_stream };
  task_connection = record { context = none; stream = init_net_stream };
  current_state = state;
}

abbrev world : List Client → ℕ → World
world clients next_client_id = record {
  clients = record { list = clients; next_client_id = next_client_id; it = [] };
  files = record {
    shared = shared_file_list_create;
    disk = record { exists = λ path. false; locked = λ path. false; holds = λ path. [] };
  };
  log = [];
  submitted = [];
}

abbrev sends : ℕ → Option ErrorCode
sends n = none

abbrev prints : Notice → List ℕ
prints notice = 65 ∷ []

abbrev stack : List ℕ
stack = replicate 512 9

-- The name is "bob".
abbrev login : Arrival
login = message (record {
  net_payload_length = 32;
  payload = Payload.user_login (98 ∷ 111 ∷ 98 ∷ replicate 29 0);
})

-- A client connects, its thread starts, it logs in, and a second one tries the same name.
abbrev history : List Event
history =
    accepted (client AppState.connect) 1 2 [] false
    ∷ started 0
    ∷ arrived 0 true login
    ∷ accepted (client AppState.connect) 3 4 [] true
    ∷ started 1
    ∷ arrived 1 true login
    ∷ []

outside : in_chat (client AppState.connect) ≡ false
unfolding state_code
outside = refl

empty-IsSound : IsSound 0 (world [] 0)
empty-IsSound = record {
  valid = record { distinct = tt; below = tt };
  names = λ c d in_c in_d chat_c chat_d e. absurd in_c;
  below = omega arith;
}

run-SoundWorld_example : SoundWorld 6 (run sends prints stack stack 0 (world [] 0) history)
run-SoundWorld_example =
    run-SoundWorld sends prints stack stack 0 0 (world [] 0) history
      (outside, (tt, (refl, (outside, (tt, (refl, tt)))))) (omega arith) empty-IsSound

server_states_handler_fsm-Stops_example :
    Stops (
      server_states_handler_fsm sends prints stack stack 0 3 (world (client AppState.login ∷ []) 4))
    × Stops (resume sends prints stack stack 0 3 true login (world (client AppState.login ∷ []) 4))
server_states_handler_fsm-Stops_example =
    server_states_handler_fsm-Stops sends prints stack stack 0 3 true login
      (world (client AppState.login ∷ []) 4)

here : lookup (world (client AppState.chat ∷ []) 4) 3 ≡ some (client AppState.chat)
unfolding client_list_find_by_id find
here = refl

resume-Leaves_example :
    Leaves sends prints stack stack 0 3 (world (client AppState.chat ∷ []) 4) 5 (
      resume sends prints stack stack 0 3 true
        (failure ErrorCode.net_peer_disconnected)
        (world (client AppState.chat ∷ []) 4))
resume-Leaves_example =
    resume-Leaves sends prints stack stack 0 3 true ErrorCode.net_peer_disconnected
      (world (client AppState.chat ∷ []) 4) (client AppState.chat) 5 here
      (record { distinct = ground arith; below = ground arith }) tt

abbrev chat : UserChatPayload
chat = record {
  username = replicate 32 0;
  text = 104 ∷ 105 ∷ replicate 510 0;
  ip = replicate 16 7;
  time = 5;
}

abbrev chat_message : Message
chat_message = record { net_payload_length = 568; payload = Payload.user_chat chat }

short_address : length (c_string (client AppState.chat).ip) < 16
unfolding c_string
short_address = omega arith

handle_state_chat-Delivers_example :
    (w' : World) × (news : List Posted) × (ip : List ℕ) × (handle_state_chat 3 true
        (message chat_message)
        (world (client AppState.chat ∷ []) 4)
      ≡ waiting w')
    × (w'.log ≡ [] ++ news)
    × (copies 3 news ≡ if_passes in_chat (lookup (world (client AppState.chat ∷ []) 4) 3))
    × AllCarry (record chat_message { payload = Payload.user_chat (record chat { ip = ip }) }) news
    × (c_string ip ≡ c_string (client AppState.chat).ip)
handle_state_chat-Delivers_example =
    handle_state_chat-Delivers 3 chat_message chat (world (client AppState.chat ∷ []) 4)
      (client AppState.chat) 3 refl here refl short_address
      (record { distinct = ground arith; below = ground arith })

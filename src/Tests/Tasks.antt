-- ===== src/Tests/Tasks.antt =====
-- Requests of two clients that are connected.
use they_chat.Base.{
  ℕ, ◌^◌, ◌<◌, ◌≡◌, ◌⊎◌, refl, ap, true, false, none, some, List, [], ◌∷◌, ◌++◌, map, All,
  replicate, if◌then◌else◌, arith,
}
use they_chat.Bytes.{little, big, store, digits}
use they_chat.CString.{c_string, str_eq}
use they_chat.Message.{TaggedTask, TaskUsersData, TaskFileDownloadData, message_code, payload_type}
use they_chat.Message.Create.{create_seq_start_msg, create_seq_end_msg, create_heap_seq_msg}
use they_chat.MessageSerializer.Wire.{wire, header_bytes, payload_bytes}
use they_chat.NetStream.{init_net_stream}
use they_chat.NetStream.Laws.{content, init_net_stream-IsStream}
use they_chat.NetPrimitives.{ErrorCode, NetEvent}
use they_chat.NetPrimitives.Laws.{bytes}
use they_chat.NetCommunication.{done}
use they_chat.ClientList.{AppState, Client}
use they_chat.Sequence.{count, find}
use they_chat.SharedFileList.{
  SharedFile, shared_file_list_find_by_id, shared_file_list_find_by_name,
  shared_file_list_count_name,
}
use they_chat.Server.{Files}
use they_chat.StringListTransferring.{send_string_list, receive_string_list}
use they_chat.StringListTransferring.Laws.{list_wire, strings_wire}
use they_chat.StringListTransferring.Receive.{Completes}
use they_chat.ServerTasks.Listing.{sent, fault, user_text, server_task_users, server_task_files}
use they_chat.ServerTasks.Lists.{
  Fits, IsClient, IsFile, all_true, uploader_connected, file_line, rewound, server_task_users-done,
  receive_string_list-server_task_users, server_task_files_lem,
}
use they_chat.ServerTasks.Download.{confirmed, find_by_unique_name, find_download}
use they_chat.ServerTasks.Downloads.{UniqueUnder, find_download-confirmed}
use they_chat.World.{World}
use they_chat.TaskHandler.{Machine, task_request_handler}
use they_chat.TaskHandler.Spares.{SparesRun, task_request_handler-SparesRun}
use they_chat.Tests.Transfers.{steady, steady-Serves}

abbrev client : ℕ → ℕ → Client
client id letter = record {
  id = id;
  ip = 49 ∷ replicate 16 0;
  name = letter ∷ replicate 31 0;
  status_connection = record { context = none; stream = init_net_stream };
  task_connection = record { context = none; stream = init_net_stream };
  current_state = AppState.chat;
}

abbrev file : ℕ → ℕ → ℕ → SharedFile
file id letter client_id = record {
  id = id;
  filepath = 47 ∷ letter ∷ replicate 510 0;
  filename = letter ∷ replicate 255 0;
  size = 4;
  shared_time = 0;
  client_id = client_id;
}

-- The client with the number 9 is gone.
abbrev files : Files
files = record {
  shared = record { list = file 0 65 3 ∷ file 1 66 9 ∷ []; next_file_id = 2 };
  disk = record { exists = λ path. true; locked = λ path. false; holds = λ path. [] };
}

abbrev world : World
world = record {
  clients = record { list = client 3 65 ∷ []; next_client_id = 10; it = [] };
  files = files;
  log = [];
  submitted = [];
}

abbrev machine : Machine
machine = record {
  decimal = λ n. 48 ∷ [];
  atoi = λ text. 1;
  remove_printed = λ text. [];
  upload_printed = λ notice. [];
  download_printed = λ text. [];
  send_status = λ m. some ErrorCode.net_failure;
  endianness = big;
  status_events = steady;
  header_events = steady;
  events = λ k. steady;
  end_events = steady;
  fuel = 2;
  opens = λ path. true;
  contents = λ path. none;
  stream = init_net_stream;
  arrivals = [];
  block = file 0 0 0;
  old = [];
  header_old = replicate 64 0;
  stack = λ k. replicate 512 0;
  now = 0;
  meanwhile = λ w. w;
}

-- Client 3 asks for the removal of all its files.
abbrev removal : TaggedTask
removal = TaggedTask.remove (record { file_id = 0; remove_all = true })

task_request_handler-SparesRun_example :
    SparesRun 3 world (task_request_handler machine 3 removal world)
task_request_handler-SparesRun_example =
    task_request_handler-SparesRun machine 3 (λ v. refl) removal world (ground arith) (omega arith)

abbrev zero_text : ℕ → List ℕ
zero_text n = 48 ∷ []

zero_text-Fits : (n : ℕ) → n < 2 ^ 64 → Fits 20 (zero_text n)
zero_text-Fits n h = (ground arith, omega arith)

clients_valid : All IsClient world.clients.list
clients_valid = ((refl, refl, omega arith), tt)

abbrev show_id : TaskUsersData
show_id = record { show_ip = false; show_id = true }

server_task_users-done_example :
    server_task_users zero_text big (λ k. steady) show_id world
    ≡ sent
        (rewound zero_text zero_text-Fits world)
        (done (list_wire (map (user_text zero_text show_id) world.clients.list)))
server_task_users-done_example =
    server_task_users-done zero_text zero_text-Fits big (λ k. steady) show_id world clients_valid
      (λ k. steady-Serves)

ran :
    server_task_users zero_text big (λ k. steady) show_id world
    ≡ sent
        (rewound zero_text zero_text-Fits world)
        (done (list_wire (map (user_text zero_text show_id) world.clients.list)))
ran =
    server_task_users-done zero_text zero_text-Fits big (λ k. steady) show_id world clients_valid
      (λ k. steady-Serves)

-- The start, "A         0" and the end, and a byte that follows.
abbrev pieces : List NetEvent
pieces =
    NetEvent.arrived 0 (0 ∷ 0 ∷ 12 ∷ 0 ∷ 0 ∷ 0 ∷ 0 ∷ 0 ∷ 0 ∷ [])
    ∷ NetEvent.arrived 0 (14 ∷ 0 ∷ 0 ∷ 0 ∷ 12 ∷ 65 ∷ (replicate 9 32 ++ 48 ∷ []))
    ∷ NetEvent.timed_out
    ∷ NetEvent.arrived 0 (0 ∷ 0 ∷ 0 ∷ 13 ∷ 0 ∷ 0 ∷ 0 ∷ 0 ∷ 7 ∷ [])
    ∷ []

pieces-wire :
    content init_net_stream ++ bytes pieces
    ≡ list_wire (map (user_text zero_text show_id) world.clients.list) ++ 7 ∷ []
unfolding list_wire strings_wire wire header_bytes payload_bytes payload_type message_code store
    digits create_seq_start_msg create_seq_end_msg create_heap_seq_msg c_string
pieces-wire = ap (λ b. b ++ bytes pieces) init_net_stream-IsStream.1

receive_string_list-server_task_users_example :
    Completes
      (receive_string_list 2 little [] init_net_stream pieces)
      (map (user_text zero_text show_id) world.clients.list)
      (7 ∷ [])
receive_string_list-server_task_users_example =
    receive_string_list-server_task_users zero_text zero_text-Fits big little (λ k. steady) show_id
      world (rewound zero_text zero_text-Fits world) []
      (list_wire (map (user_text zero_text show_id) world.clients.list)) (7 ∷ []) init_net_stream
      pieces clients_valid ran init_net_stream-IsStream.0 tt pieces-wire

files_valid : All IsFile world.files.shared.list
files_valid = ((refl, omega arith, omega arith), ((refl, omega arith, omega arith), tt))

server_task_files_lem_example : server_task_files zero_text big (λ k. steady) world ≡ (
    if all_true (uploader_connected world.clients) world.files.shared.list
    then sent world (
        send_string_list big
          (map (file_line zero_text zero_text-Fits world.clients) world.files.shared.list)
          (λ k. steady))
    else fault)
server_task_files_lem_example =
    server_task_files_lem zero_text zero_text-Fits big (λ k. steady) world clients_valid files_valid

-- The only file with the name "B".
abbrev wanted : TaskFileDownloadData
wanted = record { filename = 66 ∷ replicate 255 0; by_id = false }

abbrev to_one : List ℕ → ℕ
to_one text = 1

found : find_download to_one files wanted ≡ confirmed (file 1 66 9)
unfolding find_download find_by_unique_name shared_file_list_count_name
    shared_file_list_find_by_name count find str_eq c_string
found = refl

find_download-confirmed_example :
    (files.disk.exists (c_string (file 1 66 9).filepath) ≡ true)
    × (((wanted.by_id ≡ true)
          × (shared_file_list_find_by_id files.shared (to_one (c_string wanted.filename))
              ≡ some (file 1 66 9)))
        ⊎ ((wanted.by_id ≡ false) × UniqueUnder wanted.filename files (file 1 66 9)))
find_download-confirmed_example = find_download-confirmed to_one files wanted (file 1 66 9) found

-- ===== src/Tests/Lists.antt =====
-- The lists of clients and of files.
use they_chat.Base.{
  Option, ℕ, ◌+◌, ◌≡◌, List, [], ◌∷◌, true, false, ◌==◌, if◌then◌else◌, none, some, length, arith,
}
use they_chat.CString.{c_string, str_eq}
use they_chat.NetStream.{init_net_stream}
use they_chat.NetPrimitives.{ErrorCode}
use they_chat.Sequence.Laws.{is_some}
use they_chat.ClientList.{
  AppState, Client, ClientList, client_list_add, client_list_remove, client_list_find_by_id,
}
use they_chat.ClientList.Laws.{IsClientList, client_list_add_lem, client_list_remove_lem}
use they_chat.SharedFileList.{
  SharedFile, SharedFileList, shared_file_list_add, shared_file_list_remove,
  shared_file_list_find_by_id,
}
use they_chat.SharedFileList.Laws.{
  IsFileList, shared_file_list_add_lem, shared_file_list_remove_lem,
}
use they_chat.Server.{Files, server_remove_client_files}
use they_chat.Message.{Message, TaskRemoveFileData}
use they_chat.ServerTasks.{Text, server_task_remove_file}
use they_chat.ServerTasks.Remove.{IsAnswer, server_task_remove_file-IsAnswer}
use they_chat.Server.RemoveFiles.{others, server_remove_client_files_lem}

abbrev client : ℕ → Client
client id = record {
  id = id;
  ip = 0 ∷ [];
  name = 65 ∷ 0 ∷ [];
  status_connection = record { context = none; stream = init_net_stream };
  task_connection = record { context = none; stream = init_net_stream };
  current_state = AppState.connect;
}

abbrev clients : ClientList
clients = record { list = client 3 ∷ client 5 ∷ []; next_client_id = 6; it = [] }

clients_valid : IsClientList clients
clients_valid = record { distinct = ground arith; below = ground arith }

client_list_add_lem_example :
    let (cl', added) = client_list_add (client 0) clients in
    IsClientList cl'
    × (client_list_find_by_id (some clients) added.id ≡ none)
    × (client_list_find_by_id (some cl') 5
        ≡ (if added.id == 5 then some added else client_list_find_by_id (some clients) 5))
client_list_add_lem_example = client_list_add_lem clients (client 0) 5 clients_valid (omega arith)

client_list_remove_lem_example :
    let (cl', removed) = client_list_remove clients 3 in
    IsClientList cl'
    × (removed ≡ is_some (client_list_find_by_id (some clients) 3))
    × (client_list_find_by_id (some cl') 5
        ≡ (if 3 == 5 then none else client_list_find_by_id (some clients) 5))
client_list_remove_lem_example = client_list_remove_lem clients 3 5 clients_valid

abbrev shared_file : ℕ → ℕ → ℕ → SharedFile
shared_file id letter client_id = record {
  id = id;
  filepath = 47 ∷ letter ∷ 0 ∷ [];
  filename = letter ∷ 0 ∷ [];
  size = 4;
  shared_time = 0;
  client_id = client_id;
}

abbrev files : SharedFileList
files = record {
  list = shared_file 0 65 3 ∷ shared_file 1 66 5 ∷ shared_file 4 66 3 ∷ [];
  next_file_id = 5;
}

files_valid : IsFileList files
files_valid = record { distinct = ground arith; below = ground arith }

shared_file_list_add_lem_example :
    let (fl', added) = shared_file_list_add (shared_file 0 67 3) files in
    IsFileList fl'
    × (shared_file_list_find_by_id files added.id ≡ none)
    × (shared_file_list_find_by_id fl' 5
        ≡ (if added.id == 5 then some added else shared_file_list_find_by_id files 5))
shared_file_list_add_lem_example =
    shared_file_list_add_lem files (shared_file 0 67 3) 5 files_valid (omega arith)

shared_file_list_remove_lem_example :
    let (fl', removed) = shared_file_list_remove files 1 in
    IsFileList fl'
    × (removed ≡ is_some (shared_file_list_find_by_id files 1))
    × (shared_file_list_find_by_id fl' 4
        ≡ (if 1 == 4 then none else shared_file_list_find_by_id files 4))
shared_file_list_remove_lem_example = shared_file_list_remove_lem files 1 4 files_valid

-- The disk refuses to remove the second file of client 3.
abbrev server_files : Files
server_files = record {
  shared = files;
  disk = record {
    exists = λ path. true;
    locked = λ path. str_eq path (47 ∷ 66 ∷ []);
    holds = λ path. [];
  };
}

server_remove_client_files_lem_example :
    (others 3 (server_remove_client_files server_files 3).0.shared.list ≡ others 3 files.list)
    × ((server_remove_client_files server_files 3).1
          + length (server_remove_client_files server_files 3).0.shared.list
        ≡ length files.list)
server_remove_client_files_lem_example =
    server_remove_client_files_lem server_files 3 files_valid.distinct (omega arith)

-- Client 3 asks for the removal of its file with the number 0.
abbrev own_request : TaskRemoveFileData
own_request = record { file_id = 0; remove_all = false }

-- The status cannot be sent.
abbrev status_fails : Message → Option ErrorCode
status_fails m = some ErrorCode.net_failure

abbrev one_letter : Text → List ℕ
one_letter t = 65 ∷ []

server_task_remove_file-IsAnswer_example :
    IsAnswer server_files
      (server_task_remove_file one_letter 0 [] status_fails server_files (client 3) own_request)
unfolding c_string
server_task_remove_file-IsAnswer_example =
    server_task_remove_file-IsAnswer one_letter 0 [] status_fails server_files (client 3)
      own_request files_valid.distinct (omega arith) (ground arith)

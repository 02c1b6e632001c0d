-- ===== src/Tests/Uploads.antt =====
-- A client uploads a file of one byte.
use they_chat.Base.{ℕ, false, none, List, [], ◌∷◌, replicate}
use they_chat.Message.{TaskFileUploadData}
use they_chat.NetStream.{init_net_stream}
use they_chat.ClientList.{AppState, Client}
use they_chat.SharedFileList.{SharedFile}
use they_chat.ServerTasks.Upload.{UploadNotice}
use they_chat.World.{World}
use they_chat.Tests.Transfers.{path}

-- The name "0" of the first number.
abbrev number : List ℕ
number = 48 ∷ []

abbrev client : Client
client = record {
  id = 3;
  ip = replicate 17 0;
  name = 65 ∷ replicate 31 0;
  status_connection = record { context = none; stream = init_net_stream };
  task_connection = record { context = none; stream = init_net_stream };
  current_state = AppState.chat;
}

abbrev world : World
world = record {
  clients = record { list = client ∷ []; next_client_id = 4; it = [] };
  files = record {
    shared = record { list = []; next_file_id = 0 };
    disk = record { exists = λ p. false; locked = λ p. false; holds = λ path. [] };
  };
  log = [];
  submitted = [];
}

abbrev block : SharedFile
block = record { id = 9; filepath = []; filename = []; size = 9; shared_time = 9; client_id = 9 }

abbrev request : TaskFileUploadData
request = record { filename = 98 ∷ replicate 255 0; user_filepath = replicate 512 0 }

abbrev prints : UploadNotice → List ℕ
prints notice = 65 ∷ []

abbrev decimal : ℕ → List ℕ
decimal n = number

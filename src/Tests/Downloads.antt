-- ===== src/Tests/Downloads.antt =====
-- A file of one byte is asked for by its name and downloaded.
use they_chat.Base.{
  ◌<◌, length, ℕ, ◌≡◌, refl, ap, Bool, true, false, Option, none, some, List, [], ◌∷◌, ◌++◌,
  replicate, arith,
}
use they_chat.Bytes.{little, big, store, digits}
use they_chat.CString.{codes, c_string, str_eq, strcpy, memcpy}
use they_chat.CString.Laws.{IsString}
use they_chat.Message.{
  header_name_bytes, max_filepath_size, TaskFileDownloadData, message_code, payload_type,
}
use they_chat.Message.Create.{
  create_status_msg, create_file_header_message, create_file_content_message,
  create_file_end_message,
}
use they_chat.MessageSerializer.Wire.{wire, header_bytes, payload_bytes}
use they_chat.NetStream.{init_net_stream}
use they_chat.NetStream.Laws.{content, init_net_stream-IsStream}
use they_chat.NetPrimitives.{NetEvent}
use they_chat.NetPrimitives.Laws.{bytes}
use they_chat.NetCommunication.{done}
use they_chat.Sequence.{count, find}
use they_chat.SharedFileList.{
  SharedFile, shared_file_list_find_by_name, shared_file_list_count_name,
}
use they_chat.Server.{Files}
use they_chat.FileTransfer.{OpenFile, filepath_concat, received_path}
use they_chat.FileTransfer.Messages.{contents_wire, file_wire}
use they_chat.FileTransfer.Send.{send_file-done}
use they_chat.FileTransfer.Receive.{joined}
use they_chat.ServerTasks.Download.{
  DownloadText, confirmed, find_by_unique_name, find_download, server_task_download_file,
}
use they_chat.ClientTasks
use they_chat.ClientTasks.{TaskEnd, ran, downloaded, downloads_folder_path}
use they_chat.ClientTasks.Downloads.{
  status_message, file_bytes, answers, server_task_download_file_lem,
}
use they_chat.Tests.Transfers.{steady, steady-Serves, arrays, header_array, file, pieces}

-- The file "b" at the path "a".
abbrev shared : SharedFile
shared = record {
  id = 0;
  filepath = 97 ∷ replicate 511 0;
  filename = 98 ∷ replicate 255 0;
  size = 1;
  shared_time = 0;
  client_id = 3;
}

abbrev files : Files
files = record {
  shared = record { list = shared ∷ []; next_file_id = 1 };
  disk = record { exists = λ path. true; locked = λ path. false; holds = λ path. [] };
}

abbrev wanted : TaskFileDownloadData
wanted = record { filename = 98 ∷ replicate 255 0; by_id = false }

abbrev to_one : List ℕ → ℕ
to_one text = 1

abbrev prints : DownloadText → List ℕ
prints text = []

abbrev contents : List ℕ → Option OpenFile
contents path = some file

found : find_download to_one files wanted ≡ confirmed shared
unfolding find_download find_by_unique_name shared_file_list_count_name
    shared_file_list_find_by_name count find str_eq c_string
found = refl

bare : IsString (c_string shared.filename)
unfolding c_string
bare = ground arith

short : length (c_string shared.filename) < header_name_bytes
unfolding c_string
short = omega arith

abbrev opens : List ℕ → Bool
opens path = true

short_path :
    length (received_path (some (downloads_folder_path 0 little opens)) (c_string shared.filename))
    < max_filepath_size
unfolding c_string filepath_concat
short_path = omega arith

abbrev bytes_sent : List ℕ
bytes_sent =
    wire (
      status_message big little prints contents header_array arrays steady steady (λ k. steady)
        steady opens shared file)
    ++ file_bytes big little prints contents header_array arrays steady steady (λ k. steady) steady
        opens shared file

ran_out :
    server_task_download_file prints contents big header_array arrays steady steady
      (λ k. steady)
      steady
      to_one
      files
      wanted
    ≡ done bytes_sent
ran_out =
    answers big little prints contents header_array arrays steady steady (λ k. steady) steady opens
      shared file to_one files wanted found refl steady-Serves
      (send_file-done big arrays (λ k. steady) (λ k. refl) (λ k. steady-Serves) header_array steady
        steady (c_string shared.filepath) file (some (c_string shared.filename)) refl bare short
        steady-Serves steady-Serves ((omega arith, omega arith), tt))

-- The status, then the file.
abbrev all_pieces : List NetEvent
all_pieces = NetEvent.arrived 0 (0 ∷ 0 ∷ 8 ∷ 0 ∷ 0 ∷ 2 ∷ 1 ∷ 1 ∷ replicate 512 0) ∷ pieces

all_pieces-wire : content init_net_stream ++ bytes all_pieces ≡ bytes_sent ++ 7 ∷ []
unfolding file_wire contents_wire wire header_bytes payload_bytes payload_type message_code store
    digits create_status_msg create_file_header_message create_file_content_message
    create_file_end_message strcpy memcpy c_string
all_pieces-wire = ap (λ b. b ++ bytes all_pieces) init_net_stream-IsStream.1

server_task_download_file_lem_example :
    (size : ℕ) × (ClientTasks.server_task_download_file 2 little opens init_net_stream all_pieces
      ≡ ran (downloaded size (c_string shared.filename) ∷ []) none (
          (filepath_concat (codes "resources/downloads") (c_string shared.filename), 65 ∷ []) ∷ []))
unfolding joined
server_task_download_file_lem_example =
    server_task_download_file_lem big little prints contents header_array arrays steady steady
      (λ k. steady) steady opens shared file to_one files wanted bytes_sent (7 ∷ []) init_net_stream
      all_pieces found refl (λ k. refl) (λ k. steady-Serves) refl bare short steady-Serves
      steady-Serves steady-Serves ((omega arith, omega arith), tt) refl (omega arith) short_path
      refl ran_out (init_net_stream-IsStream.0, tt, all_pieces-wire)

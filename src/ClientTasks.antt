-- ===== src/ClientTasks.antt =====
-- The client's side of the tasks: client/server_task/server_task_handler.c and
-- client/server_task/tasks. A task's text for the user is the format with its arguments.
pub mod Downloads
use they_chat.Base.{
  ℕ, ◌==◌, Bool, true, false, ◌&&◌, ◌||◌, not, Option, none, some, List, [], ◌∷◌, length,
  if◌then◌else◌,
}
use they_chat.Bytes.{Endianness}
use they_chat.CString.{codes, c_string}
use they_chat.Message.{
  Message, MessageType, Payload, TaggedTask, TaskFileUploadData, TaskFileDownloadData,
}
use they_chat.NetStream.{NetworkStream}
use they_chat.NetPrimitives.{ErrorCode, NetEvent, SendEvent}
use they_chat.NetCommunication.{Sending, done, Waited, received, wait_for_message_type}
use they_chat.StringListTransferring.{ReceivedList, complete, receive_string_list}
use they_chat.FileTransfer.{OpenFile, send_file, ReceivedFile, finished, receive_file}
use they_chat.ServerTasks.Upload.{header_size}

-- What is shown in the chat window.
pub data Entry : Type 0 where
  server_text : List ℕ → Entry
  list : List ℕ → List (List ℕ) → Entry
  downloaded : ℕ → List ℕ → Entry
  uploaded not_uploaded not_found not_readable : List ℕ → Entry
  unable_to_download not_executing unimplemented no_files : Entry

-- `ran` is a task that has returned, with what it shows, its result and the files that it wrote,
-- each with its path and its bytes.
pub data TaskEnd : Type 0 where
  ran : List Entry → Option ErrorCode → List (List ℕ × List ℕ) → TaskEnd
  blocked exited out_of_bounds out_of_fuel : TaskEnd

abbrev pub of_list : (List (List ℕ) → List Entry) → ReceivedList → TaskEnd
of_list entries (complete strs ns es) = ran (entries strs) none []
of_list entries (ReceivedList.failed c strs) = ran [] (some c) []
of_list entries ReceivedList.blocked = blocked
of_list entries ReceivedList.exited = exited
of_list entries ReceivedList.out_of_bounds = out_of_bounds
of_list entries ReceivedList.out_of_fuel = out_of_fuel

abbrev pub of_waited : (Message → NetworkStream → List NetEvent → TaskEnd) → Waited → TaskEnd
of_waited k (received m ns es) = k m ns es
of_waited k (Waited.failed c ns es) = ran [] (some c) []
of_waited k Waited.blocked = blocked
of_waited k Waited.exited = exited
of_waited k Waited.out_of_bounds = out_of_bounds
of_waited k Waited.out_of_fuel = out_of_fuel

-- `fuel` bounds the messages of a list or a file, `opens` says which files can be written.
module _ (fuel : ℕ) (e : Endianness) (opens : List ℕ → Bool) where
  unfoldable pub server_task_users : NetworkStream → List NetEvent → TaskEnd
  server_task_users ns es =
      of_list (λ strs. list (codes "Connected users:") strs ∷ [])
        (receive_string_list fuel e [] ns es)

  unfoldable pub server_task_files : NetworkStream → List NetEvent → TaskEnd
  server_task_files ns es =
      of_list (λ strs. (if length strs == 0 then no_files else list (codes "Files:") strs) ∷ [])
        (receive_string_list fuel e [] ns es)

  abbrev pub status_text : Payload → List ℕ
  status_text (Payload.status p) = c_string p.text
  status_text _ = []

  unfoldable pub server_task_remove_file : NetworkStream → List NetEvent → TaskEnd
  server_task_remove_file ns es =
      of_waited (λ m ns' es'. ran (server_text (status_text m.payload) ∷ []) none [])
        (wait_for_message_type e ns MessageType.status es)

  abbrev pub downloads_folder_path : List ℕ
  downloads_folder_path = codes "resources/downloads"

  abbrev pub of_received : ℕ → ReceivedFile → TaskEnd
  of_received size (finished none name path got ns es) =
      ran (downloaded size name ∷ []) none ((path, got) ∷ [])
  of_received size (finished (some c) name path got ns es) =
      ran (unable_to_download ∷ []) (some c) ((path, got) ∷ [])
  of_received size (ReceivedFile.failed c) = ran (unable_to_download ∷ []) (some c) []
  of_received size ReceivedFile.blocked = blocked
  of_received size ReceivedFile.exited = exited
  of_received size ReceivedFile.out_of_bounds = out_of_bounds
  of_received size ReceivedFile.out_of_fuel = out_of_fuel

  -- A status that is false is shown, and no file follows.
  abbrev pub after_status : Payload → NetworkStream → List NetEvent → TaskEnd
  after_status (Payload.status p) ns es =
      if p.status
      then of_received (header_size (wait_for_message_type e ns MessageType.file_header es))
          (receive_file fuel e opens (some downloads_folder_path) [] ns es)
      else ran (server_text (c_string p.text) ∷ []) none []
  after_status _ ns es = exited

  unfoldable pub server_task_download_file : NetworkStream → List NetEvent → TaskEnd
  server_task_download_file ns es =
      of_waited (λ m. after_status m.payload) (wait_for_message_type e ns MessageType.status es)

abbrev pub of_sent : List ℕ → Sending → TaskEnd
of_sent filepath (done out) = ran (uploaded filepath ∷ []) none []
of_sent filepath (Sending.failed c out) = ran (not_uploaded filepath ∷ []) (some c) []
of_sent filepath (Sending.waiting out) = blocked
of_sent filepath Sending.exited = exited
of_sent filepath Sending.overrun = out_of_bounds

-- `sending` is the call of send_file on the path.
unfoldable pub server_task_upload_file :
    (exists can_read : List ℕ → Bool) → (List ℕ → Sending) → TaskFileUploadData → TaskEnd
server_task_upload_file exists can_read sending upload_data =
    let filepath = c_string upload_data.user_filepath in
    if exists filepath
    then (if can_read filepath
        then of_sent filepath (sending filepath)
        else ran (not_readable filepath ∷ []) none [])
    else ran (not_found filepath ∷ []) none []

-- One round of the thread: it ends, sets the state for disconnecting, skips a message, or runs a
-- task.
pub data Round : Type 0 where
  leaves : Round
  disconnects : Round
  skips : List Entry → Round
  task : TaskEnd → Round
  stuck : Round

abbrev pub executing : ℕ
executing = 2

module _ (fuel : ℕ) (e : Endianness) (opens exists can_read : List ℕ → Bool)
    (sending : List ℕ → Sending) where
  -- The switch over the task's type.
  unfoldable pub run_task : TaggedTask → NetworkStream → List NetEvent → TaskEnd
  run_task (TaggedTask.users d) ns es = server_task_users fuel e opens ns es
  run_task TaggedTask.files ns es = server_task_files fuel e opens ns es
  run_task (TaggedTask.file_upload d) ns es = server_task_upload_file exists can_read sending d
  run_task (TaggedTask.file_download d) ns es = server_task_download_file fuel e opens ns es
  run_task (TaggedTask.remove d) ns es = server_task_remove_file fuel e opens ns es
  run_task TaggedTask.null ns es = ran (unimplemented ∷ []) none []

  abbrev pub take_status : Payload → NetworkStream → List NetEvent → Round
  take_status (Payload.task_status n t) ns es =
      if n == executing then task (run_task t ns es) else skips (not_executing ∷ [])
  take_status _ ns es = stuck

  -- `here` says that the thread still runs and the client is in the chat.
  unfoldable pub handler_round : Bool → Waited → Round
  handler_round here (received m ns es) = if here then take_status m.payload ns es else leaves
  handler_round here (Waited.failed c ns es) = if here then disconnects else leaves
  handler_round here Waited.blocked = stuck
  handler_round here Waited.exited = stuck
  handler_round here Waited.out_of_bounds = stuck
  handler_round here Waited.out_of_fuel = stuck

  unfoldable pub thread_handler : Bool → NetworkStream → List NetEvent → Round
  thread_handler here ns es =
      handler_round here (wait_for_message_type e ns MessageType.task_status es)

-- ===== src/Command.antt =====
-- client/command/command.c and client/command/commands: what the client does with a command line.
-- `atoi` is the C library's, as the type that it is assigned to; `exists` and `can_read` are what
-- access() says of a path. A request is a message for the status connection, up to the call of
-- send_message.
pub mod Requests
use they_chat.Base.{
  ℕ, zero, suc, ◌==◌, Bool, true, false, ◌||◌, ◌&&◌, Option, none, some, List, [], ◌∷◌, ◌++◌,
  if◌then◌else◌, take, replicate,
}
use they_chat.CString.{codes, str_eq, strcpy}
use they_chat.Message.{
  Message, Payload, TaskType, TaggedTask, max_filename_size, max_filepath_size, max_ip_bytes,
}
use they_chat.Message.Create.{create_task_request_msg}
use they_chat.ClientList.{AppState}
use they_chat.Sequence.{find}
use they_chat.FileTransfer.{filepath_get_filename}

pub data CommandType : Type 0 where
  help connect disconnect quit users upload download files remove : CommandType

unfoldable pub command_code : CommandType → ℕ
command_code CommandType.help = 1
command_code CommandType.connect = 2
command_code CommandType.disconnect = 3
command_code CommandType.quit = 4
command_code CommandType.users = 5
command_code CommandType.upload = 6
command_code CommandType.download = 7
command_code CommandType.files = 8
command_code CommandType.remove = 9

-- The lookup table.
abbrev pub s_commands : List (List ℕ × CommandType)
s_commands =
    (codes "/help", CommandType.help)
    ∷ (codes "/h", CommandType.help)
    ∷ (codes "/connect", CommandType.connect)
    ∷ (codes "/c", CommandType.connect)
    ∷ (codes "/disconnect", CommandType.disconnect)
    ∷ (codes "/d", CommandType.disconnect)
    ∷ (codes "/quit", CommandType.quit)
    ∷ (codes "/q", CommandType.quit)
    ∷ (codes "/users", CommandType.users)
    ∷ (codes "/files", CommandType.files)
    ∷ (codes "/upload", CommandType.upload)
    ∷ (codes "/download", CommandType.download)
    ∷ (codes "/remove", CommandType.remove)
    ∷ []

unfoldable pub get_command_by_name : List ℕ → Option (List ℕ × CommandType)
get_command_by_name command_name = find (λ command. str_eq command.0 command_name) s_commands

abbrev pub ended_word : List ℕ → List (List ℕ)
ended_word [] = []
ended_word (b ∷ word) = (b ∷ word) ∷ []

-- strtok() over the blanks; `word` is the token so far.
unfoldable pub tokens : List ℕ → List ℕ → List (List ℕ)
tokens word [] = ended_word word
tokens word (b ∷ input) =
    let rest = tokens (if b == 32 then [] else word ++ b ∷ []) input in
    if b == 32 then ended_word word ++ rest else rest

-- At most ten tokens are kept.
unfoldable pub parse_arguments : List ℕ → List (List ℕ)
parse_arguments input = take 10 (tokens [] input)

pub record ConnectionDetails : Type 0 where
  pub server_ip : List ℕ
  pub status_port : ℕ
  pub task_port : ℕ

-- What a handler does besides texts for the user; `overrun` is a copy past the end of an array.
pub data Handled : Type 0 where
  shown : Handled
  next_state : AppState → Handled
  connecting : ConnectionDetails → Handled
  request : Message → Handled
  overrun : Handled

abbrev pub request_task : TaggedTask → Option Message → Handled
request_task task none = overrun
request_task task (some m) = request (record m { payload = Payload.task_request task })

abbrev pub default_status_port : ℕ
default_status_port = 8000

abbrev pub default_task_port : ℕ
default_task_port = 8026

abbrev pub copied_ip : Option (List ℕ) → ℕ → ℕ → Handled
copied_ip none status_port task_port = overrun
copied_ip (some ip) status_port task_port =
    connecting (record { server_ip = ip; status_port = status_port; task_port = task_port })

unfoldable pub disconnect_handler : List (List ℕ) → Handled
disconnect_handler argv = next_state AppState.disconnect

unfoldable pub quit_handler : List (List ℕ) → Handled
quit_handler argv = next_state AppState.quit

unfoldable pub files_handler : List (List ℕ) → Handled
files_handler argv = request_task TaggedTask.files (create_task_request_msg TaskType.files)

-- Whether an argument is among the tokens, the command's own name included.
unfoldable pub has_argument : List ℕ → List (List ℕ) → Bool
has_argument word [] = false
has_argument word (arg ∷ argv) = str_eq arg word || has_argument word argv

unfoldable pub users_handler : List (List ℕ) → Handled
users_handler argv =
    request_task
      (TaggedTask.users (record {
        show_ip = has_argument (codes "ip") argv;
        show_id = has_argument (codes "id") argv;
      }))
      (create_task_request_msg TaskType.users)

abbrev pub request_download : Bool → Option (List ℕ) → Handled
request_download by_id none = overrun
request_download by_id (some filename) =
    request_task (TaggedTask.file_download (record { filename = filename; by_id = by_id }))
      (create_task_request_msg TaskType.client_download_file)

abbrev pub copied_filename : List ℕ → Option (List ℕ)
copied_filename filename = strcpy (replicate max_filename_size 0) filename

unfoldable pub download_handler : List (List ℕ) → Handled
download_handler (command ∷ (filename ∷ [])) = request_download false (copied_filename filename)
download_handler (command ∷ (arg ∷ (filename ∷ []))) =
    if str_eq arg (codes "id") then request_download true (copied_filename filename) else shown
download_handler _ = shown

abbrev pub request_upload : Option (List ℕ) → Option (List ℕ) → Handled
request_upload (some filename) (some filepath) =
    request_task (TaggedTask.file_upload (record { filename = filename; user_filepath = filepath }))
      (create_task_request_msg TaskType.client_upload_file)
request_upload _ _ = overrun

module _ (exists can_read : List ℕ → Bool) where
  unfoldable pub upload_handler : List (List ℕ) → Handled
  upload_handler (command ∷ (filepath ∷ [])) =
      if exists filepath && can_read filepath
      then request_upload (copied_filename (filepath_get_filename filepath))
          (strcpy (replicate max_filepath_size 0) filepath)
      else shown
  upload_handler _ = shown

module _ (atoi : List ℕ → ℕ) where
  -- `old` is what the array of the address held.
  unfoldable pub connect_handler : List ℕ → List (List ℕ) → Handled
  connect_handler old (command ∷ (ip ∷ [])) =
      copied_ip (strcpy old ip) default_status_port default_task_port
  connect_handler old (command ∷ (ip ∷ (status_port ∷ []))) =
      copied_ip (strcpy old ip) (atoi status_port) default_task_port
  connect_handler old (command ∷ (ip ∷ (status_port ∷ (task_port ∷ argv)))) =
      copied_ip (strcpy old ip) (atoi status_port) (atoi task_port)
  connect_handler old _ =
      copied_ip (strcpy old (codes "127.0.0.1")) default_status_port default_task_port

  unfoldable pub remove_handler : List (List ℕ) → Handled
  remove_handler (command ∷ (arg ∷ argv)) =
      let all = str_eq arg (codes "all") in
      request_task
        (TaggedTask.remove (record { file_id = (if all then 0 else atoi arg); remove_all = all }))
        (create_task_request_msg TaskType.remove_file)
  remove_handler _ = shown

-- `listed` are the commands for /help; `no_command` is a line without a token, for which argv[0]
-- was never set.
pub data Dispatched : Type 0 where
  handled : Handled → Dispatched
  listed : List CommandType → Dispatched
  unrecognized not_in_context no_command : Dispatched

abbrev pub accepts : CommandType → List CommandType → Bool
accepts type [] = false
accepts type (t ∷ types) = (command_code t == command_code type) || accepts type types

module _ (atoi : List ℕ → ℕ) (exists can_read : List ℕ → Bool) (old_ip : List ℕ) where
  -- The handlers of the lookup table; the one for /help is not reached.
  unfoldable pub handler_of : CommandType → List (List ℕ) → Handled
  handler_of CommandType.help argv = shown
  handler_of CommandType.connect argv = connect_handler atoi old_ip argv
  handler_of CommandType.disconnect argv = disconnect_handler argv
  handler_of CommandType.quit argv = quit_handler argv
  handler_of CommandType.users argv = users_handler argv
  handler_of CommandType.upload argv = upload_handler exists can_read argv
  handler_of CommandType.download argv = download_handler argv
  handler_of CommandType.files argv = files_handler argv
  handler_of CommandType.remove argv = remove_handler atoi argv

  abbrev pub execute : List CommandType → List (List ℕ) → CommandType → Dispatched
  execute types argv CommandType.help = listed types
  execute types argv type =
      if accepts type types then handled (handler_of type argv) else not_in_context

  -- `types` are the commands of the context.
  unfoldable pub dispatch_command : List ℕ → List CommandType → Dispatched
  dispatch_command input types = elim (parse_arguments input) [
    | [] ↦ no_command
    | name ∷ argv ↦ elim (get_command_by_name name) [
      | none ↦ unrecognized
      | some command ↦ execute types (name ∷ argv) command.1
    ]
  ]

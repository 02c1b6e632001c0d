-- ===== src/Message.antt =====
-- common/messages/message_types.h, message.h, task_types.h and constants.h. The tag and the union
-- of a message are one data type: each constructor of `Payload` is a tag with the union's member
-- that goes with it. A `char` array is the list of its bytes, NUL terminator and all.
pub mod Create
pub mod IsMessage
use they_chat.Base.{
  ℕ, zero, suc, ◌+◌, ◌<◌, ◌≡◌, Bool, true, false, Option, none, some, List, [], ◌∷◌, get_elem?,
  length,
}

-- constants.h
abbrev pub max_message_net_size : ℕ
max_message_net_size = 1024

abbrev pub file_content_size : ℕ
file_content_size = 512

abbrev pub max_chat_text_bytes : ℕ
max_chat_text_bytes = 512

abbrev pub max_username_bytes : ℕ
max_username_bytes = 32

abbrev pub max_filename_size : ℕ
max_filename_size = 256

abbrev pub max_filepath_size : ℕ
max_filepath_size = 512

abbrev pub max_ip_bytes : ℕ
max_ip_bytes = 16

abbrev pub header_name_bytes : ℕ
header_name_bytes = 64

abbrev pub bytes_128 : ℕ
bytes_128 = 128

pub data MessageType : Type 0 where
  user_chat user_login user_logout : MessageType
  file_header file_content file_end : MessageType
  client_connected client_on_queue : MessageType
  status connected_clients : MessageType
  task_request task_status : MessageType
  sequence_start sequence_end heap_sequence : MessageType
  server_notification : MessageType

pub data TaskType : Type 0 where
  null users client_upload_file client_download_file files remove_file : TaskType

-- The number of an enumerator.
unfoldable pub message_code : MessageType → ℕ
message_code user_chat = 0
message_code user_login = 1
message_code user_logout = 2
message_code file_header = 3
message_code file_content = 4
message_code file_end = 5
message_code client_connected = 6
message_code client_on_queue = 7
message_code status = 8
message_code connected_clients = 9
message_code task_request = 10
message_code task_status = 11
message_code sequence_start = 12
message_code sequence_end = 13
message_code heap_sequence = 14
message_code server_notification = 15

unfoldable pub task_code : TaskType → ℕ
task_code null = 0
task_code users = 1
task_code client_upload_file = 2
task_code client_download_file = 3
task_code files = 4
task_code remove_file = 5

-- The enumerator with a number; `none` where the enumeration has no such number.
unfoldable pub message_type_of : ℕ → Option MessageType
message_type_of = get_elem? (
    user_chat ∷ user_login ∷ user_logout ∷ file_header ∷ file_content ∷ file_end ∷ client_connected
    ∷ client_on_queue ∷ status ∷ connected_clients ∷ task_request ∷ task_status ∷ sequence_start
    ∷ sequence_end ∷ heap_sequence ∷ server_notification ∷ [])

unfoldable pub task_type_of : ℕ → Option TaskType
task_type_of =
    get_elem? (null ∷ users ∷ client_upload_file ∷ client_download_file ∷ files ∷ remove_file ∷ [])

-- enum TaskStatus, as it travels: any 32-bit number
abbrev pub task_status_executing : ℕ
task_status_executing = 2

abbrev pub task_status_completed : ℕ
task_status_completed = 3

pub record UserChatPayload : Type 0 where
  pub username : List ℕ
  pub text : List ℕ
  pub ip : List ℕ
  pub time : ℕ

pub record FileHeaderPayload : Type 0 where
  pub name : List ℕ
  pub size : ℕ

pub record FileContentPayload : Type 0 where
  pub content_size : ℕ
  pub binary_payload : List ℕ

pub record StatusPayload : Type 0 where
  pub status : Bool
  pub text : List ℕ

pub record ServerNotificationPayload : Type 0 where
  pub time : ℕ
  pub text : List ℕ

pub record TaskUsersData : Type 0 where
  pub show_ip : Bool
  pub show_id : Bool

pub record TaskFileUploadData : Type 0 where
  pub filename : List ℕ
  pub user_filepath : List ℕ

pub record TaskFileDownloadData : Type 0 where
  pub filename : List ℕ
  pub by_id : Bool

pub record TaskRemoveFileData : Type 0 where
  pub file_id : ℕ
  pub remove_all : Bool

pub data TaggedTask : Type 0 where
  null : TaggedTask
  users : TaskUsersData → TaggedTask
  file_upload : TaskFileUploadData → TaggedTask
  file_download : TaskFileDownloadData → TaggedTask
  files : TaggedTask
  remove : TaskRemoveFileData → TaggedTask

pub data Payload : Type 0 where
  user_chat : UserChatPayload → Payload
  user_login : List ℕ → Payload
  user_logout : Payload
  file_header : FileHeaderPayload → Payload
  file_content : FileContentPayload → Payload
  file_end : Payload
  client_connected : List ℕ → Payload
  client_on_queue : List ℕ → Payload
  status : StatusPayload → Payload
  connected_clients : ℕ → Payload
  task_request : TaggedTask → Payload
  task_status : ℕ → TaggedTask → Payload
  sequence_start : Payload
  sequence_end : Payload
  heap_sequence : List ℕ → Payload
  server_notification : ServerNotificationPayload → Payload

pub record Message : Type 0 where
  pub net_payload_length : ℕ
  pub payload : Payload

-- message->type
unfoldable pub payload_type : Payload → MessageType
payload_type (user_chat p) = user_chat
payload_type (user_login p) = user_login
payload_type user_logout = user_logout
payload_type (file_header p) = file_header
payload_type (file_content p) = file_content
payload_type file_end = file_end
payload_type (client_connected p) = client_connected
payload_type (client_on_queue p) = client_on_queue
payload_type (status p) = status
payload_type (connected_clients n) = connected_clients
payload_type (task_request t) = task_request
payload_type (task_status n t) = task_status
payload_type sequence_start = sequence_start
payload_type sequence_end = sequence_end
payload_type (heap_sequence bs) = heap_sequence
payload_type (server_notification p) = server_notification

unfoldable pub tagged_task_type : TaggedTask → TaskType
tagged_task_type null = null
tagged_task_type (users d) = users
tagged_task_type (file_upload d) = client_upload_file
tagged_task_type (file_download d) = client_download_file
tagged_task_type files = files
tagged_task_type (remove d) = remove_file

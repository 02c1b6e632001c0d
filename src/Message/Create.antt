-- ===== src/Message/Create.antt =====
-- The functions create_... of common/messages/message.c. A `Message` on the stack is not
-- initialised, so each array starts as what the stack held: the argument `old`. `now` is
-- time(NULL), and `formatted` is the text that a format and its arguments print as. `none` is a
-- write past the end of an array, or the assertion that fails on TASK_NULL.
pub mod Valid
use they_chat.Base.{
  ℕ, ◌+◌, ◌%◌, Bool, false, Option, none, some, List, [], ◌∷◌, take, length, replicate,
}
use they_chat.CString.{codes, strcpy, strncpy, memcpy}
use they_chat.Message.{
  Message, Payload, TaskType, TaggedTask, UserChatPayload, FileContentPayload, FileHeaderPayload,
  StatusPayload, ServerNotificationPayload, TaskUsersData, TaskFileUploadData, TaskFileDownloadData,
  TaskRemoveFileData, max_chat_text_bytes, max_username_bytes, max_filename_size, max_filepath_size,
  max_ip_bytes, file_content_size, header_name_bytes, bytes_128,
}

infixl 5 ◌>>=◌
abbrev pub ◌>>=◌ : {A B : Type 0} → Option A → (A → Option B) → Option B
none >>= f = none
some a >>= f = f a

unfoldable pub create_user_chat_msg : UserChatPayload → ℕ → List ℕ → List ℕ → Option Message
create_user_chat_msg old now text username = do
  text' ← strcpy old.text text
  username' ← strcpy old.username username
  some (record {
    net_payload_length = max_username_bytes + max_chat_text_bytes + max_ip_bytes + 8;
    payload = Payload.user_chat (record old { username = username'; text = text'; time = now });
  })

unfoldable pub create_user_login_msg : List ℕ → List ℕ → Option Message
create_user_login_msg old username = do
  username' ← strcpy old username
  some (record { net_payload_length = max_username_bytes; payload = Payload.user_login username' })

unfoldable pub create_client_connected : List ℕ → Option Message
create_client_connected old = do
  bytes ← strcpy old (codes "Welcome to TheyChat!")
  some (record { net_payload_length = bytes_128; payload = Payload.client_connected bytes })

unfoldable pub create_client_on_queue : List ℕ → Option Message
create_client_on_queue old = do
  bytes ← strcpy old (codes "Connected to server. In client queue...")
  some (record { net_payload_length = bytes_128; payload = Payload.client_on_queue bytes })

-- The length that is added for a task, and the task with its data zeroed.
unfoldable pub initialize_tagged_task : TaskType → ℕ → Option (ℕ × TaggedTask)
initialize_tagged_task TaskType.null n = none
initialize_tagged_task TaskType.users n =
    some (n + 4 + (1 + 1), TaggedTask.users (record { show_ip = false; show_id = false }))
initialize_tagged_task TaskType.client_upload_file n = some (
  n + 4 + (max_filename_size + max_filepath_size),
  TaggedTask.file_upload (record {
    filename = replicate max_filename_size 0;
    user_filepath = replicate max_filepath_size 0;
  }),
)
initialize_tagged_task TaskType.client_download_file n = some (
  n + 4 + (max_filename_size + 1),
  TaggedTask.file_download (record { filename = replicate max_filename_size 0; by_id = false }),
)
initialize_tagged_task TaskType.files n = some (n + 4 + 0, TaggedTask.files)
initialize_tagged_task TaskType.remove_file n =
    some (n + 4 + (1 + 4), TaggedTask.remove (record { file_id = 0; remove_all = false }))

unfoldable pub create_task_request_msg : TaskType → Option Message
create_task_request_msg type = do
  (n, task) ← initialize_tagged_task type 0
  some (record { net_payload_length = n; payload = Payload.task_request task })

unfoldable pub create_task_status_msg : TaskType → ℕ → Option Message
create_task_status_msg type status = do
  (n, task) ← initialize_tagged_task type 4
  some (record { net_payload_length = n; payload = Payload.task_status status task })

unfoldable pub create_file_header_message : List ℕ → List ℕ → ℕ → Option Message
create_file_header_message old name size = do
  name' ← strcpy old name
  some (record {
    net_payload_length = header_name_bytes + 4;
    payload = Payload.file_header (record { name = name'; size = size });
  })

unfoldable pub create_file_content_message : List ℕ → List ℕ → ℕ → Option Message
create_file_content_message old content size = do
  bytes ← memcpy old content size
  some (record {
    net_payload_length = 4 + file_content_size;
    payload = Payload.file_content (record { content_size = size; binary_payload = bytes });
  })

unfoldable pub create_file_end_message : Message
create_file_end_message = record { net_payload_length = 0; payload = Payload.file_end }

unfoldable pub create_seq_start_msg : Message
create_seq_start_msg = record { net_payload_length = 0; payload = Payload.sequence_start }

unfoldable pub create_seq_end_msg : Message
create_seq_end_msg = record { net_payload_length = 0; payload = Payload.sequence_end }

-- The block is allocated at the payload's size and filled.
unfoldable pub create_heap_seq_msg : List ℕ → ℕ → Message
create_heap_seq_msg payload payload_size = record {
  net_payload_length = payload_size;
  payload = Payload.heap_sequence (take payload_size payload);
}

-- vsnprintf into the local buffer of 1024 bytes
abbrev pub vsnprintf_buffer : List ℕ → List ℕ
vsnprintf_buffer formatted = take 1023 formatted

-- The array is zeroed first; without a format it stays so.
unfoldable pub create_status_msg : Bool → Option (List ℕ) → Message
create_status_msg status none = record {
  net_payload_length = 1 + max_chat_text_bytes;
  payload = Payload.status (record { status = status; text = replicate max_chat_text_bytes 0 });
}
create_status_msg status (some formatted) = record {
  net_payload_length = 1 + max_chat_text_bytes;
  payload =
      Payload.status (record {
        status = status;
        text = strncpy (vsnprintf_buffer formatted) max_chat_text_bytes;
      });
}

-- The parameter is a uint8_t, so a larger count is cut off at the call.
unfoldable pub create_connected_clients_msg : ℕ → Message
create_connected_clients_msg count = record {
  net_payload_length = 1;
  payload = Payload.connected_clients (count % 256);
}

-- Here the array is not zeroed first.
unfoldable pub create_server_notification : List ℕ → ℕ → Option (List ℕ) → Message
create_server_notification old now none = record {
  net_payload_length = max_chat_text_bytes + 8;
  payload = Payload.server_notification (record { time = now; text = old });
}
create_server_notification old now (some formatted) = record {
  net_payload_length = max_chat_text_bytes + 8;
  payload =
      Payload.server_notification
        (record { time = now; text = strncpy (vsnprintf_buffer formatted) max_chat_text_bytes });
}

-- ===== src/Message/IsMessage.antt =====
-- When a message is well formed: every array has its declared size, every number fits its type,
-- and the length field counts the payload's bytes.
use they_chat.Base.{ℕ, ◌+◌, ◌^◌, ◌<◌, ◌≡◌, length}
use they_chat.Message.{
  Message, Payload, TaggedTask, max_chat_text_bytes, max_username_bytes, max_filename_size,
  max_filepath_size, max_ip_bytes, file_content_size, header_name_bytes, bytes_128,
}

abbrev pub IsTask : TaggedTask → Type 0
IsTask TaggedTask.null = ⊥
IsTask (TaggedTask.users d) = Unit
IsTask (TaggedTask.file_upload d) =
    (length d.filename ≡ max_filename_size) × (length d.user_filepath ≡ max_filepath_size)
IsTask (TaggedTask.file_download d) = length d.filename ≡ max_filename_size
IsTask TaggedTask.files = Unit
IsTask (TaggedTask.remove d) = d.file_id < 2 ^ 32

abbrev pub IsPayload : Payload → Type 0
IsPayload (Payload.user_chat p) =
    (length p.username ≡ max_username_bytes)
    × (length p.text ≡ max_chat_text_bytes)
    × (length p.ip ≡ max_ip_bytes)
    × (p.time < 2 ^ 64)
IsPayload (Payload.user_login name) = length name ≡ max_username_bytes
IsPayload Payload.user_logout = ⊥
IsPayload (Payload.file_header p) = (length p.name ≡ header_name_bytes) × (p.size < 2 ^ 32)
IsPayload (Payload.file_content p) =
    (p.content_size < 2 ^ 32) × (length p.binary_payload ≡ file_content_size)
IsPayload Payload.file_end = Unit
IsPayload (Payload.client_connected bs) = length bs ≡ bytes_128
IsPayload (Payload.client_on_queue bs) = length bs ≡ bytes_128
IsPayload (Payload.status p) = length p.text ≡ max_chat_text_bytes
IsPayload (Payload.connected_clients n) = n < 256
IsPayload (Payload.task_request t) = IsTask t
IsPayload (Payload.task_status n t) = (n < 2 ^ 32) × IsTask t
IsPayload Payload.sequence_start = Unit
IsPayload Payload.sequence_end = Unit
IsPayload (Payload.heap_sequence bs) = length bs < 2 ^ 32
IsPayload (Payload.server_notification p) =
    (p.time < 2 ^ 64) × (length p.text ≡ max_chat_text_bytes)

unfoldable pub task_length : TaggedTask → ℕ
task_length TaggedTask.null = 4
task_length (TaggedTask.users d) = 4 + 2
task_length (TaggedTask.file_upload d) = 4 + (max_filename_size + max_filepath_size)
task_length (TaggedTask.file_download d) = 4 + (max_filename_size + 1)
task_length TaggedTask.files = 4
task_length (TaggedTask.remove d) = 4 + 5

-- The bytes of a payload on the wire, without padding.
unfoldable pub payload_length : Payload → ℕ
unfolding task_length
payload_length (Payload.user_chat p) = max_username_bytes + max_chat_text_bytes + max_ip_bytes + 8
payload_length (Payload.user_login name) = max_username_bytes
payload_length Payload.user_logout = 0
payload_length (Payload.file_header p) = header_name_bytes + 4
payload_length (Payload.file_content p) = 4 + file_content_size
payload_length Payload.file_end = 0
payload_length (Payload.client_connected bs) = bytes_128
payload_length (Payload.client_on_queue bs) = bytes_128
payload_length (Payload.status p) = 1 + max_chat_text_bytes
payload_length (Payload.connected_clients n) = 1
payload_length (Payload.task_request t) = task_length t
payload_length (Payload.task_status n t) = 4 + task_length t
payload_length Payload.sequence_start = 0
payload_length Payload.sequence_end = 0
payload_length (Payload.heap_sequence bs) = length bs
payload_length (Payload.server_notification p) = 8 + max_chat_text_bytes

pub record IsMessage (m : Message) : Type 0 where
  pub payload_valid : IsPayload m.payload
  pub length_valid : m.net_payload_length ≡ payload_length m.payload

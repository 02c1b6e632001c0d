-- ===== src/MessageSerializer.antt =====
-- common/net/serialization/net_message_serializer.c. `none` is the call of exit() at a message or
-- task type that has no case. `buffer_size` is the length of the list that is returned.
pub mod Wire
pub mod RoundTrip
pub mod Size
use they_chat.Base.{
  ℕ, suc, ◌+◌, Bool, true, false, not, Option, none, some, List, [], ◌∷◌, ◌==◌, if◌then◌else◌,
}
use they_chat.Bytes.{Endianness}
use they_chat.NetSerializer.{◌▷◌, push_byte_array, push_32, push_64, pop_byte_array, pop_32, pop_64}
use they_chat.Message.{
  Message, MessageType, Payload, TaskType, TaggedTask, message_code, task_code, message_type_of,
  task_type_of, payload_type, tagged_task_type, max_chat_text_bytes, max_username_bytes,
  max_filename_size, max_filepath_size, max_ip_bytes, file_content_size, header_name_bytes,
  bytes_128,
}

-- The byte that a `bool` occupies, and the `bool` in a byte.
abbrev pub byte_of_bool : Bool → ℕ
byte_of_bool true = 1
byte_of_bool false = 0

abbrev pub bool_of_byte : List ℕ → Bool
bool_of_byte [] = false
bool_of_byte (b ∷ bs) = not (b == 0)

abbrev pub one_byte : List ℕ → ℕ
one_byte [] = 0
one_byte (b ∷ bs) = b

unfoldable pub push_bool : Bool → List ℕ → List ℕ
push_bool b = push_byte_array (byte_of_bool b ∷ []) 1

-- The part of the function that the cases of both task messages share.
unfoldable pub push_tagged_task : Endianness → TaggedTask → List ℕ → Option (List ℕ)
push_tagged_task e TaggedTask.null dest = none
push_tagged_task e (TaggedTask.users d) dest =
    some (dest ▷ push_32 e (task_code TaskType.users) ▷ push_bool d.show_ip ▷ push_bool d.show_id)
push_tagged_task e (TaggedTask.file_upload d) dest = some (
    dest
    ▷ push_32 e (task_code TaskType.client_upload_file)
    ▷ push_byte_array d.filename max_filename_size
    ▷ push_byte_array d.user_filepath max_filepath_size)
push_tagged_task e (TaggedTask.file_download d) dest = some (
    dest
    ▷ push_32 e (task_code TaskType.client_download_file)
    ▷ push_byte_array d.filename max_filename_size
    ▷ push_bool d.by_id)
push_tagged_task e TaggedTask.files dest = some (dest ▷ push_32 e (task_code TaskType.files))
push_tagged_task e (TaggedTask.remove d) dest = some (
    dest
    ▷ push_32 e (task_code TaskType.remove_file)
    ▷ push_bool d.remove_all
    ▷ push_32 e d.file_id)

-- The switch; `net_payload_length` is read by one of its cases.
unfoldable pub push_payload : Endianness → ℕ → Payload → List ℕ → Option (List ℕ)
push_payload e n (Payload.user_chat p) dest = some (
    dest
    ▷ push_byte_array p.username max_username_bytes
    ▷ push_byte_array p.text max_chat_text_bytes
    ▷ push_byte_array p.ip max_ip_bytes
    ▷ push_64 e p.time)
push_payload e n (Payload.user_login name) dest =
    some (dest ▷ push_byte_array name max_username_bytes)
push_payload e n Payload.user_logout dest = none
push_payload e n (Payload.file_header p) dest =
    some (dest ▷ push_byte_array p.name header_name_bytes ▷ push_32 e p.size)
push_payload e n (Payload.file_content p) dest =
    some (dest ▷ push_32 e p.content_size ▷ push_byte_array p.binary_payload file_content_size)
push_payload e n Payload.file_end dest = some dest
push_payload e n (Payload.client_connected bs) dest = some (dest ▷ push_byte_array bs bytes_128)
push_payload e n (Payload.client_on_queue bs) dest = some (dest ▷ push_byte_array bs bytes_128)
push_payload e n (Payload.status p) dest =
    some (dest ▷ push_bool p.status ▷ push_byte_array p.text max_chat_text_bytes)
push_payload e n (Payload.connected_clients c) dest = some (dest ▷ push_byte_array (c ∷ []) 1)
push_payload e n (Payload.task_request t) dest = push_tagged_task e t dest
push_payload e n (Payload.task_status s t) dest = push_tagged_task e t (dest ▷ push_32 e s)
push_payload e n Payload.sequence_start dest = some dest
push_payload e n Payload.sequence_end dest = some dest
push_payload e n (Payload.heap_sequence bs) dest = some (dest ▷ push_byte_array bs n)
push_payload e n (Payload.server_notification p) dest =
    some (dest ▷ push_64 e p.time ▷ push_byte_array p.text max_chat_text_bytes)

unfoldable pub serialize_message : Endianness → Message → Option (List ℕ)
serialize_message e m =
    push_payload e m.net_payload_length m.payload
      ([] ▷ push_32 e (message_code (payload_type m.payload)) ▷ push_32 e m.net_payload_length)

unfoldable pub pop_bool : List ℕ → Bool × List ℕ
pop_bool src = let (b, src) = pop_byte_array 1 src in (bool_of_byte b, src)

unfoldable pub pop_task_data : Endianness → TaskType → List ℕ → Option TaggedTask
pop_task_data e TaskType.null src = none
pop_task_data e TaskType.users src =
    let (ip, src) = pop_bool src in
    let (id, src) = pop_bool src in some (TaggedTask.users (record { show_ip = ip; show_id = id }))
pop_task_data e TaskType.client_upload_file src =
    let (filename, src) = pop_byte_array max_filename_size src in
    let (filepath, src) = pop_byte_array max_filepath_size src in
    some (TaggedTask.file_upload (record { filename = filename; user_filepath = filepath }))
pop_task_data e TaskType.client_download_file src =
    let (filename, src) = pop_byte_array max_filename_size src in
    let (by_id, src) = pop_bool src in
    some (TaggedTask.file_download (record { filename = filename; by_id = by_id }))
pop_task_data e TaskType.files src = some TaggedTask.files
pop_task_data e TaskType.remove_file src =
    let (remove_all, src) = pop_bool src in
    let (file_id, src) = pop_32 e src in
    some (TaggedTask.remove (record { file_id = file_id; remove_all = remove_all }))

-- The inner switch, on the number that was popped.
unfoldable pub task_of : Endianness → ℕ × List ℕ → Option TaggedTask
task_of e (code, src) = elim (task_type_of code) [ none ↦ none | some t ↦ pop_task_data e t src ]

unfoldable pub pop_tagged_task : Endianness → List ℕ → Option TaggedTask
pop_tagged_task e src = task_of e (pop_32 e src)

abbrev pub map_option : {A B : Type 0} → (A → B) → Option A → Option B
map_option f none = none
map_option f (some a) = some (f a)

unfoldable pub pop_payload : Endianness → ℕ → MessageType → List ℕ → Option Payload
pop_payload e n MessageType.user_chat src =
    let (username, src) = pop_byte_array max_username_bytes src in
    let (text, src) = pop_byte_array max_chat_text_bytes src in
    let (ip, src) = pop_byte_array max_ip_bytes src in
    let (time, src) = pop_64 e src in
    some (Payload.user_chat (record { username = username; text = text; ip = ip; time = time }))
pop_payload e n MessageType.user_login src =
    some (Payload.user_login (pop_byte_array max_username_bytes src).0)
pop_payload e n MessageType.user_logout src = none
pop_payload e n MessageType.file_header src =
    let (name, src) = pop_byte_array header_name_bytes src in
    let (size, src) = pop_32 e src in
    some (Payload.file_header (record { name = name; size = size }))
pop_payload e n MessageType.file_content src =
    let (content_size, src) = pop_32 e src in
    let (bytes, src) = pop_byte_array file_content_size src in
    some (Payload.file_content (record { content_size = content_size; binary_payload = bytes }))
pop_payload e n MessageType.file_end src = some Payload.file_end
pop_payload e n MessageType.client_connected src =
    some (Payload.client_connected (pop_byte_array bytes_128 src).0)
pop_payload e n MessageType.client_on_queue src =
    some (Payload.client_on_queue (pop_byte_array bytes_128 src).0)
pop_payload e n MessageType.status src =
    let (ok, src) = pop_bool src in
    let (text, src) = pop_byte_array max_chat_text_bytes src in
    some (Payload.status (record { status = ok; text = text }))
pop_payload e n MessageType.connected_clients src =
    some (Payload.connected_clients (one_byte (pop_byte_array 1 src).0))
pop_payload e n MessageType.task_request src =
    map_option Payload.task_request (pop_tagged_task e src)
pop_payload e n MessageType.task_status src =
    let (s, src) = pop_32 e src in map_option (Payload.task_status s) (pop_tagged_task e src)
pop_payload e n MessageType.sequence_start src = some Payload.sequence_start
pop_payload e n MessageType.sequence_end src = some Payload.sequence_end
pop_payload e n MessageType.heap_sequence src =
    some (Payload.heap_sequence (pop_byte_array n src).0)
pop_payload e n MessageType.server_notification src =
    let (time, src) = pop_64 e src in
    let (text, src) = pop_byte_array max_chat_text_bytes src in
    some (Payload.server_notification (record { time = time; text = text }))

-- The outer switch, on the two numbers of the header.
unfoldable pub message_of : Endianness → ℕ → ℕ × List ℕ → Option Message
message_of e code (n, buffer) = elim (message_type_of code) [
  | none ↦ none
  | some t ↦
      map_option (λ p. record { net_payload_length = n; payload = p }) (pop_payload e n t buffer)
]

unfoldable pub deserialize_message : Endianness → List ℕ → Option Message
deserialize_message e buffer =
    let (code, buffer) = pop_32 e buffer in message_of e code (pop_32 e buffer)

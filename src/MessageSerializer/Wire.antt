-- ===== src/MessageSerializer/Wire.antt =====
-- The wire format: what the serializer writes, said without pushes and without a host.
use they_chat.Base.{
  Bool, ℕ, ◌≡◌, refl, sym, ap, ◌∙◌, some, List, [], ◌∷◌, ◌++◌, append-nil, append_assoc,
}
use they_chat.Bytes.{Endianness, big, store}
use they_chat.NetSerializer.Laws.{push_byte_array_lem, push_32_lem, push_64_lem}
use they_chat.Message.{
  Message, Payload, TaggedTask, message_code, task_code, payload_type, tagged_task_type,
}
use they_chat.Message.IsMessage.{IsTask, IsPayload, IsMessage, payload_length}
use they_chat.MessageSerializer.{
  byte_of_bool, push_bool, push_tagged_task, push_payload, serialize_message,
}

-- Big-endian numbers; what follows a task's number.
unfoldable pub task_bytes : TaggedTask → List ℕ
task_bytes TaggedTask.null = []
task_bytes (TaggedTask.users d) = byte_of_bool d.show_ip ∷ byte_of_bool d.show_id ∷ []
task_bytes (TaggedTask.file_upload d) = d.filename ++ d.user_filepath
task_bytes (TaggedTask.file_download d) = d.filename ++ byte_of_bool d.by_id ∷ []
task_bytes TaggedTask.files = []
task_bytes (TaggedTask.remove d) = byte_of_bool d.remove_all ∷ store big 4 d.file_id

unfoldable pub tagged_task_bytes : TaggedTask → List ℕ
unfolding task_bytes tagged_task_type task_code
tagged_task_bytes t = store big 4 (task_code (tagged_task_type t)) ++ task_bytes t

unfoldable pub payload_bytes : Payload → List ℕ
unfolding tagged_task_bytes
payload_bytes (Payload.user_chat p) = p.username ++ (p.text ++ (p.ip ++ store big 8 p.time))
payload_bytes (Payload.user_login name) = name
payload_bytes Payload.user_logout = []
payload_bytes (Payload.file_header p) = p.name ++ store big 4 p.size
payload_bytes (Payload.file_content p) = store big 4 p.content_size ++ p.binary_payload
payload_bytes Payload.file_end = []
payload_bytes (Payload.client_connected bs) = bs
payload_bytes (Payload.client_on_queue bs) = bs
payload_bytes (Payload.status p) = byte_of_bool p.status ∷ p.text
payload_bytes (Payload.connected_clients n) = n ∷ []
payload_bytes (Payload.task_request t) = tagged_task_bytes t
payload_bytes (Payload.task_status n t) = store big 4 n ++ tagged_task_bytes t
payload_bytes Payload.sequence_start = []
payload_bytes Payload.sequence_end = []
payload_bytes (Payload.heap_sequence bs) = bs
payload_bytes (Payload.server_notification p) = store big 8 p.time ++ p.text

unfoldable pub header_bytes : Message → List ℕ
header_bytes m =
    store big 4 (message_code (payload_type m.payload)) ++ store big 4 m.net_payload_length

-- Two numbers, the type and the payload's length, and then the payload.
unfoldable pub wire : Message → List ℕ
wire m = header_bytes m ++ payload_bytes m.payload

push_bool_lem : (b : Bool) (dest : List ℕ) → push_bool b dest ≡ dest ++ byte_of_bool b ∷ []
unfolding push_bool
push_bool_lem b dest = push_byte_array_lem _ 1 dest refl

push_tagged_task_lem :
    (e : Endianness) (t : TaggedTask) (dest : List ℕ)
    → IsTask t
    → push_tagged_task e t dest ≡ some (dest ++ tagged_task_bytes t)
unfolding push_tagged_task tagged_task_bytes
push_tagged_task_lem e TaggedTask.null dest h = absurd h
push_tagged_task_lem e (TaggedTask.users d) dest h = simp (push_bool_lem, push_32_lem, append_assoc)
push_tagged_task_lem e (TaggedTask.file_upload d) dest h =
    simp (push_byte_array_lem, h.0, h.1, push_32_lem, append_assoc)
push_tagged_task_lem e (TaggedTask.file_download d) dest h =
    simp (push_byte_array_lem, h, push_bool_lem, push_32_lem, append_assoc)
push_tagged_task_lem e TaggedTask.files dest h = simp (push_32_lem, append-nil)
push_tagged_task_lem e (TaggedTask.remove d) dest h =
    simp (push_bool_lem, push_32_lem, append_assoc)

push_payload_lem :
    (e : Endianness) (n : ℕ) (p : Payload) (dest : List ℕ)
    → IsPayload p
    → n ≡ payload_length p
    → push_payload e n p dest ≡ some (dest ++ payload_bytes p)
unfolding push_payload payload_bytes payload_length
push_payload_lem e n (Payload.user_chat p) dest h k =
    simp (push_byte_array_lem, h.0, h.1, h.2, push_64_lem, append_assoc)
push_payload_lem e n (Payload.user_login name) dest h k = simp (push_byte_array_lem, h)
push_payload_lem e n Payload.user_logout dest h k = absurd h
push_payload_lem e n (Payload.file_header p) dest h k =
    simp (push_byte_array_lem, h.0, push_32_lem, append_assoc)
push_payload_lem e n (Payload.file_content p) dest h k =
    simp (push_byte_array_lem, h.1, push_32_lem, append_assoc)
push_payload_lem e n Payload.file_end dest h k = simp append-nil
push_payload_lem e n (Payload.client_connected bs) dest h k = simp (push_byte_array_lem, h)
push_payload_lem e n (Payload.client_on_queue bs) dest h k = simp (push_byte_array_lem, h)
push_payload_lem e n (Payload.status p) dest h k =
    simp (push_byte_array_lem, h, push_bool_lem, append_assoc)
push_payload_lem e n (Payload.connected_clients c) dest h k =
    ap some (push_byte_array_lem (c ∷ []) 1 dest refl)
push_payload_lem e n (Payload.task_request t) dest h k = push_tagged_task_lem e t dest h
push_payload_lem e n (Payload.task_status s t) dest h k =
    push_tagged_task_lem e t _ h.1 ∙ simp (push_32_lem, append_assoc)
push_payload_lem e n Payload.sequence_start dest h k = simp append-nil
push_payload_lem e n Payload.sequence_end dest h k = simp append-nil
push_payload_lem e n (Payload.heap_sequence bs) dest h k =
    ap some (push_byte_array_lem bs n dest (sym k))
push_payload_lem e n (Payload.server_notification p) dest h k =
    simp (push_byte_array_lem, h.1, push_64_lem, append_assoc)

-- The bytes that the serializer writes for a well-formed message are those of the wire format: the
-- big-endian type and length and then the payload, on a host of either byte order.
pub serialize_message-wire :
    (e : Endianness) (m : Message) → IsMessage m → serialize_message e m ≡ some (wire m)
unfolding serialize_message wire header_bytes
serialize_message-wire e m h =
    push_payload_lem e m.net_payload_length m.payload _ h.payload_valid h.length_valid
    ∙ simp (push_32_lem)

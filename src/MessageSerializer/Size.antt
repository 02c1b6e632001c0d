-- ===== src/MessageSerializer/Size.antt =====
-- The size of a serialized message.
use they_chat.Base.{ℕ, ◌+◌, ◌≤◌, ◌≡◌, refl, some, List, length, length-append, arith}
use they_chat.Bytes.{Endianness}
use they_chat.Bytes.Laws.{length-store}
use they_chat.Message.{Message, Payload, TaggedTask, max_message_net_size}
use they_chat.Message.IsMessage.{IsTask, IsPayload, IsMessage, task_length, payload_length}
use they_chat.MessageSerializer.{serialize_message}
use they_chat.MessageSerializer.Wire.{
  tagged_task_bytes, payload_bytes, header_bytes, wire, serialize_message-wire,
}

ruleset sizes = (arith, length-append, length-store)

length-tagged_task_bytes :
    (t : TaggedTask) → IsTask t → length (tagged_task_bytes t) ≡ task_length t
unfolding tagged_task_bytes task_length
length-tagged_task_bytes TaggedTask.null h = absurd h
length-tagged_task_bytes (TaggedTask.users d) h = grind sizes
length-tagged_task_bytes (TaggedTask.file_upload d) h = grind sizes
length-tagged_task_bytes (TaggedTask.file_download d) h = grind sizes
length-tagged_task_bytes TaggedTask.files h = grind sizes
length-tagged_task_bytes (TaggedTask.remove d) h = grind sizes

length-payload_bytes : (p : Payload) → IsPayload p → length (payload_bytes p) ≡ payload_length p
unfolding payload_bytes payload_length
length-payload_bytes (Payload.user_chat p) h = grind sizes
length-payload_bytes (Payload.user_login name) h = h
length-payload_bytes Payload.user_logout h = absurd h
length-payload_bytes (Payload.file_header p) h = grind sizes
length-payload_bytes (Payload.file_content p) h = grind sizes
length-payload_bytes Payload.file_end h = refl
length-payload_bytes (Payload.client_connected bs) h = h
length-payload_bytes (Payload.client_on_queue bs) h = h
length-payload_bytes (Payload.status p) h = grind sizes
length-payload_bytes (Payload.connected_clients c) h = refl
length-payload_bytes (Payload.task_request t) h = length-tagged_task_bytes t h
length-payload_bytes (Payload.task_status s t) h = grind (sizes, length-tagged_task_bytes)
length-payload_bytes Payload.sequence_start h = refl
length-payload_bytes Payload.sequence_end h = refl
length-payload_bytes (Payload.heap_sequence bs) h = refl
length-payload_bytes (Payload.server_notification p) h = grind sizes

pub length-wire : (m : Message) → IsMessage m → length (wire m) ≡ 8 + m.net_payload_length
unfolding wire header_bytes
length-wire m h = grind (sizes, length-payload_bytes, h.payload_valid, h.length_valid)

-- Only a heap sequence can be longer than the buffer that `send_message` serializes into.
abbrev pub FitsBuffer : Payload → Type 0
FitsBuffer (Payload.heap_sequence bs) = 8 + length bs ≤ max_message_net_size
FitsBuffer _ = Unit

fits : (p : Payload) → IsPayload p → FitsBuffer p → 8 + payload_length p ≤ max_message_net_size
unfolding payload_length
fits (Payload.heap_sequence bs) h f = f
fits (Payload.task_request TaggedTask.null) h f = absurd h
fits (Payload.task_request _) h f = omega arith
fits (Payload.task_status s TaggedTask.null) h f = absurd h.1
fits (Payload.task_status s _) h f = omega arith
fits _ h f = omega arith

pub wire_fits :
    (m : Message) → IsMessage m → FitsBuffer m.payload → length (wire m) ≤ max_message_net_size
wire_fits m h f = omega (arith, length-wire m h, h.length_valid, fits m.payload h.payload_valid f)

-- A well-formed message is serialized into as many bytes as its length field says and eight more; a
-- message of any type but a heap sequence of more than 1016 bytes fits the buffer of
-- `send_message`.
pub serialize_message_size :
    (e : Endianness) (m : Message)
    → IsMessage m
    → FitsBuffer m.payload
    → (bs : List ℕ) × (serialize_message e m ≡ some bs)
      × (length bs ≡ 8 + m.net_payload_length)
      × (length bs ≤ max_message_net_size)
serialize_message_size e m h f =
    (wire m, serialize_message-wire e m h, length-wire m h, wire_fits m h f)

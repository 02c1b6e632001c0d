-- ===== src/MessageSerializer/RoundTrip.antt =====
-- Statements on ns_serialize_message and ns_deserialize_message together.
use they_chat.Base.{
  ℕ, ◌^◌, ◌<◌, ◌≡◌, refl, sym, ap, Bool, true, false, some, List, [], ◌∷◌, ◌++◌, append_assoc,
  arith,
}
use they_chat.Bytes.{Endianness}
use they_chat.NetSerializer.{pop_byte_array}
use they_chat.NetSerializer.Laws.{pop_byte_array_lem, pop_32_lem, pop_64_lem}
use they_chat.Message.{
  Message, MessageType, Payload, TaskType, TaggedTask, message_code, task_code, message_type_of,
  task_type_of, payload_type, tagged_task_type,
}
use they_chat.Message.IsMessage.{IsTask, IsPayload, IsMessage, payload_length}
use they_chat.MessageSerializer.{
  byte_of_bool, one_byte, task_of, message_of, pop_bool, pop_task_data, pop_tagged_task,
  pop_payload, map_option, serialize_message, deserialize_message,
}
use they_chat.MessageSerializer.Wire.{
  task_bytes, tagged_task_bytes, payload_bytes, header_bytes, wire, serialize_message-wire,
}

pop_bool_lem : (b : Bool) (rest : List ℕ) → pop_bool (byte_of_bool b ∷ rest) ≡ (b, rest)
unfolding pop_bool pop_byte_array
pop_bool_lem true rest = refl
pop_bool_lem false rest = refl

task_type_of-code : (t : TaskType) → (task_code t < 256 ^ 4) × (task_type_of (task_code t) ≡ some t)
unfolding task_type_of task_code
task_type_of-code TaskType.null = (omega arith, refl)
task_type_of-code _ = (omega arith, refl)

message_type_of-code :
    (t : MessageType) → (message_code t < 256 ^ 4) × (message_type_of (message_code t) ≡ some t)
unfolding message_type_of message_code
message_type_of-code MessageType.user_chat = (omega arith, refl)
message_type_of-code _ = (omega arith, refl)

task_of-some :
    (e : Endianness) (code : ℕ) (src : List ℕ) {t : TaskType}
    → task_type_of code ≡ some t
    → task_of e (code, src) ≡ pop_task_data e t src
unfolding task_of
task_of-some e code src h = rw (h, task_of)

message_of-some :
    (e : Endianness) (code n : ℕ) (src : List ℕ) {t : MessageType}
    → message_type_of code ≡ some t
    → message_of e code (n, src)
      ≡ map_option (λ p. record { net_payload_length = n; payload = p }) (pop_payload e n t src)
unfolding message_of
message_of-some e code n src h = rw (h, message_of)

module _ (e : Endianness) (rest : List ℕ) where
  pop_task_data_lem :
      (t : TaggedTask)
      → IsTask t
      → pop_task_data e (tagged_task_type t) (task_bytes t ++ rest) ≡ some t
  unfolding pop_task_data tagged_task_type task_bytes
  pop_task_data_lem TaggedTask.null h = absurd h
  pop_task_data_lem (TaggedTask.users d) h = simp pop_bool_lem
  pop_task_data_lem (TaggedTask.file_upload d) h = simp (append_assoc, pop_byte_array_lem, h.0, h.1)
  pop_task_data_lem (TaggedTask.file_download d) h =
      simp (append_assoc, pop_byte_array_lem, h, pop_bool_lem)
  pop_task_data_lem TaggedTask.files h = refl
  pop_task_data_lem (TaggedTask.remove d) h =
      simp (pop_bool_lem) (rw (pop_32_lem e d.file_id rest h))

  pop_tagged_task_lem :
      (t : TaggedTask) → IsTask t → pop_tagged_task e (tagged_task_bytes t ++ rest) ≡ some t
  unfolding pop_tagged_task tagged_task_bytes
  pop_tagged_task_lem t h =
      let code = task_type_of-code (tagged_task_type t) in
      rw (append_assoc, pop_32_lem e _ _ code.0, task_of-some e _ _ code.1) (pop_task_data_lem t h)

  pop_payload_lem :
      (n : ℕ) (p : Payload)
      → IsPayload p
      → n ≡ payload_length p
      → pop_payload e n (payload_type p) (payload_bytes p ++ rest) ≡ some p
  unfolding pop_payload payload_type payload_bytes payload_length
  pop_payload_lem n (Payload.user_chat p) h k =
      simp (append_assoc, pop_byte_array_lem, h.0, h.1, h.2, pop_64_lem, h.3)
  pop_payload_lem n (Payload.user_login name) h k = simp (pop_byte_array_lem, h)
  pop_payload_lem n Payload.user_logout h k = absurd h
  pop_payload_lem n (Payload.file_header p) h k =
      simp (append_assoc, pop_byte_array_lem, h.0, pop_32_lem, h.1)
  pop_payload_lem n (Payload.file_content p) h k =
      simp (append_assoc, pop_byte_array_lem, h.1, pop_32_lem, h.0)
  pop_payload_lem n Payload.file_end h k = refl
  pop_payload_lem n (Payload.client_connected bs) h k = simp (pop_byte_array_lem, h)
  pop_payload_lem n (Payload.client_on_queue bs) h k = simp (pop_byte_array_lem, h)
  pop_payload_lem n (Payload.status p) h k = simp (pop_bool_lem, pop_byte_array_lem, h)
  pop_payload_lem n (Payload.connected_clients c) h k =
      ap (λ t. some (Payload.connected_clients (one_byte t.0)))
        (pop_byte_array_lem 1 (c ∷ []) rest refl)
  pop_payload_lem n (Payload.task_request t) h k = rw (pop_tagged_task_lem t h)
  pop_payload_lem n (Payload.task_status s t) h k =
      rw (append_assoc, pop_32_lem e s _ h.0, pop_tagged_task_lem t h.1)
  pop_payload_lem n Payload.sequence_start h k = refl
  pop_payload_lem n Payload.sequence_end h k = refl
  pop_payload_lem n (Payload.heap_sequence bs) h k = simp (pop_byte_array_lem, sym k)
  pop_payload_lem n (Payload.server_notification p) h k =
      simp (append_assoc, pop_byte_array_lem, h.1, pop_64_lem, h.0)

length_small : (m : Message) → IsMessage m → m.net_payload_length < 256 ^ 4
unfolding payload_length
length_small m h = small m.payload h.payload_valid h.length_valid
  where
    small :
        (p : Payload)
        → IsPayload p
        → m.net_payload_length ≡ payload_length p
        → m.net_payload_length < 256 ^ 4
    small (Payload.heap_sequence bs) h k = omega arith
    small (Payload.task_request TaggedTask.null) h k = absurd h
    small (Payload.task_request _) h k = omega arith
    small (Payload.task_status s TaggedTask.null) h k = absurd h.1
    small (Payload.task_status s _) h k = omega arith
    small _ h k = omega arith

pub deserialize_message-wire :
    (e : Endianness) (m : Message) (rest : List ℕ)
    → IsMessage m
    → deserialize_message e (wire m ++ rest) ≡ some m
unfolding deserialize_message wire header_bytes
deserialize_message-wire e m rest h =
    let code = message_type_of-code (payload_type m.payload) in
    let size = length_small m h in
    simp append_assoc (
      rw (pop_32_lem e _ _ code.0, pop_32_lem e _ _ size, message_of-some e _ _ _ code.1)
        (rw (pop_payload_lem e rest m.net_payload_length m.payload h.payload_valid h.length_valid)))

-- A well-formed message is serialized, and a peer of either byte order that has the bytes, whatever
-- follows them in its buffer, deserializes the same message.
pub deserialize_message-serialize_message :
    (e e' : Endianness) (m : Message) (rest : List ℕ)
    → IsMessage m
    → (bs : List ℕ) × (serialize_message e m ≡ some bs)
      × (deserialize_message e' (bs ++ rest) ≡ some m)
deserialize_message-serialize_message e e' m rest h =
    (wire m, serialize_message-wire e m h, deserialize_message-wire e' m rest h)

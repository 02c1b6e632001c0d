-- ===== src/Message/Create/Valid.antt =====
-- Statements on the functions of common/messages/message.c that create messages.
use they_chat.Base.{
  ℕ, ◌+◌, ◌≤◌, ◌<◌, ◌^◌, ◌≡◌, ◌⊎◌, inl, inr, refl, ◌∙◌, Bool, none, some, List, take, take_all,
  take-take, All-take, length, length-take, ltb, ltb→lt, ltb→le, Bool-cases, arith,
}
use Prim.Native.Nat.{min}
use they_chat.CString.{c_string, terminated}
use they_chat.CString.Laws.{
  IsString, strcpy_fits, strcpy_overruns, length-strncpy, c_string-strncpy, terminated-strncpy,
  memcpy_fits,
}
use they_chat.Message.{
  Message, Payload, TaskType, UserChatPayload, StatusPayload, max_chat_text_bytes,
  max_username_bytes, max_ip_bytes, file_content_size,
}
use they_chat.Message.IsMessage.{IsMessage, payload_length}
use they_chat.Message.Create.{
  create_user_chat_msg, initialize_tagged_task, create_task_request_msg, create_task_status_msg,
  create_file_content_message, create_status_msg, vsnprintf_buffer,
}

-- The arrays that the stack holds have their sizes.
abbrev pub IsStackChat : UserChatPayload → Type 0
IsStackChat old =
    (length old.username ≡ max_username_bytes)
    × (length old.text ≡ max_chat_text_bytes)
    × (length old.ip ≡ max_ip_bytes)

abbrev pub ChatHolds : ℕ → List ℕ → List ℕ → Payload → Type 0
ChatHolds now text username (Payload.user_chat p) =
    (c_string p.text ≡ text) × (c_string p.username ≡ username) × (p.time ≡ now)
ChatHolds now text username _ = ⊥

-- A text and a name that hold no NUL, the name shorter than its array, make a well-formed chat
-- message that holds both and the time if the text is shorter than its array of 512 bytes; a
-- longer text is written past the end of the array. The arrays on the stack have their sizes, and
-- the time fits 64 bits.
pub create_user_chat_msg_lem :
    (old : UserChatPayload) (now : ℕ) (text username : List ℕ)
    → IsStackChat old
    → now < 2 ^ 64
    → IsString text
    → IsString username
    → length username < max_username_bytes
    → ((length text < max_chat_text_bytes)
        × (m : Message) × (create_user_chat_msg old now text username ≡ some m)
        × IsMessage m
        × ChatHolds now text username m.payload)
      ⊎ ((max_chat_text_bytes ≤ length text) × (create_user_chat_msg old now text username ≡ none))
unfolding create_user_chat_msg payload_length
create_user_chat_msg_lem old now text username s t is_text is_name short =
    elim (Bool-cases (ltb (length text) max_chat_text_bytes)) [
      | inl is_short ↦
          let fits = ltb→lt (length text) max_chat_text_bytes is_short in
          let (text', p, pl, pc) = strcpy_fits old.text text max_chat_text_bytes s.1 fits is_text in
          let (name', q, ql, qc) =
            strcpy_fits old.username username max_username_bytes s.0 short is_name in
          inl (
            fits,
            record {
              net_payload_length = max_username_bytes + max_chat_text_bytes + max_ip_bytes + 8;
              payload =
                  Payload.user_chat (record old { username = name'; text = text'; time = now });
            },
            rw (p, q),
            record { payload_valid = (ql, pl, s.2, t); length_valid = refl },
            (pc, qc, refl),
          )
      | inr is_long ↦
          let long = ltb→le (length text) max_chat_text_bytes is_long in
          inr (long, rw (strcpy_overruns old.text text (omega (arith, s.1))))
    ]

-- The three tasks that need arrays get them at full size, so every task but the null one is created
-- well formed, as a request and as a status; the null one fails the assertion.
pub create_task_msg_IsMessage :
    (type : TaskType) (status : ℕ)
    → status < 2 ^ 32
    → ((type ≡ TaskType.null)
        × (create_task_request_msg type ≡ none)
        × (create_task_status_msg type status ≡ none))
      ⊎ ((m m' : Message) × (create_task_request_msg type ≡ some m)
          × (create_task_status_msg type status ≡ some m')
          × IsMessage m
          × IsMessage m')
unfolding create_task_request_msg create_task_status_msg initialize_tagged_task payload_length
create_task_msg_IsMessage TaskType.null status h = inl (refl, refl, refl)
create_task_msg_IsMessage TaskType.users status h = inr (
  _,
  _,
  refl,
  refl,
  record { payload_valid = tt; length_valid = refl },
  record { payload_valid = (h, tt); length_valid = refl },
)
create_task_msg_IsMessage TaskType.client_upload_file status h = inr (
  _,
  _,
  refl,
  refl,
  record { payload_valid = (refl, refl); length_valid = refl },
  record { payload_valid = (h, (refl, refl)); length_valid = refl },
)
create_task_msg_IsMessage TaskType.client_download_file status h = inr (
  _,
  _,
  refl,
  refl,
  record { payload_valid = refl; length_valid = refl },
  record { payload_valid = (h, refl); length_valid = refl },
)
create_task_msg_IsMessage TaskType.files status h = inr (
  _,
  _,
  refl,
  refl,
  record { payload_valid = tt; length_valid = refl },
  record { payload_valid = (h, tt); length_valid = refl },
)
create_task_msg_IsMessage TaskType.remove_file status h = inr (
  _,
  _,
  refl,
  refl,
  record { payload_valid = omega arith; length_valid = refl },
  record { payload_valid = (h, omega arith); length_valid = refl },
)

-- A part of a file of at most 512 bytes makes a content message of full length whose array has its
-- size and begins with that part, whatever the stack held.
pub create_file_content_message_lem :
    (old content : List ℕ) (size : ℕ)
    → length old ≡ file_content_size
    → length content ≡ size
    → size ≤ file_content_size
    → (bytes : List ℕ) × (create_file_content_message old content size
        ≡ some (record {
          net_payload_length = 4 + file_content_size;
          payload = Payload.file_content (record { content_size = size; binary_payload = bytes });
        }))
      × (length bytes ≡ file_content_size)
      × (take size bytes ≡ content)
unfolding create_file_content_message
create_file_content_message_lem old content size o c h =
    let (out, p, l, t) = memcpy_fits old content size (omega arith) (omega arith) in
    (out, rw p, l ∙ o, t ∙ take_all size content (omega arith))

cut : (k : ℕ) → ltb (min 1023 k) max_chat_text_bytes ≡ ltb k max_chat_text_bytes
cut k = ground arith

-- The array of a status message is well formed and holds the formatted text, which has no NUL, cut
-- off at 512 bytes. It ends in a NUL exactly if that text is shorter than 512 bytes.
pub create_status_msg_lem :
    (status : Bool) (formatted : List ℕ)
    → IsString formatted
    → (p : StatusPayload) × ((create_status_msg status (some formatted)).payload ≡ Payload.status p)
      × IsMessage (create_status_msg status (some formatted))
      × (p.status ≡ status)
      × (c_string p.text ≡ take max_chat_text_bytes formatted)
      × (terminated p.text ≡ ltb (length formatted) max_chat_text_bytes)
unfolding create_status_msg payload_length
create_status_msg_lem status formatted h =
    let buffer = vsnprintf_buffer formatted in
    let is = All-take _ 1023 formatted h in
    (
      _,
      refl,
      record { payload_valid = length-strncpy buffer max_chat_text_bytes; length_valid = refl },
      refl,
      c_string-strncpy buffer max_chat_text_bytes is
          ∙ take-take max_chat_text_bytes 1023 formatted (omega arith),
      terminated-strncpy buffer max_chat_text_bytes is
          ∙ rw (length-take 1023 formatted) (cut (length formatted)),
    )

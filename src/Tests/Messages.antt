-- ===== src/Tests/Messages.antt =====
-- Messages: creation and the wire format.
use they_chat.Base.{
  ℕ, ◌+◌, ◌≤◌, ◌<◌, ◌≡◌, ◌⊎◌, refl, true, none, some, List, [], ◌∷◌, ◌++◌, length, take, replicate,
  ltb, arith,
}
use they_chat.Bytes.{little, big}
use they_chat.CString.{c_string, terminated}
use they_chat.CString.Laws.{IsString}
use they_chat.Endian.{ntoh64, hton64, ntoh64_windows, hton64_windows}
use they_chat.Endian.Windows.{windows-eq-posix}
use they_chat.Message.{
  Message, Payload, TaggedTask, StatusPayload, UserChatPayload, max_chat_text_bytes,
  max_message_net_size,
}
use they_chat.Message.IsMessage.{IsMessage, payload_length}
use they_chat.Message.Create.{create_user_chat_msg, create_status_msg}
use they_chat.Message.Create.Valid.{ChatHolds, create_user_chat_msg_lem, create_status_msg_lem}
use they_chat.MessageSerializer.{serialize_message, deserialize_message}
use they_chat.MessageSerializer.Wire.{wire, serialize_message-wire}
use they_chat.MessageSerializer.Size.{serialize_message_size}
use they_chat.MessageSerializer.RoundTrip.{deserialize_message-serialize_message}

-- The status of the task that removes the file with the number 258.
abbrev remove_status : Message
remove_status = record {
  net_payload_length = 13;
  payload = Payload.task_status 1 (TaggedTask.remove (record { file_id = 258; remove_all = true }));
}

remove_status_valid : IsMessage remove_status
unfolding payload_length
remove_status_valid = record { payload_valid = (omega arith, omega arith); length_valid = refl }

deserialize_message-serialize_message_example :
    (bs : List ℕ) × (serialize_message little remove_status ≡ some bs)
    × (deserialize_message big (bs ++ 7 ∷ []) ≡ some remove_status)
deserialize_message-serialize_message_example =
    deserialize_message-serialize_message little big remove_status (7 ∷ []) remove_status_valid

serialize_message-wire_example : serialize_message little remove_status ≡ some (wire remove_status)
serialize_message-wire_example = serialize_message-wire little remove_status remove_status_valid

serialize_message_size_example :
    (bs : List ℕ) × (serialize_message big remove_status ≡ some bs)
    × (length bs ≡ 8 + 13)
    × (length bs ≤ max_message_net_size)
serialize_message_size_example = serialize_message_size big remove_status remove_status_valid tt

windows-eq-posix_example :
    (ntoh64_windows little 258 ≡ ntoh64 little 258)
    × (hton64_windows little 258 ≡ hton64 little 258)
windows-eq-posix_example = windows-eq-posix little 258

abbrev blank_chat : UserChatPayload
blank_chat = record {
  username = replicate 32 9;
  text = replicate 512 9;
  ip = replicate 16 0;
  time = 0;
}

abbrev hello : List ℕ
hello = 72 ∷ 105 ∷ []

abbrev ana : List ℕ
ana = 65 ∷ 110 ∷ 97 ∷ []

hello-IsString : IsString hello
hello-IsString = ground arith

ana-IsString : IsString ana
ana-IsString = ground arith

create_user_chat_msg_lem_example :
    ((length hello < max_chat_text_bytes)
      × (m : Message) × (create_user_chat_msg blank_chat 5 hello ana ≡ some m)
      × IsMessage m
      × ChatHolds 5 hello ana m.payload)
    ⊎ ((max_chat_text_bytes ≤ length hello) × (create_user_chat_msg blank_chat 5 hello ana ≡ none))
create_user_chat_msg_lem_example =
    create_user_chat_msg_lem blank_chat 5 hello ana (refl, refl, refl) (omega arith) hello-IsString
      ana-IsString (omega arith)

create_status_msg_lem_example :
    (p : StatusPayload) × ((create_status_msg true (some hello)).payload ≡ Payload.status p)
    × IsMessage (create_status_msg true (some hello))
    × (p.status ≡ true)
    × (c_string p.text ≡ take max_chat_text_bytes hello)
    × (terminated p.text ≡ ltb (length hello) max_chat_text_bytes)
create_status_msg_lem_example = create_status_msg_lem true hello hello-IsString

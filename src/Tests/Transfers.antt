-- ===== src/Tests/Transfers.antt =====
-- A file of one byte, from one host to another.
use they_chat.Base.{
  ℕ, zero, suc, ◌≡◌, refl, ap, List, [], ◌∷◌, ◌++◌, replicate, true, none, some, arith,
}
use they_chat.Bytes.{little, big, store, digits}
use they_chat.CString.{strcpy, memcpy}
use they_chat.CString.Laws.{IsString}
use they_chat.Message.{message_code, payload_type}
use they_chat.Message.Create.{
  create_file_header_message, create_file_content_message, create_file_end_message,
}
use they_chat.MessageSerializer.Wire.{wire, header_bytes, payload_bytes}
use they_chat.NetStream.{init_net_stream}
use they_chat.NetStream.Laws.{content, init_net_stream-IsStream}
use they_chat.NetPrimitives.{NetEvent, SendEvent}
use they_chat.NetPrimitives.Laws.{bytes}
use they_chat.NetCommunication.{done}
use they_chat.NetCommunication.Send.{Steady, Serves}
use they_chat.FileTransfer.{
  OpenFile, filepath_get_filename, filepath_concat, send_file, receive_file,
}
use they_chat.FileTransfer.Messages.{contents_wire, file_wire}
use they_chat.FileTransfer.Send.{send_file-done}
use they_chat.FileTransfer.Receive.{joined}
use they_chat.FileTransfer.RoundTrip.{Finishes, receive_file-send_file}

abbrev pub steady : List SendEvent
steady = replicate 1024 (SendEvent.room 3)

replicate-Steady : (n : ℕ) → Steady (replicate n (SendEvent.room 3))
replicate-Steady zero = tt
replicate-Steady (suc n) = (omega arith, replicate-Steady n)

pub steady-Serves : Serves steady
steady-Serves = (replicate-Steady 1024, omega arith)

-- The path is "a/b".
abbrev pub path : List ℕ
path = 97 ∷ 47 ∷ 98 ∷ []

abbrev name : List ℕ
name = 98 ∷ []

pub name-IsString : IsString name
name-IsString = ground arith

abbrev pub file : OpenFile
file = record { size = 1; reads = (65 ∷ []) ∷ [] }

abbrev pub arrays : ℕ → List ℕ
arrays k = replicate 512 9

abbrev pub header_array : List ℕ
header_array = replicate 64 9

abbrev pub sent_bytes : List ℕ
sent_bytes = file_wire header_array arrays name 1 file.reads

pub sent_file :
    send_file big header_array arrays steady (λ k. steady) steady path (some file) none
    ≡ done sent_bytes
unfolding filepath_get_filename
sent_file =
    send_file-done big arrays (λ k. steady) (λ k. refl) (λ k. steady-Serves) header_array steady
      steady path file none refl name-IsString (omega arith) steady-Serves steady-Serves
      ((omega arith, omega arith), tt)

-- The bytes in two pieces, with one more that follows.
abbrev pub pieces : List NetEvent
pieces =
    NetEvent.arrived 0 (0 ∷ 0 ∷ 3 ∷ 0 ∷ 0 ∷ 0 ∷ 68 ∷ 98 ∷ 0 ∷ replicate 62 9)
    ∷ NetEvent.timed_out
    ∷ NetEvent.arrived 0 (
        0
        ∷ 0
        ∷ 1
        ∷ 0
        ∷ 0
        ∷ 0
        ∷ 4
        ∷ 0
        ∷ 0
        ∷ 2
        ∷ 4
        ∷ 0
        ∷ 0
        ∷ 0
        ∷ 1
        ∷ 65
        ∷ (replicate 511 9 ++ (0 ∷ 0 ∷ 0 ∷ 5 ∷ 0 ∷ 0 ∷ 0 ∷ 0 ∷ 7 ∷ [])))
    ∷ []

pub pieces-wire : content init_net_stream ++ bytes pieces ≡ sent_bytes ++ 7 ∷ []
unfolding file_wire contents_wire wire header_bytes payload_bytes payload_type message_code store
    digits create_file_header_message create_file_content_message create_file_end_message strcpy
    memcpy
pieces-wire = ap (λ b. b ++ bytes pieces) init_net_stream-IsStream.1

-- The receiver writes under the sent name in the folder "d".
receive_file-send_file_example :
    Finishes
      (receive_file 2 little (λ p. true) (some (100 ∷ [])) [] init_net_stream pieces)
      name
      (100 ∷ (47 ∷ name))
      (65 ∷ [])
      (7 ∷ [])
unfolding filepath_get_filename filepath_concat joined
receive_file-send_file_example =
    receive_file-send_file big little arrays (λ k. steady) header_array steady steady path file none
      (λ p. true) (some (100 ∷ [])) [] sent_bytes (7 ∷ []) init_net_stream pieces (λ k. refl)
      (λ k. steady-Serves) refl name-IsString (omega arith) steady-Serves steady-Serves
      ((omega arith, omega arith), tt) refl (omega arith) (omega arith) refl sent_file
      (init_net_stream-IsStream.0, tt, pieces-wire)

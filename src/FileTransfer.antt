-- ===== src/FileTransfer.antt =====
-- common/net/file_transfer.c, with filepath_get_filename and filepath_concat of common/file.c. A
-- file that can be read is what ftell() says at its end and what the calls of fread() give, one
-- after the other, before one gives nothing. The file that is written is the list of its bytes.
pub mod Messages
pub mod Send
pub mod Receive
pub mod RoundTrip
pub mod Opened
use they_chat.Base.{
  ℕ, zero, suc, ◌+◌, ◌%◌, ◌^◌, ◌==◌, Bool, true, false, Option, none, some, List, [], ◌∷◌, ◌++◌,
  ltb, if◌then◌else◌, length, take,
}
use they_chat.Bytes.{Endianness}
use they_chat.CString.{codes, c_string, terminated}
use they_chat.Message.{
  Message, Payload, MessageType, FileHeaderPayload, FileContentPayload, file_content_size,
  max_filepath_size,
}
use they_chat.Message.Create.{
  create_file_header_message, create_file_content_message, create_file_end_message,
}
use they_chat.NetStream.{NetworkStream}
use they_chat.NetPrimitives.{ErrorCode, NetEvent, SendEvent}
use they_chat.NetCommunication.{
  Sending, done, waiting, send_message, Waited, received, wait_for_message_type,
}
use they_chat.StringListTransferring.{prepend, and_then}

abbrev path_separator : ℕ
path_separator = 47

-- What follows the last separator, if there is one.
abbrev after_separator : List ℕ → Option (List ℕ)
after_separator [] = none
after_separator (b ∷ bs) = elim (after_separator bs) [
  | some name ↦ some name
  | none ↦ if b == path_separator then some bs else none
]

unfoldable pub filepath_get_filename : List ℕ → List ℕ
filepath_get_filename path = elim (after_separator path) [ some name ↦ name | none ↦ path ]

unfoldable pub filepath_concat : List ℕ → List ℕ → List ℕ
filepath_concat folder file = folder ++ (path_separator ∷ file)

pub record OpenFile : Type 0 where
  pub size : ℕ
  pub reads : List (List ℕ)

-- A message is built before it is sent; where building it overruns an array, nothing is sent.
abbrev pub send_created : Endianness → Option Message → List SendEvent → Sending
send_created e none events = Sending.overrun
send_created e (some m) events = send_message e m events

-- The loop over what is read. `stack k` is what the array of the k-th message held.
unfoldable pub send_contents :
    Endianness → (ℕ → List ℕ) → (ℕ → List SendEvent) → List (List ℕ) → ℕ → Sending
send_contents e stack events [] k = done []
send_contents e stack events (buffer ∷ reads) k =
    and_then
      (send_created e (create_file_content_message (stack k) buffer (length buffer)) (events k))
      (send_contents e stack events reads (suc k))

-- A call, and the next one whether or not it has an error, which is then forgotten.
abbrev pub always_then : Sending → Sending → Sending
always_then (done out) next = prepend out next
always_then (Sending.failed c out) next = prepend out next
always_then s next = s

abbrev pub sent_name : List ℕ → Option (List ℕ) → List ℕ
sent_name filepath none = filepath_get_filename filepath
sent_name filepath (some override_name) = override_name

-- The file that fopen() gives is `file`. The header's array held `old`.
unfoldable pub send_file :
    Endianness
    → (old : List ℕ) → (stack : ℕ → List ℕ) → (header_events : List SendEvent)
    → (events : ℕ → List SendEvent) → (end_events : List SendEvent) → (filepath : List ℕ)
    → (file : Option OpenFile) → (override_name : Option (List ℕ)) → Sending
send_file e old stack header_events events end_events filepath none override_name =
    Sending.failed ErrorCode.file []
send_file e old stack header_events events end_events filepath (some file) override_name =
    and_then
      (send_created e
        (create_file_header_message old (sent_name filepath override_name) (file.size % 2 ^ 32))
        header_events)
      (always_then (send_contents e stack events file.reads 0)
        (send_message e create_file_end_message end_events))

-- `finished`: the call returned, with its result, the name, the path of the file that was opened
-- and what was written into it;
-- `failed`: it returned before there was a file.
pub data ReceivedFile : Type 0 where
  finished :
      Option ErrorCode → List ℕ → List ℕ → List ℕ → NetworkStream → List NetEvent → ReceivedFile
  failed : ErrorCode → ReceivedFile
  blocked exited out_of_bounds out_of_fuel : ReceivedFile

-- What the loop leaves: `written` also after an error.
pub data Contents : Type 0 where
  written : List ℕ → NetworkStream → List NetEvent → Contents
  blocked exited out_of_bounds out_of_fuel : Contents

-- fwrite() reads `content_size` bytes of the array, whatever the array's size.
abbrev pub chunk_of : Payload → Option (List ℕ)
chunk_of (Payload.file_content p) =
    if ltb (length p.binary_payload) p.content_size
    then none
    else some (take p.content_size p.binary_payload)
chunk_of _ = none

unfoldable pub receive_contents :
    ℕ → Endianness → ℕ → List ℕ → NetworkStream → List NetEvent → Contents
receive_contents zero e size got ns es = Contents.out_of_fuel
receive_contents (suc fuel) e size got ns es =
    let next : Contents = elim (wait_for_message_type e ns MessageType.file_content es) [
      | received m ns' es' ↦ elim (chunk_of m.payload) [
        | some bs ↦ receive_contents fuel e size (got ++ bs) ns' es'
        | none ↦ Contents.out_of_bounds
      ]
      | Waited.failed c ns' es' ↦ written got ns' es'
      | Waited.blocked ↦ Contents.blocked
      | Waited.exited ↦ Contents.exited
      | Waited.out_of_bounds ↦ Contents.out_of_bounds
      | Waited.out_of_fuel ↦ Contents.out_of_fuel
    ] in
    if ltb (length got) size then next else written got ns es

-- The wait for the end, whose result is the call's.
abbrev pub finish : List ℕ → List ℕ → List ℕ → Waited → ReceivedFile
finish name path got (received m ns es) = finished none name path got ns es
finish name path got (Waited.failed c ns es) = finished (some c) name path got ns es
finish name path got Waited.blocked = ReceivedFile.blocked
finish name path got Waited.exited = ReceivedFile.exited
finish name path got Waited.out_of_bounds = ReceivedFile.out_of_bounds
finish name path got Waited.out_of_fuel = ReceivedFile.out_of_fuel

unfoldable pub receive_end : Endianness → List ℕ → List ℕ → Contents → ReceivedFile
receive_end e name path (written got ns es) =
    finish name path got (wait_for_message_type e ns MessageType.file_end es)
receive_end e name path Contents.blocked = ReceivedFile.blocked
receive_end e name path Contents.exited = ReceivedFile.exited
receive_end e name path Contents.out_of_bounds = ReceivedFile.out_of_bounds
receive_end e name path Contents.out_of_fuel = ReceivedFile.out_of_fuel

-- The name that the caller asks for, or the header's; a header's name without a NUL is copied on
-- past its end.
unfoldable pub received_name : List ℕ → FileHeaderPayload → Option (List ℕ)
received_name [] header = if terminated header.name then some (c_string header.name) else none
received_name (b ∷ bs) header = some (b ∷ bs)

abbrev pub received_path : Option (List ℕ) → List ℕ → List ℕ
received_path none name = name
received_path (some folder) name = filepath_concat folder name

-- `opens` says which files fopen() can open for writing.
unfoldable pub receive_named :
    ℕ
    → Endianness
    → (List ℕ → Bool)
    → Option (List ℕ)
    → ℕ
    → Option (List ℕ)
    → NetworkStream
    → List NetEvent
    → ReceivedFile
receive_named fuel e opens folder size none ns es = ReceivedFile.out_of_bounds
receive_named fuel e opens folder size (some name) ns es =
    let path = received_path folder name in
    if ltb (length path) max_filepath_size
    then (if opens path
        then receive_end e name path (receive_contents fuel e size [] ns es)
        else ReceivedFile.failed ErrorCode.file)
    else ReceivedFile.out_of_bounds

abbrev pub receive_headed :
    ℕ
    → Endianness
    → (List ℕ → Bool)
    → Option (List ℕ)
    → List ℕ
    → Payload
    → NetworkStream
    → List NetEvent
    → ReceivedFile
receive_headed fuel e opens folder filename (Payload.file_header header) ns es =
    receive_named fuel e opens folder header.size (received_name filename header) ns es
receive_headed fuel e opens folder filename _ ns es =
    ReceivedFile.failed ErrorCode.net_received_invalid_type

unfoldable pub receive_file :
    ℕ
    → Endianness
    → (List ℕ → Bool)
    → Option (List ℕ)
    → List ℕ
    → NetworkStream
    → List NetEvent
    → ReceivedFile
receive_file fuel e opens folder filename ns es =
    elim (wait_for_message_type e ns MessageType.file_header es) [
      | received m ns' es' ↦ receive_headed fuel e opens folder filename m.payload ns' es'
      | Waited.failed c ns' es' ↦ ReceivedFile.failed c
      | Waited.blocked ↦ ReceivedFile.blocked
      | Waited.exited ↦ ReceivedFile.exited
      | Waited.out_of_bounds ↦ ReceivedFile.out_of_bounds
      | Waited.out_of_fuel ↦ ReceivedFile.out_of_fuel
    ]

-- ===== src/ClientTasks/Downloads.antt =====
-- Statements on a download from the server's task to the client's:
-- server/task/tasks/server_task_download_file.c and
-- client/server_task/tasks/server_task_download_file.c.
use they_chat.Base.{
  ℕ, suc, ◌%◌, ◌^◌, ◌<◌, ◌≡◌, refl, sym, ap, subst, ◌∙◌, ◌++◌, Bool, true, Option, none, some, List,
  [], ◌∷◌, All, length, length-replicate, arith,
}
use they_chat.Bytes.{Endianness}
use they_chat.CString.{codes, c_string}
use they_chat.CString.Laws.{IsString}
use they_chat.Message.{
  Message, MessageType, TaskFileDownloadData, file_content_size, header_name_bytes,
  max_filepath_size, max_chat_text_bytes, message_code, payload_type,
}
use they_chat.Message.IsMessage.{payload_length}
use they_chat.Message.Create.{create_status_msg}
use they_chat.MessageSerializer.Wire.{wire}
use they_chat.NetStream.{NetworkStream}
use they_chat.NetPrimitives.{NetEvent, SendEvent}
use they_chat.NetCommunication.{Sending, done, send_message, received, wait_for_message_type}
use they_chat.NetCommunication.Send.{Serves, send_message-Serves}
use they_chat.StringListTransferring.{and_then}
use they_chat.FileTransfer.{
  OpenFile, send_file, receive_file, received_path, filepath_concat, finished,
}
use they_chat.FileTransfer.Messages.{Travels, IsRead, file_wire}
use they_chat.FileTransfer.Send.{send_file-done}
use they_chat.FileTransfer.Receive.{joined, Leaves, next_message}
use they_chat.FileTransfer.RoundTrip.{receive_file-send_file}
use they_chat.SharedFileList.{SharedFile}
use they_chat.Server.{Files}
use they_chat.ServerTasks.Upload.{header_size}
use they_chat.ServerTasks.Download
use they_chat.ClientTasks
use they_chat.ServerTasks.Download.{
  DownloadText, Download, confirmed, find_download, answer_download,
}
use they_chat.ClientTasks.{
  Entry, TaskEnd, ran, downloaded, downloads_folder_path, of_received, after_status, of_waited,
}

-- The status that is sent before a file.
status-Travels : Travels (some (create_status_msg true none)) MessageType.status
unfolding create_status_msg payload_length payload_type message_code
status-Travels = record {
  message = create_status_msg true none;
  is_created = refl;
  valid = record {
    payload_valid = length-replicate {A = ℕ} max_chat_text_bytes 0;
    length_valid = refl;
  };
  fits_buffer = tt;
  fits_stream = omega arith;
  has_type = refl;
}

done_same : {a b : List ℕ} → done a ≡ done b → a ≡ b
done_same e = cc

module _ (sender receiver : Endianness) (printed : DownloadText → List ℕ)
    (contents : List ℕ → Option OpenFile) (old : List ℕ) (stack : ℕ → List ℕ)
    (status_events header_events : List SendEvent) (events : ℕ → List SendEvent)
    (end_events : List SendEvent) (opens : List ℕ → Bool) (file : SharedFile)
    (opened : OpenFile) where
  abbrev pub status_message : Message
  status_message = create_status_msg true none

  abbrev pub file_bytes : List ℕ
  file_bytes = file_wire old stack (c_string file.filename) (opened.size % 2 ^ 32) opened.reads

  abbrev pub sends_file : Option OpenFile → Sending
  sends_file o =
      send_file sender old stack header_events events end_events (c_string file.filepath) o
        (some (c_string file.filename))

  pub answers :
      (atoi : List ℕ → ℕ) (s : Files) (d : TaskFileDownloadData)
      → find_download atoi s d ≡ confirmed file
      → contents (c_string file.filepath) ≡ some opened
      → Serves status_events
      → sends_file (some opened) ≡ done file_bytes
      → Download.server_task_download_file printed contents sender old stack status_events
          header_events events end_events atoi s d
        ≡ done (wire status_message ++ file_bytes)
  unfolding Download.server_task_download_file
  answers atoi s d found readable serves sent =
      let t = status-Travels in
      let same : status_message ≡ t.message = cc (t.is_created) in
      let status_sent : send_message sender status_message status_events
          ≡ done (wire status_message) =
        subst (λ m. send_message sender m status_events ≡ done (wire m)) (sym same)
          (send_message-Serves sender t.message status_events t.valid t.fits_buffer serves) in
      ap
        (answer_download printed contents sender old stack status_events header_events events
          end_events)
        found
      ∙ ap (λ r. and_then r (sends_file (contents (c_string file.filepath)))) status_sent
      ∙ ap (λ o. and_then (done (wire status_message)) (sends_file o)) readable
      ∙ ap (and_then (done (wire status_message))) sent

  received_lem :
      (fuel : ℕ) (ns ns' ns'' : NetworkStream) (es es' es'' : List NetEvent)
      (name path got : List ℕ) (m : Message)
      → m ≡ status_message
      → wait_for_message_type receiver ns MessageType.status es ≡ received m ns' es'
      → receive_file fuel receiver opens
          (some (downloads_folder_path fuel receiver opens))
          []
          ns'
          es'
        ≡ finished none name path got ns'' es''
      → (size : ℕ) × (ClientTasks.server_task_download_file fuel receiver opens ns es
          ≡ ran (downloaded size name ∷ []) none ((path, got) ∷ []))
  unfolding ClientTasks.server_task_download_file create_status_msg
  received_lem fuel ns ns' ns'' es es' es'' name path got m is_status came finishes =
      let size = header_size (wait_for_message_type receiver ns' MessageType.file_header es') in
      (
        size,
        ap (of_waited (λ x. after_status fuel receiver opens x.payload)) came
            ∙ ap (λ x. after_status fuel receiver opens x.payload ns' es') is_status
            ∙ ap (of_received fuel receiver opens size) finishes,
      )

  -- What the server's task sends for a file that it has found, the client's task takes in: it
  -- writes a file with the bytes of the server's, under the shared name in the folder for
  -- downloads, and ends without an error. The sockets keep taking bytes and the bytes arrive
  -- without errors, cut up in any way. The server can open the file; the arrays on the stack have
  -- their sizes, each fread() gives between 1 and 512 bytes, ftell() gives their sum, which is less
  -- than 2 ^ 32, the shared name holds no NUL and is shorter than 64 bytes, and the client can open
  -- its path, which is shorter than 512 bytes.
  pub server_task_download_file_lem :
      (atoi : List ℕ → ℕ) (s : Files) (d : TaskFileDownloadData) (out rest : List ℕ)
      (ns : NetworkStream) (es : List NetEvent)
      → find_download atoi s d ≡ confirmed file
      → contents (c_string file.filepath) ≡ some opened
      → ((k : ℕ) → length (stack k) ≡ file_content_size)
      → ((k : ℕ) → Serves (events k))
      → length old ≡ header_name_bytes
      → IsString (c_string file.filename)
      → length (c_string file.filename) < header_name_bytes
      → Serves status_events
      → Serves header_events
      → Serves end_events
      → All IsRead opened.reads
      → opened.size ≡ length (joined opened.reads)
      → opened.size < 2 ^ 32
      → length
          (received_path (some (downloads_folder_path 0 receiver opens)) (c_string file.filename))
        < max_filepath_size
      → opens
          (received_path (some (downloads_folder_path 0 receiver opens)) (c_string file.filename))
        ≡ true
      → Download.server_task_download_file printed contents sender old stack status_events
          header_events events end_events atoi s d
        ≡ done out
      → Leaves ns es (out ++ rest)
      → (size : ℕ) × (ClientTasks.server_task_download_file
            (suc (length opened.reads))
            receiver
            opens
            ns
            es
          ≡ ran (downloaded size (c_string file.filename) ∷ []) none (
              (
                filepath_concat (codes "resources/downloads") (c_string file.filename),
                joined opened.reads,
              )
              ∷ []))
  server_task_download_file_lem atoi s d out rest ns es found readable arrays serves o is_string l
        ss hs fs r total small short can_open ran_out leaves =
      let name = c_string file.filename in
      let t = status-Travels in
      let sent =
        send_file-done sender stack events arrays serves old header_events end_events
          (c_string file.filepath) opened (some name) o is_string l hs fs r in
      let same = done_same (sym ran_out ∙ answers atoi s d found readable ss sent) in
      let (ns', es', came, left) =
        next_message receiver t file_bytes rest ns es
          (leaves.0, leaves.1, leaves.2 ∙ ap (λ b. b ++ rest) same) in
      let (ns'', es'', finishes, left') =
        receive_file-send_file sender receiver stack events old header_events end_events
          (c_string file.filepath) opened (some name) opens
          (some (downloads_folder_path 0 receiver opens)) [] file_bytes rest ns' es' arrays serves o
          is_string l hs fs r total small short can_open sent left in
      received_lem (suc (length opened.reads)) ns ns' ns'' es es' es'' name
        (received_path (some (downloads_folder_path 0 receiver opens)) name) (joined opened.reads)
        t.message (cc (t.is_created)) came finishes

-- ===== src/ServerTasks/Download.antt =====
-- server/task/tasks/server_task_download_file.c. `atoi` is what the C library makes of a text, as a
-- uint32_t, and `contents` what a file on the disk gives when it is read.
use they_chat.Base.{ℕ, ◌==◌, true, false, Option, none, some, List, ltb, if◌then◌else◌}
use they_chat.Bytes.{Endianness}
use they_chat.CString.{c_string}
use they_chat.Message.{TaskFileDownloadData}
use they_chat.Message.Create.{create_status_msg}
use they_chat.SharedFileList.{
  SharedFile, shared_file_list_find_by_id, shared_file_list_find_by_name,
  shared_file_list_count_name,
}
use they_chat.Server.{Files}
use they_chat.NetPrimitives.{SendEvent}
use they_chat.NetCommunication.{Sending, send_message}
use they_chat.StringListTransferring.{and_then}
use they_chat.FileTransfer.{OpenFile, send_file}

-- The formats, with their arguments.
pub data DownloadText : Type 0 where
  ambiguous not_in_memory not_on_disk : List ℕ → DownloadText

-- What the request comes to: a status alone, or a status and a file.
pub data Download : Type 0 where
  refused : DownloadText → Download
  confirmed : SharedFile → Download

abbrev pub on_disk : Files → SharedFile → Download
on_disk s file =
    if s.disk.exists (c_string file.filepath)
    then confirmed file
    else refused (not_on_disk (c_string file.filename))

abbrev pub in_memory : Files → List ℕ → Option SharedFile → Download
in_memory s filename none = refused (not_in_memory (c_string filename))
in_memory s filename (some file) = on_disk s file

unfoldable pub find_by_unique_name : Files → List ℕ → Download
find_by_unique_name s filename =
    let filename_count = shared_file_list_count_name s.shared filename in
    if ltb 1 filename_count
    then refused (ambiguous (c_string filename))
    else in_memory s filename
        (if filename_count == 1 then shared_file_list_find_by_name s.shared filename else none)

unfoldable pub find_download : (List ℕ → ℕ) → Files → TaskFileDownloadData → Download
find_download atoi s download_data =
    if download_data.by_id
    then in_memory s download_data.filename
        (shared_file_list_find_by_id s.shared (atoi (c_string download_data.filename)))
    else find_by_unique_name s download_data.filename

-- The arrays and the socket's events are those of `send_file`; `status_events` are met by the
-- status.
module _ (printed : DownloadText → List ℕ) (contents : List ℕ → Option OpenFile) (e : Endianness)
    (old : List ℕ) (stack : ℕ → List ℕ) (status_events header_events : List SendEvent)
    (events : ℕ → List SendEvent) (end_events : List SendEvent) where
  abbrev pub answer_download : Download → Sending
  answer_download (refused text) =
      send_message e (create_status_msg false (some (printed text))) status_events
  answer_download (confirmed file) =
      let path = c_string file.filepath in
      and_then (send_message e (create_status_msg true none) status_events) (
        send_file e old stack header_events events end_events path (contents path)
          (some (c_string file.filename)))

  unfoldable pub server_task_download_file : (List ℕ → ℕ) → Files → TaskFileDownloadData → Sending
  server_task_download_file atoi s download_data =
      answer_download (find_download atoi s download_data)

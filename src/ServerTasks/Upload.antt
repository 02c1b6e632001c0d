-- ===== src/ServerTasks/Upload.antt =====
-- server/task/tasks/server_task_upload_file.c. The call of receive_file lies between two parts, and
-- other threads run meanwhile: `upload_filename` is the part before it, `finish_upload` the one
-- after.
use they_chat.Base.{ℕ, Bool, true, Option, none, some, List, [], ◌∷◌, ltb, length, if◌then◌else◌}
use they_chat.Bytes.{Endianness}
use they_chat.CString.{codes, c_string, str_eq}
use they_chat.Message.{MessageType, Payload, TaskFileUploadData}
use they_chat.Message.Create.{create_server_notification}
use they_chat.ClientList.{Client, client_list_find_by_id}
use they_chat.SharedFileList.{
  SharedFile, SharedFileList, shared_file_init, shared_file_list_add, shared_file_list_get_next_id,
}
use they_chat.NetStream.{NetworkStream}
use they_chat.NetPrimitives.{ErrorCode, NetEvent}
use they_chat.NetCommunication.{Waited, received, wait_for_message_type}
use they_chat.FileTransfer.{ReceivedFile, finished, filepath_concat, receive_file}
use they_chat.World.{World, send_broadcast}

abbrev pub shared_files_location : List ℕ
shared_files_location = codes "resources/uploads"

-- sprintf of the next id into an array of 10 bytes
unfoldable pub upload_filename : (ℕ → List ℕ) → SharedFileList → Option (List ℕ)
upload_filename decimal files =
    let text = decimal (shared_file_list_get_next_id files) in
    if ltb (length text) 10 then some text else none

-- What receive_file stores through its argument `size`, 0 before.
abbrev pub header_size : Waited → ℕ
header_size (received m ns es) = elim m.payload [ Payload.file_header header ↦ header.size | _ ↦ 0 ]
header_size _ = 0

-- The notification's format, with its arguments.
pub record UploadNotice : Type 0 where
  pub name : List ℕ
  pub filename : List ℕ
  pub id : ℕ
  pub size : ℕ

-- What a task comes to. `stuck`: it waits for bytes that do not come.
pub data TaskRun : Type 0 where
  returned : World → Option ErrorCode → TaskRun
  stuck crashed out_of_fuel : TaskRun

-- The assignments through the pointer to the last file of the list.
unfoldable pub set_last : (SharedFile → SharedFile) → List SharedFile → List SharedFile
set_last f [] = []
set_last f (file ∷ []) = f file ∷ []
set_last f (file ∷ (next ∷ files)) = file ∷ set_last f (next ∷ files)

-- What receive_file leaves on the disk: the file that fopen() made, with the bytes written into it.
abbrev pub create_on_disk : List ℕ → List ℕ → World → World
create_on_disk path got w =
    let files = w.files in
    let disk = files.disk in
    record w {
      files = record files {
        disk = record disk {
          exists = λ p. if str_eq p path then true else disk.exists p;
          holds = λ p. if str_eq p path then got else disk.holds p;
        };
      };
    }

-- `block` is what the new file's block holds, `old` an array on the stack, `now` the time.
module _ (printed : UploadNotice → List ℕ) (block : SharedFile) (old : List ℕ) (now : ℕ) where
  abbrev pub share_file : Client → TaskFileUploadData → List ℕ → ℕ → World → World
  share_file client file_upload id_filename file_size w =
      let id_filepath = filepath_concat shared_files_location id_filename in
      let files = w.files in
      let (shared, file) = shared_file_list_add block files.shared in
      let init = λ (f : SharedFile).
        shared_file_init f (c_string file_upload.filename) id_filepath client.id file_size now in
      let shared' = record shared { list = set_last init shared.list } in
      let message = create_server_notification old now (
        some (
          printed (record {
            name = c_string client.name;
            filename = c_string (init file).filename;
            id = (init file).id;
            size = (init file).size;
          }))) in
      send_broadcast message (record w { files = record files { shared = shared' } })

  -- The client's block may have been freed while the file came in.
  unfoldable pub finish_upload : ℕ → TaskFileUploadData → List ℕ → ℕ → World → TaskRun
  finish_upload id file_upload id_filename file_size w =
      elim (client_list_find_by_id (some w.clients) id) [
        | none ↦ crashed
        | some client ↦ returned (share_file client file_upload id_filename file_size w) none
      ]

  abbrev pub after_receiving : ℕ → TaskFileUploadData → List ℕ → ℕ → World → ReceivedFile → TaskRun
  after_receiving id file_upload id_filename file_size w (finished none name path got ns es) =
      finish_upload id file_upload id_filename file_size (create_on_disk path got w)
  after_receiving id file_upload id_filename file_size w (finished (some c) name path got ns es) =
      returned (create_on_disk path got w) (some c)
  after_receiving id file_upload id_filename file_size w (ReceivedFile.failed c) =
      returned w (some c)
  after_receiving id file_upload id_filename file_size w ReceivedFile.blocked = stuck
  after_receiving id file_upload id_filename file_size w ReceivedFile.exited = crashed
  after_receiving id file_upload id_filename file_size w ReceivedFile.out_of_bounds = crashed
  after_receiving id file_upload id_filename file_size w ReceivedFile.out_of_fuel = out_of_fuel

  -- `before` is the world when the task begins, `w` the one when the file has come in.
  unfoldable pub server_task_upload_file :
      (ℕ → List ℕ)
      → ℕ
      → Endianness
      → (List ℕ → Bool)
      → NetworkStream
      → List NetEvent
      → ℕ
      → TaskFileUploadData
      → World
      → World
      → TaskRun
  server_task_upload_file decimal fuel e opens ns es id file_upload before w =
      elim (upload_filename decimal before.files.shared) [
        | none ↦ crashed
        | some id_filename ↦
            after_receiving id file_upload id_filename
              (header_size (wait_for_message_type e ns MessageType.file_header es)) w
              (receive_file fuel e opens (some shared_files_location) id_filename ns es)
      ]

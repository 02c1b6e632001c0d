-- ===== src/ServerTasks/Uploads.antt =====
-- Statements on server/task/tasks/server_task_upload_file.c, and on a download of what it shares.
use they_chat.Base.{ℕ, ◌≡◌, refl, ap, ◌==◌, Bool, true, some, List, [], ◌∷◌, ◌++◌, if◌then◌else◌}
use they_chat.Bytes.{Endianness}
use they_chat.CString.{c_string}
use they_chat.Message.{MessageType, TaskFileUploadData}
use they_chat.ClientList.{Client}
use they_chat.SharedFileList.{
  SharedFile, SharedFileList, shared_file_init, shared_file_list_find_by_id,
}
use they_chat.SharedFileList.Laws.{IsFileList}
use they_chat.NetStream.{NetworkStream}
use they_chat.NetPrimitives.{NetEvent}
use they_chat.NetCommunication.{wait_for_message_type}
use they_chat.FileTransfer.{filepath_concat}
use they_chat.ServerTasks.Upload.{
  UploadNotice, set_last, create_on_disk, shared_files_location, header_size, share_file,
}
use they_chat.World.{World}

abbrev pub upload_path : List ℕ → List ℕ
upload_path name = filepath_concat shared_files_location name

pub set_last-append :
    (f : SharedFile → SharedFile) (files : List SharedFile) (file : SharedFile)
    → set_last f (files ++ file ∷ []) ≡ files ++ f file ∷ []
unfolding set_last
set_last-append f [] file = refl
set_last-append f (x ∷ []) file = refl
set_last-append f (x ∷ (y ∷ files)) file = ap (λ t. x ∷ t) (set_last-append f (y ∷ files) file)

module _ (printed : UploadNotice → List ℕ) (block : SharedFile) (old : List ℕ) (now : ℕ)
    (decimal : ℕ → List ℕ) (fuel : ℕ) (e : Endianness) (opens : List ℕ → Bool) (ns : NetworkStream)
    (es : List NetEvent) (id : ℕ) (d : TaskFileUploadData) where
  -- The file of number `n` that the list has after the task.
  abbrev pub shared_as : Client → List ℕ → ℕ → SharedFile
  shared_as client name n =
      shared_file_init (record block { id = n }) (c_string d.filename) (upload_path name) client.id
        (header_size (wait_for_message_type e ns MessageType.file_header es)) now

  abbrev pub shared_world : Client → (name path got : List ℕ) → World → World
  shared_world client name path got w =
      share_file printed block old now client d name
        (header_size (wait_for_message_type e ns MessageType.file_header es))
        (create_on_disk path got w)

  -- `name` is what the path ends in, `got` what came in.
  pub record Shares (client : Client) (name got : List ℕ) (w w' : World) (file : SharedFile)
      : Type 0 where
    pub number : file.id ≡ w.files.shared.next_file_id
    pub path : c_string file.filepath ≡ upload_path name
    pub filename : c_string file.filename ≡ c_string d.filename
    pub owner : file.client_id ≡ client.id
    pub on_disk : w'.files.disk.exists (upload_path name) ≡ true
    pub bytes : w'.files.disk.holds (upload_path name) ≡ got
    pub valid : IsFileList w'.files.shared
    pub found :
        (j : ℕ)
        → shared_file_list_find_by_id w'.files.shared j ≡ (
            if w.files.shared.next_file_id == j
            then some file
            else shared_file_list_find_by_id w.files.shared j)

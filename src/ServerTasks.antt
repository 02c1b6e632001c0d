-- ===== src/ServerTasks.antt =====
-- server/task/tasks/server_task_remove_file.c: a client asks to remove one of its files or all of
-- them. What a format and its arguments print as is the argument `printed`, and `send_status` is
-- the call of send_message on the client's task connection, up to its result.
pub mod Remove
pub mod Listing
pub mod Lists
pub mod Upload
pub mod Uploads
pub mod Download
pub mod Downloads
use they_chat.Base.{
  ℕ, ◌==◌, Bool, true, false, Option, none, some, List, [], ◌∷◌, if◌then◌else◌, ltb, length,
}
use they_chat.CString.{c_string}
use they_chat.Message.{Message, TaskRemoveFileData, max_filename_size}
use they_chat.Message.Create.{create_status_msg, create_server_notification}
use they_chat.NetPrimitives.{ErrorCode}
use they_chat.ClientList.{Client}
use they_chat.SharedFileList.{SharedFile, shared_file_list_find_by_id}
use they_chat.Server.{Files, server_remove_client_files, server_remove_shared_file}

-- The formats of the function, with their arguments.
pub data Text : Type 0 where
  no_uploads : List ℕ → Text
  removed_count : ℕ → Text
  client_removed_count : List ℕ → ℕ → Text
  no_such_file : ℕ → Text
  not_permitted : ℕ → Text
  client_removed_file : List ℕ → List ℕ → Text
  file_removed : List ℕ → Text
  unable_to_remove : List ℕ → Text

-- What goes out, in order: to the client, or to all others.
pub data Action : Type 0 where
  reply : Message → Action
  broadcast_exclude : Message → Action

-- What the task changes and says, and its result; `none` is a write past the end of an array.
abbrev pub Removal : Type 0
Removal = Option (Files × (List Action × Option ErrorCode))

-- `now` and `old` are the time and the array that a notification starts from.
module _ (printed : Text → List ℕ) (now : ℕ) (old : List ℕ)
    (send_status : Message → Option ErrorCode) where
  abbrev pub status_message : Bool → Text → Message
  status_message ok text = create_status_msg ok (some (printed text))

  abbrev pub notification : Text → Message
  notification text = create_server_notification old now (some (printed text))

  -- The broadcast after the status, unless that failed.
  abbrev pub reply_then_tell : Option ErrorCode → Message → Message → List Action × Option ErrorCode
  reply_then_tell none status notice = (reply status ∷ broadcast_exclude notice ∷ [], none)
  reply_then_tell (some c) status notice = (reply status ∷ [], some c)

  abbrev pub all_removed : Client → ℕ → List Action × Option ErrorCode
  all_removed client count =
      let failure = status_message false (no_uploads (c_string client.name)) in
      let success = status_message true (removed_count count) in
      let notice = notification (client_removed_count (c_string client.name) count) in
      if count == 0
      then (reply failure ∷ [], send_status failure)
      else reply_then_tell (send_status success) success notice

  unfoldable pub remove_all : Files → Client → Files × (List Action × Option ErrorCode)
  remove_all s client =
      let (s', count) = server_remove_client_files s client.id in (s', all_removed client count)

  -- What is said after the removal, and what the status call returns.
  abbrev pub one_removed : Client → List ℕ → Option ErrorCode → List Action × Option ErrorCode
  one_removed client filename none =
      let status = status_message true (file_removed filename) in
      let notice = notification (client_removed_file (c_string client.name) filename) in
      (broadcast_exclude notice ∷ reply status ∷ [], send_status status)
  one_removed client filename (some c) =
      let status = status_message false (unable_to_remove filename) in
      (reply status ∷ [], send_status status)

  abbrev pub refuse : Files → Text → Removal
  refuse s text =
      let status = status_message false text in some (s, (reply status ∷ [], send_status status))

  -- strcpy() copies the name into an array of its own before the file is freed.
  abbrev pub remove_listed_file : Files → Client → SharedFile → Removal
  remove_listed_file s client file =
      let (s', err) = server_remove_shared_file s file.id in
      let filename = c_string file.filename in
      if ltb (length filename) max_filename_size
      then some (s', one_removed client filename err)
      else none

  unfoldable pub remove_by_id : Files → Client → ℕ → Removal
  remove_by_id s client file_id = elim (shared_file_list_find_by_id s.shared file_id) [
    | none ↦ refuse s (no_such_file file_id)
    | some file ↦
        if file.client_id == client.id
        then remove_listed_file s client file
        else refuse s (not_permitted file.id)
  ]

  unfoldable pub server_task_remove_file : Files → Client → TaskRemoveFileData → Removal
  server_task_remove_file s client data' =
      if data'.remove_all then some (remove_all s client) else remove_by_id s client data'.file_id

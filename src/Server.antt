-- ===== src/Server.antt =====
-- The parts of server/server.c that take shared files away: server_remove_shared_file,
-- server_remove_client_files and remove_all_shared_files. The loops run over an iterator that has
-- moved on from a file before that file is removed, so they meet the files that the list held when
-- the loop began.
pub mod RemoveFiles
use they_chat.Base.{
  ℕ, ◌+◌, ◌%◌, ◌^◌, ◌==◌, Bool, true, false, Option, none, some, List, [], ◌∷◌, if◌then◌else◌,
}
use they_chat.NetPrimitives.{ErrorCode}
use they_chat.SharedFileList.{
  SharedFile, SharedFileList, Disk, shared_file_remove_from_disk, shared_file_list_find_by_id,
  shared_file_list_remove,
}

-- What the removals change.
pub record Files : Type 0 where
  pub shared : SharedFileList
  pub disk : Disk

abbrev pub remove_listed : Files → SharedFile → Files × Option ErrorCode
remove_listed s file =
    let (shared, removed) = shared_file_list_remove s.shared file.id in
    (record s { shared = shared }, if removed then none else some ErrorCode.file)

abbrev pub after_disk : Files → SharedFile → Disk × Option ErrorCode → Files × Option ErrorCode
after_disk s file (disk, some c) = (record s { disk = disk }, some c)
after_disk s file (disk, none) = remove_listed (record s { disk = disk }) file

abbrev pub remove_file : Files → SharedFile → Files × Option ErrorCode
remove_file s file = after_disk s file (shared_file_remove_from_disk s.disk file)

unfoldable pub server_remove_shared_file : Files → ℕ → Files × Option ErrorCode
server_remove_shared_file s id = elim (shared_file_list_find_by_id s.shared id) [
  | none ↦ (s, some ErrorCode.file)
  | some file ↦ remove_file s file
]

abbrev pub counted : Option ErrorCode → ℕ → ℕ
counted none n = (n + 1) % 2 ^ 32
counted (some c) n = n

-- The loop over the files that are still to come, with the count so far.
unfoldable pub remove_client_loop : ℕ → List SharedFile → Files → ℕ → Files × ℕ
remove_client_loop client_id [] s n = (s, n)
remove_client_loop client_id (file ∷ files) s n =
    let hit : Files × ℕ =
      let (s', err) = server_remove_shared_file s file.id in
      remove_client_loop client_id files s' (counted err n) in
    let miss : Files × ℕ = remove_client_loop client_id files s n in
    if file.client_id == client_id then hit else miss

unfoldable pub server_remove_client_files : Files → ℕ → Files × ℕ
server_remove_client_files s client_id = remove_client_loop client_id s.shared.list s 0

unfoldable pub remove_all_loop : List SharedFile → Files → Files
remove_all_loop [] s = s
remove_all_loop (file ∷ files) s = remove_all_loop files (server_remove_shared_file s file.id).0

unfoldable pub remove_all_shared_files : Files → Files
remove_all_shared_files s = remove_all_loop s.shared.list s

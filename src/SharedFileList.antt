-- ===== src/SharedFileList.antt =====
-- server/shared_file.c and server/shared_file_list.c. A file that `linked_list_add` makes room for
-- is not initialised: `old` is what the block holds. The disk is what access() and remove() answer.
pub mod Laws
use they_chat.Base.{
  ℕ, ◌+◌, ◌%◌, ◌^◌, ◌==◌, Bool, true, false, Option, none, some, List, [], ◌∷◌, ◌++◌, if◌then◌else◌,
}
use they_chat.CString.{c_string, str_eq, strncpy}
use they_chat.Message.{max_filename_size, max_filepath_size}
use they_chat.NetPrimitives.{ErrorCode}
use they_chat.Sequence.{remove_at, find_index, find, count}

pub record SharedFile : Type 0 where
  pub id : ℕ
  pub filepath : List ℕ
  pub filename : List ℕ
  pub size : ℕ
  pub shared_time : ℕ
  pub client_id : ℕ

-- The size comes as a uint32_t, although the field and the caller's variable have 64 bits.
unfoldable pub shared_file_init : SharedFile → List ℕ → List ℕ → ℕ → ℕ → (now : ℕ) → SharedFile
shared_file_init file filename filepath client_id size now = record file {
  filename = strncpy filename max_filename_size;
  filepath = strncpy filepath max_filepath_size;
  shared_time = now;
  size = size % 2 ^ 32;
  client_id = client_id;
}

-- The names of the files that exist, those that remove() fails on, and the bytes of a file.
pub record Disk : Type 0 where
  pub exists : List ℕ → Bool
  pub locked : List ℕ → Bool
  pub holds : List ℕ → List ℕ

-- common/file.c, file_remove
unfoldable pub file_remove : Disk → List ℕ → Disk × Option ErrorCode
file_remove disk path =
    if disk.exists path
    then (if disk.locked path
        then (disk, some ErrorCode.file)
        else (record disk { exists = λ p. if str_eq p path then false else disk.exists p }, none))
    else (disk, some ErrorCode.file)

unfoldable pub shared_file_remove_from_disk : Disk → SharedFile → Disk × Option ErrorCode
shared_file_remove_from_disk disk file =
    let path = c_string file.filepath in
    if disk.exists path then file_remove disk path else (disk, some ErrorCode.file)

pub record SharedFileList : Type 0 where
  pub list : List SharedFile
  pub next_file_id : ℕ

unfoldable pub shared_file_list_create : SharedFileList
shared_file_list_create = record { list = []; next_file_id = 0 }

unfoldable pub shared_file_list_add : SharedFile → SharedFileList → SharedFileList × SharedFile
shared_file_list_add old fl =
    let file = record old { id = fl.next_file_id } in
    (record { list = fl.list ++ file ∷ []; next_file_id = (fl.next_file_id + 1) % 2 ^ 32 }, file)

abbrev pub has_id : ℕ → SharedFile → Bool
has_id k f = f.id == k

unfoldable pub shared_file_list_remove : SharedFileList → ℕ → SharedFileList × Bool
shared_file_list_remove fl id = elim (find_index (has_id id) 0 fl.list) [
  | none ↦ (fl, false)
  | some i ↦ let (removed, rest) = remove_at i fl.list in (record fl { list = rest }, removed)
]

unfoldable pub shared_file_list_get_next_id : SharedFileList → ℕ
shared_file_list_get_next_id fl = fl.next_file_id

unfoldable pub shared_file_list_find_by_id : SharedFileList → ℕ → Option SharedFile
shared_file_list_find_by_id fl id = find (has_id id) fl.list

abbrev pub has_name : List ℕ → SharedFile → Bool
has_name name f = str_eq (c_string f.filename) (c_string name)

unfoldable pub shared_file_list_find_by_name : SharedFileList → List ℕ → Option SharedFile
shared_file_list_find_by_name fl name = find (has_name name) fl.list

unfoldable pub shared_file_list_count_name : SharedFileList → List ℕ → ℕ
shared_file_list_count_name fl name = count (has_name name) 0 fl.list

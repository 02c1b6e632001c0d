-- ===== src/ThreadNames.antt =====
-- The names of threads in common/they_chat_error.c: set_thread_name, get_thread_name and
-- unregister_thread. The list is NULL until the first name is set; a thread is a number. `none` is
-- a name that is written past the end of its array, whose former bytes are `old`.
pub mod Laws
use they_chat.Base.{ℕ, ◌==◌, Bool, Option, none, some, List, [], ◌∷◌, ◌++◌}
use they_chat.CString.{codes, c_string, strcpy}
use they_chat.Sequence.{remove_at, find_index, find}

pub record ThreadInfo : Type 0 where
  pub tid : ℕ
  pub name : List ℕ

abbrev pub has_tid : ℕ → ThreadInfo → Bool
has_tid tid info = info.tid == tid

abbrev pub created : Option (List ThreadInfo) → List ThreadInfo
created none = []
created (some infos) = infos

abbrev pub add_named : Option (List ThreadInfo) → ℕ → Option (List ℕ) → Option (List ThreadInfo)
add_named infos tid none = none
add_named infos tid (some name) = some (created infos ++ record { tid = tid; name = name } ∷ [])

unfoldable pub set_thread_name :
    List ℕ → Option (List ThreadInfo) → ℕ → List ℕ → Option (List ThreadInfo)
set_thread_name old infos tid name = add_named infos tid (strcpy old name)

abbrev pub name_of : Option ThreadInfo → List ℕ
name_of none = codes "Unnamed"
name_of (some info) = c_string info.name

unfoldable pub get_thread_name : Option (List ThreadInfo) → ℕ → List ℕ
get_thread_name none tid = codes "Unnamed"
get_thread_name (some infos) tid = name_of (find (has_tid tid) infos)

abbrev pub remove_found_at : Option ℕ → List ThreadInfo → List ThreadInfo
remove_found_at none infos = infos
remove_found_at (some i) infos = (remove_at i infos).1

unfoldable pub unregister_thread : Option (List ThreadInfo) → ℕ → Option (List ThreadInfo)
unregister_thread none tid = none
unregister_thread (some infos) tid = some (remove_found_at (find_index (has_tid tid) 0 infos) infos)

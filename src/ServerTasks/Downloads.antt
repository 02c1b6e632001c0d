-- ===== src/ServerTasks/Downloads.antt =====
-- Statements on server/task/tasks/server_task_download_file.c.
use they_chat.Base.{
  ℕ, ◌≡◌, ap, subst, ◌==◌, ==_iff, true, false, Bool-cases, ◌⊎◌, inl, inr, Option, none, some, List,
  ◌∷◌, ◌++◌, All, ltb,
}
use they_chat.CString.{c_string}
use they_chat.Message.{TaskFileDownloadData}
use they_chat.SharedFileList.{
  SharedFile, has_name, shared_file_list_find_by_id, shared_file_list_count_name,
}
use they_chat.SharedFileList.Laws.{count_name-one}
use they_chat.Server.{Files}
use they_chat.ServerTasks.Download.{
  confirmed, on_disk, in_memory, find_by_unique_name, find_download,
}

on_disk-confirmed :
    (s : Files) (found file : SharedFile)
    → on_disk s found ≡ confirmed file
    → (found ≡ file) × (s.disk.exists (c_string found.filepath) ≡ true)
on_disk-confirmed s found file h = elim (Bool-cases (s.disk.exists (c_string found.filepath))) [
  | inl there ↦ (cc (rw there at h), there)
  | inr gone ↦ cc (rw gone at h)
]

in_memory-confirmed :
    (s : Files) (filename : List ℕ) (o : Option SharedFile) (file : SharedFile)
    → in_memory s filename o ≡ confirmed file
    → (o ≡ some file) × (s.disk.exists (c_string file.filepath) ≡ true)
in_memory-confirmed s filename none file h = cc h
in_memory-confirmed s filename (some found) file h =
    let (same, there) = on_disk-confirmed s found file h in
    (ap some same, subst (λ f. s.disk.exists (c_string f.filepath) ≡ true) same there)

-- The file is the only one of its name.
abbrev pub UniqueUnder : List ℕ → Files → SharedFile → Type 0
UniqueUnder filename s file =
    (before : List SharedFile) × (behind : List SharedFile) × (s.shared.list
      ≡ before ++ file ∷ behind)
    × (has_name filename file ≡ true)
    × All (λ f. has_name filename f ≡ false) (before ++ behind)

by_name-confirmed :
    (s : Files) (filename : List ℕ) (file : SharedFile)
    → find_by_unique_name s filename ≡ confirmed file
    → UniqueUnder filename s file × (s.disk.exists (c_string file.filepath) ≡ true)
unfolding find_by_unique_name
by_name-confirmed s filename file h =
    elim (Bool-cases (ltb 1 (shared_file_list_count_name s.shared filename))) [
      | inl many ↦ cc (rw many at h)
      | inr few ↦ elim (Bool-cases (shared_file_list_count_name s.shared filename == 1)) [
        | inl one ↦
            let (found, there) = in_memory-confirmed s filename _ file (rw (few, one) at h) in
            let (before, f, behind, finds, parts, named, others) =
              count_name-one s.shared filename ((==_iff _ 1).0 one) in
            let same : f ≡ file = cc (finds, found) in
            (
              (
                before,
                behind,
                subst (λ x. s.shared.list ≡ before ++ x ∷ behind) same parts,
                subst (λ x. has_name filename x ≡ true) same named,
                others,
              ),
              there,
            )
        | inr other ↦ cc (rw (few, other) at h)
      ]
    ]

-- A file is sent only if it is on the disk, and either it was asked for by its number, or it is the
-- only file of the list that has the name that was asked for.
pub find_download-confirmed :
    (atoi : List ℕ → ℕ) (s : Files) (d : TaskFileDownloadData) (file : SharedFile)
    → find_download atoi s d ≡ confirmed file
    → (s.disk.exists (c_string file.filepath) ≡ true)
      × (((d.by_id ≡ true)
            × (shared_file_list_find_by_id s.shared (atoi (c_string d.filename)) ≡ some file))
          ⊎ ((d.by_id ≡ false) × UniqueUnder d.filename s file))
unfolding find_download
find_download-confirmed atoi s d file h = elim (Bool-cases d.by_id) [
  | inl number ↦
      let (found, there) = in_memory-confirmed s d.filename _ file (rw number at h) in
      (there, inl (number, found))
  | inr name ↦
      let (unique, there) = by_name-confirmed s d.filename file (rw name at h) in
      (there, inr (name, unique))
]

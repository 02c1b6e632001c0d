-- ===== src/Server/RemoveFiles.antt =====
-- Statements on server_remove_client_files of server/server.c.
use they_chat.Base.{
  ℕ, ◌+◌, ◌%◌, ◌^◌, ◌<◌, ◌≡◌, ◌≢◌, inl, inr, refl, sym, ap, subst, ◌∙◌, ◌==◌, true, Bool-cases,
  Option, none, some, List, [], ◌∷◌, ◌++◌, append_assoc, All, length, if◌then◌else◌, arith,
}
use they_chat.NetPrimitives.{ErrorCode}
use they_chat.Sequence.{find}
use they_chat.Sequence.Laws.{erase, Distinct, find-middle}
use they_chat.SharedFileList.{
  SharedFile, Disk, has_id, shared_file_remove_from_disk, shared_file_list_find_by_id,
}
use they_chat.SharedFileList.Laws.{file_key, remove_lem}
use they_chat.Server.{
  Files, after_disk, remove_file, server_remove_shared_file, counted, remove_client_loop,
  server_remove_client_files,
}

-- The files of the other clients.
unfoldable pub others : ℕ → List SharedFile → List SharedFile
others client_id [] = []
others client_id (f ∷ fs) =
    let rest = others client_id fs in if f.client_id == client_id then rest else f ∷ rest

-- One removal, at a file between others: either the disk refuses, with an error, and the list
-- stays, or there is no error and exactly that file is gone from the list.
abbrev pub RemovesOne :
    List SharedFile → SharedFile → List SharedFile → Files × Option ErrorCode → Type 0
RemovesOne kept file files (s, some c) = s.shared.list ≡ kept ++ (file ∷ files)
RemovesOne kept file files (s, none) = s.shared.list ≡ kept ++ files

pub server_remove_shared_file-RemovesOne :
    (s : Files) (kept : List SharedFile) (file : SharedFile) (files : List SharedFile)
    → s.shared.list ≡ kept ++ (file ∷ files)
    → Distinct file_key (kept ++ (file ∷ files))
    → RemovesOne kept file files (server_remove_shared_file s file.id)
unfolding server_remove_shared_file shared_file_list_find_by_id
server_remove_shared_file-RemovesOne s kept file files e d =
    let (found, erased) = find-middle file_key kept file files d in
    let here : find (has_id file.id) s.shared.list ≡ some file =
      ap (find (has_id file.id)) e ∙ found in
    subst (RemovesOne kept file files) (sym (step here))
      (after (shared_file_remove_from_disk s.disk file) here erased)
  where
    step :
        find (has_id file.id) s.shared.list ≡ some file
        → server_remove_shared_file s file.id ≡ remove_file s file
    step here = rw (here, server_remove_shared_file)

    after :
        (r : Disk × Option ErrorCode)
        → find (has_id file.id) s.shared.list ≡ some file
        → erase (has_id file.id) (kept ++ (file ∷ files)) ≡ kept ++ files
        → RemovesOne kept file files (after_disk s file r)
    after (disk, some c) here erased = e
    after (disk, none) here erased =
        rw (remove_lem s.shared file.id, here) (ap (erase (has_id file.id)) e ∙ erased)

-- What the loop leaves of the files that were to come.
pub record Clears (client_id : ℕ) (kept files : List SharedFile) (n : ℕ) (r : Files × ℕ)
    : Type 0 where
  pub left : List SharedFile
  pub list_left : r.0.shared.list ≡ kept ++ left
  pub others_left : others client_id left ≡ others client_id files
  pub count_left : r.1 + length left ≡ n + length files

Distinct-drop :
    (kept : List SharedFile) (file : SharedFile) (files : List SharedFile)
    → Distinct file_key (kept ++ (file ∷ files))
    → Distinct file_key (kept ++ files)
Distinct-drop [] file files d = d.1
Distinct-drop (k ∷ kept) file files d = (weaken kept d.0, Distinct-drop kept file files d.1)
  where
    weaken :
        (xs : List SharedFile)
        → All (λ y. file_key k ≢ file_key y) (xs ++ (file ∷ files))
        → All (λ y. file_key k ≢ file_key y) (xs ++ files)
    weaken [] a = a.1
    weaken (x ∷ xs) a = (a.0, weaken xs a.1)

-- Every start from which the loop over `files` is known to do what it should.
abbrev Continues : ℕ → List SharedFile → Type 0
Continues client_id files =
    (kept : List SharedFile) (s : Files) (n : ℕ)
    → s.shared.list ≡ kept ++ files
    → Distinct file_key (kept ++ files)
    → n + length files < 2 ^ 32
    → Clears client_id kept files n (remove_client_loop client_id files s n)

others-hit :
    (client_id : ℕ) (file : SharedFile) (files : List SharedFile)
    → (file.client_id == client_id) ≡ true
    → others client_id (file ∷ files) ≡ others client_id files
unfolding others
others-hit client_id file files h = rw h

others-same :
    (client_id : ℕ) (file : SharedFile) (left files : List SharedFile)
    → others client_id left ≡ others client_id files
    → others client_id (file ∷ left) ≡ others client_id (file ∷ files)
unfolding others
others-same client_id file left files h =
    ap (λ rest. if file.client_id == client_id then rest else file ∷ rest) h

move :
    (kept : List SharedFile) (file : SharedFile) (files : List SharedFile)
    → kept ++ (file ∷ files) ≡ (kept ++ file ∷ []) ++ files
move kept file files = sym (append_assoc kept (file ∷ []) files)

-- A file that stays on the list joins the kept ones.
stays :
    (client_id : ℕ) (kept : List SharedFile) (file : SharedFile) (files : List SharedFile)
    (s : Files) (n : ℕ)
    → Continues client_id files
    → s.shared.list ≡ kept ++ (file ∷ files)
    → Distinct file_key (kept ++ (file ∷ files))
    → n + length (file ∷ files) < 2 ^ 32
    → Clears client_id kept (file ∷ files) n (remove_client_loop client_id files s n)
stays client_id kept file files s n ih e d small =
    let r : Clears client_id (kept ++ file ∷ []) files n (remove_client_loop client_id files s n) =
      ih (kept ++ file ∷ []) s n (e ∙ move kept file files)
        (subst (Distinct file_key) (move kept file files) d) (omega (arith, small)) in
    record {
      left = file ∷ r.left;
      list_left = r.list_left ∙ sym (move kept file r.left);
      others_left = others-same client_id file r.left files r.others_left;
      count_left = omega (arith, r.count_left);
    }

goes :
    (client_id : ℕ) (kept : List SharedFile) (file : SharedFile) (files : List SharedFile)
    (r : Files × Option ErrorCode) (n : ℕ)
    → Continues client_id files
    → (file.client_id == client_id) ≡ true
    → RemovesOne kept file files r
    → Distinct file_key (kept ++ (file ∷ files))
    → n + length (file ∷ files) < 2 ^ 32
    → Clears client_id kept
        (file ∷ files)
        n
        (remove_client_loop client_id files r.0 (counted r.1 n))
goes client_id kept file files (s, some c) n ih h e d small =
    stays client_id kept file files s n ih e d small
goes client_id kept file files (s, none) n ih h e d small =
    let fits : (n + 1) % 2 ^ 32 ≡ n + 1 = omega (arith, small) in
    let r : Clears client_id kept files ((n + 1) % 2 ^ 32)
        (remove_client_loop client_id files s ((n + 1) % 2 ^ 32)) =
      ih kept s ((n + 1) % 2 ^ 32) e (Distinct-drop kept file files d) (omega (arith, small)) in
    record {
      left = r.left;
      list_left = r.list_left;
      others_left = r.others_left ∙ sym (others-hit client_id file files h);
      count_left = omega (arith, fits, r.count_left);
    }

remove_client_loop-Clears : (client_id : ℕ) (files : List SharedFile) → Continues client_id files
unfolding remove_client_loop
remove_client_loop-Clears client_id [] kept s n e d small = record {
  left = [];
  list_left = e;
  others_left = refl;
  count_left = refl;
}
remove_client_loop-Clears client_id (file ∷ files) kept s n e d small =
    elim (Bool-cases (file.client_id == client_id)) [
      | inl hit ↦ rw hit (
          goes client_id kept file files (server_remove_shared_file s file.id) n
            (remove_client_loop-Clears client_id files) hit
            (server_remove_shared_file-RemovesOne s kept file files e d) d small)
      | inr miss ↦ rw miss (
          stays client_id kept file files s n (remove_client_loop-Clears client_id files) e d small)
    ]

-- When a client leaves, the files of every other client stay on the list, in their order, and the
-- count that is returned is the number of files that have gone. The file numbers are distinct, and
-- there are fewer than 2 ^ 32 files; the disk may refuse any of the removals.
pub server_remove_client_files_lem :
    (s : Files) (client_id : ℕ)
    → Distinct file_key s.shared.list
    → length s.shared.list < 2 ^ 32
    → (others client_id (server_remove_client_files s client_id).0.shared.list
        ≡ others client_id s.shared.list)
      × ((server_remove_client_files s client_id).1
            + length (server_remove_client_files s client_id).0.shared.list
          ≡ length s.shared.list)
unfolding server_remove_client_files
server_remove_client_files_lem s client_id d small =
    let r : Clears client_id [] s.shared.list 0 (remove_client_loop client_id s.shared.list s 0) =
      remove_client_loop-Clears client_id s.shared.list [] s 0 refl d (omega (arith, small)) in
    (
      ap (others client_id) r.list_left ∙ r.others_left,
      omega (arith, r.count_left, ap length r.list_left),
    )

-- ===== src/ServerTasks/Remove.antt =====
-- Statements on server/task/tasks/server_task_remove_file.c.
use they_chat.Base.{
  ℕ, ◌^◌, ◌<◌, ◌≡◌, refl, sym, ap, subst, ◌∙◌, ◌==◌, true, Bool-cases, inl, inr, Option, none, some,
  Option-cases, List, [], ◌∷◌, ◌++◌, length, if◌then◌else◌, ◌+◌, ltb, lt→ltb, le→ltb, Bool, false,
  All, length-append, arith,
}
use they_chat.Message.{Message, TaskRemoveFileData, max_filename_size}
use they_chat.Message.Create.{create_status_msg}
use they_chat.CString.{c_string}
use they_chat.NetPrimitives.{ErrorCode}
use they_chat.ClientList.{Client}
use they_chat.Sequence.Laws.{Distinct, find-split, find-All}
use they_chat.SharedFileList.{SharedFile, has_id, shared_file_list_find_by_id}
use they_chat.SharedFileList.Laws.{file_key}
use they_chat.Server.{Files, server_remove_client_files, server_remove_shared_file}
use they_chat.Server.RemoveFiles.{
  others, RemovesOne, server_remove_shared_file-RemovesOne, server_remove_client_files_lem,
}
use they_chat.ServerTasks.{
  not_permitted, all_removed, reply_then_tell, status_message, notification, removed_count,
  client_removed_count, no_uploads, no_such_file, file_removed, unable_to_remove, Text, Removal,
  Action, reply, broadcast_exclude, remove_all, remove_listed_file, remove_by_id, refuse,
  one_removed, server_task_remove_file,
}

-- The lists have the same files of other clients, in the same order.
abbrev pub SparesOthers : ℕ → Files → Files → Type 0
SparesOthers client_id s s' = others client_id s'.shared.list ≡ others client_id s.shared.list

-- The messages that the client gets.
abbrev pub replies : List Action → List Message
replies [] = []
replies (reply m ∷ actions) = m ∷ replies actions
replies (broadcast_exclude m ∷ actions) = replies actions

-- The same of a removal that comes to its end.
abbrev pub SparesRemoval : ℕ → Files → Removal → Type 0
SparesRemoval client_id s none = Unit
SparesRemoval client_id s (some r) = SparesOthers client_id s r.0

-- One message goes back: a status that says success exactly if the list of files got shorter.
abbrev pub Answers : Files → Files → List Action → Type 0
Answers s s' actions =
    (text : List ℕ) × (replies actions
      ≡ create_status_msg (ltb (length s'.shared.list) (length s.shared.list)) (some text) ∷ [])

abbrev pub IsAnswer : Files → Removal → Type 0
IsAnswer s none = ⊥
IsAnswer s (some r) = Answers s r.0 r.1.0

-- The name ends in its array.
abbrev pub IsNamed : SharedFile → Type 0
IsNamed file = length (c_string file.filename) < max_filename_size

answered :
    (s s' : Files) (actions : List Action) (ok : Bool) (text : List ℕ)
    → ltb (length s'.shared.list) (length s.shared.list) ≡ ok
    → replies actions ≡ create_status_msg ok (some text) ∷ []
    → Answers s s' actions
answered s s' actions ok text flag said =
    (text, said ∙ ap (λ b. create_status_msg b (some text) ∷ []) (sym flag))

same_length : (s : Files) → ltb (length s.shared.list) (length s.shared.list) ≡ false
same_length s = le→ltb (length s.shared.list) (length s.shared.list) (omega arith)

others-drop :
    (client_id : ℕ) (kept : List SharedFile) (file : SharedFile) (files : List SharedFile)
    → (file.client_id == client_id) ≡ true
    → others client_id (kept ++ files) ≡ others client_id (kept ++ (file ∷ files))
unfolding others
others-drop client_id [] file files h = rw h
others-drop client_id (k ∷ kept) file files h =
    ap (λ rest. if k.client_id == client_id then rest else k ∷ rest)
      (others-drop client_id kept file files h)

found-split :
    (s : Files) (file_id : ℕ) (file : SharedFile)
    → shared_file_list_find_by_id s.shared file_id ≡ some file
    → (before behind : List SharedFile) × (s.shared.list ≡ before ++ (file ∷ behind))
      × (has_id file_id file ≡ true)
unfolding shared_file_list_find_by_id
found-split s file_id file h = find-split (has_id file_id) s.shared.list file h

RemovesOne-SparesOthers :
    (client_id : ℕ) (s : Files) (kept : List SharedFile) (file : SharedFile)
    (files : List SharedFile) (r : Files × Option ErrorCode)
    → (file.client_id == client_id) ≡ true
    → s.shared.list ≡ kept ++ (file ∷ files)
    → RemovesOne kept file files r
    → SparesOthers client_id s r.0
RemovesOne-SparesOthers client_id s kept file files (s', some c) h e k =
    ap (others client_id) (k ∙ sym e)
RemovesOne-SparesOthers client_id s kept file files (s', none) h e k =
    ap (others client_id) k
    ∙ others-drop client_id kept file files h
    ∙ ap (others client_id) (sym e)

module _ (printed : Text → List ℕ) (now : ℕ) (old : List ℕ)
    (send_status : Message → Option ErrorCode) where
  owned-SparesOthers :
      (s : Files) (client : Client) (file : SharedFile) (kept files : List SharedFile)
      → s.shared.list ≡ kept ++ (file ∷ files)
      → Distinct file_key s.shared.list
      → (file.client_id == client.id) ≡ true
      → SparesRemoval client.id s (remove_listed_file printed now old send_status s client file)
  owned-SparesOthers s client file kept files e d own =
      elim (Bool-cases (ltb (length (c_string file.filename)) max_filename_size)) [
        | inl fits ↦ rw fits (
            RemovesOne-SparesOthers client.id s kept file files
              (server_remove_shared_file s file.id) own e
              (server_remove_shared_file-RemovesOne s kept file files e
                (subst (Distinct file_key) e d)))
        | inr overruns ↦ rw overruns tt
      ]

  remove_by_id-found :
      (s : Files) (client : Client) (file_id : ℕ) (file : SharedFile)
      → shared_file_list_find_by_id s.shared file_id ≡ some file
      → remove_by_id printed now old send_status s client file_id ≡ (
          if file.client_id == client.id
          then remove_listed_file printed now old send_status s client file
          else refuse printed now old send_status s (not_permitted file.id))
  unfolding remove_by_id
  remove_by_id-found s client file_id file h = rw (h, remove_by_id) refl

  checked-SparesOthers :
      (s : Files) (client : Client) (file_id : ℕ) (file : SharedFile)
      → shared_file_list_find_by_id s.shared file_id ≡ some file
      → Distinct file_key s.shared.list
      → SparesRemoval client.id s (
          if file.client_id == client.id
          then remove_listed_file printed now old send_status s client file
          else refuse printed now old send_status s (not_permitted file.id))
  checked-SparesOthers s client file_id file h d =
      let (kept, files, e, same_id) = found-split s file_id file h in
      elim (Bool-cases (file.client_id == client.id)) [
        | inl own ↦ rw own (owned-SparesOthers s client file kept files e d own)
        | inr foreign ↦ rw foreign refl
      ]

  remove_by_id-SparesOthers :
      (s : Files) (client : Client) (file_id : ℕ)
      → Distinct file_key s.shared.list
      → SparesRemoval client.id s (remove_by_id printed now old send_status s client file_id)
  unfolding remove_by_id
  remove_by_id-SparesOthers s client file_id d =
      elim (Option-cases (shared_file_list_find_by_id s.shared file_id)) [
        | inl absent ↦ rw (absent, remove_by_id) refl
        | inr present ↦
            subst (SparesRemoval client.id s)
              (sym (remove_by_id-found s client file_id present.0 present.1))
              (checked-SparesOthers s client file_id present.0 present.1 d)
      ]

  -- Whatever a client asks for, the files of all other clients stay on the list, in their order.
  -- The file numbers are distinct, and there are fewer than 2 ^ 32 files.
  pub server_task_remove_file-SparesOthers :
      (s : Files) (client : Client) (request : TaskRemoveFileData)
      → Distinct file_key s.shared.list
      → length s.shared.list < 2 ^ 32
      → SparesRemoval client.id s
          (server_task_remove_file printed now old send_status s client request)
  unfolding server_task_remove_file remove_all
  server_task_remove_file-SparesOthers s client request d small =
      elim (Bool-cases request.remove_all) [
        | inl all ↦ rw all ((server_remove_client_files_lem s client.id d small).0)
        | inr one ↦ rw one (remove_by_id-SparesOthers s client request.file_id d)
      ]

  some_removed-replies :
      (client : Client) (count : ℕ) (r : Option ErrorCode)
      → replies
          (reply_then_tell printed now old send_status r
            (status_message printed now old send_status true (removed_count count))
            (notification printed now old send_status
              (client_removed_count (c_string client.name) count))).0
        ≡ create_status_msg true (some (printed (removed_count count))) ∷ []
  some_removed-replies client count none = refl
  some_removed-replies client count (some c) = refl

  all_removed-Answers :
      (s s' : Files) (client : Client) (count : ℕ)
      → count + length s'.shared.list ≡ length s.shared.list
      → Answers s s' (all_removed printed now old send_status client count).0
  all_removed-Answers s s' client count total = elim (Bool-cases (count == 0)) [
    | inl nothing ↦
        answered s s' (all_removed printed now old send_status client count).0 false
          (printed (no_uploads (c_string client.name)))
          (le→ltb (length s'.shared.list) (length s.shared.list) (ground arith)) (rw nothing refl)
    | inr more ↦
        answered s s' (all_removed printed now old send_status client count).0 true
          (printed (removed_count count))
          (lt→ltb (length s'.shared.list) (length s.shared.list) (ground arith))
          (rw more (some_removed-replies client count (send_status _)))
  ]

  one_removed-Answers :
      (s : Files) (client : Client) (file : SharedFile) (kept files : List SharedFile)
      (r : Files × Option ErrorCode)
      → s.shared.list ≡ kept ++ (file ∷ files)
      → RemovesOne kept file files r
      → Answers s r.0
          (one_removed printed now old send_status client (c_string file.filename) r.1).0
  one_removed-Answers s client file kept files (s', none) e k =
      answered s s' (one_removed printed now old send_status client (c_string file.filename) none).0
        true (printed (file_removed (c_string file.filename)))
        (lt→ltb (length s'.shared.list) (length s.shared.list) (
          omega (
            arith,
            ap length k,
            ap length e,
            length-append kept files,
            length-append kept (file ∷ files),
          )))
        refl
  one_removed-Answers s client file kept files (s', some c) e k =
      answered s s'
        (one_removed printed now old send_status client (c_string file.filename) (some c)).0 false
        (printed (unable_to_remove (c_string file.filename)))
        (le→ltb (length s'.shared.list) (length s.shared.list)
          (omega (arith, ap length k, ap length e)))
        refl

  abbrev refused : Text → List Action
  refused t = reply (status_message printed now old send_status false t) ∷ []

  checked-IsAnswer :
      (s : Files) (client : Client) (file_id : ℕ) (file : SharedFile)
      → shared_file_list_find_by_id s.shared file_id ≡ some file
      → Distinct file_key s.shared.list
      → IsNamed file
      → IsAnswer s (
          if file.client_id == client.id
          then remove_listed_file printed now old send_status s client file
          else refuse printed now old send_status s (not_permitted file.id))
  checked-IsAnswer s client file_id file h d named =
      let (kept, files, e, same_id) = found-split s file_id file h in
      elim (Bool-cases (file.client_id == client.id)) [
        | inl own ↦
            rw (own, lt→ltb (length (c_string file.filename)) max_filename_size named)
              (one_removed-Answers s client file kept files (server_remove_shared_file s file.id) e
                (server_remove_shared_file-RemovesOne s kept file files e
                  (subst (Distinct file_key) e d)))
        | inr foreign ↦ rw foreign (
            answered s s (refused (not_permitted file.id)) false (printed (not_permitted file.id))
              (same_length s) refl)
      ]

  remove_by_id-IsAnswer :
      (s : Files) (client : Client) (file_id : ℕ)
      → Distinct file_key s.shared.list
      → All IsNamed s.shared.list
      → IsAnswer s (remove_by_id printed now old send_status s client file_id)
  unfolding remove_by_id shared_file_list_find_by_id
  remove_by_id-IsAnswer s client file_id d named =
      elim (Option-cases (shared_file_list_find_by_id s.shared file_id)) [
        | inl absent ↦
            rw (absent, remove_by_id)
              (answered s s (refused (no_such_file file_id)) false (printed (no_such_file file_id))
                (same_length s) refl)
        | inr present ↦
            subst (IsAnswer s) (sym (remove_by_id-found s client file_id present.0 present.1)) (
              checked-IsAnswer s client file_id present.0 present.1 d
                (find-All IsNamed (has_id file_id) present.0 s.shared.list named present.1))
      ]

  -- The request is answered with exactly one message, whatever happens on the way: a status, which
  -- says success exactly if the list of the files has become shorter. The file numbers are
  -- distinct, there are fewer than 2 ^ 32 files, and each file's name ends in its array.
  pub server_task_remove_file-IsAnswer :
      (s : Files) (client : Client) (request : TaskRemoveFileData)
      → Distinct file_key s.shared.list
      → length s.shared.list < 2 ^ 32
      → All IsNamed s.shared.list
      → IsAnswer s (server_task_remove_file printed now old send_status s client request)
  unfolding server_task_remove_file remove_all
  server_task_remove_file-IsAnswer s client request d small named =
      elim (Bool-cases request.remove_all) [
        | inl all ↦ rw all (
            all_removed-Answers s (server_remove_client_files s client.id).0 client _
              (server_remove_client_files_lem s client.id d small).1)
        | inr one ↦ rw one (remove_by_id-IsAnswer s client request.file_id d named)
      ]

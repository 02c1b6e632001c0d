-- ===== src/TaskHandler/Spares.antt =====
-- Statements on the shared files of other clients while task_request_handler of
-- server/task/task_request_handler.c runs a task.
use they_chat.Base.{
  ℕ, ◌^◌, ◌<◌, ◌≡◌, refl, ap, subst, ◌∙◌, ◌==◌, ==_iff, true, Option, none, some, List, [], ◌∷◌,
  ◌++◌, length, if◌then◌else◌,
}
use they_chat.Bytes.{Endianness}
use they_chat.StringList.{StringList}
use they_chat.Message.{Message, MessageType, TaggedTask, TaskFileUploadData, tagged_task_type}
use they_chat.Message.Create.{create_task_status_msg}
use they_chat.Sequence.Laws.{Distinct, find-split}
use they_chat.ClientList.{Client, has_id, client_list_find_by_id}
use they_chat.SharedFileList.{SharedFile, shared_file_init, shared_file_list_add}
use they_chat.SharedFileList.Laws.{file_key}
use they_chat.Server.RemoveFiles.{others}
use they_chat.NetPrimitives.{SendEvent}
use they_chat.NetCommunication.{Sending, done, waiting, wait_for_message_type}
use they_chat.FileTransfer.{ReceivedFile, finished, receive_file}
use they_chat.ServerTasks.{Removal, Action, reply, broadcast_exclude, server_task_remove_file}
use they_chat.ServerTasks.Remove.{SparesOthers, SparesRemoval, server_task_remove_file-SparesOthers}
use they_chat.ServerTasks.Listing.{server_task_users, server_task_files, send_filled}
use they_chat.ServerTasks.Upload.{
  TaskRun, returned, stuck, crashed, out_of_fuel, create_on_disk, upload_filename, header_size,
  shared_files_location, share_file, finish_upload, after_receiving, server_task_upload_file,
}
use they_chat.ServerTasks.Uploads.{set_last-append}
use they_chat.World.{Channel, World, send, send_broadcast, send_broadcast_exclude, broadcast_where}
use they_chat.TaskHandler.{
  removed, Machine, executing, with_task, perform, of_sending, of_listed, forget_error, run_task,
  announce_task, task_request_handler,
}

-- The list has the files of all other clients as before, in the same order.
abbrev pub SparesRun : ℕ → World → TaskRun → Type 0
SparesRun id w (returned w' err) = SparesOthers id w.files w'.files
SparesRun id w stuck = Unit
SparesRun id w crashed = Unit
SparesRun id w out_of_fuel = Unit

perform-files :
    (id : ℕ) (actions : List Action) (w : World) → (perform id actions w).files ≡ w.files
unfolding send send_broadcast_exclude broadcast_where
perform-files id [] w = refl
perform-files id (reply m ∷ actions) w = perform-files id actions _
perform-files id (broadcast_exclude m ∷ actions) w = perform-files id actions _

of_sending-SparesRun :
    (id : ℕ) (w v : World) (s : Sending) → v.files ≡ w.files → SparesRun id w (of_sending v s)
of_sending-SparesRun id w v (done out) e = ap (λ f. others id f.shared.list) e
of_sending-SparesRun id w v (Sending.failed c out) e = ap (λ f. others id f.shared.list) e
of_sending-SparesRun id w v (waiting out) e = tt
of_sending-SparesRun id w v Sending.exited e = tt
of_sending-SparesRun id w v Sending.overrun e = tt

others-own :
    (id : ℕ) (files : List SharedFile) (file : SharedFile)
    → file.client_id ≡ id
    → others id (files ++ file ∷ []) ≡ others id files
unfolding others
others-own id [] file own =
    let hit : (file.client_id == id) ≡ true = (==_iff file.client_id id).1 own in rw hit refl
others-own id (x ∷ files) file own =
    ap (λ rest. if x.client_id == id then rest else x ∷ rest) (others-own id files file own)

forget-SparesRun :
    (id : ℕ) (w : World) (r : TaskRun) → SparesRun id w r → SparesRun id w (forget_error r)
forget-SparesRun id w (returned v err) h = h
forget-SparesRun id w stuck h = tt
forget-SparesRun id w crashed h = tt
forget-SparesRun id w out_of_fuel h = tt

found-id :
    (w : World) (id : ℕ) (client : Client)
    → client_list_find_by_id (some w.clients) id ≡ some client
    → client.id ≡ id
unfolding client_list_find_by_id
found-id w id client h =
    let (before, behind, e, hit) = find-split (has_id id) w.clients.list client h in
    (==_iff client.id id).0 hit

send_filled-SparesRun :
    (id : ℕ) (e : Endianness) (events : ℕ → List SendEvent) (w v : World) (o : Option StringList)
    → v.files ≡ w.files
    → SparesRun id w (of_listed (send_filled e events v o))
send_filled-SparesRun id e events w v none same = tt
send_filled-SparesRun id e events w v (some strs) same = of_sending-SparesRun id w v _ same

module _ (x : Machine) (id : ℕ)
    (rely : (v : World) → SparesOthers id v.files (x.meanwhile v).files) where
  share_file-SparesOthers :
      (client : Client) (d : TaskFileUploadData) (id_filename : List ℕ) (size : ℕ) (w : World)
      → client.id ≡ id
      → SparesOthers id w.files
          (share_file x.upload_printed x.block x.old x.now client d id_filename size w).files
  unfolding send_broadcast broadcast_where shared_file_list_add shared_file_init
  share_file-SparesOthers client d id_filename size w same =
      ap (others id) (set_last-append _ w.files.shared.list _)
      ∙ others-own id w.files.shared.list _ same

  finish_upload-SparesRun :
      (d : TaskFileUploadData) (id_filename : List ℕ) (size : ℕ) (w : World)
      → SparesRun id w (finish_upload x.upload_printed x.block x.old x.now id d id_filename size w)
  unfolding finish_upload
  finish_upload-SparesRun d id_filename size w = found _ refl
    where
      found :
          (o : Option Client)
          → client_list_find_by_id (some w.clients) id ≡ o
          → SparesRun id w (elim o [
            | none ↦ crashed
            | some client ↦
                returned
                  (share_file x.upload_printed x.block x.old x.now client d id_filename size w)
                  none
          ])
      found none h = tt
      found (some client) h =
          share_file-SparesOthers client d id_filename size w (found-id w id client h)

  SparesRun-chain :
      (w v : World) (r : TaskRun)
      → SparesOthers id w.files v.files
      → SparesRun id v r
      → SparesRun id w r
  SparesRun-chain w v (returned v' err) h k = k ∙ h
  SparesRun-chain w v stuck h k = tt
  SparesRun-chain w v crashed h k = tt
  SparesRun-chain w v out_of_fuel h k = tt

  after_receiving-SparesRun :
      (d : TaskFileUploadData) (id_filename : List ℕ) (size : ℕ) (w : World) (r : ReceivedFile)
      → SparesRun id w
          (after_receiving x.upload_printed x.block x.old x.now id d id_filename size w r)
  after_receiving-SparesRun d id_filename size w (finished none name path got ns es) =
      let v = create_on_disk path got w in
      SparesRun-chain w v _ refl (finish_upload-SparesRun d id_filename size v)
  after_receiving-SparesRun d id_filename size w (finished (some c) name path got ns es) = refl
  after_receiving-SparesRun d id_filename size w (ReceivedFile.failed c) = refl
  after_receiving-SparesRun d id_filename size w ReceivedFile.blocked = tt
  after_receiving-SparesRun d id_filename size w ReceivedFile.exited = tt
  after_receiving-SparesRun d id_filename size w ReceivedFile.out_of_bounds = tt
  after_receiving-SparesRun d id_filename size w ReceivedFile.out_of_fuel = tt

  removed-SparesRun :
      (w : World) (r : Removal) → SparesRemoval id w.files r → SparesRun id w (removed x w id r)
  removed-SparesRun w none spared = tt
  removed-SparesRun w (some (files, (actions, err))) spared =
      let v = record w { files = files } in
      SparesRun-chain w v (returned (perform id actions v) err) spared
        (ap (λ f. others id f.shared.list) (perform-files id actions v))

  run_task-SparesRun :
      (client : Client) (task : TaggedTask) (w : World)
      → client.id ≡ id
      → Distinct file_key w.files.shared.list
      → length w.files.shared.list < 2 ^ 32
      → SparesRun id w (run_task x id client task w)
  unfolding run_task server_task_users server_task_files server_task_upload_file
  run_task-SparesRun client TaggedTask.null w own distinct small = refl
  run_task-SparesRun client (TaggedTask.users d) w own distinct small =
      send_filled-SparesRun id x.endianness x.events w _ _ refl
  run_task-SparesRun client TaggedTask.files w own distinct small =
      send_filled-SparesRun id x.endianness x.events w w _ refl
  run_task-SparesRun client (TaggedTask.file_download d) w own distinct small =
      of_sending-SparesRun id w w _ refl
  run_task-SparesRun client (TaggedTask.file_upload d) w own distinct small =
      named (upload_filename x.decimal w.files.shared)
    where
      named :
          (o : Option (List ℕ))
          → SparesRun id w (elim o [
            | none ↦ crashed
            | some id_filename ↦
                after_receiving x.upload_printed x.block x.old x.now id d id_filename
                  (header_size (
                    wait_for_message_type x.endianness x.stream MessageType.file_header x.arrivals))
                  (x.meanwhile w)
                  (receive_file x.fuel x.endianness x.opens
                    (some shared_files_location)
                    id_filename
                    x.stream
                    x.arrivals)
          ])
      named none = tt
      named (some id_filename) =
          SparesRun-chain w (x.meanwhile w) _ (rely w)
            (after_receiving-SparesRun d id_filename _ (x.meanwhile w) _)
  run_task-SparesRun client (TaggedTask.remove d) w own distinct small = removed-SparesRun w _ (
      subst
        (λ k.
          SparesRemoval k w.files
            (server_task_remove_file x.remove_printed x.now x.old x.send_status w.files client d))
        own
        (server_task_remove_file-SparesOthers x.remove_printed x.now x.old x.send_status w.files
          client d distinct small))

  -- Whatever task a client requests, and however it ends, the shared files of all other clients
  -- stay on the list as they were, in their order. The numbers of the files are distinct, there are
  -- fewer than 2 ^ 32 files, and the other threads that run while a file comes in leave those files
  -- alone as well.
  pub task_request_handler-SparesRun :
      (task : TaggedTask) (w : World)
      → Distinct file_key w.files.shared.list
      → length w.files.shared.list < 2 ^ 32
      → SparesRun id w (task_request_handler x id task w)
  unfolding task_request_handler send
  task_request_handler-SparesRun task w distinct small = found _ refl
    where
      announced :
          (client : Client) (o : Option Message)
          → client.id ≡ id
          → SparesRun id w (announce_task x id client task w o)
      announced client none own = tt
      announced client (some m) own =
          let v = (send (λ n. none) w id Channel.task (with_task task m)).0 in
          SparesRun-chain w v _ refl (run_task-SparesRun client task v own distinct small)

      found :
          (o : Option Client)
          → client_list_find_by_id (some w.clients) id ≡ o
          → SparesRun id w (elim o [
            | none ↦ returned w none
            | some client ↦ forget_error (
                announce_task x id client task w
                  (create_task_status_msg (tagged_task_type task) executing))
          ])
      found none h = refl
      found (some client) h = forget-SparesRun id w _ (announced client _ (found-id w id client h))

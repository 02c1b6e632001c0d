-- ===== src/TaskHandler.antt =====
-- server/task/task_request_handler.c, which a thread of the task pool runs for a request: the
-- task's status for the client, and the task.
pub mod Spares
use they_chat.Base.{ℕ, Bool, Option, none, some, List, [], ◌∷◌}
use they_chat.Bytes.{Endianness}
use they_chat.Message.{Message, Payload, TaggedTask, tagged_task_type}
use they_chat.Message.Create.{create_task_status_msg}
use they_chat.ClientList.{Client, client_list_find_by_id}
use they_chat.SharedFileList.{SharedFile}
use they_chat.Server.{Files}
use they_chat.NetStream.{NetworkStream}
use they_chat.NetPrimitives.{ErrorCode, NetEvent, SendEvent}
use they_chat.NetCommunication.{Sending, done, waiting}
use they_chat.FileTransfer.{OpenFile}
use they_chat.ServerTasks.{Text, Action, Removal, reply, broadcast_exclude, server_task_remove_file}
use they_chat.ServerTasks.Listing.{Listed, sent, fault, server_task_users, server_task_files}
use they_chat.ServerTasks.Upload.{
  UploadNotice, TaskRun, returned, stuck, crashed, server_task_upload_file,
}
use they_chat.ServerTasks.Download.{DownloadText, server_task_download_file}
use they_chat.World.{Channel, World, send, send_broadcast_exclude}

-- What the C library, the stack, the socket and the other threads do during a request: `meanwhile`
-- is what the other threads do while a file comes in.
pub record Machine : Type 0 where
  pub decimal : ℕ → List ℕ
  pub atoi : List ℕ → ℕ
  pub remove_printed : Text → List ℕ
  pub upload_printed : UploadNotice → List ℕ
  pub download_printed : DownloadText → List ℕ
  pub send_status : Message → Option ErrorCode
  pub endianness : Endianness
  pub status_events : List SendEvent
  pub header_events : List SendEvent
  pub events : ℕ → List SendEvent
  pub end_events : List SendEvent
  pub fuel : ℕ
  pub opens : List ℕ → Bool
  pub contents : List ℕ → Option OpenFile
  pub stream : NetworkStream
  pub arrivals : List NetEvent
  pub block : SharedFile
  pub old : List ℕ
  pub header_old : List ℕ
  pub stack : ℕ → List ℕ
  pub now : ℕ
  pub meanwhile : World → World

abbrev pub executing : ℕ
executing = 2

abbrev pub with_task : TaggedTask → Message → Message
with_task task m = elim m.payload [
  | Payload.task_status status t ↦ record m { payload = Payload.task_status status task }
  | _ ↦ m
]

-- What a task's calls of send_message post.
abbrev pub perform : ℕ → List Action → World → World
perform id [] w = w
perform id (reply m ∷ actions) w = perform id actions (send (λ n. none) w id Channel.task m).0
perform id (broadcast_exclude m ∷ actions) w = perform id actions (send_broadcast_exclude m id w)

abbrev pub of_sending : World → Sending → TaskRun
of_sending w (done out) = returned w none
of_sending w (Sending.failed c out) = returned w (some c)
of_sending w (waiting out) = stuck
of_sending w Sending.exited = crashed
of_sending w Sending.overrun = crashed

abbrev pub of_listed : Listed → TaskRun
of_listed (sent w s) = of_sending w s
of_listed fault = crashed

-- The error is printed and freed.
abbrev pub forget_error : TaskRun → TaskRun
forget_error (returned w err) = returned w none
forget_error r = r

module _ (x : Machine) where
  abbrev pub removed : World → ℕ → Removal → TaskRun
  removed w id none = crashed
  removed w id (some (files, (actions, err))) =
      returned (perform id actions (record w { files = files })) err

  -- The switch over the task's type.
  unfoldable pub run_task : ℕ → Client → TaggedTask → World → TaskRun
  run_task id client TaggedTask.null w = returned w none
  run_task id client (TaggedTask.users d) w =
      of_listed (server_task_users x.decimal x.endianness x.events d w)
  run_task id client TaggedTask.files w =
      of_listed (server_task_files x.decimal x.endianness x.events w)
  run_task id client (TaggedTask.file_upload d) w =
      server_task_upload_file x.upload_printed x.block x.old x.now x.decimal x.fuel x.endianness
        x.opens x.stream x.arrivals id d w (x.meanwhile w)
  run_task id client (TaggedTask.file_download d) w = of_sending w (
      server_task_download_file x.download_printed x.contents x.endianness x.header_old x.stack
        x.status_events x.header_events x.events x.end_events x.atoi w.files d)
  run_task id client (TaggedTask.remove d) w =
      removed w id
        (server_task_remove_file x.remove_printed x.now x.old x.send_status w.files client d)

  -- The result of the status call is dropped; a task without a type fails an assertion.
  abbrev pub announce_task : ℕ → Client → TaggedTask → World → Option Message → TaskRun
  announce_task id client task w none = crashed
  announce_task id client task w (some m) =
      run_task id client task (send (λ n. none) w id Channel.task (with_task task m)).0

  unfoldable pub task_request_handler : ℕ → TaggedTask → World → TaskRun
  task_request_handler id task w = elim (client_list_find_by_id (some w.clients) id) [
    | none ↦ returned w none
    | some client ↦
        forget_error (
          announce_task id client task w (create_task_status_msg (tagged_task_type task) executing))
  ]

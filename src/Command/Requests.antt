-- ===== src/Command/Requests.antt =====
-- Statements on the requests that client/command/command.c and client/command/commands build.
use they_chat.Base.{
  ℕ, ◌^◌, ◌<◌, ◌≡◌, refl, Bool, true, false, Bool-cases, inl, inr, Option, none, some, List, [],
  ◌∷◌, ◌&&◌, replicate, arith,
}
use they_chat.CString.{codes, str_eq, strcpy}
use they_chat.CString.Laws.{length-strcpy}
use they_chat.Message.{max_filename_size, max_filepath_size}
use they_chat.Message.IsMessage.{IsMessage, payload_length, task_length}
use they_chat.Message.Create.{create_task_request_msg, initialize_tagged_task}
use they_chat.ClientList.{AppState}
use they_chat.FileTransfer.{filepath_get_filename}
use they_chat.Command.{
  CommandType, Handled, next_state, request, copied_ip, disconnect_handler, quit_handler,
  files_handler, users_handler, request_download, copied_filename, download_handler, request_upload,
  upload_handler, connect_handler, remove_handler, Dispatched, handled, unrecognized, no_command,
  handler_of, execute, accepts, get_command_by_name, parse_arguments, dispatch_command,
}

-- The client's states that have a handler, and the last one.
abbrev pub HasHandler : AppState → Type 0
HasHandler AppState.null = ⊥
HasHandler AppState.error = ⊥
HasHandler _ = Unit

abbrev pub SendsMessage : Handled → Type 0
SendsMessage (next_state s) = HasHandler s
SendsMessage (request m) = IsMessage m
SendsMessage _ = Unit

abbrev pub DispatchesMessage : Dispatched → Type 0
DispatchesMessage (handled h) = SendsMessage h
DispatchesMessage _ = Unit

request_download-SendsMessage :
    (by_id : Bool) (filename : List ℕ)
    → SendsMessage (request_download by_id (copied_filename filename))
unfolding create_task_request_msg initialize_tagged_task payload_length task_length
request_download-SendsMessage by_id filename = copied (copied_filename filename) refl
  where
    copied :
        (o : Option (List ℕ))
        → copied_filename filename ≡ o
        → SendsMessage (request_download by_id o)
    copied none h = tt
    copied (some array) h = record {
      payload_valid = length-strcpy (replicate max_filename_size 0) filename array h;
      length_valid = refl;
    }

request_upload-SendsMessage :
    (filename filepath : List ℕ)
    → SendsMessage (
        request_upload (copied_filename filename) (strcpy (replicate max_filepath_size 0) filepath))
unfolding create_task_request_msg initialize_tagged_task payload_length task_length
request_upload-SendsMessage filename filepath =
    copied (copied_filename filename) (strcpy (replicate max_filepath_size 0) filepath) refl refl
  where
    copied :
        (name path : Option (List ℕ))
        → copied_filename filename ≡ name
        → strcpy (replicate max_filepath_size 0) filepath ≡ path
        → SendsMessage (request_upload name path)
    copied (some name) (some path) h k = record {
      payload_valid = (
        length-strcpy (replicate max_filename_size 0) filename name h,
        length-strcpy (replicate max_filepath_size 0) filepath path k,
      );
      length_valid = refl;
    }
    copied none path h k = tt
    copied (some name) none h k = tt

copied_ip-SendsMessage :
    (o : Option (List ℕ)) (status_port task_port : ℕ)
    → SendsMessage (copied_ip o status_port task_port)
copied_ip-SendsMessage none status_port task_port = tt
copied_ip-SendsMessage (some ip) status_port task_port = tt

module _ (atoi : List ℕ → ℕ) (exists can_read : List ℕ → Bool) (old_ip : List ℕ)
    (number : (text : List ℕ) → atoi text < 2 ^ 32) where
  remove-SendsMessage : (argv : List (List ℕ)) → SendsMessage (remove_handler atoi argv)
  unfolding remove_handler create_task_request_msg initialize_tagged_task payload_length task_length
  remove-SendsMessage [] = tt
  remove-SendsMessage (command ∷ []) = tt
  remove-SendsMessage (command ∷ (arg ∷ argv)) = record {
    payload_valid = elim (Bool-cases (str_eq arg (codes "all"))) [
      | inl all ↦ rw all (omega arith)
      | inr one ↦ rw one (number arg)
    ];
    length_valid = refl;
  }

  handler_of-SendsMessage :
      (type : CommandType) (argv : List (List ℕ))
      → SendsMessage (handler_of atoi exists can_read old_ip type argv)
  unfolding handler_of connect_handler disconnect_handler quit_handler users_handler upload_handler
      download_handler files_handler create_task_request_msg initialize_tagged_task payload_length
      task_length
  handler_of-SendsMessage CommandType.help argv = tt
  handler_of-SendsMessage CommandType.disconnect argv = tt
  handler_of-SendsMessage CommandType.quit argv = tt
  handler_of-SendsMessage CommandType.users argv = record {
    payload_valid = tt;
    length_valid = refl;
  }
  handler_of-SendsMessage CommandType.files argv = record {
    payload_valid = tt;
    length_valid = refl;
  }
  handler_of-SendsMessage CommandType.remove argv = remove-SendsMessage argv
  handler_of-SendsMessage CommandType.download (command ∷ (filename ∷ [])) =
      request_download-SendsMessage false filename
  handler_of-SendsMessage CommandType.download (command ∷ (arg ∷ (filename ∷ []))) =
      elim (Bool-cases (str_eq arg (codes "id"))) [
        | inl id ↦ rw id (request_download-SendsMessage true filename)
        | inr other ↦ rw other tt
      ]
  handler_of-SendsMessage CommandType.download _ = tt
  handler_of-SendsMessage CommandType.upload (command ∷ (filepath ∷ [])) =
      elim (Bool-cases (exists filepath && can_read filepath)) [
        | inl can ↦ rw can (request_upload-SendsMessage (filepath_get_filename filepath) filepath)
        | inr cannot ↦ rw cannot tt
      ]
  handler_of-SendsMessage CommandType.upload _ = tt
  handler_of-SendsMessage CommandType.connect (command ∷ (ip ∷ [])) = copied_ip-SendsMessage _ _ _
  handler_of-SendsMessage CommandType.connect (command ∷ (ip ∷ (status_port ∷ []))) =
      copied_ip-SendsMessage _ _ _
  handler_of-SendsMessage CommandType.connect
        (command ∷ (ip ∷ (status_port ∷ (task_port ∷ argv)))) =
      copied_ip-SendsMessage _ _ _
  handler_of-SendsMessage CommandType.connect _ = copied_ip-SendsMessage _ _ _

  -- Whatever a user types and in whatever context, a request that goes out for it is a well-formed
  -- message: the task's arrays have their sizes, its numbers fit, and the length field counts the
  -- task's bytes; and a state that is set for it is one that the client has a handler for. atoi()
  -- gives a number of 32 bits.
  pub dispatch_command-DispatchesMessage :
      (input : List ℕ) (types : List CommandType)
      → DispatchesMessage (dispatch_command atoi exists can_read old_ip input types)
  unfolding dispatch_command
  dispatch_command-DispatchesMessage input types = parsed (parse_arguments input)
    where
      executed :
          (argv : List (List ℕ)) (type : CommandType)
          → DispatchesMessage (execute atoi exists can_read old_ip types argv type)
      executed argv CommandType.help = tt
      executed argv type = elim (Bool-cases (accepts type types)) [
        | inl here ↦ rw here (handler_of-SendsMessage type argv)
        | inr elsewhere ↦ rw elsewhere tt
      ]

      named :
          (argv : List (List ℕ)) (o : Option (List ℕ × CommandType))
          → DispatchesMessage (elim o [
            | none ↦ unrecognized
            | some command ↦ execute atoi exists can_read old_ip types argv command.1
          ])
      named argv none = tt
      named argv (some command) = executed argv command.1

      parsed :
          (argv : List (List ℕ))
          → DispatchesMessage (elim argv [
            | [] ↦ no_command
            | name ∷ rest ↦ elim (get_command_by_name name) [
              | none ↦ unrecognized
              | some command ↦ execute atoi exists can_read old_ip types (name ∷ rest) command.1
            ]
          ])
      parsed [] = tt
      parsed (name ∷ rest) = named (name ∷ rest) (get_command_by_name name)

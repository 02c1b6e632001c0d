-- ===== src/Tests/Clients.antt =====
-- The client: a few lines that are typed, and what it runs through.
use they_chat.Base.{ℕ, ◌<◌, ◌^◌, Bool, true, Option, none, List, [], ◌∷◌, ◌==◌, replicate, arith}
use they_chat.CString.{codes}
use they_chat.Message.{Message}
use they_chat.ClientList.{AppState}
use they_chat.NetPrimitives.{ErrorCode}
use they_chat.ServerStates.{failure}
use they_chat.Command.{CommandType, Dispatched, dispatch_command}
use they_chat.Command.Requests.{DispatchesMessage, dispatch_command-DispatchesMessage}
use they_chat.ClientStates.{Happening, line, status, Run, state_handler_fsm}
use they_chat.ClientStates.Fsm.{Aborts, visits, state_handler_fsm-Aborts}
use they_chat.ChatEntries.{chat_entries_create}
use they_chat.ChatEntries.Laws.{Latest, add_all, chat_entries_add-chat_entries_create}

chat_entries_add-chat_entries_create_example :
    Latest (1 ∷ 2 ∷ []) (add_all (chat_entries_create {A = ℕ}) (1 ∷ 2 ∷ []))
chat_entries_add-chat_entries_create_example =
    chat_entries_add-chat_entries_create {A = ℕ} (1 ∷ 2 ∷ [])

abbrev to_seven : List ℕ → ℕ
to_seven text = 7

seven-small : (text : List ℕ) → to_seven text < 2 ^ 32
seven-small text = omega arith

abbrev on_disk : List ℕ → Bool
on_disk path = true

dispatch_command-DispatchesMessage_example : DispatchesMessage (
    dispatch_command to_seven on_disk on_disk
      (replicate 16 0)
      (codes "/download id 7")
      (CommandType.download ∷ []))
dispatch_command-DispatchesMessage_example =
    dispatch_command-DispatchesMessage to_seven on_disk on_disk (replicate 16 0) seven-small
      (codes "/download id 7") (CommandType.download ∷ [])

abbrev is_blank : ℕ → Bool
is_blank b = b == 32

abbrev sent : Message → Option ErrorCode
sent m = none

abbrev lines : List Happening → Run
lines happenings = record {
  early = [];
  status_result = none;
  task_result = none;
  happenings = happenings;
  name_old = replicate 32 0;
  chat_old = record {
    username = replicate 32 0;
    text = replicate 512 0;
    ip = replicate 16 0;
    time = 0;
  };
  now = 0;
  username = codes "bob";
}

-- The connection is lost before the first message.
abbrev runs : List Run
runs =
    lines (line (codes "/connect") ∷ [])
    ∷ lines (status (failure ErrorCode.net_peer_disconnected) ∷ [])
    ∷ lines []
    ∷ []

abbrev commands : List ℕ → List CommandType → Dispatched
commands = dispatch_command to_seven on_disk on_disk (replicate 16 0)

state_handler_fsm-Aborts_example :
    Aborts is_blank sent commands
      (state_handler_fsm is_blank sent commands AppState.offline runs)
      (visits is_blank sent commands AppState.offline runs)
state_handler_fsm-Aborts_example =
    state_handler_fsm-Aborts is_blank sent to_seven on_disk on_disk (replicate 16 0) runs
      seven-small

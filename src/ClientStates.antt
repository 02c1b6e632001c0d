-- ===== src/ClientStates.antt =====
-- The client's states: client/states_fsm.c and client/state_handlers. A state's handler waits until
-- a thread sets the next state; `Happening` is what the threads meet meanwhile, one after the
-- other. A thread that a state started does nothing more once the state is left, and a line is read
-- only while a handler waits or the client connects. The windows and the thread of tasks are left
-- out.
pub mod Waits
pub mod Fsm
use they_chat.Base.{
  ◌-◌, take, ℕ, ◌==◌, Bool, true, false, ◌||◌, ◌&&◌, Option, none, some, List, [], ◌∷◌, ◌++◌,
  if◌then◌else◌, ltb, length,
}
use they_chat.CString.{c_string, strcpy}
use they_chat.Message.{Message, Payload, UserChatPayload, StatusPayload}
use they_chat.Message.Create.{create_user_chat_msg, create_user_login_msg}
use they_chat.ClientList.{AppState}
use they_chat.NetPrimitives.{ErrorCode}
use they_chat.StringUtils.{skip_space, trim}
use they_chat.ServerStates.{Arrival, message, failure}
use they_chat.World.{state_code}
use they_chat.Command.{
  CommandType, Handled, shown, next_state, connecting, request, overrun, Dispatched, handled,
  listed, unrecognized, not_in_context, no_command,
}

-- `line` is a line that is typed, `status` what a wait on the status connection comes back with,
-- `wakes` a return of pthread_cond_wait() that no signal has caused.
pub data Happening : Type 0 where
  wakes : Happening
  line : List ℕ → Happening
  status : Arrival → Happening

-- How a handler ends: with what it leaves in s_next_state and its error. `waits` is one that still
-- waits, `crashed` one that writes past an array or calls strcmp on a pointer that was not set,
-- `refused` one during which the assertion of state_handler_set_next fails.
pub data Outcome : Type 0 where
  leaves : AppState → Option ErrorCode → Outcome
  waits : Outcome
  crashed : Outcome
  refused : Outcome

-- What a callback does: nothing for the states, the next state, or an error, which the thread of
-- the input turns into the state for disconnecting.
pub data Callback : Type 0 where
  stays : Callback
  sets : AppState → Callback
  overruns : Callback

abbrev pub same_state : AppState → AppState → Bool
same_state a b = state_code a == state_code b

-- The new s_next_state, if the assertion holds.
unfoldable pub state_handler_set_next : AppState → AppState → Option AppState
state_handler_set_next s_next_state next_state' =
    if same_state s_next_state AppState.null
      || (same_state next_state' AppState.null || same_state s_next_state next_state')
    then some next_state'
    else none

abbrev pub of_error : Option ErrorCode → Callback
of_error none = stays
of_error (some c) = sets AppState.disconnect

abbrev pub slash : ℕ
slash = 47

-- handle_input: a line is a command if it has a slash and more.
unfoldable pub is_command : (ℕ → Bool) → List ℕ → Bool
is_command isspace input = elim (trim isspace input) [
  | [] ↦ false
  | b ∷ rest ↦ (b == slash) && ltb 1 (length (b ∷ rest))
]

-- What is left in the array of the line: trim() cuts off the space at its end in place.
abbrev pub cut_end : (ℕ → Bool) → List ℕ → List ℕ
cut_end isspace input =
    take (length input - length (skip_space isspace input)) input ++ trim isspace input

-- An empty line is skipped; a callback gets the array from its front.
pub data Typed : Type 0 where
  nothing : Typed
  command text : List ℕ → Typed

unfoldable pub read_line : (ℕ → Bool) → List ℕ → Typed
read_line isspace [] = nothing
read_line isspace (b ∷ input) =
    if is_command isspace (b ∷ input)
    then command (cut_end isspace (b ∷ input))
    else text (cut_end isspace (b ∷ input))

-- `sent` says what a call of send_message on the status connection returns.
module _ (isspace : ℕ → Bool) (sent : Message → Option ErrorCode)
    (dispatch : List ℕ → List CommandType → Dispatched) where
  -- A handler of a command sets the next state, or sends its request.
  abbrev pub of_handled : Handled → Callback
  of_handled shown = stays
  of_handled (next_state s) = sets s
  of_handled (connecting details) = sets AppState.connect
  of_handled (request m) = of_error (sent m)
  of_handled overrun = overruns

  abbrev pub of_dispatched : Dispatched → Callback
  of_dispatched (handled h) = of_handled h
  of_dispatched (listed types) = stays
  of_dispatched unrecognized = stays
  of_dispatched not_in_context = stays
  of_dispatched no_command = overruns

  -- The commands of a context; `input_callback` takes every other line.
  unfoldable pub handle_input : List CommandType → (List ℕ → Callback) → List ℕ → Callback
  handle_input types input_callback input = elim (read_line isspace input) [
    | nothing ↦ stays
    | command typed ↦ of_dispatched (dispatch typed types)
    | text typed ↦ input_callback typed
  ]

  abbrev pub offline_types : List CommandType
  offline_types = CommandType.help ∷ CommandType.connect ∷ CommandType.quit ∷ []

  abbrev pub waiting_types : List CommandType
  waiting_types = CommandType.help ∷ CommandType.disconnect ∷ CommandType.quit ∷ []

  abbrev pub chat_types : List CommandType
  chat_types =
      CommandType.help ∷ CommandType.disconnect ∷ CommandType.quit ∷ CommandType.users
      ∷ CommandType.upload ∷ CommandType.download ∷ CommandType.files ∷ CommandType.remove ∷ []

  -- The wait for the next state, on what happens. No state is set when a handler begins, so the
  -- first one that is set meanwhile passes the assertion, and its signal ends the wait. Any other
  -- return of the wait leaves the state unset.
  unfoldable pub wait_next_state : (Happening → Callback) → List Happening → Outcome
  wait_next_state callback [] = waits
  wait_next_state callback (wakes ∷ happenings) = leaves AppState.null none
  wait_next_state callback (h ∷ happenings) = elim (callback h) [
    | stays ↦ wait_next_state callback happenings
    | sets s ↦ leaves s none
    | overruns ↦ crashed
  ]

  abbrev pub offline_callback : Happening → Callback
  offline_callback (line input) = handle_input offline_types (λ typed. stays) input
  offline_callback _ = stays

  unfoldable pub handle_state_offline : List Happening → Outcome
  handle_state_offline happenings = wait_next_state offline_callback happenings

  -- A call of state_handler_set_next where `pending` is what s_next_state holds.
  abbrev pub set_pending : (pending next : AppState) → (AppState → Outcome) → Outcome
  set_pending pending next k = elim (state_handler_set_next pending next) [
    | none ↦ refused
    | some s ↦ k s
  ]

  -- A line that is typed while the client connects: the callbacks of the offline state are still
  -- there.
  abbrev pub after_line : AppState → Callback → (AppState → Outcome) → Outcome
  after_line pending stays k = k pending
  after_line pending (sets s) k = set_pending pending s k
  after_line pending overruns k = crashed

  abbrev pub typed_early : AppState → List (List ℕ) → (AppState → Outcome) → Outcome
  typed_early pending [] k = k pending
  typed_early pending (input ∷ inputs) k =
      after_line pending (offline_callback (line input)) (λ p. typed_early p inputs k)

  abbrev pub first_message : Payload → AppState
  first_message (Payload.client_on_queue bs) = AppState.onqueue
  first_message (Payload.client_connected bs) = AppState.login
  first_message _ = AppState.offline

  abbrev pub connected : AppState → Arrival → Outcome
  connected pending (message m) = set_pending pending (first_message m.payload) (λ s. leaves s none)
  connected pending (failure c) = leaves pending (some c)

  -- The wait for the first message, which is not one on the condition.
  abbrev pub wait_connected : AppState → List Happening → Outcome
  wait_connected pending [] = waits
  wait_connected pending (wakes ∷ happenings) = wait_connected pending happenings
  wait_connected pending (line input ∷ happenings) =
      after_line pending (offline_callback (line input)) (λ p. wait_connected p happenings)
  wait_connected pending (status a ∷ happenings) = connected pending a

  -- The results of the two calls of net_client_create_socket, and the lines that are typed until
  -- both have returned or one has failed, come first.
  unfoldable pub handle_state_connect :
      List (List ℕ) → Option ErrorCode → Option ErrorCode → List Happening → Outcome
  handle_state_connect early (some c) task_result happenings =
      typed_early AppState.null early (λ p. set_pending p AppState.offline (λ s. leaves s none))
  handle_state_connect early none (some c) happenings =
      typed_early AppState.null early (λ p. set_pending p AppState.offline (λ s. leaves s none))
  handle_state_connect early none none happenings =
      typed_early AppState.null early (λ p. wait_connected p happenings)

  -- wait_for_accept: an error ends its thread, and the state stays.
  abbrev pub accepted : Payload → Callback
  accepted (Payload.client_connected bs) = sets AppState.login
  accepted _ = stays

  -- There is no callback for input that is no command. `listens` says whether the thread still
  -- runs.
  unfoldable pub wait_queue : Bool → List Happening → Outcome
  wait_queue listens [] = waits
  wait_queue listens (wakes ∷ happenings) = leaves AppState.null none
  wait_queue listens (line input ∷ happenings) =
      elim (handle_input waiting_types (λ typed. stays) input) [
        | stays ↦ wait_queue listens happenings
        | sets s ↦ leaves s none
        | overruns ↦ crashed
      ]
  wait_queue listens (status (failure c) ∷ happenings) = wait_queue false happenings
  wait_queue false (status (message m) ∷ happenings) = wait_queue false happenings
  wait_queue true (status (message m) ∷ happenings) = elim (accepted m.payload) [
    | stays ↦ wait_queue true happenings
    | sets s ↦ leaves s none
    | overruns ↦ crashed
  ]

  unfoldable pub handle_state_queue : List Happening → Outcome
  handle_state_queue happenings = wait_queue true happenings

  -- The login's status: the text of a refusal is shown as a format.
  abbrev pub login_status : Payload → Callback
  login_status (Payload.status p) = if p.status then sets AppState.chat else stays
  login_status _ = sets AppState.disconnect

  -- The thread of the input sends the name and waits for the status; `pending` while it waits. A
  -- line that is typed meanwhile is not read.
  unfoldable pub wait_login : List ℕ → Bool → List Happening → Outcome
  wait_login old pending [] = waits
  wait_login old pending (wakes ∷ happenings) = leaves AppState.null none
  wait_login old true (line input ∷ happenings) = wait_login old true happenings
  wait_login old true (status (failure c) ∷ happenings) = leaves AppState.disconnect none
  wait_login old true (status (message m) ∷ happenings) = elim (login_status m.payload) [
    | stays ↦ wait_login old false happenings
    | sets s ↦ leaves s none
    | overruns ↦ crashed
  ]
  wait_login old false (status a ∷ happenings) = wait_login old false happenings
  wait_login old false (line input ∷ happenings) = elim (read_line isspace input) [
    | nothing ↦ wait_login old false happenings
    | command typed ↦ elim (of_dispatched (dispatch typed waiting_types)) [
      | stays ↦ wait_login old false happenings
      | sets s ↦ leaves s none
      | overruns ↦ crashed
    ]
    | text typed ↦ elim (create_user_login_msg old typed) [
      | none ↦ crashed
      | some m ↦ elim (sent m) [
        | none ↦ wait_login old true happenings
        | some c ↦ leaves AppState.disconnect none
      ]
    ]
  ]

  -- `old` is the array of the message for the name.
  unfoldable pub handle_state_login : List ℕ → List Happening → Outcome
  handle_state_login old happenings = wait_login old false happenings

  abbrev pub of_created : Option Message → Callback
  of_created none = overruns
  of_created (some m) = of_error (sent m)

  -- handle_messages; the thread ends after an error.
  abbrev pub on_failure : ErrorCode → Callback
  on_failure ErrorCode.net_connection_closed = stays
  on_failure c = sets AppState.disconnect

  unfoldable pub wait_chat : UserChatPayload → ℕ → List ℕ → Bool → List Happening → Outcome
  wait_chat old now username listens [] = waits
  wait_chat old now username listens (wakes ∷ happenings) = leaves AppState.null none
  wait_chat old now username listens (line input ∷ happenings) =
      elim (handle_input chat_types
        (λ typed. of_created (create_user_chat_msg old now typed username)) input) [
          | stays ↦ wait_chat old now username listens happenings
          | sets s ↦ leaves s none
          | overruns ↦ crashed
        ]
  wait_chat old now username listens (status (message m) ∷ happenings) =
      wait_chat old now username listens happenings
  wait_chat old now username false (status (failure c) ∷ happenings) =
      wait_chat old now username false happenings
  wait_chat old now username true (status (failure c) ∷ happenings) = elim (on_failure c) [
    | stays ↦ wait_chat old now username false happenings
    | sets s ↦ leaves s none
    | overruns ↦ crashed
  ]

  -- The message that the stack holds, the time, and the name of the login.
  unfoldable pub handle_state_chat : UserChatPayload → ℕ → List ℕ → List Happening → Outcome
  handle_state_chat old now username happenings = wait_chat old now username true happenings

  unfoldable pub handle_state_disconnect : Outcome
  handle_state_disconnect = leaves AppState.offline none

  unfoldable pub handle_state_quit : Outcome
  handle_state_quit = leaves AppState.end none

-- What happens while one handler runs, and what its arrays hold.
pub record Run : Type 0 where
  pub early : List (List ℕ)
  pub status_result : Option ErrorCode
  pub task_result : Option ErrorCode
  pub happenings : List Happening
  pub name_old : List ℕ
  pub chat_old : UserChatPayload
  pub now : ℕ
  pub username : List ℕ

-- `blocked`: the handler of a state still waits; `running`: there is no further run; `aborted`: an
-- assertion fails, on a state without a handler or on setting a state over another.
pub data ClientEnd : Type 0 where
  ended aborted faulted : ClientEnd
  blocked running : AppState → ClientEnd

module _ (isspace : ℕ → Bool) (sent : Message → Option ErrorCode)
    (dispatch : List ℕ → List CommandType → Dispatched) where
  -- The switch.
  unfoldable pub run_handler : AppState → Run → Option Outcome
  run_handler AppState.offline r = some (handle_state_offline isspace sent dispatch r.happenings)
  run_handler AppState.connect r = some (
      handle_state_connect isspace sent dispatch r.early r.status_result r.task_result r.happenings)
  run_handler AppState.onqueue r = some (handle_state_queue isspace sent dispatch r.happenings)
  run_handler AppState.login r =
      some (handle_state_login isspace sent dispatch r.name_old r.happenings)
  run_handler AppState.chat r =
      some (handle_state_chat isspace sent dispatch r.chat_old r.now r.username r.happenings)
  run_handler AppState.disconnect r = some (handle_state_disconnect isspace sent dispatch)
  run_handler AppState.quit r = some (handle_state_quit isspace sent dispatch)
  run_handler _ r = none

  -- After an error it is s_current_state that becomes the state for disconnecting; the loop goes on
  -- with s_next_state.
  unfoldable pub state_handler_fsm : AppState → List Run → ClientEnd
  state_handler_fsm AppState.end runs = ended
  state_handler_fsm s [] = running s
  state_handler_fsm s (r ∷ runs) = elim (run_handler s r) [
    | none ↦ aborted
    | some outcome ↦ elim outcome [
      | leaves next err ↦ state_handler_fsm next runs
      | waits ↦ blocked s
      | crashed ↦ faulted
      | refused ↦ aborted
    ]
  ]

-- ===== src/ClientStates/Fsm.antt =====
-- Statements on state_handler_fsm of client/states_fsm.c.
use they_chat.Base.{
  ℕ, ◌<◌, ◌^◌, ◌⊎◌, inl, inr, Bool, true, false, Option, none, some, List, [], ◌∷◌,
}
use they_chat.Message.{Message}
use they_chat.ClientList.{AppState}
use they_chat.NetPrimitives.{ErrorCode}
use they_chat.Command.{
  CommandType, shown, next_state, connecting, request, overrun, Dispatched, handled, listed,
  unrecognized, not_in_context, no_command, dispatch_command,
}
use they_chat.Command.Requests.{HasHandler, DispatchesMessage, dispatch_command-DispatchesMessage}
use they_chat.ClientStates.{
  Outcome, leaves, waits, crashed, refused, handle_state_queue, handle_state_login,
  handle_state_chat, handle_state_disconnect, handle_state_quit, Run, ClientEnd, ended, aborted,
  faulted, blocked, running, run_handler, state_handler_fsm,
}
use they_chat.ClientStates.Waits.{
  NextHandled, IsExceptional, LeavesHandled, offline_lem, queue_lem, login_lem, chat_lem,
  connect_lem,
}

-- What the switch comes to in a state that has a handler.
abbrev pub RunsHandled : Type 0 → Option Outcome → Type 0
RunsHandled F none = ⊥
RunsHandled F (some outcome) = LeavesHandled F outcome

-- The states that the loop runs a handler in.
abbrev pub IsRunning : AppState → Type 0
IsRunning AppState.null = ⊥
IsRunning AppState.error = ⊥
IsRunning AppState.end = ⊥
IsRunning _ = Unit

module _ (isspace : ℕ → Bool) (sent : Message → Option ErrorCode)
    (dispatch : List ℕ → List CommandType → Dispatched) where
  -- The states that the loop runs a handler in, with what happens meanwhile.
  abbrev pub visits : AppState → List Run → List (AppState × Run)
  visits s [] = []
  visits s (r ∷ runs) = (s, r) ∷ elim (run_handler isspace sent dispatch s r) [
    | some (leaves next err) ↦ visits next runs
    | _ ↦ []
  ]

  abbrev pub SomeExceptional : List (AppState × Run) → Type 0
  SomeExceptional [] = ⊥
  SomeExceptional ((s, r) ∷ visited) =
      IsExceptional isspace sent dispatch s r ⊎ SomeExceptional visited

  -- An assertion fails only if something exceptional happens in a state that was met.
  abbrev pub Aborts : ClientEnd → List (AppState × Run) → Type 0
  Aborts aborted visited = SomeExceptional visited
  Aborts _ visited = Unit

  Aborts-any :
      (e : ClientEnd) (visited : List (AppState × Run)) → SomeExceptional visited → Aborts e visited
  Aborts-any aborted visited h = h
  Aborts-any ended visited h = tt
  Aborts-any faulted visited h = tt
  Aborts-any (blocked s) visited h = tt
  Aborts-any (running s) visited h = tt

  Aborts-more :
      (e : ClientEnd) (s : AppState) (r : Run) (visited : List (AppState × Run))
      → Aborts e visited
      → Aborts e ((s, r) ∷ visited)
  Aborts-more aborted s r visited h = inr h
  Aborts-more ended s r visited h = tt
  Aborts-more faulted s r visited h = tt
  Aborts-more (blocked t) s r visited h = tt
  Aborts-more (running t) s r visited h = tt

module _ (isspace : ℕ → Bool) (sent : Message → Option ErrorCode)
    (dispatch : List ℕ → List CommandType → Dispatched)
    (known : (input : List ℕ) (types : List CommandType) → NextHandled (dispatch input types)) where
  run_handler_lem :
      (s : AppState) (r : Run)
      → IsRunning s
      → RunsHandled
          (IsExceptional isspace sent dispatch s r)
          (run_handler isspace sent dispatch s r)
  unfolding run_handler handle_state_queue handle_state_login handle_state_chat
      handle_state_disconnect handle_state_quit
  run_handler_lem AppState.null r h = absurd h
  run_handler_lem AppState.error r h = absurd h
  run_handler_lem AppState.end r h = absurd h
  run_handler_lem AppState.offline r h =
      offline_lem isspace sent dispatch known _ r.happenings (λ w. w)
  run_handler_lem AppState.connect r h =
      connect_lem isspace sent dispatch known _ r.early r.status_result r.task_result r.happenings
        (λ a b c. inl (a, b, c)) (λ x. inr (inl x)) (λ x. inr (inr x))
  run_handler_lem AppState.onqueue r h =
      queue_lem isspace sent dispatch known _ true r.happenings (λ w. w)
  run_handler_lem AppState.login r h =
      login_lem isspace sent dispatch known _ r.name_old false r.happenings (λ w. w)
  run_handler_lem AppState.chat r h =
      chat_lem isspace sent dispatch known _ r.chat_old r.now r.username true r.happenings (λ w. w)
  run_handler_lem AppState.disconnect r h = inl tt
  run_handler_lem AppState.quit r h = inl tt

  round_end :
      (s : AppState) (r : Run) (runs : List Run) (o : Option Outcome)
      → RunsHandled (IsExceptional isspace sent dispatch s r) o
      → ((next : AppState)
          → HasHandler next
          → Aborts isspace sent dispatch
              (state_handler_fsm isspace sent dispatch next runs)
              (visits isspace sent dispatch next runs))
      → Aborts isspace sent dispatch
          (elim o [
            | none ↦ aborted
            | some outcome ↦ elim outcome [
              | leaves next err ↦ state_handler_fsm isspace sent dispatch next runs
              | waits ↦ blocked s
              | crashed ↦ faulted
              | refused ↦ aborted
            ]
          ])
          ((s, r)
            ∷ elim o [ some (leaves next err) ↦ visits isspace sent dispatch next runs | _ ↦ [] ])
  round_end s r runs none h k = absurd h
  round_end s r runs (some waits) h k = tt
  round_end s r runs (some crashed) h k = tt
  round_end s r runs (some refused) h k = inl h
  round_end s r runs (some (leaves next err)) (inr fails) k =
      Aborts-any isspace sent dispatch _ _ (inl fails)
  round_end s r runs (some (leaves next err)) (inl good) k =
      Aborts-more isspace sent dispatch _ s r _ (k next good)

  fsm_lem :
      (s : AppState) (runs : List Run)
      → HasHandler s
      → Aborts isspace sent dispatch
          (state_handler_fsm isspace sent dispatch s runs)
          (visits isspace sent dispatch s runs)
  unfolding state_handler_fsm
  fsm_lem AppState.null runs h = absurd h
  fsm_lem AppState.error runs h = absurd h
  fsm_lem AppState.end runs h = tt
  fsm_lem _ [] h = tt
  fsm_lem s (r ∷ runs) h =
      round_end s r runs (run_handler isspace sent dispatch s r) (run_handler_lem s r tt)
        (λ next k. fsm_lem next runs k)

next_handled : (d : Dispatched) → DispatchesMessage d → NextHandled d
next_handled (handled shown) h = tt
next_handled (handled (next_state s)) h = h
next_handled (handled (connecting details)) h = tt
next_handled (handled (request m)) h = tt
next_handled (handled overrun) h = tt
next_handled (listed types) h = tt
next_handled unrecognized h = tt
next_handled not_in_context h = tt
next_handled no_command h = tt

-- The client's loop starts in the offline state. No assertion fails, neither the loop's, on a state
-- without a handler, nor the one of state_handler_set_next, on a state that is set already, unless
-- in a state that was met something exceptional happens: in the state for connecting, both sockets
-- are open and the wait for the server's first message fails, or a line is typed that sets a state;
-- in a state that waits on the condition, the wait returns without a signal. A handler that waits
-- leaves as soon as a state is set, before another thread sets one; a thread that a state has
-- started does nothing more when that state is left; and no line is typed between two waits but
-- while the client connects. atoi() gives a number of 32 bits.
pub state_handler_fsm-Aborts :
    (isspace : ℕ → Bool) (sent : Message → Option ErrorCode) (atoi : List ℕ → ℕ)
    (exists can_read : List ℕ → Bool) (old_ip : List ℕ) (runs : List Run)
    → ((text : List ℕ) → atoi text < 2 ^ 32)
    → let dispatch = dispatch_command atoi exists can_read old_ip in
      Aborts isspace sent dispatch
        (state_handler_fsm isspace sent dispatch AppState.offline runs)
        (visits isspace sent dispatch AppState.offline runs)
state_handler_fsm-Aborts isspace sent atoi exists can_read old_ip runs number =
    fsm_lem isspace sent (dispatch_command atoi exists can_read old_ip)
      (λ input types.
        next_handled _
          (dispatch_command-DispatchesMessage atoi exists can_read old_ip number input types))
      AppState.offline runs tt

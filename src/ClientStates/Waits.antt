-- ===== src/ClientStates/Waits.antt =====
-- Statements on the handlers of client/state_handlers: which states they leave, and what makes an
-- assertion fail.
use they_chat.Base.{
  ℕ, ◌≡◌, ◌⊎◌, inl, inr, refl, Bool, true, false, Bool-cases, Option, none, some, List, [], ◌∷◌,
}
use they_chat.Message.{Message, Payload, UserChatPayload}
use they_chat.Message.Create.{create_user_chat_msg, create_user_login_msg}
use they_chat.ClientList.{AppState}
use they_chat.NetPrimitives.{ErrorCode}
use they_chat.ServerStates.{message, failure}
use they_chat.Command.{
  CommandType, shown, next_state, connecting, request, overrun, Dispatched, handled, listed,
  unrecognized, not_in_context, no_command,
}
use they_chat.Command.Requests.{HasHandler}
use they_chat.World.{state_code}
use they_chat.ClientStates.{
  Happening, wakes, line, status, Outcome, leaves, waits, crashed, refused, Callback, stays, sets,
  overruns, of_error, of_dispatched, handle_input, Typed, nothing, command, text, read_line,
  wait_next_state, handle_state_offline, first_message, after_line, typed_early, offline_callback,
  state_handler_set_next, wait_connected, handle_state_connect, accepted, wait_queue, login_status,
  wait_login, of_created, on_failure, wait_chat, Run, waiting_types, offline_types, chat_types,
}

abbrev pub SetsHandled : Callback → Type 0
SetsHandled (sets s) = HasHandler s
SetsHandled _ = Unit

abbrev pub NextHandled : Dispatched → Type 0
NextHandled (handled (next_state s)) = HasHandler s
NextHandled _ = Unit

-- The first wait on the status connection fails.
abbrev pub FirstFails : List Happening → Type 0
FirstFails [] = ⊥
FirstFails (wakes ∷ happenings) = FirstFails happenings
FirstFails (line input ∷ happenings) = FirstFails happenings
FirstFails (status (message m) ∷ happenings) = ⊥
FirstFails (status (failure c) ∷ happenings) = Unit

-- Both sockets are open and the wait for the first message fails.
abbrev pub ConnectFails : Run → Type 0
ConnectFails r = (r.status_result ≡ none) × (r.task_result ≡ none) × FirstFails r.happenings

-- A wait on the condition returns without a signal.
abbrev pub Wakes : List Happening → Type 0
Wakes [] = ⊥
Wakes (wakes ∷ happenings) = Unit
Wakes (line input ∷ happenings) = Wakes happenings
Wakes (status a ∷ happenings) = Wakes happenings

abbrev pub Sets : Callback → Type 0
Sets (sets s) = Unit
Sets _ = ⊥

module _ (isspace : ℕ → Bool) (sent : Message → Option ErrorCode)
    (dispatch : List ℕ → List CommandType → Dispatched) where
  -- A line that sets the next state: one of the lines typed before the sockets are open, or of
  -- those before the first message.
  abbrev pub SomeSets : List (List ℕ) → Type 0
  SomeSets [] = ⊥
  SomeSets (input ∷ inputs) =
      Sets (offline_callback isspace sent dispatch (line input)) ⊎ SomeSets inputs

  abbrev pub TypesState : List Happening → Type 0
  TypesState [] = ⊥
  TypesState (wakes ∷ happenings) = TypesState happenings
  TypesState (line input ∷ happenings) =
      Sets (offline_callback isspace sent dispatch (line input)) ⊎ TypesState happenings
  TypesState (status a ∷ happenings) = ⊥

  -- What makes an assertion fail, in a state.
  abbrev pub IsExceptional : AppState → Run → Type 0
  IsExceptional AppState.connect r = ConnectFails r ⊎ (SomeSets r.early ⊎ TypesState r.happenings)
  IsExceptional AppState.disconnect r = ⊥
  IsExceptional AppState.quit r = ⊥
  IsExceptional _ r = Wakes r.happenings

-- What a handler leaves has a handler, except after such an event.
abbrev pub LeavesHandled : Type 0 → Outcome → Type 0
LeavesHandled F (leaves s err) = HasHandler s ⊎ F
LeavesHandled F waits = Unit
LeavesHandled F crashed = Unit
LeavesHandled F refused = F

excused : (F : Type 0) (o : Outcome) → F → LeavesHandled F o
excused F (leaves s err) f = inr f
excused F waits f = tt
excused F crashed f = tt
excused F refused f = f

module _ (isspace : ℕ → Bool) (sent : Message → Option ErrorCode)
    (dispatch : List ℕ → List CommandType → Dispatched)
    (known : (input : List ℕ) (types : List CommandType) → NextHandled (dispatch input types))
    (F : Type 0) where
  error_lem : (o : Option ErrorCode) → SetsHandled (of_error o)
  error_lem none = tt
  error_lem (some c) = tt

  dispatched_lem :
      (d : Dispatched) → NextHandled d → SetsHandled (of_dispatched isspace sent dispatch d)
  dispatched_lem (handled shown) h = tt
  dispatched_lem (handled (next_state s)) h = h
  dispatched_lem (handled (connecting details)) h = tt
  dispatched_lem (handled (request m)) h = error_lem (sent m)
  dispatched_lem (handled overrun) h = tt
  dispatched_lem (listed types) h = tt
  dispatched_lem unrecognized h = tt
  dispatched_lem not_in_context h = tt
  dispatched_lem no_command h = tt

  input_lem :
      (types : List CommandType) (callback : List ℕ → Callback) (input : List ℕ)
      → ((typed : List ℕ) → SetsHandled (callback typed))
      → SetsHandled (handle_input isspace sent dispatch types callback input)
  unfolding handle_input
  input_lem types callback input h = typed_lem (read_line isspace input)
    where
      typed_lem :
          (t : Typed)
          → SetsHandled (elim t [
            | nothing ↦ stays
            | command typed ↦ of_dispatched isspace sent dispatch (dispatch typed types)
            | text typed ↦ callback typed
          ])
      typed_lem nothing = tt
      typed_lem (command typed) = dispatched_lem (dispatch typed types) (known typed types)
      typed_lem (text typed) = h typed

  -- One round of a wait.
  round_lem :
      (c : Callback) (go : Outcome)
      → SetsHandled c
      → LeavesHandled F go
      → LeavesHandled F (elim c [ stays ↦ go | sets s ↦ leaves s none | overruns ↦ crashed ])
  round_lem stays go h k = k
  round_lem (sets s) go h k = inl h
  round_lem overruns go h k = tt

  pub offline_lem :
      (happenings : List Happening)
      → (Wakes happenings → F)
      → LeavesHandled F (handle_state_offline isspace sent dispatch happenings)
  unfolding handle_state_offline wait_next_state
  offline_lem [] k = tt
  offline_lem (wakes ∷ happenings) k = inr (k tt)
  offline_lem (line input ∷ happenings) k =
      round_lem
        (handle_input isspace sent dispatch (offline_types isspace sent dispatch) (λ typed. stays)
          input)
        _ (input_lem _ (λ typed. stays) input (λ typed. tt)) (offline_lem happenings k)
  offline_lem (status a ∷ happenings) k = offline_lem happenings k

  pub queue_lem :
      (listens : Bool) (happenings : List Happening)
      → (Wakes happenings → F)
      → LeavesHandled F (wait_queue isspace sent dispatch listens happenings)
  unfolding wait_queue
  queue_lem listens [] k = tt
  queue_lem true (wakes ∷ happenings) k = inr (k tt)
  queue_lem false (wakes ∷ happenings) k = inr (k tt)
  queue_lem listens (line input ∷ happenings) k =
      round_lem
        (handle_input isspace sent dispatch (waiting_types isspace sent dispatch) (λ typed. stays)
          input)
        _ (input_lem _ (λ typed. stays) input (λ typed. tt)) (queue_lem listens happenings k)
  queue_lem true (status (failure c) ∷ happenings) k = queue_lem false happenings k
  queue_lem false (status (failure c) ∷ happenings) k = queue_lem false happenings k
  queue_lem false (status (message m) ∷ happenings) k = queue_lem false happenings k
  queue_lem true (status (message m) ∷ happenings) k =
      round_lem (accepted isspace sent dispatch m.payload) _ (payload m.payload)
        (queue_lem true happenings k)
    where
      payload : (p : Payload) → SetsHandled (accepted isspace sent dispatch p)
      payload (Payload.client_connected bs) = tt
      payload _ = tt

  pub login_lem :
      (old : List ℕ) (pending : Bool) (happenings : List Happening)
      → (Wakes happenings → F)
      → LeavesHandled F (wait_login isspace sent dispatch old pending happenings)
  unfolding wait_login
  login_lem old true [] k = tt
  login_lem old false [] k = tt
  login_lem old true (wakes ∷ happenings) k = inr (k tt)
  login_lem old false (wakes ∷ happenings) k = inr (k tt)
  login_lem old true (line input ∷ happenings) k = login_lem old true happenings k
  login_lem old true (status (failure c) ∷ happenings) k = inl tt
  login_lem old true (status (message m) ∷ happenings) k =
      round_lem (login_status isspace sent dispatch m.payload) _ (payload m.payload)
        (login_lem old false happenings k)
    where
      payload : (p : Payload) → SetsHandled (login_status isspace sent dispatch p)
      payload (Payload.status p) = elim (Bool-cases p.status) [
        | inl success ↦ rw success tt
        | inr refusal ↦ rw refusal tt
      ]
      payload _ = tt
  login_lem old false (status a ∷ happenings) k = login_lem old false happenings k
  login_lem old false (line input ∷ happenings) k =
      typed_lem (read_line isspace input) (login_lem old false happenings k)
        (login_lem old true happenings k)
    where
      answered :
          (o : Option ErrorCode)
          → LeavesHandled F (wait_login isspace sent dispatch old true happenings)
          → LeavesHandled F (elim o [
            | none ↦ wait_login isspace sent dispatch old true happenings
            | some c ↦ leaves AppState.disconnect none
          ])
      answered none k = k
      answered (some c) k = inl tt

      created :
          (o : Option Message)
          → LeavesHandled F (wait_login isspace sent dispatch old true happenings)
          → LeavesHandled F (elim o [
            | none ↦ crashed
            | some m ↦ elim (sent m) [
              | none ↦ wait_login isspace sent dispatch old true happenings
              | some c ↦ leaves AppState.disconnect none
            ]
          ])
      created none k = tt
      created (some m) k = answered (sent m) k

      typed_lem :
          (t : Typed)
          → LeavesHandled F (wait_login isspace sent dispatch old false happenings)
          → LeavesHandled F (wait_login isspace sent dispatch old true happenings)
          → LeavesHandled F (elim t [
            | nothing ↦ wait_login isspace sent dispatch old false happenings
            | command typed ↦
                elim (of_dispatched isspace sent dispatch
                  (dispatch typed (waiting_types isspace sent dispatch))) [
                    | stays ↦ wait_login isspace sent dispatch old false happenings
                    | sets s ↦ leaves s none
                    | overruns ↦ crashed
                  ]
            | text typed ↦ elim (create_user_login_msg old typed) [
              | none ↦ crashed
              | some m ↦ elim (sent m) [
                | none ↦ wait_login isspace sent dispatch old true happenings
                | some c ↦ leaves AppState.disconnect none
              ]
            ]
          ])
      typed_lem nothing k l = k
      typed_lem (command typed) k l =
          round_lem _ _ (dispatched_lem (dispatch typed _) (known typed _)) k
      typed_lem (text typed) k l = created (create_user_login_msg old typed) l

  created_lem : (o : Option Message) → SetsHandled (of_created isspace sent dispatch o)
  created_lem none = tt
  created_lem (some m) = error_lem (sent m)

  failure_lem : (c : ErrorCode) → SetsHandled (on_failure isspace sent dispatch c)
  failure_lem ErrorCode.net_connection_closed = tt
  failure_lem _ = tt

  pub chat_lem :
      (old : UserChatPayload) (now : ℕ) (username : List ℕ) (listens : Bool)
      (happenings : List Happening)
      → (Wakes happenings → F)
      → LeavesHandled F (wait_chat isspace sent dispatch old now username listens happenings)
  unfolding wait_chat
  chat_lem old now username true [] k = tt
  chat_lem old now username false [] k = tt
  chat_lem old now username true (wakes ∷ happenings) k = inr (k tt)
  chat_lem old now username false (wakes ∷ happenings) k = inr (k tt)
  chat_lem old now username listens (line input ∷ happenings) k =
      round_lem
        (handle_input isspace sent dispatch (chat_types isspace sent dispatch)
          (λ typed. of_created isspace sent dispatch (create_user_chat_msg old now typed username))
          input)
        _
        (input_lem _
          (λ typed. of_created isspace sent dispatch (create_user_chat_msg old now typed username))
          input (λ typed. created_lem _))
        (chat_lem old now username listens happenings k)
  chat_lem old now username true (status (message m) ∷ happenings) k =
      chat_lem old now username true happenings k
  chat_lem old now username false (status (message m) ∷ happenings) k =
      chat_lem old now username false happenings k
  chat_lem old now username false (status (failure c) ∷ happenings) k =
      chat_lem old now username false happenings k
  chat_lem old now username true (status (failure c) ∷ happenings) k =
      round_lem (on_failure isspace sent dispatch c) _ (failure_lem c)
        (chat_lem old now username false happenings k)

  after_line_lem :
      (c : Callback) (k : AppState → Outcome)
      → (Sets c → F)
      → LeavesHandled F (k AppState.null)
      → LeavesHandled F (after_line isspace sent dispatch AppState.null c k)
  after_line_lem stays k f h = h
  after_line_lem (sets s) k f h = excused F _ (f tt)
  after_line_lem overruns k f h = tt

  early_lem :
      (early : List (List ℕ)) (k : AppState → Outcome)
      → (SomeSets isspace sent dispatch early → F)
      → LeavesHandled F (k AppState.null)
      → LeavesHandled F (typed_early isspace sent dispatch AppState.null early k)
  early_lem [] k f h = h
  early_lem (input ∷ early) k f h =
      after_line_lem (offline_callback isspace sent dispatch (line input))
        (λ p. typed_early isspace sent dispatch p early k) (λ x. f (inl x))
        (early_lem early k (λ x. f (inr x)) h)

  wait_connected_lem :
      (happenings : List Happening)
      → (FirstFails happenings → F)
      → (TypesState isspace sent dispatch happenings → F)
      → LeavesHandled F (wait_connected isspace sent dispatch AppState.null happenings)
  unfolding state_handler_set_next state_code
  wait_connected_lem [] k f = tt
  wait_connected_lem (wakes ∷ happenings) k f = wait_connected_lem happenings k f
  wait_connected_lem (line input ∷ happenings) k f =
      after_line_lem (offline_callback isspace sent dispatch (line input))
        (λ p. wait_connected isspace sent dispatch p happenings) (λ x. f (inl x))
        (wait_connected_lem happenings k (λ x. f (inr x)))
  wait_connected_lem (status (failure c) ∷ happenings) k f = inr (k tt)
  wait_connected_lem (status (message m) ∷ happenings) k f = inl (payload m.payload)
    where
      payload : (p : Payload) → HasHandler (first_message isspace sent dispatch p)
      payload (Payload.client_on_queue bs) = tt
      payload (Payload.client_connected bs) = tt
      payload _ = tt

  pub connect_lem :
      (early : List (List ℕ)) (status_result task_result : Option ErrorCode)
      (happenings : List Happening)
      → (status_result ≡ none → task_result ≡ none → FirstFails happenings → F)
      → (SomeSets isspace sent dispatch early → F)
      → (TypesState isspace sent dispatch happenings → F)
      → LeavesHandled F
          (handle_state_connect isspace sent dispatch early status_result task_result happenings)
  unfolding handle_state_connect state_handler_set_next state_code
  connect_lem early (some c) task_result happenings k f g = early_lem early _ f (inl tt)
  connect_lem early none (some c) happenings k f g = early_lem early _ f (inl tt)
  connect_lem early none none happenings k f g =
      early_lem early (λ p. wait_connected isspace sent dispatch p happenings) f
        (wait_connected_lem happenings (k refl refl) g)

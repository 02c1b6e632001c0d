-- ===== src/ClientHandler.antt =====
-- server_states_handler_fsm of server/client_handler.c, which runs a client through its states, and
-- the clients that server_run of server/server.c accepts. `run` is a history of the server: what
-- happens, in the order in which it happens; a thread runs from one wait to the next undisturbed.
pub mod Ends
pub mod Stops
pub mod Names
pub mod Sound
pub mod Keeps
pub mod History
use they_chat.Base.{ℕ, zero, suc, Bool, true, false, Option, none, some, List, [], ◌∷◌}
use they_chat.Message.{Message}
use they_chat.Message.Create.{create_client_on_queue}
use they_chat.NetPrimitives.{ErrorCode}
use they_chat.ClientList.{AppState, Client, client_list_add, client_list_find_by_id}
use they_chat.World.{Channel, World, write_client, send, init_client_network}
use they_chat.ServerStates.{
  Arrival, After, waiting, next, failed, fault, Notice, handle_state_connect, handle_state_login,
  enter_chat, handle_state_chat, handle_state_disconnect,
}

-- Where the thread of a client stops; `exited` is a handler that set no next state.
pub data Session : Type 0 where
  blocked : World → Session
  ended : World → Session
  exited : Session
  faulted : Session
  out_of_fuel : Session

abbrev pub set_state : AppState → Client → Client
set_state s client = record client { current_state = s }

abbrev pub enter_next : (AppState → World → Session) → AppState → World → Session
enter_next go AppState.null w = exited
enter_next go s w = go s w

-- What the loop does with a handler's result; `go` is the loop.
abbrev pub settle : (AppState → World → Session) → After → Session
settle go (waiting w) = blocked w
settle go (next s w) = enter_next go s w
settle go (failed c w) = go AppState.disconnect w
settle go fault = faulted

-- The loop takes the client's pointer once, and writes the state through it.
unfoldable pub or_crash : Option Client → (Client → Session) → Session
or_crash none k = faulted
or_crash (some client) k = k client

abbrev pub if_listed : World → ℕ → (Client → Session) → Session
if_listed w id k = or_crash (client_list_find_by_id (some w.clients) id) k

abbrev pub marked : ℕ → AppState → World → World
marked id s w = write_client id (set_state s) w

-- `accepted` holds what the new client's block held, the contexts, the address and whether all
-- threads are busy; `started` is a handler that a thread of the pool begins with.
pub data Event : Type 0 where
  accepted : Client → ℕ → ℕ → List ℕ → Bool → Event
  started : ℕ → Event
  arrived : ℕ → Bool → Arrival → Event

abbrev pub survives : Session → Option World
survives (blocked w) = some w
survives (ended w) = some w
survives exited = none
survives faulted = none
survives out_of_fuel = none

module _ (net : ℕ → Option ErrorCode) (printed : Notice → List ℕ) (blank old : List ℕ)
    (now : ℕ) where
  -- A state's handler up to its first wait or its end. The switch has no handler for the other
  -- states, and the call goes through whatever the pointer holds.
  abbrev pub begin_state : ℕ → AppState → World → After
  begin_state id AppState.connect w =
      handle_state_connect net printed blank old now id (marked id AppState.connect w)
  begin_state id AppState.login w = waiting (marked id AppState.login w)
  begin_state id AppState.chat w = enter_chat (marked id AppState.chat w)
  begin_state id AppState.disconnect w =
      handle_state_disconnect net printed blank old now id (marked id AppState.disconnect w)
  begin_state id _ w = fault

  -- The loop: one round of fuel for each state.
  unfoldable pub enter : ℕ → ℕ → AppState → World → Session
  enter zero id s w = out_of_fuel
  enter (suc fuel) id AppState.end w = ended w
  enter (suc fuel) id s w = if_listed w id (λ client. settle (enter fuel id) (begin_state id s w))

  unfoldable pub server_states_handler_fsm : ℕ → World → Session
  server_states_handler_fsm id w = enter 4 id AppState.connect w

  -- The handler that a client's thread waits in takes what arrives.
  abbrev pub at_wait : ℕ → Bool → Arrival → World → AppState → After
  at_wait id running a w AppState.login = handle_state_login net printed blank old now id a w
  at_wait id running a w AppState.chat = handle_state_chat id running a w
  at_wait id running a w _ = waiting w

  unfoldable pub resume : ℕ → Bool → Arrival → World → Session
  resume id running a w =
      if_listed w id (λ client. settle (enter 4 id) (at_wait id running a w client.current_state))

  abbrev pub tell_queued : Bool → Option Message → ℕ → World → World
  tell_queued true (some m) id w = (send net w id Channel.status m).0
  tell_queued _ _ id w = w

  -- The part of server_run's loop between the accepted connections and the job.
  unfoldable pub accept_client : Client → ℕ → ℕ → List ℕ → Bool → World → World
  accept_client block status_context task_context ip busy w =
      let (clients, client) = client_list_add block w.clients in
      let w' =
        write_client client.id (λ c. init_client_network c status_context task_context ip)
          (record w { clients = clients }) in
      tell_queued busy (create_client_on_queue blank) client.id w'

  unfoldable pub step : World → Event → Option World
  step w (accepted block status_context task_context ip busy) =
      some (accept_client block status_context task_context ip busy w)
  step w (started id) = survives (server_states_handler_fsm id w)
  step w (arrived id running a) = survives (resume id running a w)

  -- The world after a history, if the process lives to see it.
  unfoldable pub run : World → List Event → Option World
  run w [] = some w
  run w (e ∷ es) = elim (step w e) [ none ↦ none | some w' ↦ run w' es ]

-- ===== src/ClientHandler/Ends.antt =====
-- Statements on where server_states_handler_fsm of server/client_handler.c stops.
use they_chat.Base.{
  ℕ, suc, ◌≡◌, refl, sym, ap, subst, ◌∙◌, ◌==◌, Bool, true, false, Bool-cases, inl, inr, Option,
  none, some, List, if◌then◌else◌,
}
use they_chat.CString.{c_string}
use they_chat.NetPrimitives.{ErrorCode}
use they_chat.MessageSerializer.{map_option}
use they_chat.ClientList.{AppState, Client, client_list_remove, client_list_find_by_id}
use they_chat.ClientList.Laws.{IsClientList, client_list_remove_lem}
use they_chat.Server.{server_remove_client_files}
use they_chat.World.{World, change_at, write_client}
use they_chat.World.Laws.{
  lookup, write_client-IsClientList, lookup-write_client, lookup-write_other,
  send_broadcast_exclude-SameClients, server_client_count_update-SameClients, lookup_same,
  IsClientList-same,
}
use they_chat.ServerStates.{
  Notice, failure, hang_up, drop_client, say_goodbye, disconnect_client, disconnect_found,
  handle_state_disconnect, handle_state_login, handle_state_chat,
}
use they_chat.ClientHandler.{
  Session, ended, set_state, settle, or_crash, marked, begin_state, enter, at_wait, resume,
}

-- The states whose handlers wait for messages.
abbrev pub WaitsIn : AppState → Type 0
WaitsIn AppState.login = Unit
WaitsIn AppState.chat = Unit
WaitsIn _ = ⊥

-- The client is gone; the others are as they were.
abbrev pub Without : ℕ → World → ℕ → World → Type 0
Without id w j w' = IsClientList w'.clients × (lookup w' j ≡ (if id == j then none else lookup w j))

Without-chain :
    (id : ℕ) (v w : World) (j : ℕ) (w' : World)
    → ((id == j) ≡ false → lookup w j ≡ lookup v j)
    → Without id w j w'
    → Without id v j w'
Without-chain id v w j w' same (valid, found) = (
  valid,
  found ∙ (elim (Bool-cases (id == j)) [
    | inl gone ↦ rw gone refl
    | inr other ↦ rw other (same other)
  ]),
)

drop_client-Without :
    (id : ℕ) (w : World) (j : ℕ) → IsClientList w.clients → Without id w j (drop_client id w)
unfolding client_list_find_by_id
drop_client-Without id w j h =
    let w' = write_client id hang_up w in
    let h' = write_client-IsClientList id hang_up (λ c. refl) w h in
    let (valid, removed, found) = client_list_remove_lem w'.clients id j h' in
    let v = record w' { clients = (client_list_remove w'.clients id).0 } in
    let same = server_client_count_update-SameClients v in
    Without-chain id w w' j (drop_client id w) (lookup-write_other id hang_up (λ c. refl) w j) (
      IsClientList-same v (drop_client id w) same valid,
      lookup_same v (drop_client id w) j same ∙ found,
    )

module _ (net : ℕ → Option ErrorCode) (printed : Notice → List ℕ) (blank old : List ℕ)
    (now : ℕ) where
  disconnect_client-Without :
      (id : ℕ) (client : Client) (w : World) (j : ℕ)
      → IsClientList w.clients
      → Without id w j (disconnect_client net printed blank old now id client w)
  disconnect_client-Without id client w j h =
      let (files, count) = server_remove_client_files w.files id in
      let v = record w { files = files } in
      let w1 = say_goodbye net printed blank old now id (c_string client.name) count v in
      let same = send_broadcast_exclude-SameClients _ id v in
      Without-chain id w w1 j (drop_client id w1) (λ other. lookup_same v w1 j same)
        (drop_client-Without id w1 j (IsClientList-same v w1 same h))

  -- The last two rounds.
  abbrev pub Leaves : ℕ → World → ℕ → Session → Type 0
  Leaves id w j s = (w' : World) × (s ≡ ended w') × Without id w j w'

  enter-disconnect :
      (fuel id : ℕ) (w : World) (client : Client) (j : ℕ)
      → lookup w id ≡ some client
      → IsClientList w.clients
      → Leaves id w j (enter net printed blank old now (suc (suc fuel)) id AppState.disconnect w)
  unfolding enter handle_state_disconnect or_crash
  enter-disconnect fuel id w client j here h =
      let v = marked id AppState.disconnect w in
      let client' = change_at id (set_state AppState.disconnect) client in
      let still : lookup v id ≡ some client' =
        lookup-write_client id (set_state AppState.disconnect) (λ c. refl) w id
        ∙ ap (map_option (change_at id (set_state AppState.disconnect))) here in
      let h' = write_client-IsClientList id (set_state AppState.disconnect) (λ c. refl) w h in
      let w' = disconnect_client net printed blank old now id client' v in
      (
        w',
        ap
              (λ o. or_crash o (λ c.
                settle (enter net printed blank old now (suc fuel) id)
                  (begin_state net printed blank old now id AppState.disconnect w)))
              here
            ∙ ap
                (λ o.
                  settle (enter net printed blank old now (suc fuel) id)
                    (disconnect_found net printed blank old now id v o))
                still,
        Without-chain id w v j w'
            (lookup-write_other id (set_state AppState.disconnect) (λ c. refl) w j)
            (disconnect_client-Without id client' v j h'),
      )

  failure-Leaves :
      (id : ℕ) (running : Bool) (c : ErrorCode) (w : World) (client : Client) (j : ℕ)
      → lookup w id ≡ some client
      → IsClientList w.clients
      → (s : AppState) → WaitsIn s
      → Leaves id w j (
          settle
            (enter net printed blank old now 4 id)
            (at_wait net printed blank old now id running (failure c) w s))
  unfolding handle_state_login handle_state_chat
  failure-Leaves id running c w client j here h AppState.login at =
      enter-disconnect 2 id w client j here h
  failure-Leaves id true c w client j here h AppState.chat at =
      enter-disconnect 2 id w client j here h
  failure-Leaves id false c w client j here h AppState.chat at =
      enter-disconnect 2 id w client j here h
  failure-Leaves id running c w client j here h _ at = absurd at

  -- A client whose connection fails while its thread waits for a login or in the chat is taken off
  -- the list by its thread, which ends; every other client is found as before, and the numbers stay
  -- unique.
  pub resume-Leaves :
      (id : ℕ) (running : Bool) (c : ErrorCode) (w : World) (client : Client) (j : ℕ)
      → lookup w id ≡ some client
      → IsClientList w.clients
      → WaitsIn client.current_state
      → Leaves id w j (resume net printed blank old now id running (failure c) w)
  unfolding resume or_crash
  resume-Leaves id running c w client j here h at =
      subst (Leaves id w j)
        (sym (
          ap
            (λ o. or_crash o (λ cl.
              settle (enter net printed blank old now 4 id)
                (at_wait net printed blank old now id running (failure c) w cl.current_state)))
            here))
        (failure-Leaves id running c w client j here h client.current_state at)

-- ===== src/ClientHandler/Sound.antt =====
-- The invariant of the server's clients, and the assignments of the state handlers that keep it.
use they_chat.Base.{
  ℕ, ◌≤◌, ◌≡◌, ◌≢◌, ◌⊎◌, refl, sym, ap, subst, ◌∙◌, ◌==◌, true, false, inl, inr, none, some, List,
  length, take_all, arith,
}
use they_chat.CString.{c_string, str_eq, strncpy}
use they_chat.CString.Laws.{c_string-IsString, c_string-strncpy, str_eq_refl, length-c_string}
use they_chat.Message.{max_username_bytes}
use they_chat.Sequence.Laws.{All-erase, Distinct-erase}
use they_chat.Sequence.Among.{Among, Among-erase, find-misses}
use they_chat.ClientList.{
  AppState, Client, has_id, has_name, client_list_remove, client_list_find_by_name,
}
use they_chat.ClientList.Laws.{client_key, IsClientList, remove_lem}
use they_chat.World.{World, write_client, in_chat, state_code}
use they_chat.World.Laws.{
  KeepsId, SameClients, write_client-IsClientList, IsClientList-same,
  server_client_count_update-SameClients,
}
use they_chat.ServerStates.{set_name, hang_up, drop_client}
use they_chat.ClientHandler.{set_state}
use they_chat.ClientHandler.Names.{
  NamesUnique, FreshFor, NamesUnique-same, NamesUnique-write, Among-Written,
}

-- Numbers are unique and below the counter, which is at most `n`, and names in the chat are unique.
pub record IsSound (n : ℕ) (w : World) : Type 0 where
  pub valid : IsClientList w.clients
  pub names : NamesUnique w
  pub below : w.clients.next_client_id ≤ n

-- The client with this number can go into the chat under its name.
abbrev pub Reserved : ℕ → World → Type 0
Reserved id w = FreshFor id (set_state AppState.chat) w

pub IsSound-same : (n : ℕ) (w w' : World) → SameClients w w' → IsSound n w → IsSound n w'
IsSound-same n w w' s h = record {
  valid = IsClientList-same w w' s h.valid;
  names = NamesUnique-same w w' s h.names;
  below = subst (λ k. k ≤ n) (sym s.1) h.below;
}

pub Reserved-same : (id : ℕ) (w w' : World) → SameClients w w' → Reserved id w → Reserved id w'
Reserved-same id w w' s h =
    subst
      (λ cs.
        (c d : Client)
        → Among c cs
        → Among d cs
        → c.id ≡ id
        → in_chat (set_state AppState.chat c) ≡ true
        → in_chat d ≡ true
        → c_string c.name ≡ c_string d.name
        → d.id ≡ id)
      (sym s.0) h

pub IsSound-write :
    (n id : ℕ) (f : Client → Client) (w : World)
    → KeepsId f
    → FreshFor id f w
    → IsSound n w
    → IsSound n (write_client id f w)
unfolding write_client
IsSound-write n id f w keeps fresh h = record {
  valid = write_client-IsClientList id f keeps w h.valid;
  names = NamesUnique-write id f keeps w fresh h.names;
  below = h.below;
}

-- A state that is not the chat.
pub IsSound-set_state :
    (n id : ℕ) (s : AppState) (w : World)
    → (state_code s == 6) ≡ false
    → IsSound n w
    → IsSound n (write_client id (set_state s) w)
IsSound-set_state n id s w other h =
    IsSound-write n id (set_state s) w (λ c. refl) (λ c d in_c in_d i chat chat_d e. cc) h

pub IsSound-enter_chat :
    (n id : ℕ) (w : World)
    → Reserved id w
    → IsSound n w
    → IsSound n (write_client id (set_state AppState.chat) w)
IsSound-enter_chat n id w r h = IsSound-write n id (set_state AppState.chat) w (λ c. refl) r h

IsSound-remove :
    (n id : ℕ) (w : World)
    → IsSound n w
    → IsSound n (record w { clients = (client_list_remove w.clients id).0 })
IsSound-remove n id w h = rw (remove_lem w.clients id) (record {
  valid = record {
    distinct = Distinct-erase client_key (has_id id) w.clients.list h.valid.distinct;
    below = All-erase client_key _ (has_id id) w.clients.list h.valid.below;
  };
  names = λ c d in_c in_d.
      h.names c d (Among-erase (has_id id) c w.clients.list in_c)
        (Among-erase (has_id id) d w.clients.list in_d);
  below = h.below;
})

pub IsSound-drop_client : (n id : ℕ) (w : World) → IsSound n w → IsSound n (drop_client id w)
IsSound-drop_client n id w h =
    let w' = write_client id hang_up w in
    let h' : IsSound n w' =
      IsSound-write n id hang_up w (λ c. refl)
        (λ c d in_c in_d i chat_c chat_d e. sym (h.names c d in_c in_d chat_c chat_d e) ∙ i) h in
    let v = record w' { clients = (client_list_remove w'.clients id).0 } in
    IsSound-same n v (drop_client id w) (server_client_count_update-SameClients v)
      (IsSound-remove n id w' h')

module _ (id : ℕ) (username : List ℕ) (w : World) where
  -- A name that fits the array is kept whole.
  kept_name :
      length username ≡ max_username_bytes
      → c_string (strncpy (c_string username) max_username_bytes) ≡ c_string username
  kept_name size =
      c_string-strncpy (c_string username) max_username_bytes (c_string-IsString username)
      ∙ take_all max_username_bytes (c_string username)
          (omega (arith, length-c_string username, size))

  module _ (unused : client_list_find_by_name (some w.clients) username ≡ none)
      (size : length username ≡ max_username_bytes) where
    name_unused :
        (d : Client)
        → Among d w.clients.list
        → c_string (strncpy (c_string username) max_username_bytes) ≢ c_string d.name
    unfolding client_list_find_by_name
    name_unused d at e =
        let same : c_string d.name ≡ c_string username = sym e ∙ kept_name size in
        let hit : has_name username d ≡ true =
          ap (λ s. str_eq s (c_string username)) same ∙ str_eq_refl (c_string username) in
        let miss = find-misses (has_name username) d w.clients.list unused at in cc

    pub IsSound-set_name :
        (n : ℕ) → IsSound n w → IsSound n (write_client id (set_name (c_string username)) w)
    IsSound-set_name n h =
        IsSound-write n id (set_name (c_string username)) w (λ c. refl)
          (λ c d in_c in_d i chat_c chat_d e. absurd (name_unused d in_d e)) h

    pub Reserved-set_name : Reserved id (write_client id (set_name (c_string username)) w)
    Reserved-set_name c' d' at_c at_d i chat_c chat_d e =
        let f = set_name (c_string username) in
        let (c, in_c, which_c) = Among-Written id f (λ x. refl) w c' at_c in
        let (d, in_d, which_d) = Among-Written id f (λ x. refl) w d' at_d in
        cases c d in_d which_c which_d
      where
        cases :
            (c d : Client)
            → Among d w.clients.list
            → ((c.id ≡ id) × (c' ≡ set_name (c_string username) c)) ⊎ ((c.id ≢ id) × (c' ≡ c))
            → ((d.id ≡ id) × (d' ≡ set_name (c_string username) d)) ⊎ ((d.id ≢ id) × (d' ≡ d))
            → d'.id ≡ id
        cases c d in_d which_c (inl (q, ed)) = ap (λ x. x.id) ed ∙ q
        cases c d in_d (inr (other, ec)) (inr which_d) =
            absurd (other (sym (ap (λ x. x.id) ec) ∙ i))
        cases c d in_d (inl (q, ec)) (inr (other, ed)) = absurd (
            name_unused d in_d
              (sym (ap (λ x. c_string x.name) ec) ∙ e ∙ ap (λ x. c_string x.name) ed))

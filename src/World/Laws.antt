-- ===== src/World/Laws.antt =====
-- Lemmas on lookups in a world whose clients are written to.
use they_chat.Base.{
  ℕ, ◌≡◌, ◌≢◌, ◌<◌, refl, sym, ap, ◌∙◌, subst, ◌==◌, ==_iff, ne→==, Bool, false, Bool-cases, inl,
  inr, Option, some, List, [], ◌∷◌, map, All,
}
use they_chat.Sequence.{find}
use they_chat.Sequence.Laws.{Distinct}
use they_chat.MessageSerializer.{map_option}
use they_chat.ClientList.{Client, has_id, client_list_find_by_id}
use they_chat.ClientList.Laws.{client_key, IsClientList}
use they_chat.Message.{Message}
use they_chat.NetPrimitives.{ErrorCode}
use they_chat.World.{
  Channel, World, change_at, write_client, send, broadcast_where, in_chat, other_in_chat,
  send_broadcast, send_broadcast_exclude, server_client_count_update,
}

-- The client with a number.
abbrev pub lookup : World → ℕ → Option Client
lookup w j = client_list_find_by_id (some w.clients) j

-- An assignment that leaves the number alone.
abbrev pub KeepsId : (Client → Client) → Type 0
KeepsId f = (c : Client) → (f c).id ≡ c.id

module _ (id : ℕ) (f : Client → Client) (keeps : KeepsId f) where
  change_at-id : (c : Client) → (change_at id f c).id ≡ c.id
  change_at-id c = elim (Bool-cases (c.id == id)) [
    | inl hit ↦ rw hit (keeps c)
    | inr miss ↦ rw miss refl
  ]

  find-change :
      (j : ℕ) (xs : List Client)
      → find (has_id j) (map (change_at id f) xs) ≡ map_option (change_at id f) (find (has_id j) xs)
  unfolding find
  find-change j [] = refl
  find-change j (c ∷ cs) = elim (Bool-cases (c.id == j)) [
    | inl hit ↦ rw (change_at-id c, hit) refl
    | inr miss ↦ rw (change_at-id c, miss) (find-change j cs)
  ]

  All-change :
      (P : ℕ → Type 0) (xs : List Client)
      → All (λ c. P c.id) xs
      → All (λ c. P c.id) (map (change_at id f) xs)
  All-change P [] h = tt
  All-change P (c ∷ cs) h = (subst P (sym (change_at-id c)) h.0, All-change P cs h.1)

  Distinct-change :
      (xs : List Client) → Distinct client_key xs → Distinct client_key (map (change_at id f) xs)
  Distinct-change [] h = tt
  Distinct-change (c ∷ cs) h = (
    subst (λ n. All (λ y. n ≢ client_key y) (map (change_at id f) cs)) (sym (change_at-id c))
        (All-change (λ n. c.id ≢ n) cs h.0),
    Distinct-change cs h.1,
  )

  pub write_client-IsClientList :
      (w : World) → IsClientList w.clients → IsClientList (write_client id f w).clients
  unfolding write_client
  write_client-IsClientList w h = record {
    distinct = Distinct-change w.clients.list h.distinct;
    below = All-change (λ n. n < w.clients.next_client_id) w.clients.list h.below;
  }

  pub lookup-write_client :
      (w : World) (j : ℕ)
      → lookup (write_client id f w) j ≡ map_option (change_at id f) (lookup w j)
  unfolding write_client client_list_find_by_id
  lookup-write_client w j = find-change j w.clients.list

  find-change_other :
      (j : ℕ) (xs : List Client)
      → (id == j) ≡ false
      → find (has_id j) (map (change_at id f) xs) ≡ find (has_id j) xs
  unfolding find
  find-change_other j [] n = refl
  find-change_other j (c ∷ cs) n = elim (Bool-cases (c.id == j)) [
    | inl hit ↦
        let q : c.id ≡ j = (==_iff c.id j).0 hit in
        let other : (c.id == id) ≡ false =
          ne→== c.id id (λ e. let t = (==_iff id j).1 (sym e ∙ q) in cc) in
        rw (other, hit) refl
    | inr miss ↦ rw (change_at-id c, miss) (find-change_other j cs n)
  ]

  -- An assignment to one client leaves every other one alone.
  pub lookup-write_other :
      (w : World) (j : ℕ) → (id == j) ≡ false → lookup (write_client id f w) j ≡ lookup w j
  unfolding write_client client_list_find_by_id
  lookup-write_other w j n = find-change_other j w.clients.list n

-- The clients are listed as before.
abbrev pub SameClients : World → World → Type 0
SameClients w w' =
    (w'.clients.list ≡ w.clients.list) × (w'.clients.next_client_id ≡ w.clients.next_client_id)

pub broadcast-SameClients :
    (p : Client → Bool) (m : Message) (w : World) → SameClients w (broadcast_where p m w)
unfolding broadcast_where
broadcast-SameClients p m w = (refl, refl)

pub send_broadcast-SameClients : (m : Message) (w : World) → SameClients w (send_broadcast m w)
unfolding send_broadcast
send_broadcast-SameClients m w = broadcast-SameClients in_chat m w

pub send_broadcast_exclude-SameClients :
    (m : Message) (id : ℕ) (w : World) → SameClients w (send_broadcast_exclude m id w)
unfolding send_broadcast_exclude
send_broadcast_exclude-SameClients m id w = broadcast-SameClients (other_in_chat id) m w

pub server_client_count_update-SameClients :
    (w : World) → SameClients w (server_client_count_update w)
unfolding server_client_count_update
server_client_count_update-SameClients w = send_broadcast-SameClients _ w

pub send-SameClients :
    (net : ℕ → Option ErrorCode) (w : World) (id : ℕ) (c : Channel) (m : Message)
    → SameClients w (send net w id c m).0
unfolding send
send-SameClients net w id c m = (refl, refl)

pub lookup_same : (w w' : World) (j : ℕ) → SameClients w w' → lookup w' j ≡ lookup w j
unfolding client_list_find_by_id
lookup_same w w' j s = ap (find (has_id j)) s.0

pub IsClientList-same :
    (w w' : World) → SameClients w w' → IsClientList w.clients → IsClientList w'.clients
IsClientList-same w w' s h = record {
  distinct = subst (Distinct client_key) (sym s.0) h.distinct;
  below =
      subst (λ n. All (λ c. client_key c < n) w'.clients.list) (sym s.1)
        (subst (All (λ c. client_key c < w.clients.next_client_id)) (sym s.0) h.below);
}

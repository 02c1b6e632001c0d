-- ===== src/ServerStates/Delivery.antt =====
-- Statements on chat messages: handle_state_chat of server/state_handlers/state_chat.c and
-- server/broadcast_message.c.
use they_chat.Base.{
  ℕ, suc, ◌<◌, ◌≡◌, ◌≢◌, refl, sym, ap, subst, ◌∙◌, ◌==◌, ==_iff, ne→==, Bool, true, false,
  Bool-cases, inl, inr, Option, none, some, List, [], ◌∷◌, ◌++◌, All, length, if◌then◌else◌,
}
use they_chat.CString.{c_string, strcpy}
use they_chat.CString.Laws.{c_string-IsString, strcpy_fits}
use they_chat.Message.{Message, Payload, UserChatPayload, max_ip_bytes}
use they_chat.Sequence.{find}
use they_chat.Sequence.Laws.{Distinct}
use they_chat.ClientList.{Client, has_id, client_list_find_by_id}
use they_chat.ClientList.Laws.{client_key, IsClientList}
use they_chat.World.{status, Posted, World, in_chat, posts, broadcast_where, send_broadcast}
use they_chat.World.Laws.{lookup}
use they_chat.ServerStates.{waiting, message, or_fault, with_ip, chat_payload, handle_state_chat}

-- How often a message goes to a client.
unfoldable pub copies : ℕ → List Posted → ℕ
copies j [] = 0
copies j (p ∷ ps) = let rest = copies j ps in if p.client == j then suc rest else rest

abbrev pub if_passes : (Client → Bool) → Option Client → ℕ
if_passes p none = 0
if_passes p (some c) = if p c then 1 else 0

copies-none :
    (p : Client → Bool) (m : Message) (j : ℕ) (cs : List Client)
    → All (λ c. j ≢ c.id) cs
    → copies j (posts p m cs) ≡ 0
unfolding copies posts
copies-none p m j [] h = refl
copies-none p m j (c ∷ cs) h =
    let other : (c.id == j) ≡ false = ne→== c.id j (λ e. h.0 (sym e)) in
    elim (Bool-cases (p c)) [
      | inl passes ↦ rw (passes, other) (copies-none p m j cs h.1)
      | inr fails ↦ rw fails (copies-none p m j cs h.1)
    ]

copies-posts :
    (p : Client → Bool) (m : Message) (j : ℕ) (cs : List Client)
    → Distinct client_key cs
    → copies j (posts p m cs) ≡ if_passes p (find (has_id j) cs)
unfolding copies posts find
copies-posts p m j [] h = refl
copies-posts p m j (c ∷ cs) h = elim (Bool-cases (c.id == j)) [
  | inl hit ↦
      let same = (==_iff c.id j).0 hit in
      let once = copies-none p m j cs (subst (λ n. All (λ d. n ≢ d.id) cs) same h.0) in
      elim (Bool-cases (p c)) [
        | inl passes ↦ rw (hit, passes, hit) (ap suc once)
        | inr fails ↦ rw (hit, fails) once
      ]
  | inr miss ↦ elim (Bool-cases (p c)) [
    | inl passes ↦ rw (miss, passes, miss) (copies-posts p m j cs h.1)
    | inr fails ↦ rw (miss, fails) (copies-posts p m j cs h.1)
  ]
]

-- All entries are this message, on the status connection.
abbrev pub AllCarry : Message → List Posted → Type 0
AllCarry m = All (λ p. (p.message ≡ m) × (p.channel ≡ status))

posts-AllCarry : (p : Client → Bool) (m : Message) (cs : List Client) → AllCarry m (posts p m cs)
unfolding posts
posts-AllCarry p m [] = tt
posts-AllCarry p m (c ∷ cs) = elim (Bool-cases (p c)) [
  | inl passes ↦ rw passes ((refl, refl), posts-AllCarry p m cs)
  | inr fails ↦ rw fails (posts-AllCarry p m cs)
]

-- A chat message that arrives from a client is posted once to each client in the chat, the sender
-- included, and to no other, unchanged but for the sender's address, which replaces whatever the
-- message said. The numbers of the clients are unique, the address holds a NUL, and the message's
-- array for it has its size.
pub handle_state_chat-Delivers :
    (id : ℕ) (m : Message) (p : UserChatPayload) (w : World) (client : Client) (j : ℕ)
    → m.payload ≡ Payload.user_chat p
    → lookup w id ≡ some client
    → length p.ip ≡ max_ip_bytes
    → length (c_string client.ip) < max_ip_bytes
    → IsClientList w.clients
    → (w' : World) × (news : List Posted) × (ip : List ℕ) × (handle_state_chat id true (message m) w
        ≡ waiting w')
      × (w'.log ≡ w.log ++ news)
      × (copies j news ≡ if_passes in_chat (lookup w j))
      × AllCarry (record m { payload = Payload.user_chat (record p { ip = ip }) }) news
      × (c_string ip ≡ c_string client.ip)
unfolding handle_state_chat send_broadcast broadcast_where client_list_find_by_id or_fault
handle_state_chat-Delivers id m p w client j chat here size short h =
    let (ip, copied, long, address) =
      strcpy_fits p.ip (c_string client.ip) max_ip_bytes size short (c_string-IsString client.ip) in
    let m' = record m { payload = Payload.user_chat (record p { ip = ip }) } in
    (
      send_broadcast m' w,
      posts in_chat m' w.clients.list,
      ip,
      ap (chat_payload id w m) chat
          ∙ ap (λ o. or_fault o (λ c. with_ip p m (strcpy p.ip (c_string c.ip)) w)) here
          ∙ ap (λ o. with_ip p m o w) copied,
      refl,
      copies-posts in_chat m' j w.clients.list h.distinct,
      posts-AllCarry in_chat m' w.clients.list,
      address,
    )

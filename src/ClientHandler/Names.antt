-- ===== src/ClientHandler/Names.antt =====
-- Statements on the names that handle_state_login of server/state_handlers/state_login.c gives.
use they_chat.Base.{ℕ, ◌≡◌, ◌≢◌, ◌⊎◌, sym, ap, subst, ◌∙◌, ◌==◌, ==_iff, true, Bool-cases, inl, inr}
use they_chat.CString.{c_string}
use they_chat.Sequence.Among.{Among, Among-map}
use they_chat.ClientList.{Client}
use they_chat.World.{World, change_at, write_client, in_chat}
use they_chat.World.Laws.{KeepsId, SameClients}

-- No two clients in the chat have the same name.
abbrev pub NamesUnique : World → Type 0
NamesUnique w =
    (c d : Client)
    → Among c w.clients.list
    → Among d w.clients.list
    → in_chat c ≡ true
    → in_chat d ≡ true
    → c_string c.name ≡ c_string d.name
    → c.id ≡ d.id

-- The name of a client, as it would be in the chat, is no one's else there.
abbrev pub FreshFor : ℕ → (Client → Client) → World → Type 0
FreshFor id f w =
    (c d : Client)
    → Among c w.clients.list
    → Among d w.clients.list
    → c.id ≡ id
    → in_chat (f c) ≡ true
    → in_chat d ≡ true
    → c_string (f c).name ≡ c_string d.name
    → d.id ≡ id

pub NamesUnique-same : (w w' : World) → SameClients w w' → NamesUnique w → NamesUnique w'
NamesUnique-same w w' s h =
    subst
      (λ cs.
        (c d : Client)
        → Among c cs
        → Among d cs
        → in_chat c ≡ true
        → in_chat d ≡ true
        → c_string c.name ≡ c_string d.name
        → c.id ≡ d.id)
      (sym s.0) h

module _ (id : ℕ) (f : Client → Client) (keeps : KeepsId f) where
  -- Either the client that is written to, or another.
  abbrev pub Written : World → Client → Type 0
  Written w c' =
      (c : Client) × Among c w.clients.list
      × (((c.id ≡ id) × (c' ≡ f c)) ⊎ ((c.id ≢ id) × (c' ≡ c)))

  pub Among-Written :
      (w : World) (c' : Client) → Among c' (write_client id f w).clients.list → Written w c'
  unfolding write_client
  Among-Written w c' at =
      let (c, at', e) = Among-map (change_at id f) c' w.clients.list at in (c, at', pick c e)
    where
      pick :
          (c : Client)
          → c' ≡ change_at id f c
          → ((c.id ≡ id) × (c' ≡ f c)) ⊎ ((c.id ≢ id) × (c' ≡ c))
      pick c e = elim (Bool-cases (c.id == id)) [
        | inl hit ↦ inl ((==_iff c.id id).0 hit, rw hit at e)
        | inr miss ↦ inr (λ q. let t = (==_iff c.id id).1 q in cc, rw miss at e)
      ]

  pub NamesUnique-write :
      (w : World) → FreshFor id f w → NamesUnique w → NamesUnique (write_client id f w)
  NamesUnique-write w fresh h c' d' at_c at_d chat_c chat_d same =
      let (c, in_c, which_c) = Among-Written w c' at_c in
      let (d, in_d, which_d) = Among-Written w d' at_d in cases c d in_c in_d which_c which_d
    where
      cases :
          (c d : Client)
          → Among c w.clients.list
          → Among d w.clients.list
          → ((c.id ≡ id) × (c' ≡ f c)) ⊎ ((c.id ≢ id) × (c' ≡ c))
          → ((d.id ≡ id) × (d' ≡ f d)) ⊎ ((d.id ≢ id) × (d' ≡ d))
          → c'.id ≡ d'.id
      cases c d in_c in_d (inl (ic, ec)) (inl (id', ed)) =
          ap (λ x. x.id) ec ∙ keeps c ∙ ic ∙ sym (ap (λ x. x.id) ed ∙ keeps d ∙ id')
      cases c d in_c in_d (inl (ic, ec)) (inr (nd, ed)) = absurd (
          nd (
            fresh c d in_c in_d ic (sym (ap in_chat ec) ∙ chat_c) (sym (ap in_chat ed) ∙ chat_d)
              (sym (ap (λ x. c_string x.name) ec) ∙ same ∙ ap (λ x. c_string x.name) ed)))
      cases c d in_c in_d (inr (nc, ec)) (inl (id', ed)) = absurd (
          nc (
            fresh d c in_d in_c id' (sym (ap in_chat ed) ∙ chat_d) (sym (ap in_chat ec) ∙ chat_c)
              (sym (ap (λ x. c_string x.name) ed) ∙ sym same ∙ ap (λ x. c_string x.name) ec)))
      cases c d in_c in_d (inr (nc, ec)) (inr (nd, ed)) =
          ap (λ x. x.id) ec
          ∙ h c d in_c in_d (sym (ap in_chat ec) ∙ chat_c) (sym (ap in_chat ed) ∙ chat_d)
              (sym (ap (λ x. c_string x.name) ec) ∙ same ∙ ap (λ x. c_string x.name) ed)
          ∙ sym (ap (λ x. x.id) ed)

-- ===== src/ChatEntries/Laws.antt =====
-- Statements on client/ui/chat_entries.c.
use they_chat.Base.{
  ℕ, zero, suc, ◌+◌, ◌-◌, ◌%◌, ◌^◌, ◌≤◌, ◌≡◌, refl, sym, ap, subst, ◌∙◌, Bool-cases, inl, inr, List,
  [], ◌∷◌, ◌++◌, append_assoc, append-nil, ltb, ltb→lt, ltb→le, length, length-append, length-drop,
  drop, arith,
}
use they_chat.ChatEntries.{
  ChatEntries, chat_entries_max_size, chat_entries_create, chat_entries_add,
}

module _ {A : Type 0} where
  -- The entries that are left of a whole history.
  abbrev pub Latest : List A → ChatEntries A → Type 0
  Latest history list =
      (list.entries ≡ drop (length history - chat_entries_max_size) history)
      × (list.size ≡ length list.entries)

  -- The entries of a list are added one after the other.
  unfoldable pub add_all : ChatEntries A → List A → ChatEntries A
  add_all list [] = list
  add_all list (entry ∷ entries) = add_all (chat_entries_add list entry) entries

  drop-append : (n : ℕ) (xs ys : List A) → n ≤ length xs → drop n (xs ++ ys) ≡ drop n xs ++ ys
  drop-append zero xs ys h = refl
  drop-append (suc n) [] ys h = absurd (omega (arith, h))
  drop-append (suc n) (x ∷ xs) ys h = drop-append n xs ys (omega (arith, h))

  drop_one : (n : ℕ) (xs : List A) → drop 1 (drop n xs) ≡ drop (suc n) xs
  drop_one zero xs = refl
  drop_one (suc n) [] = refl
  drop_one (suc n) (x ∷ xs) = drop_one n xs

  chat_entries_add-Latest :
      (history : List A) (list : ChatEntries A) (entry : A)
      → Latest history list
      → Latest (history ++ entry ∷ []) (chat_entries_add list entry)
  unfolding chat_entries_add
  chat_entries_add-Latest history list entry (kept, sized) =
      let n = length history in
      let long : length (history ++ entry ∷ []) ≡ n + 1 =
        omega (arith, length-append history (entry ∷ [])) in
      let held : list.size ≡ n - (n - chat_entries_max_size) =
        sized ∙ ap length kept ∙ length-drop (n - chat_entries_max_size) history in
      let all : drop (n - chat_entries_max_size) (history ++ entry ∷ [])
          ≡ list.entries ++ entry ∷ [] =
        drop-append (n - chat_entries_max_size) history (entry ∷ []) (omega arith)
        ∙ ap (λ xs. xs ++ entry ∷ []) (sym kept) in
      let next : (list.size + 1) % 2 ^ 32 ≡ list.size + 1 = omega (arith, held) in
      let longer : length (list.entries ++ entry ∷ []) ≡ length list.entries + 1 =
        omega (arith, length-append list.entries (entry ∷ [])) in
      elim (Bool-cases (ltb chat_entries_max_size ((list.size + 1) % 2 ^ 32))) [
        | inl full ↦
            let over = ltb→lt _ _ full in
            let cut : suc (n - chat_entries_max_size)
                ≡ length (history ++ entry ∷ []) - chat_entries_max_size =
              omega (arith, over, next, held, long) in
            rw full (
              ap (drop 1) (sym all)
                  ∙ drop_one (n - chat_entries_max_size) (history ++ entry ∷ [])
                  ∙ ap (λ k. drop k (history ++ entry ∷ [])) cut,
              omega (arith, length-drop 1 (list.entries ++ entry ∷ []), longer, next, sized, over),
            )
        | inr room ↦
            let fits = ltb→le _ _ room in
            let uncut : n - chat_entries_max_size
                ≡ length (history ++ entry ∷ []) - chat_entries_max_size =
              omega (arith, fits, next, held, long) in
            rw room (
              sym all ∙ ap (λ k. drop k (history ++ entry ∷ [])) uncut,
              omega (arith, next, sized, longer),
            )
      ]

  add_all-Latest :
      (history : List A) (list : ChatEntries A) (entries : List A)
      → Latest history list
      → Latest (history ++ entries) (add_all list entries)
  unfolding add_all
  add_all-Latest history list [] h = subst (λ xs. Latest xs list) (sym (append-nil history)) h
  add_all-Latest history list (entry ∷ entries) h =
      subst (λ xs. Latest xs (add_all list (entry ∷ entries)))
        (append_assoc history (entry ∷ []) entries)
        (add_all-Latest (history ++ entry ∷ []) (chat_entries_add list entry) entries
          (chat_entries_add-Latest history list entry h))

  -- After any number of additions to a new list, it holds the last 128 entries in their order, and
  -- its size is their number.
  pub chat_entries_add-chat_entries_create :
      (entries : List A) → Latest entries (add_all chat_entries_create entries)
  unfolding chat_entries_create
  chat_entries_add-chat_entries_create entries =
      add_all-Latest [] chat_entries_create entries (refl, refl)

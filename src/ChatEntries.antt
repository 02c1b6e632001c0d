-- ===== src/ChatEntries.antt =====
-- client/ui/chat_entries.c: the entries of the chat window, of which the oldest go when there are
-- too many. The list is the entries from head to tail; an iterator is the entries from the current
-- one on.
pub mod Laws
use they_chat.Base.{
  ℕ, zero, suc, ◌+◌, ◌-◌, ◌%◌, ◌^◌, Bool, true, false, Option, none, some, List, [], ◌∷◌, ◌++◌, ltb,
  if◌then◌else◌, drop,
}

abbrev pub chat_entries_max_size : ℕ
chat_entries_max_size = 128

-- `size` is a uint32_t.
pub record ChatEntries (A : Type 0) : Type 0 where
  pub entries : List A
  pub size : ℕ

module _ {A : Type 0} where
  unfoldable pub chat_entries_create : ChatEntries A
  chat_entries_create = record { entries = []; size = 0 }

  -- The head is freed, and its successor becomes the head.
  abbrev pub free_head : ChatEntries A → ChatEntries A
  free_head list = record { entries = drop 1 list.entries; size = list.size - 1 }

  abbrev pub linked : ChatEntries A → A → ChatEntries A
  linked list entry = record {
    entries = list.entries ++ entry ∷ [];
    size = (list.size + 1) % 2 ^ 32;
  }

  unfoldable pub chat_entries_add : ChatEntries A → A → ChatEntries A
  chat_entries_add list entry =
      let list' = linked list entry in
      if ltb chat_entries_max_size list'.size then free_head list' else list'

  unfoldable pub chat_entries_get_size : ChatEntries A → ℕ
  chat_entries_get_size list = list.size

  -- `start_index` is an int that is not negative.
  unfoldable pub chat_entries_create_iterator : ChatEntries A → ℕ → List A
  chat_entries_create_iterator list start_index = drop start_index list.entries

  unfoldable pub chat_entries_iterator_get_current : List A → Option A
  chat_entries_iterator_get_current [] = none
  chat_entries_iterator_get_current (entry ∷ rest) = some entry

  abbrev pub chat_entries_iterator_has_more : List A → Bool
  chat_entries_iterator_has_more [] = false
  chat_entries_iterator_has_more (entry ∷ rest) = true

  unfoldable pub chat_entries_iterator_move_next : List A → List A × Bool
  chat_entries_iterator_move_next [] = ([], false)
  chat_entries_iterator_move_next (entry ∷ rest) = (rest, chat_entries_iterator_has_more rest)

-- ===== src/StringList.antt =====
-- common/utils/string_list.c: the strings of a list are the lists of their bytes before the NUL,
-- each in a block of its own. The iterator is the list of the strings still to come.
use they_chat.Base.{ℕ, Bool, Option, none, some, List, [], ◌∷◌, ◌++◌, length}
use they_chat.Sequence.{remove_at}

pub record StringList : Type 0 where
  pub list : List (List ℕ)

unfoldable pub string_list_create : StringList
string_list_create = record { list = [] }

unfoldable pub string_list_add : StringList → List ℕ → StringList
string_list_add strs str = record { list = strs.list ++ str ∷ [] }

-- The string's own block is not freed.
unfoldable pub string_list_remove : StringList → ℕ → StringList × Bool
string_list_remove strs index =
    let (removed, rest) = remove_at index strs.list in (record { list = rest }, removed)

unfoldable pub string_list_length : StringList → ℕ
string_list_length strs = length strs.list

unfoldable pub string_list_iterator_create : StringList → List (List ℕ)
string_list_iterator_create strs = strs.list

unfoldable pub string_list_iterator_next : List (List ℕ) → List (List ℕ) × Option (List ℕ)
string_list_iterator_next [] = ([], none)
string_list_iterator_next (str ∷ strs) = (strs, some str)

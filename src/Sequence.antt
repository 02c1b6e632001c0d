-- ===== src/Sequence.antt =====
-- What client_list.c and shared_file_list.c see of common/linked_list.c: the elements in order.
-- `remove_at` stands for linked_list_remove, and a loop over an iterator is a recursion on the
-- elements.
pub mod Laws
pub mod Among
use they_chat.Base.{
  ℕ, zero, suc, ◌+◌, Bool, true, false, Option, none, some, List, [], ◌∷◌, if◌then◌else◌,
}

module _ {A : Type 0} where
  unfoldable pub remove_at : ℕ → List A → Bool × List A
  remove_at i [] = (false, [])
  remove_at zero (x ∷ xs) = (true, xs)
  remove_at (suc i) (x ∷ xs) = let (removed, rest) = remove_at i xs in (removed, x ∷ rest)

  -- The index of the first element that passes, counted from `i`.
  unfoldable pub find_index : (A → Bool) → ℕ → List A → Option ℕ
  find_index p i [] = none
  find_index p i (x ∷ xs) = if p x then some i else find_index p (i + 1) xs

  unfoldable pub find : (A → Bool) → List A → Option A
  find p [] = none
  find p (x ∷ xs) = if p x then some x else find p xs

  unfoldable pub count : (A → Bool) → ℕ → List A → ℕ
  count p n [] = n
  count p n (x ∷ xs) = count p (if p x then n + 1 else n) xs

-- ===== src/LinkedList.antt =====
-- common/linked_list.c over an explicit heap. `malloc` hands out an address that is an argument; 0
-- is NULL. A node and its data are two allocations, of which `nodes` and `blocks` are the contents.
-- The `LinkedList` and the iterator live outside this heap: a function that writes one returns it.
pub mod Memory
pub mod Chain
pub mod Add
pub mod Remove
pub mod Walk
use they_chat.Base.{
  ℕ, zero, suc, ◌+◌, ◌-◌, Bool, true, false, Option, none, some, List, [], ◌∷◌, ltb, ◌==◌,
  if◌then◌else◌,
}
use they_chat.LinkedList.Memory.{
  Ptr, null, Node, Heap, Run, ok, out_of_fuel, Cmd, pure, exit_failure, ◌>>=◌, ◌>>◌, store_node,
  store_block, load, set_next, free_node, free_block,
}

pub record LinkedList : Type 0 where
  pub head : Ptr
  pub tail : Ptr
  pub element_size : ℕ
  pub size : ℕ

pub record LinkedListIterator : Type 0 where
  pub current : Ptr
  pub element_size : ℕ

unfoldable pub linked_list_create : ℕ → LinkedList
linked_list_create element_size = record {
  head = null;
  tail = null;
  element_size = element_size;
  size = 0;
}

unfoldable pub linked_list_length : LinkedList → ℕ
linked_list_length l = l.size

unfoldable pub linked_list_iterator_create : LinkedList → LinkedListIterator
linked_list_iterator_create l = record { current = l.head; element_size = l.element_size }

-- What a list holds after a node was linked in behind its last one.
abbrev pub linked : Ptr → Ptr → LinkedList → LinkedList
linked head node l = record {
  head = head;
  tail = node;
  element_size = l.element_size;
  size = l.size + 1;
}

module _ {V : Type 0} where
  -- `node` and `block` are what the two calls of malloc return, `old` what the new block holds. The
  -- result is the list and the address of the data.
  unfoldable pub linked_list_add : (node block : Ptr) → V → LinkedList → Cmd V (LinkedList × Ptr)
  linked_list_add node block old l =
      if node == null then exit_failure else if block == null then exit_failure else do
        store_block block (some old)
        store_node node (some (record { content = block; next = null }))
        if l.tail == null
            then pure (linked node node l, block)
            else do set_next l.tail node; pure (linked l.head node l, block)

  -- The loop that steps to the node at an index.
  unfoldable pub step_to : ℕ → (previous current : Ptr) → Cmd V (Ptr × Ptr)
  step_to zero previous current = pure (previous, current)
  step_to (suc i) previous current = do n ← load current; step_to i current n.next

  -- The node is taken out of the list, and it and its data are freed.
  unfoldable pub unlink : (previous current : Ptr) → LinkedList → Cmd V (Bool × LinkedList)
  unlink previous current l = do
    n ← load current
    if previous == null then pure tt else set_next previous n.next
    free_block n.content
    free_node current
    pure (
      true,
      record {
        head = if previous == null then n.next else l.head;
        tail = if current == l.tail then previous else l.tail;
        element_size = l.element_size;
        size = l.size - 1;
      },
    )

  unfoldable pub linked_list_remove : LinkedList → ℕ → Cmd V (Bool × LinkedList)
  linked_list_remove l index =
      if ltb index l.size
      then (do (previous, current) ← step_to index null l.head; unlink previous current l)
      else pure (false, l)

  -- The address of the next data, or NULL, and the iterator moved on.
  unfoldable pub linked_list_iterator_next : LinkedListIterator → Cmd V (Ptr × LinkedListIterator)
  linked_list_iterator_next it =
      if it.current == null
      then pure (null, it)
      else do n ← load it.current; pure (n.content, record it { current = n.next })

  -- The loop of `linked_list_destroy`, on fuel.
  unfoldable pub destroy_loop : ℕ → Ptr → Cmd V (Unit {0})
  destroy_loop zero current = λ h. out_of_fuel
  destroy_loop (suc fuel) current =
      if current == null
      then pure tt
      else do n ← load current; free_block n.content; free_node current; destroy_loop fuel n.next

  unfoldable pub linked_list_destroy : LinkedList → Cmd V (Unit {0})
  linked_list_destroy l = destroy_loop (l.size + 1) l.head

-- ===== src/Tests/Nodes.antt =====
-- A list of two cells in memory.
use they_chat.Base.{ℕ, ◌≡◌, refl, [], ◌∷◌, none, some, ◌==◌, if◌then◌else◌, arith}
use they_chat.LinkedList.Memory.{null, Heap, ok}
use they_chat.LinkedList.Chain.{Cell, IsList}
use they_chat.LinkedList.{LinkedList, linked_list_iterator_create, linked_list_destroy}
use they_chat.LinkedList.Add.{Added, linked_list_add-append}
use they_chat.LinkedList.Remove.{Removed, linked_list_remove-Removed}
use they_chat.LinkedList.Walk.{visit, Freed, linked_list_iterator-blocks, linked_list_destroy-Freed}

abbrev cell_a : Cell ℕ
cell_a = record { node = 1; block = 2; value = 65 }

abbrev cell_b : Cell ℕ
cell_b = record { node = 3; block = 4; value = 66 }

abbrev heap : Heap ℕ
heap = record {
  nodes = λ a.
      if a == 1
      then some (record { content = 2; next = 3 })
      else (if a == 3 then some (record { content = 4; next = null }) else none);
  blocks = λ a. if a == 2 then some 65 else (if a == 4 then some 66 else none);
}

abbrev list : LinkedList
list = record { head = 1; tail = 3; element_size = 8; size = 2 }

list_valid : IsList heap list (cell_a ∷ cell_b ∷ [])
list_valid = record {
  chain = (
    record { ne_null = omega arith; node_holds = refl; block_holds = refl },
    ((omega arith, omega arith), tt),
    (record { ne_null = omega arith; node_holds = refl; block_holds = refl }, tt, tt),
  );
  head_first = refl;
  tail_last = refl;
  size_length = refl;
}

linked_list_add-append_example :
    Added heap 5 6 67 refl refl (omega arith) (omega arith) list (cell_a ∷ cell_b ∷ [])
linked_list_add-append_example =
    linked_list_add-append heap 5 6 67 refl refl (omega arith) (omega arith) list
      (cell_a ∷ cell_b ∷ []) list_valid

linked_list_remove-Removed_example : Removed heap list (cell_a ∷ []) cell_b []
linked_list_remove-Removed_example =
    linked_list_remove-Removed heap list (cell_a ∷ []) cell_b [] list_valid

linked_list_iterator-blocks_example :
    visit 3 (linked_list_iterator_create list) heap ≡ ok (2 ∷ 4 ∷ []) heap
linked_list_iterator-blocks_example =
    linked_list_iterator-blocks heap list (cell_a ∷ cell_b ∷ []) list_valid
      (omega arith, (omega arith, tt))

linked_list_destroy-Freed_example :
    (g : Heap ℕ) × (linked_list_destroy list heap ≡ ok tt g)
    × Freed g (cell_a ∷ cell_b ∷ [])
    × (g.nodes 7 ≡ heap.nodes 7)
    × (g.blocks 1 ≡ heap.blocks 1)
linked_list_destroy-Freed_example =
    linked_list_destroy-Freed heap list (cell_a ∷ cell_b ∷ []) 7 1 list_valid
      (omega arith, (omega arith, tt)) (omega arith, (omega arith, tt))

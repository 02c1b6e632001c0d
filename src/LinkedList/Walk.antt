-- ===== src/LinkedList/Walk.antt =====
-- Statements on the iterator and on linked_list_destroy of common/linked_list.c.
use they_chat.Base.{
  ℕ, zero, suc, ◌+◌, ◌<◌, ◌≡◌, ◌≢◌, refl, sym, ◌∙◌, List, [], ◌∷◌, none, All, length, map, ◌==◌,
  ne→==, ==_refl, if◌then◌else◌, arith,
}
use they_chat.LinkedList.Memory.{Ptr, null, Heap, ok, update, pure, ◌>>=◌, Cmd, out_of_fuel}
use they_chat.LinkedList.Chain.{Cell, Apart, first, Holds, Chain, IsList, frame, load-Holds}
use they_chat.LinkedList.Remove.{freed, free-Holds, Agree-freed, Away-of_Apart}
use they_chat.LinkedList.{
  LinkedList, LinkedListIterator, linked_list_iterator_create, linked_list_iterator_next,
  linked_list_destroy, destroy_loop,
}

module _ {V : Type 0} where
  -- while ((data = linked_list_iterator_next(it)) != NULL), collecting the addresses of the data.
  unfoldable pub visit : ℕ → LinkedListIterator → Cmd V (List Ptr)
  visit zero it = λ h. out_of_fuel
  visit (suc fuel) it = do
    (data_ptr, it') ← linked_list_iterator_next it
    if data_ptr == null then pure [] else do rest ← visit fuel it'; pure (data_ptr ∷ rest)

  next-cons :
      (h : Heap V) (c : Cell V) (q : Ptr) (it : LinkedListIterator)
      → Holds h c q
      → it.current ≡ c.node
      → linked_list_iterator_next it h ≡ ok (c.block, record it { current = q }) h
  unfolding linked_list_iterator_next
  next-cons h c q it k e = rw (e, ne→== c.node null k.ne_null, load-Holds h c q k)

  visit-blocks :
      (h : Heap V) (cs : List (Cell V)) (fuel : ℕ) (it : LinkedListIterator)
      → Chain h cs null
      → All (λ c. c.block ≢ null) cs
      → it.current ≡ first cs null
      → length cs < fuel
      → visit fuel it h ≡ ok (map (λ c. c.block) cs) h
  unfolding visit linked_list_iterator_next
  visit-blocks h cs zero it k n e f = absurd (omega arith)
  visit-blocks h [] (suc fuel) it k n e f = rw e
  visit-blocks h (c ∷ cs) (suc fuel) it k n e f = rw (
    e,
    ne→== c.node null k.0.ne_null,
    load-Holds h c _ k.0,
    ne→== c.block null n.0,
    visit-blocks h cs fuel (record it { current = first cs null }) k.2 n.1 refl (omega arith),
  )

  -- A loop over a fresh iterator meets the data of every cell once, in the list's order, if no
  -- cell's data is at NULL.
  pub linked_list_iterator-blocks :
      (h : Heap V) (l : LinkedList) (cs : List (Cell V))
      → IsList h l cs
      → All (λ c. c.block ≢ null) cs
      → visit (l.size + 1) (linked_list_iterator_create l) h ≡ ok (map (λ c. c.block) cs) h
  unfolding linked_list_iterator_create
  linked_list_iterator-blocks h l cs is n =
      visit-blocks h cs (l.size + 1) _ is.chain n is.head_first (omega (arith, is.size_length))

  abbrev pub Freed : Heap V → List (Cell V) → Type 0
  Freed g = All (λ c. (g.nodes c.node ≡ none) × (g.blocks c.block ≡ none))

  -- What stays when the cells are gone: the addresses of the cells are empty, all others are as
  -- before.
  pub record Gone (h : Heap V) (p : Ptr) (fuel : ℕ) (cs : List (Cell V)) : Type 0 where
    pub heap : Heap V
    pub result : destroy_loop fuel p h ≡ ok tt heap
    pub all_freed : Freed heap cs
    pub nodes_kept : (a : Ptr) → All (λ c. c.node ≢ a) cs → heap.nodes a ≡ h.nodes a
    pub blocks_kept : (a : Ptr) → All (λ c. c.block ≢ a) cs → heap.blocks a ≡ h.blocks a

  nodes_away : (c : Cell V) (cs : List (Cell V)) → Apart c cs → All (λ d. d.node ≢ c.node) cs
  nodes_away c [] p = tt
  nodes_away c (d ∷ cs) p = (λ e. p.0.0 (sym e), nodes_away c cs p.1)

  blocks_away : (c : Cell V) (cs : List (Cell V)) → Apart c cs → All (λ d. d.block ≢ c.block) cs
  blocks_away c [] p = tt
  blocks_away c (d ∷ cs) p = (λ e. p.0.1 (sym e), blocks_away c cs p.1)

  destroy_loop-Gone :
      (h : Heap V) (cs : List (Cell V)) (fuel : ℕ)
      → Chain h cs null
      → length cs < fuel
      → Gone h (first cs null) fuel cs
  unfolding destroy_loop update
  destroy_loop-Gone h cs zero k f = absurd (omega arith)
  destroy_loop-Gone h [] (suc fuel) k f = record {
    heap = h;
    result = refl;
    all_freed = tt;
    nodes_kept = λ a p. refl;
    blocks_kept = λ a p. refl;
  }
  destroy_loop-Gone h (c ∷ cs) (suc fuel) k f =
      let g = freed h c in
      let free = free-Holds h c (first cs null) k.0 in
      let k' = frame g h cs null (Agree-freed h c cs (Away-of_Apart c cs k.1)) k.2 in
      let rest = destroy_loop-Gone g cs fuel k' (omega arith) in
      record {
        heap = rest.heap;
        result =
            rw (ne→== c.node null k.0.ne_null, load-Holds h c _ k.0, free.0, free.1) rest.result;
        all_freed = (
          (
            rest.nodes_kept c.node (nodes_away c cs k.1) ∙ rw (==_refl c.node),
            rest.blocks_kept c.block (blocks_away c cs k.1) ∙ rw (==_refl c.block),
          ),
          rest.all_freed,
        );
        nodes_kept = λ a p. rest.nodes_kept a p.1 ∙ rw (ne→== a c.node (λ e. p.0 (sym e)));
        blocks_kept = λ a p. rest.blocks_kept a p.1 ∙ rw (ne→== a c.block (λ e. p.0 (sym e)));
      }

  -- `linked_list_destroy` ends and frees the node and the data of every cell; whatever is at
  -- another address `a` for a node or `b` for data stays.
  pub linked_list_destroy-Freed :
      (h : Heap V) (l : LinkedList) (cs : List (Cell V)) (a b : Ptr)
      → IsList h l cs
      → All (λ c. c.node ≢ a) cs
      → All (λ c. c.block ≢ b) cs
      → (g : Heap V) × (linked_list_destroy l h ≡ ok tt g)
        × Freed g cs
        × (g.nodes a ≡ h.nodes a)
        × (g.blocks b ≡ h.blocks b)
  unfolding linked_list_destroy
  linked_list_destroy-Freed h l cs a b is no_node no_block =
      let gone = destroy_loop-Gone h cs (l.size + 1) is.chain (omega (arith, is.size_length)) in
      (
        gone.heap,
        rw is.head_first gone.result,
        gone.all_freed,
        gone.nodes_kept a no_node,
        gone.blocks_kept b no_block,
      )

-- ===== src/LinkedList/Remove.antt =====
-- Statements on linked_list_remove of common/linked_list.c.
use they_chat.Base.{
  ℕ, ◌-◌, ◌≤◌, ◌≡◌, ◌≢◌, refl, sym, ap, ◌∙◌, List, [], ◌∷◌, ◌++◌, append-nil, true, false, none,
  All, length, length-append, ltb, lt→ltb, le→ltb, ◌==◌, ne→==, ==_refl, if◌then◌else◌, arith,
}
use they_chat.LinkedList.Memory.{Ptr, null, Heap, ok, update, load, set_next, free_node, free_block}
use they_chat.LinkedList.Chain.{
  Cell, Apart, first, last, Holds, Chain, IsList, Agree, Cross, frame, join, cut, Apart-last,
  Relinked, relink, load-Holds,
}
use they_chat.LinkedList.{LinkedList, step_to, unlink, linked_list_remove}

-- The handle that `unlink` returns.
abbrev left : Ptr → Ptr → Ptr → LinkedList → LinkedList
left previous current next l = record {
  head = if previous == null then next else l.head;
  tail = if current == l.tail then previous else l.tail;
  element_size = l.element_size;
  size = l.size - 1;
}

module _ {V : Type 0} where
  abbrev Away : Cell V → List (Cell V) → Type 0
  Away c = All (λ d. (d.node ≢ c.node) × (d.block ≢ c.block))

  -- The heap without the two allocations of a cell.
  abbrev pub freed : Heap V → Cell V → Heap V
  freed h c = record { nodes = update h.nodes c.node none; blocks = update h.blocks c.block none }

  pub free-Holds :
      (h : Heap V) (c : Cell V) (q : Ptr)
      → Holds h c q
      → (free_block c.block h ≡ ok tt (record h { blocks = update h.blocks c.block none }))
        × (free_node c.node (record h { blocks = update h.blocks c.block none })
            ≡ ok tt (freed h c))
  unfolding free_block free_node load
  free-Holds h c q k = (rw (k.block_holds, free_block), rw (k.node_holds, free_node, load))

  pub Agree-freed :
      (h : Heap V) (c : Cell V) (ds : List (Cell V)) → Away c ds → Agree (freed h c) h ds
  unfolding update
  Agree-freed h c [] p = tt
  Agree-freed h c (d ∷ ds) p =
      ((rw (ne→== d.node c.node p.0.0), rw (ne→== d.block c.block p.0.1)), Agree-freed h c ds p.1)

  pub Away-of_Apart : (c : Cell V) (ds : List (Cell V)) → Apart c ds → Away c ds
  Away-of_Apart c [] p = tt
  Away-of_Apart c (d ∷ ds) p = ((λ e. p.0.0 (sym e), λ e. p.0.1 (sym e)), Away-of_Apart c ds p.1)

  Away-of_Cross : (c : Cell V) (cs ds : List (Cell V)) → Cross cs (c ∷ ds) → Away c cs
  Away-of_Cross c [] ds p = tt
  Away-of_Cross c (d ∷ cs) ds p = (p.0.0, Away-of_Cross c cs ds p.1)

  Cross-tail : (c : Cell V) (cs ds : List (Cell V)) → Cross cs (c ∷ ds) → Cross cs ds
  Cross-tail c [] ds p = tt
  Cross-tail c (d ∷ cs) ds p = (p.0.1, Cross-tail c cs ds p.1)

  Cross-last :
      (a : Cell V) (cs ds : List (Cell V))
      → Cross (a ∷ cs) ds
      → All (λ d. d.node ≢ last cs a.node) ds
  Cross-last a [] [] p = tt
  Cross-last a [] (d ∷ ds) p = (λ e. p.0.0.0 (sym e), Cross-last a [] ds (p.0.1, tt))
  Cross-last a (b ∷ cs) ds p = Cross-last b cs ds p.1

  last-append :
      (cs ds : List (Cell V)) (before : Ptr) → last (cs ++ ds) before ≡ last ds (last cs before)
  last-append [] ds before = refl
  last-append (c ∷ cs) ds before = last-append cs ds c.node

  -- The loop stops at the cell with the index, with the cell before it in hand.
  step_to-last :
      (h : Heap V) (cs : List (Cell V)) (c : Cell V) (ds : List (Cell V)) (previous : Ptr)
      → Chain h (cs ++ (c ∷ ds)) null
      → step_to (length cs) previous (first (cs ++ (c ∷ ds)) null) h
        ≡ ok (last cs previous, c.node) h
  unfolding step_to
  step_to-last h [] c ds previous k = refl
  step_to-last h (a ∷ cs) c ds previous k =
      rw (load-Holds h a _ k.0) (step_to-last h cs c ds a.node k.2)

  -- The value that the code leaves in `tail`.
  tail_left :
      (c : Cell V) (cs ds : List (Cell V)) (tail : Ptr)
      → Apart c ds
      → tail ≡ last (cs ++ (c ∷ ds)) null
      → (if c.node == tail then last cs null else tail) ≡ last (cs ++ ds) null
  tail_left c cs [] tail p e =
      let same : tail ≡ c.node = e ∙ last-append cs (c ∷ []) null in
      rw (same, ==_refl c.node) (ap (λ t. last t null) (sym (append-nil cs)))
  tail_left c cs (d ∷ ds) tail p e =
      let at_end : tail ≡ last ds d.node = e ∙ last-append cs (c ∷ d ∷ ds) null in
      rw (at_end, ne→== c.node (last ds d.node) (Apart-last c d ds p))
        (sym (last-append cs (d ∷ ds) null))

  pub record Removed (h : Heap V) (l : LinkedList) (cs : List (Cell V)) (c : Cell V)
      (ds : List (Cell V)) : Type 0 where
    pub heap : Heap V
    pub list : LinkedList
    pub result : linked_list_remove l (length cs) h ≡ ok (true, list) heap
    pub is_list : IsList heap list (cs ++ ds)
    pub node_freed : heap.nodes c.node ≡ none
    pub block_freed : heap.blocks c.block ≡ none

  Agree-Relinked :
      (h : Heap V) (a : Cell V) (cs : List (Cell V)) (stop : Ptr) (r : Relinked h a cs stop)
      (ds : List (Cell V))
      → All (λ d. d.node ≢ last cs a.node) ds
      → Agree r.heap h ds
  Agree-Relinked h a cs stop r [] p = tt
  Agree-Relinked h a cs stop r (d ∷ ds) p =
      ((r.same_nodes d.node p.0, r.same_blocks d.block), Agree-Relinked h a cs stop r ds p.1)

  unlink-first :
      (h : Heap V) (c : Cell V) (q : Ptr) (l : LinkedList)
      → Holds h c q
      → unlink null c.node l h ≡ ok (true, left null c.node q l) (freed h c)
  unfolding unlink
  unlink-first h c q l k = let f = free-Holds h c q k in rw (load-Holds h c q k, f.0, f.1)

  unlink-next :
      (h : Heap V) (p : Ptr) (c : Cell V) (q : Ptr) (l : LinkedList) (g : Heap V)
      → p ≢ null
      → Holds h c q
      → set_next p q h ≡ ok tt g
      → Holds g c q
      → unlink p c.node l h ≡ ok (true, left p c.node q l) (freed g c)
  unfolding unlink
  unlink-next h p c q l g ne k s k' =
      let f = free-Holds g c q k' in rw (load-Holds h c q k, ne→== p null ne, s, f.0, f.1)

  remove-unlink :
      (h : Heap V) (l : LinkedList) (cs : List (Cell V)) (c : Cell V) (ds : List (Cell V))
      → IsList h l (cs ++ (c ∷ ds))
      → linked_list_remove l (length cs) h ≡ unlink (last cs null) c.node l h
  unfolding linked_list_remove
  remove-unlink h l cs c ds is =
      let inside : ltb (length cs) l.size ≡ true =
        lt→ltb _ _ (omega (arith, is.size_length, length-append cs (c ∷ ds))) in
      rw (inside, is.head_first, step_to-last h cs c ds null is.chain)

  last_ne_null :
      (h : Heap V) (a : Cell V) (cs : List (Cell V)) (stop : Ptr)
      → Chain h (a ∷ cs) stop
      → last cs a.node ≢ null
  last_ne_null h a [] stop k = k.0.ne_null
  last_ne_null h a (d ∷ cs) stop k = last_ne_null h d cs stop k.2

  -- At an index inside the list `linked_list_remove` says true, takes out the cell with that index,
  -- keeps the others in order, and frees the node and the data of that cell.
  pub linked_list_remove-Removed :
      (h : Heap V) (l : LinkedList) (cs : List (Cell V)) (c : Cell V) (ds : List (Cell V))
      → IsList h l (cs ++ (c ∷ ds))
      → Removed h l cs c ds
  unfolding update
  linked_list_remove-Removed h l [] c ds is =
      let k = is.chain in
      record {
        heap = freed h c;
        list = left null c.node (first ds null) l;
        result = remove-unlink h l [] c ds is ∙ unlink-first h c (first ds null) l k.0;
        is_list = record {
          chain = frame (freed h c) h ds null (Agree-freed h c ds (Away-of_Apart c ds k.1)) k.2;
          head_first = refl;
          tail_last = tail_left c [] ds l.tail k.1 is.tail_last;
          size_length = omega (arith, is.size_length);
        };
        node_freed = rw (==_refl c.node);
        block_freed = rw (==_refl c.block);
      }
  linked_list_remove-Removed h l (a ∷ cs) c ds is =
      let (before, k, cross) = cut h (a ∷ cs) (c ∷ ds) null is.chain in
      let r = relink h a cs c.node (first ds null) before in
      let same =
        Agree-Relinked h a cs (first ds null) r (c ∷ ds) (Cross-last a cs (c ∷ ds) cross) in
      let k' = frame r.heap h (c ∷ ds) null same k in
      let ne = last_ne_null h a cs c.node before in
      let g = freed r.heap c in
      record {
        heap = g;
        list = left (last cs a.node) c.node (first ds null) l;
        result =
            remove-unlink h l (a ∷ cs) c ds is
            ∙ unlink-next h (last cs a.node) c (first ds null) l r.heap ne k.0 r.result k'.0;
        is_list = record {
          chain =
              join g (a ∷ cs) ds null
                (frame g r.heap (a ∷ cs) (first ds null)
                  (Agree-freed r.heap c (a ∷ cs) (Away-of_Cross c (a ∷ cs) ds cross)) r.chain)
                (frame g r.heap ds null (Agree-freed r.heap c ds (Away-of_Apart c ds k'.1)) k'.2)
                (Cross-tail c (a ∷ cs) ds cross);
          head_first = rw (ne→== (last cs a.node) null ne) is.head_first;
          tail_last = tail_left c (a ∷ cs) ds l.tail k.1 is.tail_last;
          size_length =
              omega
                (arith, is.size_length, length-append (a ∷ cs) (c ∷ ds), length-append (a ∷ cs) ds);
        };
        node_freed = rw (==_refl c.node);
        block_freed = rw (==_refl c.block);
      }

  -- An index outside the list: the answer is false and nothing changes.
  pub linked_list_remove_outside :
      (h : Heap V) (l : LinkedList) (cs : List (Cell V)) (index : ℕ)
      → IsList h l cs
      → length cs ≤ index
      → linked_list_remove l index h ≡ ok (false, l) h
  unfolding linked_list_remove
  linked_list_remove_outside h l cs index is out =
      rw (le→ltb index l.size (omega (arith, is.size_length)))

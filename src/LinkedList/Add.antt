-- ===== src/LinkedList/Add.antt =====
-- Statements on linked_list_add of common/linked_list.c.
use they_chat.Base.{
  ◌≡◌, ◌≢◌, refl, sym, ap, ◌∙◌, List, [], ◌∷◌, ◌++◌, none, some, All, length-append, true, false,
  ◌==◌, ne→==, ==_refl, arith,
}
use they_chat.LinkedList.Memory.{Ptr, null, Heap, ok, update, set_next}
use they_chat.LinkedList.Chain.{
  Cell, last, Holds, Chain, IsList, Agree, Cross, frame, join, unused, relink,
}
use they_chat.LinkedList.{LinkedList, linked, linked_list_add}

module _ {V : Type 0} (h : Heap V) (node block : Ptr) (old : V) (node_new : h.nodes node ≡ none)
    (block_new : h.blocks block ≡ none) (node_ne : node ≢ null) (block_ne : block ≢ null) where
  abbrev cell : Cell V
  cell = record { node = node; block = block; value = old }

  -- The heap after the two blocks are filled.
  filled : Heap V
  filled = record {
    nodes = update h.nodes node (some (record { content = block; next = null }));
    blocks = update h.blocks block (some old);
  }

  filled-cell : Holds filled cell null
  unfolding filled update
  filled-cell = record {
    ne_null = node_ne;
    node_holds = rw (==_refl node);
    block_holds = rw (==_refl block);
  }

  agree :
      (cs : List (Cell V)) → All (λ c. (c.node ≢ node) × (c.block ≢ block)) cs → Agree filled h cs
  unfolding filled update
  agree [] p = tt
  agree (c ∷ cs) p = ((rw (ne→== c.node node p.0.0), rw (ne→== c.block block p.0.1)), agree cs p.1)

  cross :
      (cs : List (Cell V))
      → All (λ c. (c.node ≢ node) × (c.block ≢ block)) cs
      → Cross cs (cell ∷ [])
  cross [] p = tt
  cross (c ∷ cs) p = ((p.0, tt), cross cs p.1)

  ne_last :
      (c : Cell V) (cs : List (Cell V))
      → All (λ d. (d.node ≢ node) × (d.block ≢ block)) (c ∷ cs)
      → node ≢ last cs c.node
  ne_last c [] p = λ e. p.0.0 (sym e)
  ne_last c (d ∷ cs) p = ne_last d cs p.1

  last_ne_null :
      (c : Cell V) (cs : List (Cell V)) (stop : Ptr) → Chain h (c ∷ cs) stop → last cs c.node ≢ null
  last_ne_null c [] stop k = k.0.ne_null
  last_ne_null c (d ∷ cs) stop k = last_ne_null d cs stop k.2

  last-append : (cs : List (Cell V)) (before : Ptr) → last (cs ++ cell ∷ []) before ≡ node
  last-append [] before = refl
  last-append (c ∷ cs) before = last-append cs c.node

  -- What the call comes to: the data's address, and a list with one more cell.
  pub record Added (l : LinkedList) (cs : List (Cell V)) : Type 0 where
    pub heap : Heap V
    pub list : LinkedList
    pub result : linked_list_add node block old l h ≡ ok (list, block) heap
    pub is_list : IsList heap list (cs ++ record { node = node; block = block; value = old } ∷ [])

  Added-cons :
      (c : Cell V) (cs : List (Cell V)) (l : LinkedList) → IsList h l (c ∷ cs) → Added l (c ∷ cs)
  unfolding linked_list_add filled
  Added-cons c cs l is =
      let new = unused h (c ∷ cs) null node block is.chain node_new block_new in
      let r =
        relink filled c cs null node (frame filled h (c ∷ cs) null (agree (c ∷ cs) new) is.chain) in
      let tail : (l.tail == null) ≡ false =
        ne→== l.tail null (λ e. last_ne_null c cs null is.chain (sym is.tail_last ∙ e)) in
      let set : set_next l.tail node filled ≡ ok tt r.heap =
        ap (λ t. set_next t node filled) is.tail_last ∙ r.result in
      record {
        heap = r.heap;
        list = linked l.head node l;
        result = rw (ne→== node null node_ne, ne→== block null block_ne, tail, set);
        is_list = record {
          chain =
              join r.heap (c ∷ cs) (cell ∷ []) null r.chain
                (
                  record {
                    ne_null = node_ne;
                    node_holds = r.same_nodes node (ne_last c cs new) ∙ filled-cell.node_holds;
                    block_holds = r.same_blocks block ∙ filled-cell.block_holds;
                  },
                  tt,
                  tt,
                )
                (cross (c ∷ cs) new);
          head_first = is.head_first;
          tail_last = sym (last-append (c ∷ cs) null);
          size_length = omega (arith, is.size_length, length-append (c ∷ cs) (cell ∷ []));
        };
      }

  -- At an unused address for the node and one for the data, neither NULL, `linked_list_add` appends
  -- a cell to a list of any length and returns the address of its data.
  pub linked_list_add-append : (l : LinkedList) (cs : List (Cell V)) → IsList h l cs → Added l cs
  unfolding linked_list_add filled
  linked_list_add-append l [] is =
      let tail : (l.tail == null) ≡ true = ground (arith, is.tail_last) in
      record {
        heap = filled;
        list = linked node node l;
        result = rw (ne→== node null node_ne, ne→== block null block_ne, tail);
        is_list = record {
          chain = (filled-cell, tt, tt);
          head_first = refl;
          tail_last = refl;
          size_length = omega (arith, is.size_length);
        };
      }
  linked_list_add-append l (c ∷ cs) is = Added-cons c cs l is

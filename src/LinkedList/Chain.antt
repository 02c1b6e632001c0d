-- ===== src/LinkedList/Chain.antt =====
-- The shape of a list in memory: cells with distinct addresses, each pointing at the next.
use they_chat.Base.{
  ◌≡◌, ◌≢◌, refl, ap, ◌∙◌, List, [], ◌∷◌, ◌++◌, none, some, All, length, ne→==, ==_refl,
}
use they_chat.LinkedList.Memory.{Ptr, null, Heap, ok, update, load, set_next}
use they_chat.LinkedList.{LinkedList}

pub record Cell (V : Type 0) : Type 0 where
  pub node : Ptr
  pub block : Ptr
  pub value : V

module _ {V : Type 0} where
  -- Neither allocation is shared.
  abbrev pub Apart : Cell V → List (Cell V) → Type 0
  Apart c = All (λ d. (c.node ≢ d.node) × (c.block ≢ d.block))

  abbrev pub first : List (Cell V) → Ptr → Ptr
  first [] stop = stop
  first (c ∷ cs) stop = c.node

  abbrev pub last : List (Cell V) → Ptr → Ptr
  last [] before = before
  last (c ∷ cs) before = last cs c.node

  pub record Holds (h : Heap V) (c : Cell V) (next : Ptr) : Type 0 where
    pub ne_null : c.node ≢ null
    pub node_holds : h.nodes c.node ≡ some (record { content = c.block; next = next })
    pub block_holds : h.blocks c.block ≡ some c.value

  -- The cells in order; the last one points at `stop`.
  abbrev pub Chain : Heap V → List (Cell V) → Ptr → Type 0
  Chain h [] stop = Unit
  Chain h (c ∷ cs) stop = Holds h c (first cs stop) × Apart c cs × Chain h cs stop

  pub record IsList (h : Heap V) (l : LinkedList) (cs : List (Cell V)) : Type 0 where
    pub chain : Chain h cs null
    pub head_first : l.head ≡ first cs null
    pub tail_last : l.tail ≡ last cs null
    pub size_length : l.size ≡ length cs

  -- Two heaps agree on the cells.
  abbrev pub Agree : Heap V → Heap V → List (Cell V) → Type 0
  Agree g h = All (λ c. (g.nodes c.node ≡ h.nodes c.node) × (g.blocks c.block ≡ h.blocks c.block))

  pub frame :
      (g h : Heap V) (cs : List (Cell V)) (stop : Ptr)
      → Agree g h cs
      → Chain h cs stop
      → Chain g cs stop
  frame g h [] stop same k = tt
  frame g h (c ∷ cs) stop same k = (
    record {
      ne_null = k.0.ne_null;
      node_holds = same.0.0 ∙ k.0.node_holds;
      block_holds = same.0.1 ∙ k.0.block_holds;
    },
    k.1,
    frame g h cs stop same.1 k.2,
  )

  -- Every cell of the one list is apart from the other list.
  abbrev pub Cross : List (Cell V) → List (Cell V) → Type 0
  Cross cs ds = All (λ c. Apart c ds) cs

  pub first-append :
      (cs ds : List (Cell V)) (stop : Ptr) → first (cs ++ ds) stop ≡ first cs (first ds stop)
  first-append [] ds stop = refl
  first-append (c ∷ cs) ds stop = refl

  Apart-append : (c : Cell V) (cs ds : List (Cell V)) → Apart c cs → Apart c ds → Apart c (cs ++ ds)
  Apart-append c [] ds p q = q
  Apart-append c (d ∷ cs) ds p q = (p.0, Apart-append c cs ds p.1 q)

  Apart-split : (c : Cell V) (cs ds : List (Cell V)) → Apart c (cs ++ ds) → Apart c cs × Apart c ds
  Apart-split c [] ds p = (tt, p)
  Apart-split c (d ∷ cs) ds p = let (q, r) = Apart-split c cs ds p.1 in ((p.0, q), r)

  pub join :
      (h : Heap V) (cs ds : List (Cell V)) (stop : Ptr)
      → Chain h cs (first ds stop)
      → Chain h ds stop
      → Cross cs ds
      → Chain h (cs ++ ds) stop
  join h [] ds stop k q x = q
  join h (c ∷ cs) ds stop k q x =
      (rw (first-append cs ds stop) k.0, Apart-append c cs ds k.1 x.0, join h cs ds stop k.2 q x.1)

  pub cut :
      (h : Heap V) (cs ds : List (Cell V)) (stop : Ptr)
      → Chain h (cs ++ ds) stop
      → Chain h cs (first ds stop) × Chain h ds stop × Cross cs ds
  cut h [] ds stop k = (tt, k, tt)
  cut h (c ∷ cs) ds stop k =
      let (p, q, x) = cut h cs ds stop k.2 in
      let (s, t) = Apart-split c cs ds k.1 in
      ((rw (first-append cs ds stop) at k.0, s, p), q, (t, x))

  -- Nothing lives at an unused address.
  pub unused :
      (h : Heap V) (cs : List (Cell V)) (stop : Ptr) (node block : Ptr)
      → Chain h cs stop
      → h.nodes node ≡ none
      → h.blocks block ≡ none
      → All (λ c. (c.node ≢ node) × (c.block ≢ block)) cs
  unused h [] stop node block k p q = tt
  unused h (c ∷ cs) stop node block k p q = (
    (λ e. cc (k.0.node_holds, ap h.nodes e, p), λ e. cc (k.0.block_holds, ap h.blocks e, q)),
    unused h cs stop node block k.2 p q,
  )

  pub Apart-last : (c d : Cell V) (ds : List (Cell V)) → Apart c (d ∷ ds) → c.node ≢ last ds d.node
  Apart-last c d [] p = p.0.0
  Apart-last c d (e ∷ ds) p = Apart-last c e ds p.1

  pub load-Holds :
      (h : Heap V) (c : Cell V) (q : Ptr)
      → Holds h c q
      → load c.node h ≡ ok (record { content = c.block; next = q }) h
  unfolding load
  load-Holds h c q k = rw (k.node_holds, load)

  -- Writing the last node's `next` makes the chain end elsewhere and changes nothing else.
  pub record Relinked (h : Heap V) (c : Cell V) (cs : List (Cell V)) (stop : Ptr) : Type 0 where
    pub heap : Heap V
    pub result : set_next (last cs c.node) stop h ≡ ok tt heap
    pub chain : Chain heap (c ∷ cs) stop
    pub same_nodes : (a : Ptr) → a ≢ last cs c.node → heap.nodes a ≡ h.nodes a
    pub same_blocks : (a : Ptr) → heap.blocks a ≡ h.blocks a

  pub relink :
      (h : Heap V) (c : Cell V) (cs : List (Cell V)) (old stop : Ptr)
      → Chain h (c ∷ cs) old
      → Relinked h c cs stop
  unfolding set_next update
  relink h c [] old stop k = record {
    heap = record h {
      nodes = update h.nodes c.node (some (record { content = c.block; next = stop }));
    };
    result = rw (load-Holds h c old k.0);
    chain = (
      record {
        ne_null = k.0.ne_null;
        node_holds = rw (==_refl c.node);
        block_holds = k.0.block_holds;
      },
      tt,
      tt,
    );
    same_nodes = λ a ne. rw (ne→== a c.node ne);
    same_blocks = λ a. refl;
  }
  relink h c (d ∷ ds) old stop k =
      let r = relink h d ds old stop k.2 in
      record {
        heap = r.heap;
        result = r.result;
        chain = (
          record {
            ne_null = k.0.ne_null;
            node_holds = r.same_nodes c.node (Apart-last c d ds k.1) ∙ k.0.node_holds;
            block_holds = r.same_blocks c.block ∙ k.0.block_holds;
          },
          k.1,
          r.chain,
        );
        same_nodes = r.same_nodes;
        same_blocks = r.same_blocks;
      }

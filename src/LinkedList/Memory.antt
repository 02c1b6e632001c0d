-- ===== src/LinkedList/Memory.antt =====
-- Nodes and data blocks at addresses, and commands that read and write them.
use they_chat.Base.{ℕ, Option, none, some, ◌==◌, if◌then◌else◌}

abbrev pub Ptr : Type 0
Ptr = ℕ

abbrev pub null : Ptr
null = 0

pub record Node : Type 0 where
  pub content : Ptr
  pub next : Ptr

pub record Heap (V : Type 0) : Type 0 where
  pub nodes : Ptr → Option Node
  pub blocks : Ptr → Option V

-- One address of a map is written.
unfoldable pub update : {W : Type 0} → (Ptr → W) → Ptr → W → Ptr → W
update f p w a = if a == p then w else f a

-- A fault is an access to an address that holds nothing.
pub data Run (V : Type 0) (A : Type 0) : Type 0 where
  ok : A → Heap V → Run V A
  fault : Run V A
  exited : Run V A
  out_of_fuel : Run V A

abbrev pub Cmd : Type 0 → Type 0 → Type 0
Cmd V A = Heap V → Run V A

module _ {V : Type 0} where
  abbrev pub pure : {A : Type 0} → A → Cmd V A
  pure a h = ok a h

  abbrev pub and_then : {A B : Type 0} → Run V A → (A → Cmd V B) → Run V B
  and_then (ok a h) k = k a h
  and_then fault k = fault
  and_then exited k = exited
  and_then out_of_fuel k = out_of_fuel

  infixl 5 ◌>>=◌ ◌>>◌
  abbrev pub ◌>>=◌ : {A B : Type 0} → Cmd V A → (A → Cmd V B) → Cmd V B
  m >>= k = λ h. and_then (m h) k

  abbrev pub ◌>>◌ : {A B : Type 0} → Cmd V A → Cmd V B → Cmd V B
  m >> n = m >>= λ _. n

  -- exit(EXIT_FAILURE)
  abbrev pub exit_failure : {A : Type 0} → Cmd V A
  exit_failure h = exited

  abbrev pub store_node : Ptr → Option Node → Cmd V (Unit {0})
  store_node p c h = ok tt (record h { nodes = update h.nodes p c })

  abbrev pub store_block : Ptr → Option V → Cmd V (Unit {0})
  store_block p v h = ok tt (record h { blocks = update h.blocks p v })

  unfoldable pub load : Ptr → Cmd V Node
  load p h = elim (h.nodes p) [ none ↦ fault | some n ↦ ok n h ]

  unfoldable pub set_next : Ptr → Ptr → Cmd V (Unit {0})
  set_next p q = do n ← load p; store_node p (some (record n { next = q }))

  unfoldable pub free_node : Ptr → Cmd V (Unit {0})
  free_node p = do load p; store_node p none

  unfoldable pub free_block : Ptr → Cmd V (Unit {0})
  free_block p h = elim (h.blocks p) [ none ↦ fault | some v ↦ store_block p none h ]

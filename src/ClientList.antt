-- ===== src/ClientList.antt =====
-- server/client_list.c, server/client.h and common/application_states.h. The iterator that the list
-- keeps is the list of the clients still to come. A client that `linked_list_add` makes room for is
-- not initialised: `old` is what the block holds.
pub mod Laws
use they_chat.Base.{
  ℕ, ◌+◌, ◌%◌, ◌^◌, ◌==◌, Bool, true, false, Option, none, some, List, [], ◌∷◌, ◌++◌, length,
}
use they_chat.CString.{c_string, str_eq}
use they_chat.NetStream.{NetworkStream}
use they_chat.Sequence.{remove_at, find_index, find}

pub data AppState : Type 0 where
  null error offline connect onqueue login chat disconnect quit end : AppState

-- `context` is NULL or the handle of an open connection.
pub record NetworkConnection : Type 0 where
  pub context : Option ℕ
  pub stream : NetworkStream

pub record Client : Type 0 where
  pub id : ℕ
  pub ip : List ℕ
  pub name : List ℕ
  pub status_connection : NetworkConnection
  pub task_connection : NetworkConnection
  pub current_state : AppState

pub record ClientList : Type 0 where
  pub list : List Client
  pub next_client_id : ℕ
  pub it : List Client

unfoldable pub client_list_create : ClientList
client_list_create = record { list = []; next_client_id = 0; it = [] }

-- The new client gets the next number, a uint32_t.
unfoldable pub client_list_add : Client → ClientList → ClientList × Client
client_list_add old cl =
    let client = record old { id = cl.next_client_id } in
    (
      record cl {
        list = cl.list ++ client ∷ [];
        next_client_id = (cl.next_client_id + 1) % 2 ^ 32;
      },
      client,
    )

abbrev pub has_id : ℕ → Client → Bool
has_id k c = c.id == k

unfoldable pub client_list_remove : ClientList → ℕ → ClientList × Bool
client_list_remove cl client_id = elim (find_index (has_id client_id) 0 cl.list) [
  | none ↦ (cl, false)
  | some index ↦
      let (removed, rest) = remove_at index cl.list in (record cl { list = rest }, removed)
]

unfoldable pub client_list_find_by_id : Option ClientList → ℕ → Option Client
client_list_find_by_id none client_id = none
client_list_find_by_id (some cl) client_id = find (has_id client_id) cl.list

-- strcmp on the arrays
abbrev pub has_name : List ℕ → Client → Bool
has_name name c = str_eq (c_string c.name) (c_string name)

unfoldable pub client_list_find_by_name : Option ClientList → List ℕ → Option Client
client_list_find_by_name none name = none
client_list_find_by_name (some cl) name = find (has_name name) cl.list

unfoldable pub client_list_length : Option ClientList → ℕ
client_list_length none = 0
client_list_length (some cl) = length cl.list

abbrev pub next_of : List Client → Option Client × List Client
next_of [] = (none, [])
next_of (c ∷ cs) = (some c, cs)

unfoldable pub client_list_interator_next : ClientList → ClientList × Option Client
client_list_interator_next cl = let (c, rest) = next_of cl.it in (record cl { it = rest }, c)

unfoldable pub client_list_interator_rewind : ClientList → ClientList
client_list_interator_rewind cl = record cl { it = cl.list }

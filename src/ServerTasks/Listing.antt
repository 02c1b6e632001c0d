-- ===== src/ServerTasks/Listing.antt =====
-- server/task/tasks/server_task_users.c and server_task_files.c: lists of strings for a client.
-- `decimal` is what the formats %d, %i and %li print for a number.
use they_chat.Base.{
  ℕ, ◌+◌, ◌-◌, Option, none, some, List, [], ◌∷◌, ◌++◌, ltb, length, replicate, if◌then◌else◌,
}
use they_chat.Bytes.{Endianness}
use they_chat.CString.{codes, c_string}
use they_chat.Message.{TaskUsersData, max_ip_bytes}
use they_chat.ClientList.{Client, ClientList, client_list_find_by_id}
use they_chat.SharedFileList.{SharedFile}
use they_chat.NetPrimitives.{SendEvent}
use they_chat.NetCommunication.{Sending}
use they_chat.StringList.{StringList, string_list_create, string_list_add}
use they_chat.StringListTransferring.{send_string_list}
use they_chat.World.{World}

-- `fault`: a text that is longer than its array, or a null pointer.
pub data Listed : Type 0 where
  sent : World → Sending → Listed
  fault : Listed

-- %-*s: a blank is 32.
abbrev pub padded : ℕ → List ℕ → List ℕ
padded width text = text ++ replicate (width - length text) 32

-- sprintf into an array of 512 bytes
unfoldable pub printed_in_512 : List ℕ → Option (List ℕ)
printed_in_512 text = if ltb (length text) 512 then some text else none

abbrev pub add_printed : Option (List ℕ) → StringList → Option StringList
add_printed none strs = none
add_printed (some buffer) strs = some (string_list_add strs buffer)

-- The loop that fills the string list; `print` is a round's text.
unfoldable pub fill_list :
    {A : Type 0} → (A → Option (List ℕ)) → List A → StringList → Option StringList
fill_list print [] strs = some strs
fill_list print (x ∷ xs) strs = elim (add_printed (print x) strs) [
  | none ↦ none
  | some strs' ↦ fill_list print xs strs'
]

abbrev pub send_filled : Endianness → (ℕ → List SendEvent) → World → Option StringList → Listed
send_filled e events w none = fault
send_filled e events w (some strs) = sent w (send_string_list e strs.list events)

module _ (decimal : ℕ → List ℕ) where
  abbrev pub user_text : TaskUsersData → Client → List ℕ
  user_text users_data c =
      padded 10 (c_string c.name)
      ++ ((if users_data.show_ip then padded (max_ip_bytes + 2) (c_string c.ip) else [])
          ++ (if users_data.show_id then decimal c.id else []))

  -- The iterator of the list of clients is used up.
  unfoldable pub server_task_users :
      Endianness → (ℕ → List SendEvent) → TaskUsersData → World → Listed
  server_task_users e events users_data w =
      send_filled e events (record w { clients = record (w.clients) { it = [] } })
        (fill_list (λ c. printed_in_512 (user_text users_data c)) w.clients.list string_list_create)

  abbrev pub file_text : SharedFile → Client → List ℕ
  file_text file file_client =
      codes "ID: "
      ++ (padded 10 (decimal file.id)
          ++ (codes " Name: "
              ++ (padded 20 (c_string file.filename)
                  ++ (codes " Size: "
                      ++ (padded 10 (decimal file.size)
                          ++ (codes " Uploaded by: " ++ padded 10 (c_string file_client.name)))))))

  -- The client that shared the file may be gone.
  unfoldable pub print_file : ClientList → SharedFile → Option (List ℕ)
  print_file clients file = elim (client_list_find_by_id (some clients) file.client_id) [
    | none ↦ none
    | some file_client ↦ printed_in_512 (file_text file file_client)
  ]

  unfoldable pub server_task_files : Endianness → (ℕ → List SendEvent) → World → Listed
  server_task_files e events w =
      send_filled e events w
        (fill_list (print_file w.clients) w.files.shared.list string_list_create)

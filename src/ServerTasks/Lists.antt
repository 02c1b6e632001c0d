-- ===== src/ServerTasks/Lists.antt =====
-- Statements on server/task/tasks/server_task_users.c and server_task_files.c.
use they_chat.Base.{
  ℕ, zero, suc, ◌+◌, ◌-◌, ◌^◌, ◌≤◌, ◌<◌, ◌≡◌, refl, sym, ap, subst, ◌∙◌, Bool, true, false, ◌&&◌,
  Option, none, some, List, [], ◌∷◌, ◌++◌, map, append_assoc, append-nil, All, All-append, lt→ltb,
  length, length-append, length-replicate, replicate, if◌then◌else◌, arith,
}
use they_chat.Bytes.{Endianness}
use they_chat.CString.{codes, c_string}
use they_chat.CString.Laws.{IsString, c_string-IsString, length-c_string}
use they_chat.Message.{TaskUsersData, max_username_bytes, max_filename_size}
use they_chat.Sequence.Laws.{is_some, find-All}
use they_chat.ClientList.{has_id, Client, ClientList, client_list_find_by_id}
use they_chat.SharedFileList.{SharedFile}
use they_chat.NetStream.{NetworkStream}
use they_chat.NetStream.Laws.{IsStream, content}
use they_chat.NetPrimitives.{NetEvent, SendEvent}
use they_chat.NetPrimitives.Laws.{Flows, bytes}
use they_chat.NetCommunication.{Sending, done}
use they_chat.NetCommunication.Send.{Serves}
use they_chat.StringList.{StringList, string_list_create, string_list_add}
use they_chat.StringListTransferring.{send_string_list, receive_string_list}
use they_chat.StringListTransferring.Laws.{FitsMessage, list_wire, send_string_list-done}
use they_chat.StringListTransferring.Receive.{Completes, receive_string_list-send_string_list}
use they_chat.ServerTasks.Listing.{
  sent, fault, padded, printed_in_512, add_printed, fill_list, send_filled, user_text,
  server_task_users, file_text, print_file, server_task_files,
}
use they_chat.World.{World}

-- A text that holds no NUL and has at most `n` bytes.
abbrev pub Fits : ℕ → List ℕ → Type 0
Fits n text = IsString text × (length text ≤ n)

Fits-append : (n m : ℕ) (s t : List ℕ) → Fits n s → Fits m t → Fits (n + m) (s ++ t)
Fits-append n m s t h k = (All-append _ s t h.0 k.0, omega (arith, length-append s t, h.1, k.1))

blanks-IsString : (n : ℕ) → IsString (replicate n 32)
blanks-IsString zero = tt
blanks-IsString (suc n) = (ground arith, blanks-IsString n)

Fits-padded : (n width : ℕ) (text : List ℕ) → Fits n text → Fits (n + width) (padded width text)
Fits-padded n width text h =
    let blanks = replicate (width - length text) 32 in
    (
      All-append _ text blanks h.0 (blanks-IsString _),
      omega (
        arith,
        length-append text blanks,
        length-replicate {A = ℕ} (width - length text) 32,
        h.1,
      ),
    )

Fits-c_string : (n : ℕ) (array : List ℕ) → length array ≡ n → Fits n (c_string array)
Fits-c_string n array e = (c_string-IsString array, omega (arith, length-c_string array, e))

printed-Fits : (text : List ℕ) → Fits 511 text → printed_in_512 text ≡ some text
unfolding printed_in_512
printed-Fits text h = rw (lt→ltb (length text) 512 (omega (arith, h.1))) refl

fill_list_lem :
    {A : Type 0} (print : A → Option (List ℕ)) (text : A → List ℕ) (xs : List A) (strs : StringList)
    → All (λ x. print x ≡ some (text x)) xs
    → fill_list print xs strs ≡ some (record { list = strs.list ++ map text xs })
unfolding fill_list string_list_add
fill_list_lem print text [] strs h =
    ap (λ l. some (record { list = l })) (sym (append-nil strs.list))
fill_list_lem print text (x ∷ xs) strs h =
    ap (λ o. elim (add_printed o strs) [ none ↦ none | some strs' ↦ fill_list print xs strs' ]) h.0
    ∙ fill_list_lem print text xs (string_list_add strs (text x)) h.1
    ∙ ap (λ l. some (record { list = l })) (append_assoc strs.list (text x ∷ []) (map text xs))

-- The size of the address of a client: sizeof("255.255.255.255") + 1.
abbrev pub client_ip_bytes : ℕ
client_ip_bytes = 17

-- A client whose arrays have their sizes.
abbrev pub IsClient : Client → Type 0
IsClient c =
    (length c.name ≡ max_username_bytes) × (length c.ip ≡ client_ip_bytes) × (c.id < 2 ^ 32)

All-Fits :
    {A : Type 0} (P : A → Type 0) (text : A → List ℕ) (xs : List A)
    → ((x : A) → P x → Fits 511 (text x))
    → All P xs
    → All FitsMessage (map text xs)
All-Fits P text [] k h = tt
All-Fits P text (x ∷ xs) k h =
    let fits = k x h.0 in ((fits.0, omega (arith, fits.1)), All-Fits P text xs k h.1)

All-prints :
    {A : Type 0} (P : A → Type 0) (print : A → Option (List ℕ)) (text : A → List ℕ) (xs : List A)
    → ((x : A) → P x → print x ≡ some (text x))
    → All P xs
    → All (λ x. print x ≡ some (text x)) xs
All-prints P print text [] k h = tt
All-prints P print text (x ∷ xs) k h = (k x h.0, All-prints P print text xs k h.1)

-- A file whose arrays have their sizes.
abbrev pub IsFile : SharedFile → Type 0
IsFile f = (length f.filename ≡ max_filename_size) × (f.id < 2 ^ 32) × (f.size < 2 ^ 64)

-- Whether the client that shared a file is connected.
abbrev pub uploader_connected : ClientList → SharedFile → Bool
uploader_connected clients file = is_some (client_list_find_by_id (some clients) file.client_id)

abbrev pub all_true : {A : Type 0} → (A → Bool) → List A → Bool
all_true p [] = true
all_true p (x ∷ xs) = p x && all_true p xs

sent_injective : {v w : World} {s t : Sending} → sent v s ≡ sent w t → s ≡ t
sent_injective e = cc

length-map : {A B : Type 0} (f : A → B) (xs : List A) → length (map f xs) ≡ length xs
length-map f [] = refl
length-map f (x ∷ xs) = ap suc (length-map f xs)

-- `decimal` prints a number of 64 bits, of either sign, in 20 bytes at most.
module _ (decimal : ℕ → List ℕ) (digits : (n : ℕ) → n < 2 ^ 64 → Fits 20 (decimal n)) where
  user_text-Fits : (d : TaskUsersData) (c : Client) → IsClient c → Fits 511 (user_text decimal d c)
  user_text-Fits d c h =
      let name = Fits-padded 32 10 (c_string c.name) (Fits-c_string 32 c.name h.0) in
      let address = Fits-padded 17 18 (c_string c.ip) (Fits-c_string 17 c.ip h.1) in
      let number = digits c.id (omega (arith, h.2)) in
      let text =
        Fits-append 42 55 _ _ name
          (Fits-append 35 20 _ _ (shown d.show_ip 35 _ address) (shown d.show_id 20 _ number)) in
      (text.0, omega (arith, text.1))
    where
      shown : (b : Bool) (n : ℕ) (t : List ℕ) → Fits n t → Fits n (if b then t else [])
      shown true n t k = k
      shown false n t k = (tt, omega arith)

  abbrev pub rewound : World → World
  rewound w = record w { clients = record (w.clients) { it = [] } }

  users_sent :
      (e : Endianness) (events : ℕ → List SendEvent) (d : TaskUsersData) (w : World)
      → All IsClient w.clients.list
      → server_task_users decimal e events d w
        ≡ sent (rewound w) (send_string_list e (map (user_text decimal d) w.clients.list) events)
  unfolding server_task_users string_list_create
  users_sent e events d w h = ap (send_filled e events (rewound w)) (
      fill_list_lem (λ c. printed_in_512 (user_text decimal d c)) (user_text decimal d)
        w.clients.list string_list_create
        (All-prints IsClient _ (user_text decimal d) w.clients.list
          (λ c k. printed-Fits (user_text decimal d c) (user_text-Fits d c k)) h))

  -- The text of each client fits the buffer, and a socket that keeps taking bytes takes all: the
  -- task ends without an error, after a message for each client in the order of the list. Each
  -- client's arrays have their sizes, and a number is printed in 20 bytes at most.
  pub server_task_users-done :
      (e : Endianness) (events : ℕ → List SendEvent) (d : TaskUsersData) (w : World)
      → All IsClient w.clients.list
      → ((k : ℕ) → Serves (events k))
      → server_task_users decimal e events d w
        ≡ sent (rewound w) (done (list_wire (map (user_text decimal d) w.clients.list)))
  server_task_users-done e events d w h serves =
      users_sent e events d w h
      ∙ ap (sent (rewound w)) (
          send_string_list-done e _ events
            (All-Fits IsClient (user_text decimal d) w.clients.list (user_text-Fits d) h) serves)

  -- What the task has sent without an error, receive_string_list of the client takes in: a line for
  -- each connected client, in order, appended to its list; what was sent afterwards is left. Each
  -- client's arrays have their sizes, a number is printed in 20 bytes at most without a NUL, and
  -- the bytes arrive without errors, cut up in any way.
  pub receive_string_list-server_task_users :
      (sender receiver : Endianness) (events : ℕ → List SendEvent) (d : TaskUsersData) (w v : World)
      (acc : List (List ℕ)) (out rest : List ℕ) (ns : NetworkStream) (es : List NetEvent)
      → All IsClient w.clients.list
      → server_task_users decimal sender events d w ≡ sent v (done out)
      → IsStream ns
      → Flows es
      → content ns ++ bytes es ≡ out ++ rest
      → Completes
          (receive_string_list (suc (length w.clients.list)) receiver acc ns es)
          (acc ++ map (user_text decimal d) w.clients.list)
          rest
  receive_string_list-server_task_users sender receiver events d w v acc out rest ns es h ran s f
        c =
      let lines = map (user_text decimal d) w.clients.list in
      let fits = All-Fits IsClient (user_text decimal d) w.clients.list (user_text-Fits d) h in
      let all : send_string_list sender lines events ≡ done out =
        sent_injective (sym (users_sent sender events d w h) ∙ ran) in
      subst (λ n. Completes (receive_string_list (suc n) receiver acc ns es) (acc ++ lines) rest)
        (length-map (user_text decimal d) w.clients.list)
        (receive_string_list-send_string_list sender receiver lines acc events out rest ns es fits
          all s f c)

  file_text-Fits :
      (file : SharedFile) (c : Client)
      → IsFile file
      → IsClient c
      → Fits 511 (file_text decimal file c)
  file_text-Fits file c h k =
      let id_label : Fits 4 (codes "ID: ") = (ground arith, omega arith) in
      let name_label : Fits 7 (codes " Name: ") = (ground arith, omega arith) in
      let size_label : Fits 7 (codes " Size: ") = (ground arith, omega arith) in
      let by_label : Fits 14 (codes " Uploaded by: ") = (ground arith, omega arith) in
      let id = Fits-padded 20 10 _ (digits file.id (omega (arith, h.1))) in
      let filename = Fits-padded 256 20 _ (Fits-c_string 256 file.filename h.0) in
      let size = Fits-padded 20 10 _ (digits file.size h.2) in
      let by = Fits-padded 32 10 _ (Fits-c_string 32 c.name k.0) in
      let p7 = padded 10 (c_string c.name) in
      let p6 = codes " Uploaded by: " ++ p7 in
      let p5 = padded 10 (decimal file.size) ++ p6 in
      let p4 = codes " Size: " ++ p5 in
      let p3 = padded 20 (c_string file.filename) ++ p4 in
      let p2 = codes " Name: " ++ p3 in
      let p1 = padded 10 (decimal file.id) ++ p2 in
      let f6 : Fits 56 p6 = Fits-append 14 42 (codes " Uploaded by: ") p7 by_label by in
      let f5 : Fits 86 p5 = Fits-append 30 56 (padded 10 (decimal file.size)) p6 size f6 in
      let f4 : Fits 93 p4 = Fits-append 7 86 (codes " Size: ") p5 size_label f5 in
      let f3 : Fits 369 p3 =
        Fits-append 276 93 (padded 20 (c_string file.filename)) p4 filename f4 in
      let f2 : Fits 376 p2 = Fits-append 7 369 (codes " Name: ") p3 name_label f3 in
      let f1 : Fits 406 p1 = Fits-append 30 376 (padded 10 (decimal file.id)) p2 id f2 in
      let text : Fits 410 (file_text decimal file c) =
        Fits-append 4 406 (codes "ID: ") p1 id_label f1 in
      (text.0, omega (arith, text.1))

  -- What the list says of a file.
  abbrev pub file_line : ClientList → SharedFile → List ℕ
  file_line clients file = elim (client_list_find_by_id (some clients) file.client_id) [
    | none ↦ []
    | some c ↦ file_text decimal file c
  ]

  -- One round, when the search for the uploader comes to `o`.
  abbrev printed_for : SharedFile → Option Client → Option (List ℕ)
  printed_for file o = elim o [ none ↦ none | some c ↦ printed_in_512 (file_text decimal file c) ]

  abbrev line_for : SharedFile → Option Client → List ℕ
  line_for file o = elim o [ none ↦ [] | some c ↦ file_text decimal file c ]

  abbrev filled_if : Bool → List (List ℕ) → Option StringList
  filled_if b list = if b then some (record { list = list }) else none

  abbrev round_for : ClientList → List SharedFile → StringList → Option (List ℕ) → Option StringList
  round_for clients files strs o = elim (add_printed o strs) [
    | none ↦ none
    | some strs' ↦ fill_list (print_file decimal clients) files strs'
  ]

  round_lem :
      (clients : ClientList) (file : SharedFile) (files : List SharedFile) (strs : StringList)
      (o : Option Client)
      → client_list_find_by_id (some clients) file.client_id ≡ o
      → All IsClient clients.list
      → IsFile file
      → ((s : StringList)
          → fill_list (print_file decimal clients) files s
            ≡ filled_if
                (all_true (uploader_connected clients) files)
                (s.list ++ map (file_line clients) files))
      → round_for clients files strs (printed_for file o)
        ≡ filled_if
            (is_some o && all_true (uploader_connected clients) files)
            (strs.list ++ line_for file o ∷ map (file_line clients) files)
  unfolding string_list_add client_list_find_by_id
  round_lem clients file files strs none gone k h rest = refl
  round_lem clients file files strs (some c) found k h rest =
      let text = file_text decimal file c in
      let fits =
        file_text-Fits file c h
          (find-All IsClient (has_id file.client_id) c clients.list k found) in
      ap (round_for clients files strs) (printed-Fits text fits)
      ∙ rest (string_list_add strs text)
      ∙ ap (filled_if (all_true (uploader_connected clients) files))
          (append_assoc strs.list (text ∷ []) (map (file_line clients) files))

  fill_list-files :
      (clients : ClientList) (files : List SharedFile) (strs : StringList)
      → All IsClient clients.list
      → All IsFile files
      → fill_list (print_file decimal clients) files strs
        ≡ filled_if
            (all_true (uploader_connected clients) files)
            (strs.list ++ map (file_line clients) files)
  unfolding fill_list print_file
  fill_list-files clients [] strs k h =
      ap (λ l. some (record { list = l })) (sym (append-nil strs.list))
  fill_list-files clients (file ∷ files) strs k h =
      round_lem clients file files strs (client_list_find_by_id (some clients) file.client_id) refl
        k h.0 (λ s. fill_list-files clients files s k h.1)

  -- The task sends a line for each shared file, in order, if the client that shared it is still
  -- connected for each of them; if one is not, the server dereferences a null pointer. The clients'
  -- and the files' arrays have their sizes, and a number is printed in 20 bytes at most.
  pub server_task_files_lem :
      (e : Endianness) (events : ℕ → List SendEvent) (w : World)
      → All IsClient w.clients.list
      → All IsFile w.files.shared.list
      → server_task_files decimal e events w ≡ (
          if all_true (uploader_connected w.clients) w.files.shared.list
          then sent w (send_string_list e (map (file_line w.clients) w.files.shared.list) events)
          else fault)
  unfolding server_task_files string_list_create
  server_task_files_lem e events w k h =
      ap (send_filled e events w)
        (fill_list-files w.clients w.files.shared.list string_list_create k h)
      ∙ either (all_true (uploader_connected w.clients) w.files.shared.list)
    where
      either :
          (b : Bool)
          → send_filled e events w (
              if b
              then some (record { list = map (file_line w.clients) w.files.shared.list })
              else none)
            ≡ (if b
                then sent w
                    (send_string_list e (map (file_line w.clients) w.files.shared.list) events)
                else fault)
      either true = refl
      either false = refl

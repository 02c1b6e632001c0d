-- ===== src/FileTransfer/RoundTrip.antt =====
-- Statements on send_file and receive_file of common/net/file_transfer.c together.
use they_chat.Base.{
  ℕ, suc, ◌%◌, ◌^◌, ◌<◌, ◌≡◌, refl, sym, ap, subst, ◌∙◌, ◌++◌, append-nil, append_assoc, Bool, true,
  Option, none, some, List, [], ◌∷◌, All, length, lt→ltb, arith,
}
use they_chat.Bytes.{Endianness}
use they_chat.CString.{c_string, terminated}
use they_chat.CString.Laws.{IsString}
use they_chat.Message.{
  Message, MessageType, Payload, FileHeaderPayload, file_content_size, header_name_bytes,
  max_filepath_size,
}
use they_chat.Message.Create.{create_file_end_message}
use they_chat.MessageSerializer.Wire.{wire}
use they_chat.NetStream.{NetworkStream}
use they_chat.NetPrimitives.{NetEvent, SendEvent}
use they_chat.NetCommunication.{Sending, done, received, wait_for_message_type}
use they_chat.FileTransfer.{
  OpenFile, sent_name, send_file, written, receive_contents, ReceivedFile, finished, receive_end,
  finish, received_name, received_path, receive_named, receive_headed, receive_file,
}
use they_chat.FileTransfer.Messages.{
  IsRead, Heads, header-Travels, end-Travels, contents_wire, file_wire,
}
use they_chat.NetCommunication.Send.{Serves}
use they_chat.FileTransfer.Send.{send_file-done}
use they_chat.FileTransfer.Receive.{joined, Leaves, next_message, receive_contents-Writes}

-- The name that the caller gives, or, if that is empty, the one that was sent.
abbrev pub chosen_name : List ℕ → List ℕ → List ℕ
chosen_name [] name = name
chosen_name (b ∷ bs) name = b ∷ bs

-- The call returns without an error, the file at `path` holds `file`, and `rest` is still to be read.
abbrev pub Finishes : ReceivedFile → List ℕ → List ℕ → List ℕ → List ℕ → Type 0
Finishes r name path file rest =
    (ns : NetworkStream) × (es : List NetEvent) × (r ≡ finished none name path file ns es)
    × Leaves ns es rest

module _ (fuel : ℕ) (e : Endianness) (opens : List ℕ → Bool) (folder : Option (List ℕ)) where
  receive_file-headed :
      (filename : List ℕ) (ns : NetworkStream) (es : List NetEvent) {m : Message}
      {ns' : NetworkStream} {es' : List NetEvent}
      → wait_for_message_type e ns MessageType.file_header es ≡ received m ns' es'
      → receive_file fuel e opens folder filename ns es
        ≡ receive_headed fuel e opens folder filename m.payload ns' es'
  unfolding receive_file
  receive_file-headed filename ns es w = rw (w, receive_file)

  received_name-chosen :
      (filename name : List ℕ) (h : FileHeaderPayload)
      → c_string h.name ≡ name
      → terminated h.name ≡ true
      → received_name filename h ≡ some (chosen_name filename name)
  unfolding received_name
  received_name-chosen [] name h c t = rw t (ap some c)
  received_name-chosen (b ∷ bs) name h c t = refl

  receive_headed-named :
      (filename name : List ℕ) (size : ℕ) (p : Payload) (ns : NetworkStream) (es : List NetEvent)
      → Heads name size p
      → receive_headed fuel e opens folder filename p ns es
        ≡ receive_named fuel e opens folder size (some (chosen_name filename name)) ns es
  receive_headed-named filename name size (Payload.file_header h) ns es k =
      ap (λ s. receive_named fuel e opens folder s (received_name filename h) ns es) k.2
      ∙ ap (λ n. receive_named fuel e opens folder size n ns es)
          (received_name-chosen filename name h k.0 k.1)
  receive_headed-named filename name size _ ns es k = absurd k

  receive_named-opens :
      (size : ℕ) (name : List ℕ) (ns : NetworkStream) (es : List NetEvent)
      → length (received_path folder name) < max_filepath_size
      → opens (received_path folder name) ≡ true
      → receive_named fuel e opens folder size (some name) ns es
        ≡ receive_end e name (received_path folder name) (receive_contents fuel e size [] ns es)
  unfolding receive_named
  receive_named-opens size name ns es l o =
      rw (lt→ltb (length (received_path folder name)) max_filepath_size l, o)

receive_end-Finishes :
    (e : Endianness) (name path file : List ℕ) (rest : List ℕ) (ns : NetworkStream)
    (es : List NetEvent)
    → Leaves ns es (wire create_file_end_message ++ rest)
    → Finishes (receive_end e name path (written file ns es)) name path file rest
unfolding receive_end
receive_end-Finishes e name path file rest ns es l =
    let (ns', es', w, l') =
      next_message e end-Travels [] rest ns es
        (l.0, l.1, l.2 ∙ ap (λ b. b ++ rest) (sym (append-nil (wire create_file_end_message)))) in
    (ns', es', ap (finish name path file) w, l')

abbrev IsDone : List ℕ → Sending → Type 0
IsDone bs (done out) = out ≡ bs
IsDone bs _ = Unit

done_injective : {a b : List ℕ} → done a ≡ done b → b ≡ a
done_injective {a} p = subst (IsDone a) p refl

-- The receiver on the wire format.
receive_file-wire :
    (e : Endianness) (stack : ℕ → List ℕ) (old name : List ℕ) (size : ℕ) (reads : List (List ℕ))
    (opens : List ℕ → Bool) (folder : Option (List ℕ)) (filename rest : List ℕ) (ns : NetworkStream)
    (es : List NetEvent)
    → ((k : ℕ) → length (stack k) ≡ file_content_size)
    → length old ≡ header_name_bytes
    → IsString name
    → length name < header_name_bytes
    → All IsRead reads
    → size ≡ length (joined reads)
    → size < 2 ^ 32
    → length (received_path folder (chosen_name filename name)) < max_filepath_size
    → opens (received_path folder (chosen_name filename name)) ≡ true
    → Leaves ns es (file_wire old stack name size reads ++ rest)
    → Finishes
        (receive_file (suc (length reads)) e opens folder filename ns es)
        (chosen_name filename name)
        (received_path folder (chosen_name filename name))
        (joined reads)
        rest
unfolding file_wire
receive_file-wire e stack old name size reads opens folder filename rest ns es arrays o s l r total
      small short can_open leaves =
    let chosen = chosen_name filename name in
    let path = received_path folder chosen in
    let fuel = suc (length reads) in
    let (t, heads) = header-Travels old name size o s l small in
    let (ns', es', w, l') =
      next_message e t (contents_wire stack reads 0 ++ wire create_file_end_message) rest ns es
        leaves in
    let (ns'', es'', c, l'') =
      receive_contents-Writes e stack size (wire create_file_end_message ++ rest) arrays reads 0
        fuel [] ns' es' r (omega (arith, total)) (omega arith)
        (l'.0, l'.1, l'.2 ∙ append_assoc (contents_wire stack reads 0) _ rest) in
    subst (λ res. Finishes res chosen path (joined reads) rest)
      (sym (
        receive_file-headed fuel e opens folder filename ns es w
        ∙ receive_headed-named fuel e opens folder filename name size t.message.payload ns' es'
            heads
        ∙ receive_named-opens fuel e opens folder size chosen ns' es' short can_open
        ∙ ap (receive_end e chosen path) c))
      (receive_end-Finishes e chosen path (joined reads) rest ns'' es'' l'')

-- What `send_file` sends while the socket keeps taking bytes, `receive_file` takes in: without an
-- error, the file that it writes has the bytes of the one that was read, in the receiver's folder
-- under the name that it asks for or else the sender's, and what was sent afterwards is left. The bytes may be
-- cut up in any way while they arrive without errors, and the two hosts may differ in byte order.
-- The arrays on the stack have their sizes, each fread() gives between 1 and 512 bytes, ftell()
-- gives their sum, which is less than 2 ^ 32, the sent name holds no NUL and is shorter than 64
-- bytes, and the receiver can open its path, which is shorter than 512 bytes. As many rounds as
-- fread() gave buffers, and one more, are enough.
pub receive_file-send_file :
    (sender receiver : Endianness) (stack : ℕ → List ℕ) (events : ℕ → List SendEvent) (old : List ℕ)
    (header_events end_events : List SendEvent) (filepath : List ℕ) (file : OpenFile)
    (override_name : Option (List ℕ)) (opens : List ℕ → Bool) (folder : Option (List ℕ))
    (filename out rest : List ℕ) (ns : NetworkStream) (es : List NetEvent)
    → ((k : ℕ) → length (stack k) ≡ file_content_size)
    → ((k : ℕ) → Serves (events k))
    → length old ≡ header_name_bytes
    → IsString (sent_name filepath override_name)
    → length (sent_name filepath override_name) < header_name_bytes
    → Serves header_events
    → Serves end_events
    → All IsRead file.reads
    → file.size ≡ length (joined file.reads)
    → file.size < 2 ^ 32
    → length (received_path folder (chosen_name filename (sent_name filepath override_name)))
      < max_filepath_size
    → opens (received_path folder (chosen_name filename (sent_name filepath override_name))) ≡ true
    → send_file sender old stack header_events events end_events filepath (some file) override_name
      ≡ done out
    → Leaves ns es (out ++ rest)
    → Finishes
        (receive_file (suc (length file.reads)) receiver opens folder filename ns es)
        (chosen_name filename (sent_name filepath override_name))
        (received_path folder (chosen_name filename (sent_name filepath override_name)))
        (joined file.reads)
        rest
receive_file-send_file sender receiver stack events old header_events end_events filepath file
      override_name opens folder filename out rest ns es arrays serves o s l hs fs r total small
      short can_open sent leaves =
    let name = sent_name filepath override_name in
    let size : file.size % 2 ^ 32 ≡ file.size = omega (arith, small) in
    let all =
      send_file-done sender stack events arrays serves old header_events end_events filepath file
        override_name o s l hs fs r in
    let same : out ≡ file_wire old stack name file.size file.reads =
      done_injective (sym all ∙ sent) ∙ ap (λ n. file_wire old stack name n file.reads) size in
    receive_file-wire receiver stack old name file.size file.reads opens folder filename rest ns es
      arrays o s l r total small short can_open
      (leaves.0, leaves.1, leaves.2 ∙ ap (λ b. b ++ rest) same)

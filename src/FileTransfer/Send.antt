-- ===== src/FileTransfer/Send.antt =====
-- send_file over a socket that keeps taking bytes.
use they_chat.Base.{
  ℕ, suc, ◌%◌, ◌^◌, ◌<◌, ◌≡◌, refl, sym, ap, ◌∙◌, Option, some, List, [], ◌∷◌, All, length, arith,
}
use they_chat.Bytes.{Endianness}
use they_chat.CString.Laws.{IsString}
use they_chat.Message.{Message, MessageType, file_content_size, header_name_bytes}
use they_chat.Message.Create.{
  create_file_header_message, create_file_content_message, create_file_end_message,
}
use they_chat.NetPrimitives.{SendEvent}
use they_chat.NetCommunication.{done, send_message}
use they_chat.NetCommunication.Send.{Serves, send_message-Serves}
use they_chat.StringListTransferring.{and_then}
use they_chat.FileTransfer.{
  OpenFile, send_created, send_contents, always_then, sent_name, send_file,
}
use they_chat.FileTransfer.Messages.{
  Travels, IsRead, content-Travels, header-Travels, end-Travels, created_wire, Travels-wire,
  contents_wire, file_wire,
}

send_created-done :
    (e : Endianness) {created : Option Message} {type : MessageType} (t : Travels created type)
    (events : List SendEvent)
    → Serves events
    → send_created e created events ≡ done (created_wire created)
send_created-done e t events s =
    ap (λ c. send_created e c events) t.is_created
    ∙ send_message-Serves e t.message events t.valid t.fits_buffer s
    ∙ ap done (sym (Travels-wire t))

module _ (e : Endianness) (stack : ℕ → List ℕ) (events : ℕ → List SendEvent)
    (arrays : (k : ℕ) → length (stack k) ≡ file_content_size)
    (serves : (k : ℕ) → Serves (events k)) where
  send_contents-done :
      (reads : List (List ℕ)) (k : ℕ)
      → All IsRead reads
      → send_contents e stack events reads k ≡ done (contents_wire stack reads k)
  unfolding send_contents contents_wire
  send_contents-done [] k h = refl
  send_contents-done (buffer ∷ reads) k h =
      let first =
        send_created-done e (content-Travels (stack k) buffer (arrays k) h.0).0 (events k)
          (serves k) in
      ap (λ s. and_then s (send_contents e stack events reads (suc k))) first
      ∙ ap
          (and_then
            (done (created_wire (create_file_content_message (stack k) buffer (length buffer)))))
          (send_contents-done reads (suc k) h.1)

  -- While the socket keeps taking bytes, `send_file` sends the header, the parts in order and the
  -- end, without an error. The arrays on the stack have their sizes, each fread() gives between 1
  -- and 512 bytes, and the sent name holds no NUL and is shorter than 64 bytes.
  pub send_file-done :
      (old : List ℕ) (header_events end_events : List SendEvent) (filepath : List ℕ)
      (file : OpenFile) (override_name : Option (List ℕ))
      → length old ≡ header_name_bytes
      → IsString (sent_name filepath override_name)
      → length (sent_name filepath override_name) < header_name_bytes
      → Serves header_events
      → Serves end_events
      → All IsRead file.reads
      → send_file e old stack header_events events end_events filepath (some file) override_name
        ≡ done
            (file_wire old stack (sent_name filepath override_name) (file.size % 2 ^ 32) file.reads)
  unfolding send_file file_wire
  send_file-done old header_events end_events filepath file override_name o s l hs es r =
      let name = sent_name filepath override_name in
      let size = file.size % 2 ^ 32 in
      let first =
        send_created-done e (header-Travels old name size o s l (omega arith)).0 header_events hs in
      let final = send_created-done e end-Travels end_events es in
      let rest =
        always_then (send_contents e stack events file.reads 0)
          (send_message e create_file_end_message end_events) in
      let rest_done =
        ap (λ c. always_then c (send_message e create_file_end_message end_events))
          (send_contents-done file.reads 0 r)
        ∙ ap (always_then (done (contents_wire stack file.reads 0))) final in
      ap (λ c. and_then c rest) first
      ∙ ap (and_then (done (created_wire (create_file_header_message old name size)))) rest_done

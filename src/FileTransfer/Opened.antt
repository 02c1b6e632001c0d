-- ===== src/FileTransfer/Opened.antt =====
-- A statement on the path that receive_file of common/net/file_transfer.c opens.
use they_chat.Base.{
  ℕ, ◌≡◌, refl, subst, Bool, true, false, Option, none, some, List, [], ltb, if◌then◌else◌,
}
use they_chat.Bytes.{Endianness}
use they_chat.Message.{Payload, MessageType, max_filepath_size}
use they_chat.NetStream.{NetworkStream}
use they_chat.NetPrimitives.{ErrorCode, NetEvent}
use they_chat.NetCommunication.{Waited, received, wait_for_message_type}
use they_chat.FileTransfer.{
  filepath_concat, ReceivedFile, finished, Contents, written, receive_contents, finish, receive_end,
  received_name, receive_named, receive_headed, receive_file,
}

-- The file that was written lies in the folder, under the name of the result.
abbrev pub PathIs : List ℕ → ReceivedFile → Type 0
PathIs folder (finished err name path got ns es) = path ≡ filepath_concat folder name
PathIs folder _ = Unit

finish-PathIs :
    (folder name got : List ℕ) (w : Waited)
    → PathIs folder (finish name (filepath_concat folder name) got w)
finish-PathIs folder name got (received m ns es) = refl
finish-PathIs folder name got (Waited.failed c ns es) = refl
finish-PathIs folder name got _ = tt

receive_end-PathIs :
    (e : Endianness) (folder name : List ℕ) (c : Contents)
    → PathIs folder (receive_end e name (filepath_concat folder name) c)
unfolding receive_end
receive_end-PathIs e folder name (written got ns es) = finish-PathIs folder name got _
receive_end-PathIs e folder name _ = tt

module _ (fuel : ℕ) (e : Endianness) (opens : List ℕ → Bool) (folder : List ℕ) where
  receive_named-PathIs :
      (size : ℕ) (name : Option (List ℕ)) (ns : NetworkStream) (es : List NetEvent)
      → PathIs folder (receive_named fuel e opens (some folder) size name ns es)
  unfolding receive_named
  receive_named-PathIs size none ns es = tt
  receive_named-PathIs size (some name) ns es =
      checked (ltb _ max_filepath_size) (opens (filepath_concat folder name)) _
        (receive_end-PathIs e folder name (receive_contents fuel e size [] ns es))
    where
      checked :
          (fits can_open : Bool) (r : ReceivedFile)
          → PathIs folder r
          → PathIs folder (
              if fits
              then (if can_open then r else ReceivedFile.failed ErrorCode.file)
              else ReceivedFile.out_of_bounds)
      checked true true r h = h
      checked true false r h = tt
      checked false can_open r h = tt

  receive_headed-PathIs :
      (filename : List ℕ) (p : Payload) (ns : NetworkStream) (es : List NetEvent)
      → PathIs folder (receive_headed fuel e opens (some folder) filename p ns es)
  receive_headed-PathIs filename (Payload.file_header header) ns es =
      receive_named-PathIs header.size (received_name filename header) ns es
  receive_headed-PathIs filename _ ns es = tt

  waited-PathIs :
      (filename : List ℕ) (w : Waited)
      → PathIs folder (elim w [
        | received m ns' es' ↦ receive_headed fuel e opens (some folder) filename m.payload ns' es'
        | Waited.failed c ns' es' ↦ ReceivedFile.failed c
        | Waited.blocked ↦ ReceivedFile.blocked
        | Waited.exited ↦ ReceivedFile.exited
        | Waited.out_of_bounds ↦ ReceivedFile.out_of_bounds
        | Waited.out_of_fuel ↦ ReceivedFile.out_of_fuel
      ])
  waited-PathIs filename (received m ns es) = receive_headed-PathIs filename m.payload ns es
  waited-PathIs filename (Waited.failed c ns es) = tt
  waited-PathIs filename Waited.blocked = tt
  waited-PathIs filename Waited.exited = tt
  waited-PathIs filename Waited.out_of_bounds = tt
  waited-PathIs filename Waited.out_of_fuel = tt

  -- The call opens the path of the name in the folder.
  pub receive_file-PathIs :
      (filename : List ℕ) (ns : NetworkStream) (es : List NetEvent) {err : Option ErrorCode}
      {name path got : List ℕ} {ns' : NetworkStream} {es' : List NetEvent}
      → receive_file fuel e opens (some folder) filename ns es ≡ finished err name path got ns' es'
      → path ≡ filepath_concat folder name
  unfolding receive_file
  receive_file-PathIs filename ns es ran =
      subst (PathIs folder) ran
        (waited-PathIs filename (wait_for_message_type e ns MessageType.file_header es))

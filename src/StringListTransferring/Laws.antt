-- ===== src/StringListTransferring/Laws.antt =====
-- Statements on send_string_list of common/utils/string_list_transferring.c.
use they_chat.Base.{
  ℕ, ◌+◌, ◌%◌, ◌^◌, ◌≤◌, ◌≡◌, refl, sym, ap, subst, ◌∙◌, true, List, [], ◌∷◌, ◌++◌, append_assoc,
  All, length, length-append, take, take_all, arith,
}
use they_chat.Bytes.{Endianness}
use they_chat.CString.{terminated}
use they_chat.CString.Laws.{IsString, c_string_terminated}
use they_chat.Message.{Payload}
use they_chat.Message.IsMessage.{IsMessage, payload_length}
use they_chat.Message.Create.{create_seq_start_msg, create_seq_end_msg, create_heap_seq_msg}
use they_chat.MessageSerializer.Wire.{wire}
use they_chat.MessageSerializer.Size.{FitsBuffer}
use they_chat.NetStream.Laws.{FitsStream}
use they_chat.NetPrimitives.{SendEvent}
use they_chat.NetCommunication.{Sending, done, waiting, send_message}
use they_chat.NetCommunication.Send.{Sends, send_message-Sends, Serves, send_message-Serves}
use they_chat.StringListTransferring.{
  and_then, string_message, send_strings, send_string_list, item_of, string,
}

-- A string that fits the buffer of send_message with its NUL.
abbrev pub FitsMessage : List ℕ → Type 0
FitsMessage str = IsString str × (length str ≤ 1015)

string_message-fits :
    (str : List ℕ)
    → FitsMessage str
    → string_message str ≡ record {
      net_payload_length = length str + 1;
      payload = Payload.heap_sequence (str ++ 0 ∷ []);
    }
unfolding create_heap_seq_msg
string_message-fits str h =
    let n : (length str + 1) % 2 ^ 32 ≡ length str + 1 = omega (arith, h.1) in
    let all : take (length str + 1) (str ++ 0 ∷ []) ≡ str ++ 0 ∷ [] =
      take_all (length str + 1) (str ++ 0 ∷ []) (omega (arith, length-append str (0 ∷ []))) in
    rw (n, all)

-- All messages of a list, and what they are on the wire.
unfoldable pub strings_wire : List (List ℕ) → List ℕ
strings_wire [] = wire create_seq_end_msg
strings_wire (str ∷ strs) = wire (string_message str) ++ strings_wire strs

unfoldable pub list_wire : List (List ℕ) → List ℕ
list_wire strs = wire create_seq_start_msg ++ strings_wire strs

Sends-and_then :
    (a b : List ℕ) (s t : Sending) → Sends a s → Sends b t → Sends (a ++ b) (and_then s t)
Sends-and_then a b (done out) (done more) h k = ap (λ x. x ++ more) h ∙ ap (λ x. a ++ x) k
Sends-and_then a b (done out) (Sending.failed c more) h k =
    (k.0, append_assoc out more k.0 ∙ ap (λ x. x ++ (more ++ k.0)) h ∙ ap (λ x. a ++ x) k.1)
Sends-and_then a b (done out) (waiting more) h k =
    (k.0, append_assoc out more k.0 ∙ ap (λ x. x ++ (more ++ k.0)) h ∙ ap (λ x. a ++ x) k.1)
Sends-and_then a b (done out) Sending.exited h k = k
Sends-and_then a b (done out) Sending.overrun h k = k
Sends-and_then a b (Sending.failed c out) t h k =
    (h.0 ++ b, sym (append_assoc out h.0 b) ∙ ap (λ x. x ++ b) h.1)
Sends-and_then a b (waiting out) t h k =
    (h.0 ++ b, sym (append_assoc out h.0 b) ∙ ap (λ x. x ++ b) h.1)
Sends-and_then a b Sending.exited t h k = absurd h
Sends-and_then a b Sending.overrun t h k = absurd h

terminated_block : (str : List ℕ) → terminated (str ++ 0 ∷ []) ≡ true
unfolding terminated
terminated_block [] = refl
terminated_block (b ∷ str) = rw (terminated_block str) (ground arith)

pub start_valid : IsMessage create_seq_start_msg
unfolding create_seq_start_msg payload_length
start_valid = record { payload_valid = tt; length_valid = refl }

pub end_valid : IsMessage create_seq_end_msg
unfolding create_seq_end_msg payload_length
end_valid = record { payload_valid = tt; length_valid = refl }

start-FitsBuffer : FitsBuffer create_seq_start_msg.payload
unfolding create_seq_start_msg
start-FitsBuffer = tt

end-FitsBuffer : FitsBuffer create_seq_end_msg.payload
unfolding create_seq_end_msg
end-FitsBuffer = tt

module _ (str : List ℕ) (h : FitsMessage str) where
  block_length : length (str ++ 0 ∷ []) ≡ length str + 1
  block_length = omega (arith, length-append str (0 ∷ []))

  pub string_valid : IsMessage (string_message str)
  unfolding payload_length
  string_valid =
      subst IsMessage (sym (string_message-fits str h)) (record {
        payload_valid = omega (arith, block_length, h.1);
        length_valid = sym block_length;
      })

  string-FitsBuffer : FitsBuffer (string_message str).payload
  string-FitsBuffer =
      subst (λ m. FitsBuffer m.payload) (sym (string_message-fits str h))
        (omega (arith, block_length, h.1))

  pub string-FitsStream : FitsStream (string_message str)
  string-FitsStream = subst FitsStream (sym (string_message-fits str h)) (omega (arith, h.1))

  -- The receiver takes the string back out of the block.
  pub item_of-string : item_of (string_message str).payload ≡ string str
  item_of-string =
      ap (λ m. item_of m.payload) (string_message-fits str h)
      ∙ rw (terminated_block str, c_string_terminated str [] h.0) refl

send_strings-Sends :
    (e : Endianness) (strs : List (List ℕ)) (events : ℕ → List SendEvent) (i : ℕ)
    → All FitsMessage strs
    → Sends (strings_wire strs) (send_strings e strs events i)
unfolding send_strings strings_wire
send_strings-Sends e [] events i h =
    send_message-Sends e create_seq_end_msg (events i) end_valid end-FitsBuffer
send_strings-Sends e (str ∷ strs) events i h =
    Sends-and_then (wire (string_message str)) (strings_wire strs)
      (send_message e (string_message str) (events i)) (send_strings e strs events (i + 1))
      (send_message-Sends e (string_message str) (events i) (string_valid str h.0)
        (string-FitsBuffer str h.0))
      (send_strings-Sends e strs events (i + 1) h.1)

-- Whatever the socket does, the bytes that go out for a list are those of its messages in order, or
-- a first part of them where there is an error or the socket still waits. The strings hold no NUL
-- and have at most 1015 bytes.
pub send_string_list-Sends :
    (e : Endianness) (strs : List (List ℕ)) (events : ℕ → List SendEvent)
    → All FitsMessage strs
    → Sends (list_wire strs) (send_string_list e strs events)
unfolding send_string_list list_wire
send_string_list-Sends e strs events h =
    Sends-and_then (wire create_seq_start_msg) (strings_wire strs)
      (send_message e create_seq_start_msg (events 0)) (send_strings e strs events 1)
      (send_message-Sends e create_seq_start_msg (events 0) start_valid start-FitsBuffer)
      (send_strings-Sends e strs events 1 h)

send_strings-done :
    (e : Endianness) (strs : List (List ℕ)) (events : ℕ → List SendEvent) (i : ℕ)
    → All FitsMessage strs
    → ((k : ℕ) → Serves (events k))
    → send_strings e strs events i ≡ done (strings_wire strs)
unfolding send_strings strings_wire
send_strings-done e [] events i h s =
    send_message-Serves e create_seq_end_msg (events i) end_valid end-FitsBuffer (s i)
send_strings-done e (str ∷ strs) events i h s =
    let m = string_message str in
    ap (λ r. and_then r (send_strings e strs events (i + 1)))
      (send_message-Serves e m (events i) (string_valid str h.0) (string-FitsBuffer str h.0) (s i))
    ∙ ap (and_then (done (wire m))) (send_strings-done e strs events (i + 1) h.1 s)

-- If the socket takes a byte or more in each of as many rounds as a message can have bytes,
-- `send_string_list` returns without an error and the bytes of all messages are handed over. The
-- strings hold no NUL and have at most 1015 bytes.
pub send_string_list-done :
    (e : Endianness) (strs : List (List ℕ)) (events : ℕ → List SendEvent)
    → All FitsMessage strs
    → ((k : ℕ) → Serves (events k))
    → send_string_list e strs events ≡ done (list_wire strs)
unfolding send_string_list list_wire
send_string_list-done e strs events h s =
    ap (λ r. and_then r (send_strings e strs events 1))
      (send_message-Serves e create_seq_start_msg (events 0) start_valid start-FitsBuffer (s 0))
    ∙ ap (and_then (done (wire create_seq_start_msg))) (send_strings-done e strs events 1 h s)

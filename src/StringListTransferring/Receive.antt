-- ===== src/StringListTransferring/Receive.antt =====
-- Statements on receive_string_list of common/utils/string_list_transferring.c.
use they_chat.Base.{
  ℕ, zero, suc, ◌<◌, ◌≡◌, refl, sym, ap, subst, ◌∙◌, List, [], ◌∷◌, ◌++◌, append-nil, append_assoc,
  All, length, arith,
}
use they_chat.Bytes.{Endianness}
use they_chat.Message.{Message, MessageType, message_code, payload_type}
use they_chat.Message.Create.{create_seq_start_msg, create_seq_end_msg}
use they_chat.MessageSerializer.Wire.{wire}
use they_chat.NetStream.{NetworkStream}
use they_chat.NetStream.Laws.{IsStream, content, FitsStream}
use they_chat.NetPrimitives.{NetEvent, SendEvent}
use they_chat.NetPrimitives.Laws.{Flows, bytes}
use they_chat.NetCommunication.{done, received, check_type, wait_for_message, wait_for_message_type}
use they_chat.NetCommunication.Wait.{wait_for_message-Delivers}
use they_chat.NetCommunication.Send.{Sends}
use they_chat.StringListTransferring.{
  string_message, send_string_list, ReceivedList, complete, item_of, string, last, receive_strings,
  receive_string_list,
}
use they_chat.StringListTransferring.Laws.{
  FitsMessage, strings_wire, list_wire, start_valid, end_valid, string_valid, string-FitsStream,
  item_of-string, send_string_list-Sends,
}

-- The list is complete, and what followed it is still to be read.
abbrev pub Completes : ReceivedList → List (List ℕ) → List ℕ → Type 0
Completes r strs rest =
    (ns : NetworkStream) × (es : List NetEvent) × (r ≡ complete strs ns es)
    × IsStream ns
    × Flows es
    × (content ns ++ bytes es ≡ rest)

start_fits : FitsStream create_seq_start_msg
unfolding create_seq_start_msg
start_fits = omega arith

end_fits : FitsStream create_seq_end_msg
unfolding create_seq_end_msg
end_fits = omega arith

item_of-end : item_of create_seq_end_msg.payload ≡ last
unfolding create_seq_end_msg
item_of-end = refl

module _ (fuel : ℕ) (e : Endianness) (acc : List (List ℕ)) (ns : NetworkStream) (es : List NetEvent)
    {m : Message} {ns' : NetworkStream} {es' : List NetEvent}
    (w : wait_for_message e ns es ≡ received m ns' es') where
  receive_strings-string :
      {str : List ℕ}
      → item_of m.payload ≡ string str
      → receive_strings (suc fuel) e acc ns es ≡ receive_strings fuel e (acc ++ str ∷ []) ns' es'
  unfolding receive_strings
  receive_strings-string i = rw (w, receive_strings, i, receive_strings)

  receive_strings-last :
      item_of m.payload ≡ last → receive_strings (suc fuel) e acc ns es ≡ complete acc ns' es'
  unfolding receive_strings
  receive_strings-last i = rw (w, receive_strings, i, receive_strings)

receive_strings-Completes :
    (fuel : ℕ) (e : Endianness) (strs acc : List (List ℕ)) (rest : List ℕ) (ns : NetworkStream)
    (es : List NetEvent)
    → All FitsMessage strs
    → IsStream ns
    → Flows es
    → content ns ++ bytes es ≡ strings_wire strs ++ rest
    → length strs < fuel
    → Completes (receive_strings fuel e acc ns es) (acc ++ strs) rest
unfolding strings_wire
receive_strings-Completes zero e strs acc rest ns es fits h f c lt = absurd (omega arith)
receive_strings-Completes (suc fuel) e [] acc rest ns es fits h f c lt =
    let (ns', es', w, h', f', c') =
      wait_for_message-Delivers e create_seq_end_msg rest end_valid end_fits ns es h f c in
    (
      ns',
      es',
      receive_strings-last fuel e acc ns es w item_of-end
          ∙ ap (λ l. complete l ns' es') (sym (append-nil acc)),
      h',
      f',
      c',
    )
receive_strings-Completes (suc fuel) e (str ∷ strs) acc rest ns es fits h f c lt =
    let (ns', es', w, h', f', c') =
      wait_for_message-Delivers e (string_message str) (strings_wire strs ++ rest)
        (string_valid str fits.0) (string-FitsStream str fits.0) ns es h f
        (c ∙ append_assoc (wire (string_message str)) (strings_wire strs) rest) in
    let rec =
      receive_strings-Completes fuel e strs (acc ++ str ∷ []) rest ns' es' fits.1 h' f' c'
        (omega (arith, lt)) in
    subst (λ r. Completes r (acc ++ (str ∷ strs)) rest)
      (sym (receive_strings-string fuel e acc ns es w (item_of-string str fits.0)))
      (subst (λ l. Completes (receive_strings fuel e (acc ++ str ∷ []) ns' es') l rest)
        (append_assoc acc (str ∷ []) strs) rec)

check_type-start :
    (ns : NetworkStream) (es : List NetEvent)
    → check_type MessageType.sequence_start (received create_seq_start_msg ns es)
      ≡ received create_seq_start_msg ns es
unfolding check_type create_seq_start_msg message_code payload_type
check_type-start ns es = refl

receive_string_list-started :
    (fuel : ℕ) (e : Endianness) (acc : List (List ℕ)) (ns : NetworkStream) (es : List NetEvent)
    {m : Message} {ns' : NetworkStream} {es' : List NetEvent}
    → wait_for_message_type e ns MessageType.sequence_start es ≡ received m ns' es'
    → receive_string_list fuel e acc ns es ≡ receive_strings fuel e acc ns' es'
unfolding receive_string_list
receive_string_list-started fuel e acc ns es w = rw (w, receive_string_list)

receive_string_list-Completes :
    (fuel : ℕ) (e : Endianness) (strs acc : List (List ℕ)) (rest : List ℕ) (ns : NetworkStream)
    (es : List NetEvent)
    → All FitsMessage strs
    → IsStream ns
    → Flows es
    → content ns ++ bytes es ≡ list_wire strs ++ rest
    → length strs < fuel
    → Completes (receive_string_list fuel e acc ns es) (acc ++ strs) rest
unfolding list_wire wait_for_message_type
receive_string_list-Completes fuel e strs acc rest ns es fits h f c lt =
    let (ns', es', w, h', f', c') =
      wait_for_message-Delivers e create_seq_start_msg (strings_wire strs ++ rest) start_valid
        start_fits ns es h f
        (c ∙ append_assoc (wire create_seq_start_msg) (strings_wire strs) rest) in
    subst (λ r. Completes r (acc ++ strs) rest)
      (sym (
        receive_string_list-started fuel e acc ns es
          (ap (check_type MessageType.sequence_start) w ∙ check_type-start ns' es')))
      (receive_strings-Completes fuel e strs acc rest ns' es' fits h' f' c' lt)

-- What `send_string_list` sends without an error, `receive_string_list` takes in: it appends the
-- same strings in the same order to its list, and leaves what was sent after them, however the
-- bytes are cut up while they arrive without errors. The strings hold no NUL and have at most 1015
-- bytes, and the two hosts may differ in byte order. As many rounds as there are strings, and one
-- more, are enough.
pub receive_string_list-send_string_list :
    (sender receiver : Endianness) (strs acc : List (List ℕ)) (events : ℕ → List SendEvent)
    (out rest : List ℕ) (ns : NetworkStream) (es : List NetEvent)
    → All FitsMessage strs
    → send_string_list sender strs events ≡ done out
    → IsStream ns
    → Flows es
    → content ns ++ bytes es ≡ out ++ rest
    → Completes (receive_string_list (suc (length strs)) receiver acc ns es) (acc ++ strs) rest
receive_string_list-send_string_list sender receiver strs acc events out rest ns es fits sent h f
      c =
    let same : out ≡ list_wire strs =
      subst (Sends (list_wire strs)) sent (send_string_list-Sends sender strs events fits) in
    receive_string_list-Completes (suc (length strs)) receiver strs acc rest ns es fits h f
      (c ∙ ap (λ b. b ++ rest) same) (omega arith)

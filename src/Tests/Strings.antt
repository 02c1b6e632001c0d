-- ===== src/Tests/Strings.antt =====
-- A list of strings, from one host to another.
use they_chat.Base.{ℕ, zero, suc, ◌≡◌, ap, List, [], ◌∷◌, ◌++◌, All, replicate, arith}
use they_chat.Bytes.{little, big, store, digits}
use they_chat.Message.{message_code, payload_type}
use they_chat.Message.Create.{create_seq_start_msg, create_seq_end_msg, create_heap_seq_msg}
use they_chat.MessageSerializer.Wire.{wire, header_bytes, payload_bytes}
use they_chat.NetStream.{init_net_stream}
use they_chat.NetStream.Laws.{content, init_net_stream-IsStream}
use they_chat.NetPrimitives.{NetEvent, SendEvent}
use they_chat.NetPrimitives.Laws.{bytes}
use they_chat.NetCommunication.{done}
use they_chat.NetCommunication.Send.{Steady, Serves}
use they_chat.StringListTransferring.{send_string_list, receive_string_list}
use they_chat.StringListTransferring.Laws.{
  FitsMessage, list_wire, strings_wire, send_string_list-done,
}
use they_chat.StringListTransferring.Receive.{Completes, receive_string_list-send_string_list}

abbrev names : List (List ℕ)
names = (65 ∷ []) ∷ []

names_fit : All FitsMessage names
names_fit = ground arith

abbrev steady : List SendEvent
steady = replicate 1024 (SendEvent.room 3)

replicate-Steady : (n : ℕ) → Steady (replicate n (SendEvent.room 3))
replicate-Steady zero = tt
replicate-Steady (suc n) = (omega arith, replicate-Steady n)

steady-Serves : Serves steady
steady-Serves = (replicate-Steady 1024, omega arith)

all_sent : send_string_list big names (λ k. steady) ≡ done (list_wire names)
all_sent = send_string_list-done big names (λ k. steady) names_fit (λ k. steady-Serves)

-- The start, the string and the end, in three pieces, and a byte that follows.
abbrev pieces : List NetEvent
pieces =
    NetEvent.arrived 0 (0 ∷ 0 ∷ 12 ∷ 0 ∷ 0 ∷ 0 ∷ 0 ∷ 0 ∷ 0 ∷ [])
    ∷ NetEvent.arrived 0 (14 ∷ 0 ∷ 0 ∷ 0 ∷ 2 ∷ 65 ∷ [])
    ∷ NetEvent.timed_out
    ∷ NetEvent.arrived 0 (0 ∷ 0 ∷ 0 ∷ 13 ∷ 0 ∷ 0 ∷ 0 ∷ 0 ∷ 7 ∷ [])
    ∷ []

pieces-wire : content init_net_stream ++ bytes pieces ≡ list_wire names ++ 7 ∷ []
unfolding list_wire strings_wire wire header_bytes payload_bytes payload_type message_code store
    digits create_seq_start_msg create_seq_end_msg create_heap_seq_msg
pieces-wire = ap (λ b. b ++ bytes pieces) init_net_stream-IsStream.1

receive_string_list-send_string_list_example :
    Completes
      (receive_string_list 2 little ((66 ∷ []) ∷ []) init_net_stream pieces)
      ((66 ∷ []) ∷ (65 ∷ []) ∷ [])
      (7 ∷ [])
receive_string_list-send_string_list_example =
    receive_string_list-send_string_list big little names ((66 ∷ []) ∷ []) (λ k. steady)
      (list_wire names) (7 ∷ []) init_net_stream pieces names_fit all_sent
      init_net_stream-IsStream.0 tt pieces-wire

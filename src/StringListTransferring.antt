-- ===== src/StringListTransferring.antt =====
-- common/utils/string_list_transferring.c: a list of strings goes out as a sequence of messages.
-- The C strings of a list are the lists of their bytes before the NUL. Each call of send_message
-- meets its own socket events, `events i` for the i-th call.
pub mod Laws
pub mod Receive
use they_chat.Base.{
  ℕ, zero, suc, ◌+◌, ◌%◌, ◌^◌, Bool, true, false, List, [], ◌∷◌, ◌++◌, if◌then◌else◌, length,
}
use they_chat.Bytes.{Endianness}
use they_chat.CString.{c_string, terminated}
use they_chat.Message.{Message, Payload, MessageType}
use they_chat.Message.Create.{create_seq_start_msg, create_seq_end_msg, create_heap_seq_msg}
use they_chat.NetStream.{NetworkStream}
use they_chat.NetPrimitives.{ErrorCode, NetEvent, SendEvent}
use they_chat.NetCommunication.{
  Sending, done, waiting, send_message, Waited, received, wait_for_message, wait_for_message_type,
}

-- What was sent before stays sent.
abbrev pub prepend : List ℕ → Sending → Sending
prepend out (done more) = done (out ++ more)
prepend out (Sending.failed c more) = Sending.failed c (out ++ more)
prepend out (waiting more) = waiting (out ++ more)
prepend out Sending.exited = Sending.exited
prepend out Sending.overrun = Sending.overrun

-- A call, and the next one if it has no error.
abbrev pub and_then : Sending → Sending → Sending
and_then (done out) next = prepend out next
and_then s next = s

-- strlen is a size_t; the size goes into a uint32_t.
abbrev pub string_message : List ℕ → Message
string_message str = create_heap_seq_msg (str ++ 0 ∷ []) ((length str + 1) % 2 ^ 32)

unfoldable pub send_strings : Endianness → List (List ℕ) → (ℕ → List SendEvent) → ℕ → Sending
send_strings e [] events i = send_message e create_seq_end_msg (events i)
send_strings e (str ∷ strs) events i =
    and_then (send_message e (string_message str) (events i)) (send_strings e strs events (i + 1))

unfoldable pub send_string_list : Endianness → List (List ℕ) → (ℕ → List SendEvent) → Sending
send_string_list e strs events =
    and_then (send_message e create_seq_start_msg (events 0)) (send_strings e strs events 1)

pub data ReceivedList : Type 0 where
  complete : List (List ℕ) → NetworkStream → List NetEvent → ReceivedList
  failed : ErrorCode → List (List ℕ) → ReceivedList
  blocked exited out_of_bounds out_of_fuel : ReceivedList

-- What a received message is for the loop. `unterminated`: string_list_add copies on past the end
-- of the block.
pub data Item : Type 0 where
  string : List ℕ → Item
  unterminated last unexpected : Item

abbrev pub string_of : List ℕ → Item
string_of bs = if terminated bs then string (c_string bs) else unterminated

abbrev pub item_of : Payload → Item
item_of (Payload.heap_sequence bs) = string_of bs
item_of Payload.sequence_end = last
item_of _ = unexpected

-- The loop `while (true)`: one message of fuel each.
unfoldable pub receive_strings :
    ℕ → Endianness → List (List ℕ) → NetworkStream → List NetEvent → ReceivedList
receive_strings zero e strs ns es = out_of_fuel
receive_strings (suc fuel) e strs ns es = elim (wait_for_message e ns es) [
  | received m ns' es' ↦ elim (item_of m.payload) [
    | string str ↦ receive_strings fuel e (strs ++ str ∷ []) ns' es'
    | unterminated ↦ ReceivedList.out_of_bounds
    | last ↦ complete strs ns' es'
    | unexpected ↦ ReceivedList.failed ErrorCode.net_received_invalid_type strs
  ]
  | Waited.failed c ns' es' ↦ ReceivedList.failed c strs
  | Waited.blocked ↦ ReceivedList.blocked
  | Waited.exited ↦ ReceivedList.exited
  | Waited.out_of_bounds ↦ ReceivedList.out_of_bounds
  | Waited.out_of_fuel ↦ ReceivedList.out_of_fuel
]

unfoldable pub receive_string_list :
    ℕ → Endianness → List (List ℕ) → NetworkStream → List NetEvent → ReceivedList
receive_string_list fuel e strs ns es =
    elim (wait_for_message_type e ns MessageType.sequence_start es) [
      | received m ns' es' ↦ receive_strings fuel e strs ns' es'
      | Waited.failed c ns' es' ↦ ReceivedList.failed c strs
      | Waited.blocked ↦ ReceivedList.blocked
      | Waited.exited ↦ ReceivedList.exited
      | Waited.out_of_bounds ↦ ReceivedList.out_of_bounds
      | Waited.out_of_fuel ↦ ReceivedList.out_of_fuel
    ]

-- ===== src/NetCommunication.antt =====
-- common/net/net_communication.c: messages over a connection. `wait_for_message` loops on fuel: a
-- round that reads makes the buffer fuller, so `stream_size + 1` rounds are enough.
pub mod Wait
pub mod Send
use they_chat.Base.{
  ℕ, zero, suc, ◌+◌, ◌-◌, ◌%◌, ◌^◌, Bool, true, false, Option, none, some, List, [], ◌∷◌, ◌++◌, ltb,
  ◌==◌, if◌then◌else◌, length, take, drop,
}
use they_chat.Bytes.{Endianness}
use they_chat.Message.{Message, MessageType, payload_type, message_code, max_message_net_size}
use they_chat.MessageSerializer.{serialize_message}
use they_chat.NetStream.{stream_size, NetworkStream, Popped, incomplete, popped, stream_pop_message}
use they_chat.NetPrimitives.{
  ErrorCode, NetEvent, Received, read, net_receive, SendEvent, Sent, sent, net_send,
}

-- What `send_message` comes to, with the bytes that the socket took.
pub data Sending : Type 0 where
  done : List ℕ → Sending
  failed : ErrorCode → List ℕ → Sending
  waiting : List ℕ → Sending
  exited : Sending
  overrun : Sending

-- The loop over the serialized buffer; each call of net_send meets one event.
unfoldable pub send_loop : List ℕ → ℕ → List ℕ → List SendEvent → Sending
send_loop buffer total out [] = if ltb total (length buffer) then waiting out else done out
send_loop buffer total out (ev ∷ es) =
    let next : Sending = elim (net_send (length buffer - total) ev) [
      | sent n ↦ send_loop buffer (total + n) (out ++ take n (drop total buffer)) es
      | Sent.failed c ↦ Sending.failed c out
    ] in
    if ltb total (length buffer) then next else done out

abbrev pub send_serialized : List ℕ → List SendEvent → Sending
send_serialized bs es =
    if ltb max_message_net_size (length bs) then overrun else send_loop bs 0 [] es

-- `overrun`: the serialized message is longer than the buffer on the stack.
unfoldable pub send_message : Endianness → Message → List SendEvent → Sending
send_message e m es = elim (serialize_message e m) [
  | none ↦ Sending.exited
  | some bs ↦ send_serialized bs es
]

-- The stream with the bytes of one read in its free part.
unfoldable pub fill : NetworkStream → List ℕ → NetworkStream
fill ns bs = record {
  stream = take ns.written_bytes ns.stream ++ (bs ++ drop (ns.written_bytes + length bs) ns.stream);
  written_bytes = ns.written_bytes + length bs;
}

pub data Filled : Type 0 where
  filled : NetworkStream → List NetEvent → Filled
  failed : ErrorCode → List NetEvent → Filled
  blocked : Filled

abbrev pub fill_received : NetworkStream → Received → Filled
fill_received ns (read bs es) = filled (fill ns bs) es
fill_received ns (Received.failed c es) = Filled.failed c es
fill_received ns Received.blocked = Filled.blocked

unfoldable pub receive : NetworkStream → List NetEvent → Filled
receive ns es =
    let empty_region_size = stream_size - ns.written_bytes in
    if empty_region_size == 0
    then Filled.failed ErrorCode.net_stream_overflow es
    else fill_received ns (net_receive empty_region_size es)

pub data Waited : Type 0 where
  received : Message → NetworkStream → List NetEvent → Waited
  failed : ErrorCode → NetworkStream → List NetEvent → Waited
  blocked : Waited
  exited : Waited
  out_of_bounds : Waited
  out_of_fuel : Waited

-- The loop: the stream is tried again after each read.
unfoldable pub wait_loop : ℕ → Endianness → NetworkStream → List NetEvent → Waited
wait_loop zero e ns es = out_of_fuel
wait_loop (suc fuel) e ns es = elim (stream_pop_message e ns) [
  | incomplete ↦ elim (receive ns es) [
    | filled ns' es' ↦ wait_loop fuel e ns' es'
    | Filled.failed c es' ↦ Waited.failed c ns es'
    | Filled.blocked ↦ Waited.blocked
  ]
  | popped m ns' ↦ received m ns' es
  | Popped.exited ↦ Waited.exited
  | Popped.out_of_bounds ↦ Waited.out_of_bounds
]

unfoldable pub wait_for_message : Endianness → NetworkStream → List NetEvent → Waited
wait_for_message e ns es = wait_loop (suc stream_size) e ns es

abbrev pub same_type : MessageType → MessageType → Bool
same_type a b = message_code a == message_code b

-- A message of another type is taken off the stream all the same.
unfoldable pub check_type : MessageType → Waited → Waited
check_type type (received m ns es) =
    if same_type (payload_type m.payload) type
    then received m ns es
    else Waited.failed ErrorCode.net_received_invalid_type ns es
check_type type w = w

unfoldable pub wait_for_message_type :
    Endianness → NetworkStream → MessageType → List NetEvent → Waited
wait_for_message_type e ns type es = check_type type (wait_for_message e ns es)

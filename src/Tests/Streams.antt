-- ===== src/Tests/Streams.antt =====
-- A message on its way: in the stream, over several reads, and out of the socket.
use they_chat.Base.{ℕ, ◌≤◌, ◌≡◌, refl, sym, ap, ◌∙◌, List, [], ◌∷◌, ◌++◌, length, replicate, arith}
use they_chat.Bytes.{little, store, digits}
use they_chat.Message.{Message, Payload, message_code, payload_type}
use they_chat.Message.IsMessage.{IsMessage, payload_length}
use they_chat.MessageSerializer.Wire.{wire, header_bytes, payload_bytes}
use they_chat.NetStream.{NetworkStream, init_net_stream, popped, incomplete, stream_pop_message}
use they_chat.NetStream.Laws.{
  IsStream, content, init_net_stream-IsStream, stream_pop_message-popped,
  stream_pop_message-incomplete,
}
use they_chat.NetPrimitives.{NetEvent, SendEvent}
use they_chat.NetPrimitives.Laws.{bytes}
use they_chat.NetCommunication.{done, send_message, wait_for_message}
use they_chat.NetCommunication.Wait.{Delivers, wait_for_message-Delivers}
use they_chat.NetCommunication.Send.{Sends, send_message-Sends, send_message-done}

abbrev two_clients : Message
two_clients = record { net_payload_length = 1; payload = Payload.connected_clients 2 }

two_clients_valid : IsMessage two_clients
unfolding payload_length
two_clients_valid = record { payload_valid = omega arith; length_valid = refl }

abbrev two_clients_bytes : List ℕ
two_clients_bytes = 0 ∷ 0 ∷ 0 ∷ 9 ∷ 0 ∷ 0 ∷ 0 ∷ 1 ∷ 2 ∷ []

two_clients-wire : wire two_clients ≡ two_clients_bytes
unfolding wire header_bytes payload_bytes payload_type message_code store digits
two_clients-wire = refl

-- The message, and a first byte of the next one.
abbrev full_stream : NetworkStream
full_stream = record { stream = two_clients_bytes ++ 7 ∷ replicate 2038 0; written_bytes = 10 }

full_stream_valid : IsStream full_stream
full_stream_valid = record { whole = refl; within = omega arith }

full_stream_content : content full_stream ≡ wire two_clients ++ 7 ∷ []
unfolding content
full_stream_content = ap (λ b. b ++ 7 ∷ []) (sym two_clients-wire)

stream_pop_message-popped_example :
    (ns : NetworkStream) × (stream_pop_message little full_stream ≡ popped two_clients ns)
    × IsStream ns
    × (content ns ≡ 7 ∷ [])
stream_pop_message-popped_example =
    stream_pop_message-popped little full_stream full_stream_valid two_clients (7 ∷ [])
      two_clients_valid (omega arith) full_stream_content

-- Nine bytes would be needed, eight are there.
abbrev short_stream : NetworkStream
short_stream = record { stream = two_clients_bytes ++ 7 ∷ replicate 2038 0; written_bytes = 8 }

short_stream_valid : IsStream short_stream
short_stream_valid = record { whole = refl; within = omega arith }

short_stream_content : content short_stream ++ 2 ∷ 7 ∷ [] ≡ wire two_clients ++ 7 ∷ []
unfolding content
short_stream_content = ap (λ b. b ++ 7 ∷ []) (sym two_clients-wire)

stream_pop_message-incomplete_example : stream_pop_message little short_stream ≡ incomplete
stream_pop_message-incomplete_example =
    stream_pop_message-incomplete little short_stream short_stream_valid two_clients (7 ∷ [])
      two_clients_valid (omega arith) (2 ∷ 7 ∷ []) short_stream_content (omega arith)

-- Three bytes, a time-out, and the rest with the first byte of the next message.
abbrev pieces : List NetEvent
pieces =
    NetEvent.arrived 0 (0 ∷ 0 ∷ [])
    ∷ NetEvent.timed_out
    ∷ NetEvent.arrived 9 (0 ∷ 0 ∷ 0 ∷ 1 ∷ 2 ∷ 7 ∷ [])
    ∷ []

pieces-wire : content init_net_stream ++ bytes pieces ≡ wire two_clients ++ 7 ∷ []
pieces-wire =
    ap (λ b. b ++ bytes pieces) init_net_stream-IsStream.1
    ∙ ap (λ b. b ++ 7 ∷ []) (sym two_clients-wire)

wait_for_message-Delivers_example :
    Delivers (wait_for_message little init_net_stream pieces) two_clients (7 ∷ [])
wait_for_message-Delivers_example =
    wait_for_message-Delivers little two_clients (7 ∷ []) two_clients_valid (omega arith)
      init_net_stream pieces init_net_stream-IsStream.0 tt pieces-wire

-- The kernel takes four bytes, then fails.
abbrev failing : List SendEvent
failing = SendEvent.room 4 ∷ SendEvent.send_failed ∷ []

send_message-Sends_example : Sends (wire two_clients) (send_message little two_clients failing)
send_message-Sends_example = send_message-Sends little two_clients failing two_clients_valid tt

abbrev steady : List SendEvent
steady = replicate 9 (SendEvent.room 2)

two_clients-length : length (wire two_clients) ≤ length steady
two_clients-length = omega (arith, ap length two_clients-wire)

send_message-done_example : send_message little two_clients steady ≡ done (wire two_clients)
send_message-done_example =
    send_message-done little two_clients steady two_clients_valid tt (ground arith)
      two_clients-length

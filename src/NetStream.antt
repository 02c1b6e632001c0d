-- ===== src/NetStream.antt =====
-- common/net/net_stream.c: the buffer in which the bytes of a connection wait until they make up a
-- message. Numbers are uint32_t, so the size that the code computes wraps.
pub mod Laws
use they_chat.Base.{
  ℕ, ◌+◌, ◌-◌, ◌%◌, ◌^◌, ◌≤◌, ◌≡◌, Option, none, some, List, ◌++◌, ltb, if◌then◌else◌, Bool, true,
  false, length, take, drop, replicate, ◌&&◌,
}
use they_chat.Bytes.{Endianness, load}
use they_chat.Endian.{ntoh32}
use they_chat.Message.{Message, Payload}
use they_chat.MessageSerializer.{deserialize_message}

abbrev pub stream_size : ℕ
stream_size = 2048

pub record NetworkStream : Type 0 where
  pub stream : List ℕ
  pub written_bytes : ℕ

unfoldable pub init_net_stream : NetworkStream
init_net_stream = record { stream = replicate stream_size 0; written_bytes = 0 }

-- `ntohl` of the four bytes behind the type
unfoldable pub access_message_length : Endianness → List ℕ → ℕ
access_message_length e buffer = ntoh32 e (load e (take 4 (drop 4 buffer)))

-- `exited` is the call of exit() in the deserializer, and `out_of_bounds` a copy of a heap sequence
-- from beyond the end of the buffer.
pub data Popped : Type 0 where
  incomplete : Popped
  popped : Message → NetworkStream → Popped
  exited : Popped
  out_of_bounds : Popped

abbrev pub base_message_size : ℕ
base_message_size = 8

abbrev pub reads_beyond : Payload → ℕ → Bool
reads_beyond (Payload.heap_sequence bs) n = ltb stream_size (base_message_size + n)
reads_beyond _ n = false

-- memmove towards the front leaves the last bytes as they were.
unfoldable pub remove_front : ℕ → NetworkStream → NetworkStream
remove_front n ns = record {
  stream = drop n ns.stream ++ drop (stream_size - n) ns.stream;
  written_bytes = ns.written_bytes - n;
}

unfoldable pub deliver : NetworkStream → ℕ → Option Message → Popped
deliver ns n none = exited
deliver ns n (some m) =
    if reads_beyond m.payload m.net_payload_length
    then out_of_bounds
    else popped m (remove_front n ns)

-- base_message_size + message_payload_length, in 32 bits
unfoldable pub net_message_size : Endianness → NetworkStream → ℕ
net_message_size e ns = (base_message_size + access_message_length e ns.stream) % 2 ^ 32

unfoldable pub stream_pop_message : Endianness → NetworkStream → Popped
stream_pop_message e ns =
    if ltb ns.written_bytes base_message_size
    then incomplete
    else let size = net_message_size e ns in
      if ltb ns.written_bytes size
      then incomplete
      else deliver ns size (deserialize_message e ns.stream)

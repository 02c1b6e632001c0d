-- ===== src/NetPrimitives.antt =====
-- net_send and net_receive of common/net/net_primitives/standard_primitives.c. What the operating
-- system answers to select(), recv() and send() is a list of events.
pub mod Laws
use Prim.Native.Nat.{min}
use they_chat.Base.{
  ℕ, zero, suc, ◌≤◌, Bool, true, false, Option, none, some, List, [], ◌∷◌, ◌++◌, ◌==◌,
  if◌then◌else◌, length, take, drop,
}

-- they_chat_error.h; a result that is `none` is CREATE_ERR_OK.
pub data ErrorCode : Type 0 where
  file close_fd : ErrorCode
  net_socket_creation_failed net_unable_to_connect net_failure : ErrorCode
  net_peer_disconnected net_connection_closed : ErrorCode
  net_received_invalid_type net_stream_overflow : ErrorCode

-- `arrived b bs`: the socket can be read and holds these bytes.
pub data NetEvent : Type 0 where
  select_failed : NetEvent
  timed_out : NetEvent
  closing : NetEvent
  recv_failed : NetEvent
  peer_closed : NetEvent
  arrived : ℕ → List ℕ → NetEvent

-- `blocked`: the thread waits, for there is no further event.
pub data Received : Type 0 where
  read : List ℕ → List NetEvent → Received
  failed : ErrorCode → List NetEvent → Received
  blocked : Received

-- The bytes that recv() did not take stay in the socket.
abbrev pub leave : List ℕ → List NetEvent → List NetEvent
leave [] events = events
leave (b ∷ bs) events = arrived b bs ∷ events

-- recv() with a buffer of `size` bytes
abbrev pub recv : ℕ → List ℕ → List NetEvent → Received
recv size bs events =
    if size == 0
    then failed ErrorCode.net_peer_disconnected (leave bs events)
    else read (take size bs) (leave (drop size bs) events)

unfoldable pub net_receive : ℕ → List NetEvent → Received
net_receive size [] = blocked
net_receive size (select_failed ∷ es) = failed ErrorCode.net_failure es
net_receive size (timed_out ∷ es) = net_receive size es
net_receive size (closing ∷ es) = failed ErrorCode.net_connection_closed es
net_receive size (recv_failed ∷ es) = failed ErrorCode.net_failure es
net_receive size (peer_closed ∷ es) = failed ErrorCode.net_peer_disconnected es
net_receive size (arrived b bs ∷ es) = recv size (b ∷ bs) es

-- What a call of net_send meets: the context is closing, send() fails, or the kernel has room for
-- so many bytes.
pub data SendEvent : Type 0 where
  closing : SendEvent
  send_failed : SendEvent
  room : ℕ → SendEvent

-- The number of bytes sent, or the error.
pub data Sent : Type 0 where
  sent : ℕ → Sent
  failed : ErrorCode → Sent

unfoldable pub net_send : ℕ → SendEvent → Sent
net_send len SendEvent.closing = Sent.failed ErrorCode.net_connection_closed
net_send len SendEvent.send_failed = Sent.failed ErrorCode.net_failure
net_send len (room n) = sent (min n len)

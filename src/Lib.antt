-- ===== src/Lib.antt =====
-- They Chat: a chat server and its terminal client, written in C. This library models the code that
-- both programs share for talking to each other, the server's clients, files and tasks, and the
-- states and commands of the client.
--
-- The parts, from the bottom up, with paths from the repository's root:
-- - Base, Base/Tests, Base/Lists: numbers, lists and Boolean tests with their lemmas.
-- - Bytes, Endian: memory images of integers; src/common/net/endian.c with its two branches.
-- - CString: the C string functions on arrays of bytes. A string argument is the list of its bytes
--   before the NUL, an array the list of all its bytes; `none` is a write past its end.
-- - NetSerializer: src/common/net/serialization/net_serializer.c. The cursor that the C code moves
-- is   the list of bytes written so far or still to be read.
-- - Message: include/common/messages/message.h and message_types.h, include/common/task_types.h. A
--   message is its length field and its payload; the payload's constructor is the type. IsMessage
--   says when a message is well formed, and Create is src/common/messages/message.c. What an
--   uninitialised array on the stack holds is an argument of the functions that create messages.
-- - MessageSerializer: src/common/net/serialization/net_message_serializer.c; Wire says what the
--   bytes of each message are.
-- - NetStream: src/common/net/net_stream.c, the buffer of 2048 bytes in which received bytes wait.
-- - NetPrimitives: net_send and net_receive of
--   src/common/net/net_primitives/standard_primitives.c. What the operating system does is a list
-- of   events: bytes that arrive, time-outs, errors, room for bytes to send. When the events are
-- used
--   up the thread waits.
-- - NetCommunication: src/common/net/net_communication.c, which joins the four above.
-- - StringListTransferring: src/common/utils/string_list_transferring.c, lists of strings as
--   sequences of messages.
-- - FileTransfer: src/common/net/file_transfer.c and parts of src/common/file.c. A file that is
-- read   is what fread() gives call by call.
-- - LinkedList: src/common/linked_list.c over an explicit heap, where a node and its data are two
--   allocations; Sequence is what its clients see of it, the elements in order.
-- - ClientList, SharedFileList: src/server/client_list.c, shared_file.c and shared_file_list.c.
-- - Server: the functions of src/server/server.c that take shared files away.
-- - World: what the threads of the server share (include/server/server.h) and the functions that
-- post   messages to its clients: src/server/broadcast_message.c, src/common/net/net_connection.c,
--   init_client_network of src/server/client.c. Each call of send_message is an entry of a log, and
--   an argument says what the n-th call returns. A pointer to a client is the client's number.
-- - ServerStates: src/server/state_handlers, one function per handler, from one wait to the next.
-- - ClientHandler: src/server/client_handler.c, the loop over the states, and the clients that
--   server_run of src/server/server.c accepts; `run` is a history of clients that are accepted,
--   threads that start and messages that arrive, in any order.
-- - ServerTasks: src/server/task/tasks. The removal task is in ServerTasks itself, the lists of
--   users and of files in Listing, the two transfers in Upload and Download. What formats print
--   is an argument. An upload reads the world when it begins and again when its file has come in.
-- - TaskHandler: src/server/task/task_request_handler.c, which runs the task of a request.
-- - StringList: src/common/utils/string_list.c as its clients see it.
-- - Command: src/client/command, from a typed line to the request that goes out; atoi() and
--   access() are arguments.
-- - ClientStates: src/client/states_fsm.c and src/client/state_handlers with the part of
--   src/client/ui/input_handler.c that gives them their lines. What a handler meets is a list of
--   lines, of waits on the status connection, and of returns of a wait without a signal.
-- - ClientTasks: src/client/server_task, the client's side of the tasks, one round of its thread.
-- - ChatEntries: src/client/ui/chat_entries.c.
-- - StringUtils: src/common/utils/string_utils.c; isspace() is an argument.
-- - ThreadNames: the registry of thread names in src/common/they_chat_error.c.
-- - Tests: concrete runs.
--
-- Loops that C does not bound run on fuel. The loop of wait_for_message gets 2049 rounds: each
-- round that reads makes the 2048-byte buffer fuller. The loop of linked_list_destroy gets one
-- round more than the list has cells. The loops that receive a list or a file get their fuel as
-- an argument, as the peer decides how many messages come; one round more than there are messages
-- is enough. The loop over the states of a client gets four rounds from each wait: connect, login
-- or chat, disconnect and end. The byte order of a host is an argument `e`; 32-bit counters wrap
-- around at 2 ^ 32.
--
-- A thread of the server runs from one wait to the next undisturbed, so races between two threads
-- are not seen, but for the two parts of an upload. The block that malloc() gives for a new
-- client is an argument; the history of the server assumes that its state does not read as the
-- chat, since nothing sets the state before the client's thread starts. strcmp and the formats
-- read an array up to its end where it holds no NUL.
--
-- In the client a thread that a state has started does nothing more once the state is left, and a
-- line is read only while a handler waits or the client connects.
--
-- Not modelled: the windows of the terminal interface, threads and mutexes, the TLS version of
-- the primitives (OpenSSL), the set-up and shutdown of sockets, and output.
pub mod Base
pub mod Bytes
pub mod Endian
pub mod NetSerializer
pub mod Message
pub mod MessageSerializer
pub mod CString
pub mod NetStream
pub mod NetPrimitives
pub mod NetCommunication
pub mod LinkedList
pub mod Sequence
pub mod ClientList
pub mod SharedFileList
pub mod StringListTransferring
pub mod FileTransfer
pub mod StringUtils
pub mod ThreadNames
pub mod Server
pub mod ServerTasks
pub mod TaskHandler
pub mod ClientTasks
pub mod World
pub mod ChatEntries
pub mod Command
pub mod ClientStates
pub mod StringList
pub mod ServerStates
pub mod ClientHandler
pub mod Tests

-- ===== src/Lib.antt =====
-- cpp2tnt, a non-blocking connector to Tarantool.
--
-- A client composes requests with a writer in the output buffer of a connection; the connection
-- swaps that buffer with its send buffer and writes it to a socket, finds whole responses in what
-- it receives, and hands them to the client.
--
-- The parts, and the files that model them:
--   * wtf_buffer.h, wtf_buffer.cpp -- WtfBuffer, WtfBuffer/Content. A buffer is its storage and the
--     number of bytes in use; `content` is the bytes from data() to end. `put` and `poke` are the
--     writes that clients do through end and data(): nothing checks them, so a write that does not
--     fit is `undefined`.
--   * iproto.h, iproto.cpp -- Iproto, with the codes in Iproto/Codes and the features of proto_id in
--     Iproto/Features.
--   * mp_writer.h, mp_writer.cpp -- MpWriter. The stack of open containers is a list, the innermost
--     first. MpWriter/Header and MpWriter/Finalize are about the header of a container that is closed,
--     MpWriter/Items and MpWriter/Containers about the values that `<<` writes, MpWriter/Undo about
--     get_state and set_state. MpWriter/Copies: write(), fill() and the values that `<<` copies
--     or puts together; its child modules are about write(), about the copy of items one by one, and
--     about fill().
--   * iproto_writer.h, iproto_writer.cpp -- IprotoWriter, which uses a MpWriter. IprotoWriter/Message
--     is about the length in front of a message, IprotoWriter/Requests and IprotoWriter/Call about
--     the requests, IprotoWriter/Auth about the authentication. What get_request_id() returns is the argument `id`.
--   * mp_reader.h -- MpReader. Pointers are offsets into a memory, and a read outside of it is `stuck`.
--     A read is a value with the reader behind it, an exception with the reader that it leaves, or
--     `stuck`. MpReader/Containers: readers of arrays and maps. MpReader/Values: operator>>.
--     MpReader/Lookup: equals and find. MpReader/Spans: mp_span. The theorems see a reader as a cursor in
--     a row of items (`Stands` in MpReader/Cursor), where an item is bytes that mp_next passes over.
--     MpReader/Integers, MpReader/Vectors, MpReader/RoundTrip, MpReader/SignedTrip and
--     MpReader/Packets are about what is read, MpReader/Floats about
--     floating point numbers, MpReader/Tuples about tuples and text, MpReader/Checks
--     about check and check_next, MpReader/Progress and MpReader/Containers/Begins about how far a read
--     moves a reader.
--   * connection.h, connection.cpp -- Connection holds the state. Connection/Close: close and
--     handle_error; its child Destroy is the destructor, Paced is about the time between two attempts.
--     Connection/Send: write, flush, cork, uncork; its child modules relate the bytes that the socket
--     took and those that are left to those that were composed. Connection/Receive:
--     process_receive_buffer, pass_response_to_caller, input_processed; Framing is about the loop
--     that finds the ends of the responses, Deliver about what the client gets. Connection/Read: read,
--     with the greeting. Connection/Open: open, address_resolved and the notification queue, where an
--     address is seen as what the system answers for it. Connection/Timer: tick_1sec, with Waits and
--     GiveUp about its calls in a row.
--     Connection/Handshake: the answers to the features and authentication requests, with Ends about
--     the loops over them.
--     Connection/Setters: the constructor and the handlers. Connection/Phase says which states have a
--     socket, the modules called Kept that the calls keep this, and Connection/Reach puts the calls
--     together as steps.
--   * cs_parser.h, cs_parser.cpp -- CsParser. A round of the loop of parse_cs is `after_chunk`; Rounds is
--     about the loop, Print about strings that are put together from parts. getenv is an argument.
--   * unique_socket.h, unique_socket.cpp -- UniqueSocket, a list of the objects with the descriptors that
--     were given to them and those that were closed; UniqueSocket/Balance counts them.
--   * ev4cpp2tnt.h, ev4cpp2tnt.cpp -- Ev4cpp2tnt. The event loop of libev is a parameter that says of a
--     watcher whether it is active. A connection is known by its address, and a call of one that is
--     freed is `undefined`. Ev4cpp2tnt/Owned is about the watchers that are active, Bound about those
--     that handlers are bound to, Tended about the connections of the map and their end, Calls about
--     the calls in any order, Life about the destructor behind them, Watching about what the socket of
--     a connection is watched for.
--   * misc.h, misc.cpp -- Misc, with Misc/Dump about what a dump shows.
--
-- Outcome has the results of a call: a new state, an exception with the state that it leaves, or
-- undefined behaviour. Prelude has the tests and the lists that the parts share. Tests runs the
-- code at concrete inputs.
--
-- Msgpuck is the msgpuck library, a submodule and so a parameter. Msgpuck/Laws states the rules of
-- the MessagePack format that the code relies on; Tests/Format has an instance, and
-- Tests/Format/Laws shows that it obeys them.
--
-- Integers are unbounded numbers, with the wrap-around of uint32_t and size_t written out where the
-- code computes with them. The handlers of a connection are recorded as events; the handlers for
-- responses and for on_closed also say whether they return or throw, and call nothing of the
-- connection. A handler for on_destruct is what it does to the connection, and how it ends. The answers of send(2) and of recv(2) are lists that the
-- loops of write and read take from. The loop that detects responses runs on fuel, one round for
-- each byte received and one more, and each round that goes on passes over a byte at least. The
-- loops of finalize_all run one round for each open container, and each round closes one. The loop
-- of parse_cs runs one round more than the string has bytes, and each round passes over a byte;
-- `depth` bounds the variables of the environment that lead to one another. The loops over the answer
-- to the features request run one round more than the response has bytes, and each round passes over
-- an item. The loop of fill() has a round for each item up to its target and one more, the loops over
-- the items that the writer copies, and the loop of check(), one round more than there are bytes. The
-- options that are set on a new socket are left aside.
--
-- Not modelled: get_trace of misc.cpp; of mp_reader.h time points and mp_array::operator[], which does
-- not end. SHA-1 and base64, libraries under third_party, are parameters of the authentication request.
-- The text of an error is not kept. The programs under tests are left aside.
pub mod Prelude
pub mod Outcome
pub mod Msgpuck
pub mod Connection
pub mod CsParser
pub mod Ev4cpp2tnt
pub mod Iproto
pub mod IprotoWriter
pub mod Misc
pub mod MpReader
pub mod MpWriter
pub mod Tests
pub mod UniqueSocket
pub mod WtfBuffer

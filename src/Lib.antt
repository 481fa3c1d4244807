-- ===== src/Lib.antt =====
-- HttpNest: the byte buffer, the string functions, the HTTP half, the connections, the event loop and
-- the timers of the library, as functions on values and as step relations.
--
-- The program. `TcpConnection` reads what a socket delivers into a `MsgBuffer`
-- (src/network/base/MsgBuffer.{h,cpp}) and calls the `HttpContext` of the connection
-- (src/http/HttpContext.{h,cpp}). Its `Parse` runs an `HttpParser` (src/http/HttpParser.{h,cpp}) over the
-- buffer, which splits header lines with `StringUtils` (src/base/StringUtils.cpp), fills an
-- `HttpRequest` (src/http/HttpRequest.{h,cpp}) with the help of `HttpUtils` (src/http/HttpUtils.{h,cpp}),
-- and collects bodies in a `Packet` (src/http/base/Packet.{h,cpp}). A complete request, or a chunk of
-- one, goes to an `HttpHandler`. The handler answers through the sending half of `HttpContext`, which
-- hands bytes to the connection and goes on when the connection calls `WriteComplete`.
--
-- An `EventLoop` (src/network/net/EventLoop.{h,cpp}) waits with its `Epoller` for events, calls the `Channel`s
-- that have one, runs the functions that other threads handed over and turns the `TimingWheel`. A
-- `TcpConnection`, a `TcpClient` and a `UdpSocket` are channels. `DnsService` and `TaskMgr` have threads of
-- their own. A `FileMgr` checks its logs, each a `FileLog`, once in a while.
--
-- The files.
--   Prelude: numbers, Booleans, lists, byte strings, signed integers and the rules that proofs share.
--   Buffer: `MsgBuffer`, one function for each method, in snake case (`EnsureWritableBytes` is
--     `ensure_writable_bytes`). Buffer/Memory is the storage, Buffer/Endian and Buffer/Words the integers in
--     network order, Buffer/Invariant the well-formedness, Buffer/Ensure, Buffer/Contents and Buffer/Front
--     what each operation does to the readable bytes, Buffer/Refine the abstract byte string.
--   Strings: `StringUtils`; Strings/Find is what it uses of `std::string`.
--   Http/Types, Http/Utils, Http/Packet, Http/Request: the files of the same names under src/http.
--   Http/Fields is `std::unordered_map` from strings to strings, Http/Numbers the conversions of the C
--     library.
--   Http/Parser: `HttpParser`. State holds the record, Lines the header, Body the bodies, Machine the
--     switch of `Parse`; Length, Fill, Reassembly and Feed are about bodies in pieces, Faults about input that
--     the parser does not survive, FirstLine about the first line of a request.
--   Http/Context: `HttpContext`. Receive is the loop of `Parse`, Send the sending half; Hang and
--     Delivery are about the loop, Sending, ChunkText and ChunkLength about what is sent.
--   Http/Client: `ParseUrl` of src/http/HttpClient.cpp, with the tables of DnsService as parameters.
--   TimingWheel: src/network/net/TimingWheel.{h,cpp}, the timers. Sound and Advance keep the wheels in
--     range, Slots says which entries they hold, Fires when a callback is called, Stuck which delays are
--     not kept. Idle is the second wheel with entries that several slots share.
--   InetAddress: src/network/base/InetAddress.{h,cpp}, with `inet_pton` as a parameter. Host and Port are
--     about the text of an address.
--   Channel: src/network/net/Channel.{h,cpp} and the masks of events; Masks is about both.
--   TcpConnection: src/network/net/TcpConnection.{h,cpp}. Pieces is about the queue under `writev`, Steps the
--     operations as a relation, Order about the byte stream, Ends about the loop of `OnWrite`, Closed and
--     Moves about closing, Sent and Refused about `SendInLoop`, Aliased about a buffer that changes while it is queued.
--   Http/Wire: `HttpContext` over `TcpConnection`.
--   Epoller: src/network/net/Epoller.{h,cpp}. Watched compares the map with what the kernel watches, Stale is
--     about a channel that is closed too early.
--   EventLoop: `RunInLoop` and `RunFuctions` of src/network/net/EventLoop.cpp, for two loops whose threads
--     interleave, and what they run while they handle events. Work is about the latter, Fifo about the order of
--     the functions, Deadlock about loops that wait for each other.
--   TcpClient: src/network/TcpClient.{h,cpp}. Balance is about its registration with the loop, Reconnect
--     about a second connection.
--   UdpSocket: src/network/net/UdpSocket.{h,cpp}. Deliver is about reading, Drain about writing.
--   TcpServer: src/network/TcpServer.{h,cpp} and the opening of src/network/net/Acceptor.cpp, over Epoller and
--     TcpConnection. Sets and Served compare the set of
--     connections with the map of the poller.
--   TaskMgr: src/base/Task.{h,cpp} and src/base/TaskMgr.{h,cpp}. Due is about `OnWork`.
--   FileLog: src/base/FileLog.{h,cpp}, over the files of the system. Archive has the files of a log and what a
--     write does to them, Moved a rotation, Kept any sequence of both.
--   FileMgr: src/base/FileMgr.{h,cpp}. Due is about which logs a check moves, Target about the name.
--   DnsService: src/network/DnsService.{h,cpp}, with the resolver as a parameter. Refresh is about a round.
--
-- The state. Each class is a record with the fields of the source. A method takes the record and
-- returns the new one. The request and the packet that a parser shares with a handler are values,
-- since the handlers only read them. Calls of the connection and of the handler are events in a list.
-- `WriteComplete` comes behind the operation that sent, not within it. Logging is left out. What the
-- system answers to `read`, `writev`, `sendto` and the like is an argument: a list of answers for
-- reading, a function of the round and of what is offered for writing. The queues of a connection and of
-- a UDP socket hold addresses, and the memory is an argument of what writes.
--
-- Failure. A call through a null pointer, a packet of negative size and a `memcpy` of negative length are
-- the faults of Http/Outcome. A failing `assert` is `none`, and so are an index
-- outside a wheel of the timer and an `int` index that overflows.
--
-- Numbers. A `size_t` wraps at 2 ^ 64; theorems on buffers ask for sizes below 2 ^ 60, which memory
-- keeps to. An `int32_t` wraps at 2 ^ 32. A `double` is a fraction with a power of two below. Bytes are numbers below 256. The host is little-endian.
-- `memcpy` and `std::copy` write within the storage: what would lie outside is dropped, and the invariant
-- shows that nothing does. The functions of the C and C++ libraries are written out from their
-- documentation, in the "C" locale. The order in which a map is visited is the order of its list.
--
-- Fuel. `ensure_to` has depth 2, because the new buffer has the room that it is made for.
-- `split_string` takes a round for each byte and one more, `split_string_with_fsm` two for each byte and
-- one more. `hex_text` has 8 digits and `decimal` 10, the most that 32 bits need. `parse_loop` runs for
-- any number of rounds, and returns `running` when it has not ended. The loops of `OnRead` and `OnWrite`
-- return `pending` when the answers or the rounds are at their end and the loop is not; a theorem gives
-- the number of rounds after which they have ended.
--
-- Not modelled: the members of `Connection`, the rest of `Acceptor`, the HTTP server and the rest of its
-- client, which set callbacks and call the system; the opening of UDP endpoints; the pipe and the
-- order of a turn of the event loop; the threads of the pool and of DnsService; the loggers, the
-- clock, and the configuration with its vendored JSON library.
pub mod Prelude
pub mod Buffer
pub mod Strings
pub mod Http
pub mod TimingWheel
pub mod InetAddress
pub mod Channel
pub mod TcpConnection
pub mod Epoller
pub mod EventLoop
pub mod FileLog
pub mod FileMgr
pub mod TcpServer
pub mod TcpClient
pub mod UdpSocket
pub mod TaskMgr
pub mod DnsService

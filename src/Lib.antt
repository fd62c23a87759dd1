-- ===== src/Lib.antt =====
-- grpc-over-ayame: gRPC calls over WebRTC data channels that Ayame signaling sets up.
--
-- The library has four parts, and a server and a client that use it. `URLParts` (src/url_parts.h)
-- takes the signaling URL apart. `AyameSignaling` (src/ayame_signaling.h,
-- src/ayame_signaling.cpp) opens a WebSocket to the Ayame server, exchanges descriptions and
-- candidates there as JSON, and makes data channels.
-- `AyameTransport` (src/ayame_transport.h) is the gRPC transport: it listens to the signaling and
-- keeps gRPC's connectivity state. `AyameStream` (same file) is one call: it writes an operation
-- batch to its data channel and pairs the buffers that arrive with gRPC's receive operations.
--
-- The files:
--   Url: `URLParts::Parse` (parse), with the `std::string` calls that it makes. Url/Shape says what a
--     URL of given parts is, Url/Search, Cut, Inverse and Total prove the parser against it.
--   Json: nlohmann/json as a record of operations and laws. Json/Toy is a small one that has them.
--   Metadata: a metadata batch as JSON and back (encode, decode).
--   Message: the loop that sends a message's slices (send_message).
--   Mailbox: `data_queue_` and `func_queue_` (on_message, wait_for_recv).
--   Stream: the state of `AyameStream`. Stream/Send and Stream/Receive are the two halves of
--     `PerformOp`, Stream/Perform is `PerformOp` itself (perform_op), the constructor (construct),
--     the callbacks (on_ready, on_state_change) and `Destroy` (destroy). Stream/Order, Schedule,
--     Calls, Pending, Rerun, Exchange and Batches prove what a call does, at one end and over both;
--     Stream/Parts, Sent and Conversation do so for any number of batches and messages;
--     Stream/Duplex, Both, Halves, Halved and FullDuplex for a stream that does both at once.
--   Signaling: the state of `AyameSignaling`. Signaling/Connect has `Connect` and the handlers up
--     to the WebSocket handshake, Signaling/Write the write queue, Signaling/Messages the texts sent,
--     Signaling/Read `OnRead` (Signaling/Read/Accepted: what WebRTC takes), Signaling/Peer the
--     callbacks of WebRTC and `CreateDataChannel`.
--     Signaling/History is a whole life; Signaling/Within, Local, Handlers and Whole carry invariants
--     over it, among them Signaling/Ready and Texts; Signaling/Starts counts what it starts.
--     Signaling/States names WebRTC's states for the log.
--   Transport: `AyameTransport`, with its waiting functions and its reference count.
--   Vtable: the functions of `ayame_vtable`, over a transport and its streams; Vtable/Counts, Kept
--     and Lives count the holders of the transport, Vtable/Dangling has streams destroyed early.
--   Channel: `AyameDataChannel`. Thunk: the two observers of descriptions.
--   Peers: two ends and the way of the texts between them, composed of the parts above. Peers/Items
--     proves that what one makes is what the other takes, Peers/Pipe is the bag and the queue of
--     items that the way implements, Peers/Carries, Steps, Lands, Refines and Delivers prove it.
--     Peers/Introduced, Exchange and Established follow two ends from the registration to the
--     first data channel.
--   Session: how a transport hears its signaling, and streams get their channels from it.
--   Program: the start of the server (src/goa_server.cpp), of the client (src/goa_client.cpp) and
--     the `goa_create_ayame_` functions (src/ayame_transport.h). Program/Mains: the two mains.
--   Base: tests, lists and names that all share. Examples: concrete runs.
--
-- Stateful code is state passing: an object is a record of its fields with a log of the calls that
-- it makes of other code, and a method maps the record to the record behind it and to the fault
-- that ended it, if any (an exception, a failed assertion, a call through null). What other
-- code returns to a method is an argument of that method. Threads and the event loop are sequences
-- of steps, and each handler runs whole: the receive queues are under a mutex, and the handlers of
-- the signaling, on the event loop and WebRTC's threads, are taken not to overlap. The write queue is
-- an exception: `SendText` posts `DoSendText` to the system's executor, a thread pool, with no lock.
-- Signaling/Write/Overlap therefore has `DoSendText` and `OnWrite` in parts, with threads that take
-- turns between them; a life of the write queue in Signaling/Writes is one in which these handlers do
-- not overlap, and Peers, where the executor runs the posted texts in any order, has handlers that
-- do not overlap either. The Ayame server is taken to pass the texts on unchanged and in order.
-- What a `std::function` holds behind `std::move` is a parameter of Thunk.
--
-- Loops are recursion on the list that they walk, so no fuel is needed. `size_t` and `int` in the
-- loop that sends a message keep their widths.
--
-- Not modelled: log lines other than those that name states, memory from gRPC's arena, the contents
-- of TLS options and thread setup, empty callbacks. The mains are the calls that they make.
-- gRPC, ggrpc, WebRTC, Boost, OpenSSL and nlohmann/json are not in the repository: their calls
-- are logged, their results are arguments, and what is relied on is a named hypothesis.
pub mod Base
pub mod Channel
pub mod Examples
pub mod Json
pub mod Mailbox
pub mod Message
pub mod Metadata
pub mod Peers
pub mod Program
pub mod Session
pub mod Signaling
pub mod Stream
pub mod Thunk
pub mod Transport
pub mod Url
pub mod Vtable

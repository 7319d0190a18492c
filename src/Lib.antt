-- ===== src/Lib.antt =====
-- protocom: a request protocol in frames over TCP, with a key exchange, sealed messages and an
-- authentication, and the event-driven server around it.
--
-- A connection's bytes go from the socket through a PFramer into the incoming WorkQueue. A worker
-- takes each frame to the ProtocolContext of its connection, whose current handler decodes the
-- request with its MessageCoder and answers through the same coder. The answer is queued in the
-- outgoing WorkQueue, and a PDeframer writes it to the socket. The handlers come one after the
-- other: ProtocolConnectedHandler does the key exchange (x25519KexProtocol) and leads on to
-- ProtocolAuthenticationHandler, which asks the Authenticator and leads on to the user's handler,
-- made by a ProtocolUserHandlerFactory.
--
-- Files, and the code of each:
--   Frame         IFrameIO.cpp, protocom/IFrameIO.h: PFrame, and the frame's form on the wire
--   WorkQueue     WorkQueue.cpp, protocom/WorkQueue.h; its order and limit in WorkQueue/Fifo
--   Socket        what recv and send promise, as parameters
--   Framer        PFramer.cpp, protocom/PFramer.h. Framer/Reference is a parser that takes a byte
--                 at a time; Chunks, Refines, Steps and ReadAll are about both; Faults is about the
--                 inputs on which they differ
--   Deframer      PDeframer.cpp, protocom/PDeframer.h, with Refines, WriteAll, Faults and
--                 Apart, which is about the socket's other direction
--   Messages      pcomserver.proto, testuserprotocol.proto, with Protocol Buffers as a parameter
--   Crypto        Crypto++ as a parameter
--   Coder         MessageCoder.cpp, EncrMessageCoder.cpp; RoundTrip, and Delivery to the other side
--   Kex           x25519KexProtocol.cpp; Kex/Agreement
--   Authenticator Authenticator.cpp; Authenticator/Access
--   Protocol      State (the data and the sink), Connected (ProtocolConnectedHandler.cpp),
--                 Authentication (ProtocolAuthenticationHandler.cpp and the factories), User
--                 (protocom/ProtocolUserHandler.h, TestUserHandler.cpp), Context
--                 (ProtocolContext.cpp). Below Context: Answers, what an answer changes; Gate, the
--                 order of the states; Attempts, the attempts of the authentication; Written, the length
--                 of what is written
--   FrameSocket   IOFrameSocket.cpp, with Sending, Receiving, Pieces, Frames and Faults
--   Server        State (the data of protocom/Server.h and protocom/ServerWorker.h, and the eventfd),
--                 Worker (the contexts and the sink of ServerWorker.cpp), Clients (how Server.cpp adds
--                 and removes connections), Loop (Server::run and its handlers), Serve
--                 (ServerWorker::run, and stopping), Runs (both threads), EventLoop (the loop's
--                 steps).
--                 Consistency, Entries, Events, Rounds and Interleavings are about the two
--                 tables; Guarded about the order of the states; Notifications and Counted about
--                 the eventfd; DataIn, DataOut, Separate and Stale about queues and descriptors;
--                 Closing about the two closeClient; LastAnswers about contexts that end; Stopping
--                 about ServerWorker::stop; Servable, Ending, Lasting and Ends about the loops inside
--                 the steps, and what a step leaves for the next one's
--   Client        Client.cpp, over any IFrameIO; its data and connect_sock in State; Exchanging,
--                 Connecting and Connect are about connect
--   Session       a Client against a ProtocolContext. Link is what carries frames between the two:
--                 Direct is the shortest one, and Served a connection of the server, by its queues
--                 and its worker. Answering has the context's answers, Laws what a session relies
--                 on; Connect, Authenticate, LogIn and Requests are about the client's calls over
--                 any link, ClientTest about runClientTest of main.cpp, and EndToEnd about a client
--                 that the server accepts
--   Main          main.cpp: the client's test and the self-tests, with SelfTests; Serving, the
--                 server that main() runs, and Bound
--   Transfer      a deframer's bytes in the other side's framer, as Server.cpp hands items over
--   Tests         concrete sockets, codecs and cryptography, and each result at a concrete input
--   Prelude       lists, words and calls that may throw
--
-- How the code is modelled. A function that throws returns an Outcome. A method's object is a
-- record that it takes and returns. A buffer is the list of its bytes. The code's address
-- arithmetic on `&len`, which counts in 16-bit words, is written out: with one byte of the length
-- remaining it reaches the padding behind the field. 32-bit counters wrap around. The states
-- `switch` on are data types. Loops run on fuel; the fuel that is enough is one more than the
-- number of bytes to come, or to send, which for one frame is below 65540. All random pools of the program are one, of the
-- type `G`. Members that a constructor leaves uninitialized are its arguments.
--
-- Preconditions on the socket. ReceivesStream and SendsStream are the promises of a stream socket.
-- WholeLengths and WholeSends are more than a socket promises: that the two bytes of a length are
-- not split. The framers rely on them; Framer/Faults and Deframer/Faults are about the other sockets.
--
-- The server's threads. The event loop handles an event, and the worker an item, in one step each; a
-- run is a sequence of such steps in any order. The frames that a handler writes are queued when its
-- step ends. The two tables are association lists with a key at most once. What the operating system
-- answers is an argument: the events, new descriptors with their sockets, and whether epoll takes
-- them. An event's `freed` is what a read of the erased table entry finds.
--
-- The condition variable of a WorkQueue is its field `notified`. In a run of the two threads, the
-- worker's step begins behind the wait of fetchItemBlocking; Server/Stopping has the wait itself, with
-- the sleep and the wake-up. ServerWorker::stop joins the worker's thread: whether that comes to its
-- end is an argument, `joins`, since a cancellation can be lost, and where it does not, stop and what
-- calls it have no result (none).
--
-- Not modelled: ownership of the buffers and the destructors but that of the server, log output,
-- signals, the pause behind a
-- refused request, and data races between the two threads within a step. A handler's exception ends
-- the process, and so does a step that throws. The generated message code is a parameter.
pub mod Prelude
pub mod Frame
pub mod WorkQueue
pub mod Socket
pub mod Framer
pub mod Deframer
pub mod Messages
pub mod Crypto
pub mod Coder
pub mod Kex
pub mod Authenticator
pub mod Protocol
pub mod FrameSocket
pub mod Server
pub mod Client
pub mod Session
pub mod Main
pub mod Transfer
pub mod Tests

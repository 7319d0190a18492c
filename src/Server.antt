-- ===== src/Server.antt =====
-- Server.cpp and ServerWorker.cpp: the event loop's thread, the worker's thread, and the tables and
-- queues between them.
pub mod State
pub mod Worker
pub mod Clients
pub mod Loop
pub mod Serve
pub mod Runs
pub mod EventLoop
pub mod Consistency
pub mod Entries
pub mod Events
pub mod Rounds
pub mod Interleavings
pub mod Guarded
pub mod Notifications
pub mod Counted
pub mod DataIn
pub mod DataOut
pub mod Stale
pub mod Separate
pub mod Stopping
pub mod Closing
pub mod LastAnswers
pub mod Ending
pub mod Servable
pub mod Lasting
pub mod Ends

-- ===== src/Tests.antt =====
-- Concrete instances of the parameters, and the results of the other modules at concrete inputs.
pub mod Wires
pub mod Samples
pub mod Framing
pub mod Sealing
pub mod Sessions
pub mod Transfers
pub mod FrameSockets
pub mod Servers
pub mod Connections
pub mod Endings
pub mod Clients
pub mod Finishing
pub mod Traffic
pub mod Codecs
pub mod Handshakes
pub mod Startup
pub mod Rejections

-- ===== src/Protocol.antt =====
-- The protocol of one connection: ProtocolContext.cpp and the handlers that are its states.
pub mod State
pub mod Connected
pub mod Authentication
pub mod User
pub mod Context

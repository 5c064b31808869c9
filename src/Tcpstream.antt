-- ===== src/Tcpstream.antt =====
-- internal/tcpstream: the stream protocol between an engarde client and server.
pub mod Destination
pub mod Frame
pub mod Reassembler
pub mod Flow
pub mod Carrier
pub mod Auth
pub mod Session

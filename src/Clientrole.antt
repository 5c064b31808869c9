-- ===== src/Clientrole.antt =====
-- internal/clientrole: the sessions of the client, one for each path, and the carriers of a flow in them.
pub mod Backoff
pub mod PathSession
pub mod Group
pub mod Slot
pub mod Tests

-- ===== src/Serverrole.antt =====
-- internal/serverrole: the server's admission of connections and streams.
pub mod Closed
pub mod Streams
pub mod Admission
pub mod Tests

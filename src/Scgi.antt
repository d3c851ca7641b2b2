-- ===== src/Scgi.antt =====
-- The SCGI backend (hello-scgi/scgi-backend/src), less its sockets.
pub mod Parser
pub mod Memory
pub mod Connection
mod Tests

-- ===== src/Http.antt =====
-- The HTTP server (networking/http-server/src/http-server), less its sockets.
pub mod Headers
pub mod DynamicArray
pub mod Scanner
pub mod Config
mod Tests

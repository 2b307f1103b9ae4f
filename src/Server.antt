-- ===== src/Server.antt =====
-- The other handlers of the server.
pub mod Tools
pub mod Api
pub mod Spartan

-- ===== src/Client.antt =====
-- internal/client: the connections to the servers of tools.
pub mod Connection
pub mod Model
pub mod Transport
pub mod Tools
pub mod Startup

-- ===== src/Mcp.antt =====
-- mcp/: the clients of the external tool servers, their configuration, and the diagram cache.
pub mod Decoder
pub mod Client
pub mod Diagrams
pub mod Servers
mod Tests

-- ===== src/Gateway.antt =====
-- internal/gateway: the public side of the proxy.
pub mod Stream
pub mod Env
pub mod Http
pub mod Policy
pub mod Registry
pub mod Route
pub mod WebSocket

-- ===== src/Gateway/WebSocket.antt =====
-- internal/gateway/server.go: the three handlers of WebSocket requests.
pub mod Modes
pub mod Relay
pub mod CloseOnce
pub mod Delivery
pub mod Arrival
pub mod Raw
pub mod Open
mod Runs

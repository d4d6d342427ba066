-- ===== src/Gateway/Http.antt =====
-- internal/gateway/server.go: handleClientHTTP, which relays one HTTP exchange over a stream.
pub mod Exchange
pub mod Auth
pub mod Response
pub mod Request
pub mod Protocol
pub mod Reply
pub mod Bodies
mod Runs

-- ===== src/Agent.antt =====
-- internal/agent/agent.go: the side of the proxy that runs next to the target.
pub mod Streams
pub mod Dispatch
pub mod Http
pub mod Relay
pub mod Reconnect
pub mod Dial

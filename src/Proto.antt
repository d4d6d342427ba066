-- ===== src/Proto.antt =====
-- internal/proto: the frames between gateway and agent.
pub mod Frame
pub mod FrameLaws
pub mod Types
mod Runs
pub mod WsData

-- ===== src/Shared.antt =====
-- internal/shared: what gateway, agent and command line have in common.
pub mod Modes
pub mod Headers
pub mod WsClose
pub mod UrlJoin
mod Runs

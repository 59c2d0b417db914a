-- ===== src/Service.antt =====
-- src/service: one handler for each request.
pub mod Login
pub mod Match
pub mod Chat
pub mod Heartbeat
pub mod Ranking
pub mod Reconnect

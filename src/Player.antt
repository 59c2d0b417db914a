-- ===== src/Player.antt =====
-- src/player: who is online, what a reconnecting player had, and the stored player records.
pub mod Manager
pub mod StateManager
pub mod Repository

-- ===== src/Daemon.antt =====
-- internal/daemon: the daemon's own logic.
pub mod CmdRepository
pub mod Restart
pub mod Subscribe
pub mod Environment
pub mod Payload
pub mod Da
pub mod Waiters
pub mod Osc
pub mod Attach
pub mod Output
pub mod History
pub mod Handlers
pub mod Lifespan

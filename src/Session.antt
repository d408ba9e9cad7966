-- ===== src/Session.antt =====
-- internal/session: the sessions of the daemon.
pub mod Ids
pub mod Buffer
pub mod Batcher
pub mod Defs
pub mod Service
pub mod Invariant
pub mod ReadLoop
pub mod Restart
pub mod Reaper

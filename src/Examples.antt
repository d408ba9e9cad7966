-- ===== src/Examples.antt =====
-- Concrete runs of the definitions, and the theorems at concrete inputs.
pub mod Session
pub mod Buffer
pub mod Daemon
pub mod Events
pub mod Lifecycle
pub mod Protocol
pub mod Attach
pub mod Platform
pub mod Transport
pub mod Output
pub mod Client
pub mod Handlers
pub mod Files
pub mod Restart
pub mod Tmux
pub mod Reading
pub mod Environment
pub mod Subscribe
pub mod Size

-- ===== src/Platform.antt =====
-- internal/platform: the helpers below the daemon.
pub mod Ansi
pub mod Scrollback
pub mod Recording
pub mod Html
pub mod SessionDirs
pub mod Commands
pub mod Size

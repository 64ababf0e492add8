-- ===== src/Commands.antt =====
-- src/commands/: the dispatcher and the commands behind it.
pub mod Shell
pub mod System
pub mod Info
pub mod Dispatcher
pub mod Responses
pub mod Pointer
mod Tests

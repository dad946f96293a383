-- ===== src/Commands.antt =====
-- src/commands: the names of commands, and how a command line is taken apart.
pub mod Split
pub mod Segments
pub mod Registry
pub mod Parser
mod Examples

-- ===== src/Cmd.antt =====
-- The pure parts of the command-line tool cmd/godash.
pub mod Names
pub mod Services
pub mod Project
pub mod Arguments
pub mod Shell
pub mod TemplateMeta
pub mod Profile

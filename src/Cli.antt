-- ===== src/Cli.antt =====
-- cli: the command line tool.
pub mod Outcome
pub mod Config
pub mod Options
pub mod ArgHandler
pub mod Input
pub mod SecretKey
pub mod Requests
pub mod Handlers

-- ===== src/Server.antt =====
-- root/app/server: configuration, accounts, storage, sessions and the command loop.
pub mod Auth
pub mod ConnectionPool
pub mod Accept
pub mod Sessions
pub mod Command
pub mod Handler
pub mod Words
pub mod Numbers
pub mod Config
pub mod Startup
pub mod Database

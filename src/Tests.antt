-- ===== src/Tests.antt =====
-- The theorems at concrete inputs, and runs of the code on them.
pub mod Wire
pub mod Data
pub mod Accounts
pub mod Commands
pub mod Settings
pub mod Limits
pub mod AsciiQt
pub mod Window
pub mod Console
pub mod Sockets
pub mod Pool

-- ===== src/Sftp.antt =====
-- src/sftp_server.cpp and src/sftp_handlers.cpp: the parts of the SFTP server.
mod Tests
pub mod Path
pub mod Messages
pub mod Files
pub mod Changes
pub mod Accounts
pub mod Handlers
pub mod Sessions
pub mod Listener
pub mod World
pub mod Owners

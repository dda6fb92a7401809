-- ===== src/Ftp.antt =====
-- src/ftp_server.cpp
mod Tests
pub mod Path
pub mod Listing
pub mod Session
pub mod Commands
pub mod Dispatch
pub mod World

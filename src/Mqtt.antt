-- ===== src/Mqtt.antt =====
-- src/mqtt_server.cpp
mod Tests
pub mod Wire
pub mod Packets
pub mod Topics
pub mod Server
pub mod Lifecycle

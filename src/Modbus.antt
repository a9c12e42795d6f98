-- ===== src/Modbus.antt =====
-- The Modbus RTU drivers.
pub mod Crc
pub mod Convert
pub mod Server
pub mod Client
pub mod Session
mod Tests

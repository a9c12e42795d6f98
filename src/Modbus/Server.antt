-- ===== src/Modbus/Server.antt =====
-- The Modbus RTU server (src/drivers/driver_modbusrtu_server/modbus_rtu_server.cpp and .h): its data
-- areas, the handler of one frame, and the search for frames in the received bytes.
pub mod Area
pub mod Pdu
pub mod Request
pub mod Units
pub mod Safety
pub mod Process
pub mod Receive

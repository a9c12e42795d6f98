-- ===== src/Modbus/Client.antt =====
-- The Modbus RTU client (src/drivers/driver_modbusrtu/modbus_rtu_client.cpp): requests, the loop that
-- collects a response, and the parsers of responses.
pub mod Frame
pub mod Call

-- ===== src/Crane.antt =====
-- The simulated PLC crane of src/drivers/driver_plc_crane_sim/sim_device.{h,cpp}: two actuators with a
-- single-shot timer each, four holding registers, and the automatic sequence.
--
-- A QTimer is `none` while it is stopped and `some delay` while it runs towards a timeout `delay`
-- milliseconds after its start. Error texts are the constructors of Refusal.
pub mod Device
pub mod Coupling
pub mod Actions
pub mod Reach
pub mod Rest
pub mod Writes
mod Tests

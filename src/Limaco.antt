-- ===== src/Limaco.antt =====
-- The readings of the Limaco distance radars (src/drivers/driver_limaco_common/limaco_decode.cpp).
pub mod Decode
pub mod Layouts
mod Tests

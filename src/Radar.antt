-- ===== src/Radar.antt =====
-- The codec of the laser radar's frames (src/drivers/driver_3d_laser_radar/protocol_codec.cpp).
pub mod Checksum
pub mod Codec
pub mod Payloads
pub mod Frames
pub mod Accepted
pub mod Fields
mod Tests

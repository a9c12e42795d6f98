-- ===== src/Robot.antt =====
-- The codec of the scan robot's frames (src/drivers/driver_3d_scan_robot/protocol_codec.cpp), whose
-- header holds no length: the decoder tries one length after the other.
pub mod Codec
pub mod Frames
mod Tests

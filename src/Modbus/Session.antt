-- ===== src/Modbus/Session.antt =====
-- The client and the server together: what a call returns when its bytes go to the server and the
-- response comes back in any fragments.
pub mod Fragments
pub mod Bytes
pub mod Wire
pub mod Requests
pub mod ReadRegisters
pub mod WriteRegisters
pub mod ReadBack

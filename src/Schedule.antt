-- ===== src/Schedule.antt =====
-- The schedule engine of the server, src/stdiolink_server/manager/schedule_engine.{h,cpp}.
--
-- QMap, QHash and QSet keyed by project ids are functions of the id. The part of the instance manager
-- that the engine sees is the list of the project ids of its instances; whether a start gets as far as
-- entering one depends on the file system and is a parameter.
pub mod Engine
pub mod Failures
pub mod Crash
pub mod Limits
pub mod Shutdown
mod Tests

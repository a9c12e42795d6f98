-- ===== src/Host.antt =====
-- The host's side of a request: src/stdiolink/host/driver.cpp, task.cpp and task_state.h. Tasks and
-- their driver share task states through pointers; here the states stand in one list, and a pointer is
-- an index into it. The child process is Qt's: what a read of its output brings, and whether it
-- runs, are arguments.
pub mod State
pub mod Driver
pub mod Task
pub mod Answers
pub mod Received
pub mod Session
pub mod Looks
pub mod Signals
pub mod Wait
pub mod Invalid
mod Tests

-- ===== src/Process/System.antt =====
-- syscall_handler.c: syscall_execute, syscall_halt and schedule, over the processes, the page
-- directory, the terminals and the memory that the programs run in.
pub mod State
pub mod Execute
pub mod Halt
pub mod Schedule
pub mod Entry
pub mod Closing
pub mod Return
pub mod Outcomes
pub mod Rounds
pub mod Tests
pub mod Loading
pub mod Getargs

-- ===== src/Process.antt =====
-- mp3_Final/student-distrib/syscall_handler.c: processes, their file descriptors, and the switches
-- between them. What the calls reach in other components is the interface `Drivers`.
pub mod Types
pub mod Descriptors
pub mod Pids
pub mod Args
pub mod System

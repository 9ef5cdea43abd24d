-- ===== src/Syscall.antt =====
-- sys/syscall.c: the system calls, by the part of the system that they reach.
pub mod Vm
pub mod File
pub mod Time
pub mod Process
pub mod Machine

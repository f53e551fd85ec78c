-- ===== src/Kernel.antt =====
-- The strings, the log ring and the command line of i386/whitex/Kernel.c.
pub mod Strings
pub mod Log
pub mod Shell
pub mod Dispatch
pub mod Print
pub mod Memory
pub mod System
pub mod Sound
pub mod Rounds
pub mod Guarded
pub mod Tests

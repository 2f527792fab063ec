-- ===== src/Sdb.antt =====
-- hw4/sdb.h: the debugger.
pub mod Host
pub mod State
pub mod Kernel
pub mod Maps
pub mod Regs
pub mod Patch
pub mod Breaks
pub mod Code
pub mod Resume
pub mod Memory
pub mod Load
pub mod Valid
pub mod Session
mod Tests

-- ===== src/Libmini.antt =====
-- hw3/libmini.c and hw3/libmini.h: the small C library.
pub mod Sigset
pub mod Errno
pub mod Jumps
pub mod Memory
pub mod Signals
pub mod Calls
pub mod Programs
mod Tests

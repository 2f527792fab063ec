-- ===== src/Sdb/Tests.antt =====
-- The theorems about the debugger at a concrete machine, and runs of its commands.
mod Machine
mod Armed
mod Breaks
mod Dump
mod Disasm
mod Launched
mod Load
mod Maps
mod Patch
mod Resume
mod Shell
mod Undone
mod Unstarted
mod Views

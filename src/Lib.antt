-- ===== src/Lib.antt =====
-- Models of four programs of this repository, which share no code, and proofs about them: the
-- command-line debugger, hw4/main.c and hw4/sdb.h with hw4/elftool.c; the list of network connections,
-- hw1/main.cpp with hw1/hw1_utils.h; the monitor of file operations, hw2/fsmon.c; and the small C library,
-- hw3/libmini.c.
--
-- The debugger keeps one record (`SDB`, here `Sdb` in Sdb/State) with the loaded ELF file, the
-- process it traces and a table of ten break points. Each command is a function of this record, of
-- the system, and of the output so far. Sdb/Host has the type of a command's runs: `ok` with a value
-- and the new state, `fault` where C has undefined behaviour (a null pointer, a pointer never set, a
-- read out of bounds), `blocked` where a system call never returns, and `out_of_fuel`. Output is a
-- list of `Message`s, the latest first, one for each printed line.
--
-- What is not in the repository is a parameter: the record `Kernel` (Sdb/Kernel) has the calls of
-- ptrace, fork, waitpid, fopen and the disassembler as fields over an abstract type of the system's
-- states. What a theorem assumes of them is named there: `TextIsMemory` (PEEKTEXT and POKETEXT act on
-- eight bytes of memory and on no register, and the process stays stopped), `IsMapped`, `RegsAreKept`,
-- `CanSetRegs` and `WaitsOnce` (waitpid reports an exit once, and blocks on a process that is stopped and was
-- reported). Nothing is assumed of what an instruction of the process does in a single step. The record `Files` (Elf) is libelf and the file system for the files
-- that are loaded. Sdb/Tests/Machine has a concrete machine that satisfies all of them.
--
-- The shell (hw4/main.c) reads a line, splits it and calls one command; `Reaches` is the states that
-- any lines lead to, and Sdb/Valid what all of them have in common. Sdb/Host/Ensures has the rules by
-- which a property of the state goes through a run.
--
-- The list of connections has three parts, composed by `main` in Sockets/Program: the lines of
-- /proc/net become entries, the sockets under /proc give each entry its process, and the entries that
-- the options and the filter select are printed. There `none` is undefined behaviour. `inet_ntop`,
-- the files and what the stack holds are arguments.
--
-- The monitor is a function of the call: `monitor` gives for each C function that is replaced what is
-- called and logged. Its `Process` is the system and the one static buffer whose old bytes matter, and
-- the C library is the record `Libc`. Monitor/Tests has a library that satisfies what is assumed.
--
-- The modules, and the code that they model:
--   Base        the shared names, lists over the native numbers, bits, strings, tests
--   Cstd        strtok, strchr, basename, sscanf and the character classes, as the code uses them
--   Elf         hw4/elftool.h: the records
--   Elf/Load    hw4/elftool.c: elf_open, elf_load_phdr, elf_load_shdr, elf_load_strtab
--   Elf/Symbols hw4/elftool.c: elf_load_symtab, elf_load_dsymtab, elf_load_all
--   Elf/Release hw4/elftool.c: elf_close, elf_free_strtab, and what elf_open holds
--   Sdb/State   hw4/sdb.h: SDB, bp_t, sdb_create, sdb_is_loaded, sdb_is_running
--   Sdb/Maps    convert_dynamic_addr
--   Sdb/Regs    sdb_get, sdb_set, sdb_getregs
--   Sdb/Patch   sdb_patch_all_bp
--   Sdb/Breaks  sdb_set_break, sdb_list, sdb_delete
--   Sdb/Breaks/View  the table as its users see it, and the commands on that
--   Sdb/Code    the bytes of an instruction as text
--   Sdb/Resume  sdb_start, sdb_run, sdb_cont, sdb_step
--   Sdb/Memory  sdb_disasm, sdb_dump
--   Sdb/Load    sdb_load, sdb_vmmap
--   Sdb/Valid   what holds of every state of the debugger, and the proofs for each command
--   Sdb/Session hw4/test.c, the commands of the test program
--   Shell       hw4/main.c: the loop over the lines
--   Sockets/Parse   hw1: parse_addr_port_pair, parse_line, parse_protocol
--   Sockets/Owners  hw1: the loops over /proc in main
--   Sockets/Listing hw1: the options, the selection and the output in main, print_entry
--   Sockets/Program hw1: main
--   Monitor/Strings hw2/fsmon.c: get_verbose_stat, convert_to_verbose_newline
--   Monitor/Log     hw2/fsmon.c: load_function, write_msg, fd_to_filename
--   Monitor/Calls   hw2/fsmon.c: BEGIN_MON, END_MON and the functions that are replaced
--   Monitor/Ready, Monitor/Transparent   the proofs about them
--   Monitor/Programs  programs as sequences of calls, with and without the monitor, and
--               hw2/testcases/file.c and dir.c
--   Libmini/Sigset  hw3/libmini.h: sigemptyset, sigfillset, sigaddset, sigdelset, sigismember
--   Libmini/Errno   hw3/libmini.c: WRAPPER_RETval, write, perror
--   Libmini/Calls   hw3/libmini.c: the wrappers of the system calls, read to sigpending
--   Libmini/Signals hw3/libmini.c: sigaction, signal
--   Libmini/Jumps   hw3/libmini.c: setjmp, longjmp
--   Libmini/Programs  hw3/jmp1.c and hw3/jmp2.c
--   Libmini/Memory  hw3/libmini.c: bzero, strlen, memcpy
--
-- Numbers. `unsigned long long` is a natural number below 2 ^ 64, with the wrap-around written out
-- where the code adds or subtracts addresses. The loops over the table and over lists are structural.
-- The loop over waitpid takes fuel, two rounds for a kernel with `WaitsOnce`: after the report of an
-- exit the next call finds no child, and after a stop the loop is left or the next call blocks. With
-- less fuel the run may be `out_of_fuel`, which no result is read from.
-- The programs that jump take fuel for the returns of setjmp: eleven for jmp1.c and two for jmp2.c.
-- dir.c takes one for every entry of the directory and one for its end.
-- `strlen` of the small library takes fuel too: any number above the length is enough. The digits of a
-- number are taken with one more round than the number, which has fewer digits.
--
-- A value that C leaves in a variable never written is not given a value: the run is `fault`. Failing
-- system calls leave the system as it was. The child's side of fork is part of the kernel's `spawn`.
--
-- Not modelled: the assembly of hw3, the other example programs, failures of malloc and the
-- release of memory and descriptors but in elf_open and elf_close, elf_init and elf_perror, the
-- exact padding of printed lines, and the shell's prompt and its end of input.
mod Base
pub mod Cstd
pub mod Elf
pub mod Sdb
pub mod Libmini
pub mod Shell
pub mod Sockets
pub mod Monitor

-- ===== src/Sdb/Session.antt =====
-- hw4/test.c: a program that drives the debugger.
pub mod Keeps
use advanced_unix_progr.Base.{ℕ, zero, suc, pos, Text, List, none, some, codes}
use advanced_unix_progr.Elf.{Files}
use advanced_unix_progr.Sdb.Host.{echo, Host, Cmd, ◌>>=◌, ◌>>◌, pure, print}
use advanced_unix_progr.Sdb.State.{Bp, Sdb, sdb_create}
use advanced_unix_progr.Sdb.Kernel.{Kernel}
use advanced_unix_progr.Sdb.Regs.{sdb_get, sdb_set, sdb_getregs}
use advanced_unix_progr.Sdb.Breaks.{sdb_set_break, sdb_list, sdb_delete}
use advanced_unix_progr.Sdb.Resume.{sdb_cont, sdb_run, sdb_start, sdb_step}
use advanced_unix_progr.Sdb.Memory.{sdb_disasm, sdb_dump}
use advanced_unix_progr.Sdb.Load.{sdb_load, sdb_vmmap}

abbrev pub hello : Text
hello = codes "sample/hello64"

abbrev pub guess : Text
guess = codes "sample/guess"

-- `fuel` is that of each loop over `waitpid`.
module _ (K : Kernel) (F : Files) (fuel : ℕ) where
  open K use {World}

  unfoldable pub test_case1 : Sdb → Cmd World Sdb
  test_case1 sdb = do
    print (echo (codes "\nTest Case 1..."))
    sdb ← sdb_load K F sdb hello
    sdb_vmmap K sdb
    sdb ← sdb_start K sdb
    sdb_vmmap K sdb
    rip ← sdb_get K sdb (codes "rip")
    sdb_run K fuel sdb

  unfoldable pub test_case2 : Sdb → Cmd World Sdb
  test_case2 sdb = do
    print (echo (codes "\nTest Case 2..."))
    sdb ← sdb_load K F sdb hello
    sdb ← sdb_start K sdb
    sdb_getregs K sdb
    pure sdb

  unfoldable pub test_case3 : Sdb → Cmd World Sdb
  test_case3 sdb = do
    print (echo (codes "\nTest Case 3..."))
    sdb ← sdb_load K F sdb hello
    sdb ← sdb_disasm K sdb (codes "")
    sdb ← sdb_disasm K sdb (codes "0x4000b0")
    sdb ← sdb_start K sdb
    sdb ← sdb_set_break K sdb (codes "0x4000c6")
    sdb ← sdb_disasm K sdb (codes "0x4000c6")
    sdb_dump K sdb (codes "0x4000c6")
    pure sdb

  unfoldable pub test_case4 : Sdb → Cmd World Sdb
  test_case4 sdb = do
    print (echo (codes "\nTest Case 4..."))
    sdb ← sdb_load K F sdb hello
    sdb ← sdb_disasm K sdb (codes "0x4000b0")
    sdb ← sdb_set_break K sdb (codes "0x4000c6")
    sdb_list K sdb
    sdb ← sdb_run K fuel sdb
    sdb_set K sdb (codes "rip") 0x4000b0
    sdb ← sdb_cont K fuel sdb
    sdb ← sdb_delete K sdb (pos 0)
    sdb_set K sdb (codes "rip") 0x4000b0
    sdb_cont K fuel sdb

  unfoldable pub test_case5 : Sdb → Cmd World Sdb
  test_case5 sdb = do
    print (echo (codes "\nTest Case 5..."))
    sdb ← sdb_load K F sdb guess
    sdb_vmmap K sdb
    sdb ← sdb_disasm K sdb (codes "0x985")
    sdb ← sdb_disasm K sdb (codes "")
    sdb ← sdb_set_break K sdb (codes "0x9cc")
    sdb ← sdb_start K sdb
    sdb_vmmap K sdb
    sdb ← sdb_cont K fuel sdb
    rax ← sdb_get K sdb (codes "rax")
    val ← sdb_get K sdb (codes "rdx")
    sdb_set K sdb (codes "rax") val
    sdb_cont K fuel sdb

  -- The loop over `i`, for the rounds that are left.
  unfoldable pub steps : ℕ → Sdb → Cmd World (Unit {0})
  steps zero sdb = pure tt
  steps (suc left) sdb = sdb_step K sdb >>= λ _. steps left sdb

  unfoldable pub test_case6 : Sdb → Cmd World Sdb
  test_case6 sdb = do
    print (echo (codes "\nTest Case 6...Test step command"))
    sdb ← sdb_load K F sdb hello
    sdb ← sdb_start K sdb
    steps 10 sdb
    pure sdb

  -- `main`; `raw` is what `malloc` left in the slots. The result is the debugger at the end.
  unfoldable pub main : List Bp → Cmd World Sdb
  main raw = do
    let sdb = sdb_create raw
    sdb_vmmap K sdb
    sdb ← test_case1 sdb
    sdb ← test_case2 sdb
    sdb ← test_case3 sdb
    sdb ← test_case4 sdb
    sdb ← test_case5 sdb
    test_case6 sdb

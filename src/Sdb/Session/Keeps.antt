-- ===== src/Sdb/Session/Keeps.antt =====
-- That hw4/test.c keeps the invariant.
use advanced_unix_progr.Base.{ℕ, List, ◌≡◌, length, All}
use advanced_unix_progr.Elf.{Files}
use advanced_unix_progr.Sdb.Host.{Host, Run, Cmd, and_then}
use advanced_unix_progr.Sdb.Host.Ensures.{Ensures, returns, Ensures-then, Ensures-next}
use advanced_unix_progr.Sdb.State.{Bp, Sdb, max_break, sdb_create}
use advanced_unix_progr.Sdb.Kernel.{Kernel}
use advanced_unix_progr.Sdb.Valid.{IsValid, HasAddr}
use advanced_unix_progr.Sdb.Valid.Breaks.{sdb_set_break-IsValid, sdb_delete-IsValid}
use advanced_unix_progr.Sdb.Valid.Resume.{sdb_cont-IsValid, sdb_start-IsValid, sdb_run-IsValid}
use advanced_unix_progr.Sdb.Valid.Memory.{sdb_disasm-IsValid}
use advanced_unix_progr.Sdb.Valid.Load.{sdb_create-IsValid, sdb_load-IsValid}
use advanced_unix_progr.Sdb.Load.{sdb_vmmap}
use advanced_unix_progr.Sdb.Session.{
  test_case1, test_case2, test_case3, test_case4, test_case5, test_case6, main,
}

module _ (K : Kernel) (F : Files) (fuel : ℕ) where
  open K use {World}

  -- A first part that keeps the invariant.
  keeps :
      (r : Run World Sdb) (k : Sdb → Cmd World Sdb)
      → Ensures IsValid r
      → ((sdb : Sdb) (h : Host World) → IsValid sdb → Ensures IsValid (k sdb h))
      → Ensures IsValid (and_then r k)
  keeps r k e later = Ensures-then r k e later

  ruleset session_rules = (
    Ensures-next, returns, keeps, sdb_load-IsValid, sdb_start-IsValid, sdb_run-IsValid,
    sdb_cont-IsValid, sdb_disasm-IsValid, sdb_set_break-IsValid, sdb_delete-IsValid,
  )

  test_case1-IsValid :
      (sdb : Sdb) (h : Host World) → IsValid sdb → Ensures IsValid (test_case1 K F fuel sdb h)
  unfolding test_case1
  test_case1-IsValid sdb h v = search session_rules depth 15

  test_case2-IsValid :
      (sdb : Sdb) (h : Host World) → IsValid sdb → Ensures IsValid (test_case2 K F fuel sdb h)
  unfolding test_case2
  test_case2-IsValid sdb h v = search session_rules depth 15

  test_case3-IsValid :
      (sdb : Sdb) (h : Host World) → IsValid sdb → Ensures IsValid (test_case3 K F fuel sdb h)
  unfolding test_case3
  test_case3-IsValid sdb h v = search session_rules depth 15

  test_case4-IsValid :
      (sdb : Sdb) (h : Host World) → IsValid sdb → Ensures IsValid (test_case4 K F fuel sdb h)
  unfolding test_case4
  test_case4-IsValid sdb h v = search session_rules depth 15

  test_case5-IsValid :
      (sdb : Sdb) (h : Host World) → IsValid sdb → Ensures IsValid (test_case5 K F fuel sdb h)
  unfolding test_case5
  test_case5-IsValid sdb h v = search session_rules depth 15

  test_case6-IsValid :
      (sdb : Sdb) (h : Host World) → IsValid sdb → Ensures IsValid (test_case6 K F fuel sdb h)
  unfolding test_case6
  test_case6-IsValid sdb h v = search session_rules depth 15

  -- The test program: whatever the system does and the files hold, where it returns the table has
  -- ten slots, every address that the debugger keeps is a 64-bit number, the path fits its buffer,
  -- where the debugger has a process it has a path, and the pointer to the names is into no tables that
  -- are there but those of the open handle. What `malloc` left in the table is ten slots of such
  -- numbers.
  main-IsValid :
      (raw : List Bp) (h : Host World)
      → length raw ≡ max_break
      → All HasAddr raw
      → Ensures IsValid (main K F fuel raw h)
  unfolding main
  main-IsValid raw h ten addrs = Ensures-next (sdb_vmmap K (sdb_create raw) h) _ λ u h.
      keeps (test_case1 K F fuel (sdb_create raw) h) _
        (test_case1-IsValid _ h (sdb_create-IsValid raw ten addrs))
        λ sdb h v.
          search
            (
              keeps, test_case2-IsValid, test_case3-IsValid, test_case4-IsValid, test_case5-IsValid,
              test_case6-IsValid,
            )
            depth 12

-- ===== src/Sdb/Resume.antt =====
-- hw4/sdb.h, `sdb_start`, `sdb_cont`, `sdb_run` and `sdb_step`. The loop over `waitpid` takes fuel.
pub mod Cont
pub mod Ends
pub mod Hit
pub mod Launched
pub mod Waiting
use advanced_unix_progr.Base.{
  ℕ, zero, suc, ◌+◌, ◌-◌, ◌%◌, ◌^◌, ℤ, pos, is_negative, Bool, true, false, not, ◌&&◌, Text, List,
  [], ◌∷◌, Option, none, some, get_elem?, ◌==◌, if◌then◌else◌,
}
use advanced_unix_progr.Sdb.Host.{
  Message, no_program, not_running, fork_failed, waitpid_failed, wait_failed, step_failed,
  disasm_failed, started, already_running, exited, exited_with_error, breakpoint, uninitialised,
  out_of_bounds, Host, Run, ok, fault, out_of_fuel, Cmd, ◌>>=◌, ◌>>◌, need, observe, pure, print,
  attempt, when,
}
use advanced_unix_progr.Sdb.State.{Bp, Sdb, no_pid, sdb_is_loaded, sdb_is_running}
use advanced_unix_progr.Sdb.Kernel.{Kernel, Regs, Insn, WaitResult, no_child, reported, wifstopped}
use advanced_unix_progr.Sdb.Patch.{peeked, bp_addr, wait, wait_or_say, sdb_patch_all_bp}
use advanced_unix_progr.Sdb.Code.{bytes_str, word_bytes}

-- `rip - 1`
abbrev pub before_trap : ℕ → ℕ
before_trap rip = (rip + 2 ^ 64 - 1) % 2 ^ 64

-- How the loop over `waitpid` ends: at a break point, or with the last status, `none` while
-- `status` is not written.
pub data Stop : Type 0 where
  hit : Stop
  over : Option ℕ → Stop

module _ (K : Kernel) where
  open K use {World, getregs, setregs, peektext, poketext, cont, spawn, exitkill, disasm}

  -- The line that shows the instruction at a break point. The operands are taken from the
  -- instruction whose number is the break point's.
  unfoldable pub show_insns : ℕ → List Insn → Cmd World (Unit {0})
  show_insns i [] = print disasm_failed
  show_insns i (insn ∷ rest) = do
    bytes ← need out_of_bounds (bytes_str insn)
    operands ← need out_of_bounds (get_elem? (insn ∷ rest) i)
    print (breakpoint insn.address bytes insn.mnemonic operands.op_str)

  -- At break point `i`, with its address: the original word is put back and `rip` set to it.
  unfoldable pub hit_bp : Sdb → Regs → ℕ → Bp → ℕ → Cmd World (Unit {0})
  hit_bp sdb regs i bp vaddr = do
    attempt (poketext sdb.pid vaddr bp.original_word)
    attempt (setregs sdb.pid (record regs { rip = before_trap regs.rip }))
    found ← observe (peektext sdb.pid vaddr)
    show_insns i (disasm (word_bytes (peeked found)) vaddr)

  -- The loop over the break points, from slot `i`; the result says if one was hit.
  unfoldable pub check_breaks : Sdb → Regs → ℕ → List Bp → Cmd World Bool
  check_breaks sdb regs i [] = pure false
  check_breaks sdb regs i (bp ∷ rest) = do
    vaddr ← bp_addr K sdb bp
    if bp.is_used && (vaddr == before_trap regs.rip)
        then (hit_bp sdb regs i bp vaddr >>= λ _. pure true)
        else check_breaks sdb regs (i + 1) rest

  -- The registers of a stopped process, and the break points.
  unfoldable pub on_stop : Sdb → Cmd World Bool
  on_stop sdb = do regs ← observe (getregs sdb.pid); check_breaks sdb regs 0 sdb.breaks

  -- The body of the loop; `again` is its next round, with the new status.
  unfoldable pub on_report : Sdb → Option ℕ → (ℕ → Cmd World Stop) → WaitResult → Cmd World Stop
  on_report sdb status again no_child = pure (over status)
  on_report sdb status again (reported st) =
      if not (wifstopped st)
      then again st
      else (on_stop sdb >>= λ found. if found then pure hit else again st)

  -- `while (waitpid(...) > 0)`
  unfoldable pub wait_loop : ℕ → Sdb → Option ℕ → Cmd World Stop
  wait_loop zero sdb status = λ h. out_of_fuel
  wait_loop (suc fuel) sdb status =
      wait K sdb >>= on_report sdb status (λ st. wait_loop fuel sdb (some st))

  -- What is printed once the loop is over.
  abbrev pub goodbye : ℤ → ℕ → Message
  goodbye pid status = if status == 0 then exited pid status else exited_with_error pid status

  unfoldable pub after_loop : Sdb → Stop → Cmd World Sdb
  after_loop sdb hit = pure sdb
  after_loop sdb (over status) = do
    st ← need uninitialised status
    print (goodbye sdb.pid st)
    pure (record sdb { pid = no_pid })

  -- From `PTRACE_CONT` to the end, shared by `sdb_cont` and `sdb_run`.
  unfoldable pub resume : ℕ → Sdb → Option ℕ → Cmd World Sdb
  resume fuel sdb status = do
    attempt (cont sdb.pid)
    stop ← wait_loop fuel sdb status
    after_loop sdb stop

  unfoldable pub sdb_cont : ℕ → Sdb → Cmd World Sdb
  sdb_cont fuel sdb =
      if not (sdb_is_running sdb)
      then (print not_running >> pure sdb)
      else do sdb' ← sdb_patch_all_bp K sdb; resume fuel sdb' none

  -- `fork`, with its result in `sdb->pid`
  abbrev pub fork : Sdb → Cmd World Sdb
  fork sdb h =
      let (pid, w) = spawn sdb.path h.world in
      ok (record sdb { pid = pid }) (record h { world = w })

  -- The parent, once `waitpid` has returned.
  abbrev pub launched : Sdb → WaitResult → Cmd World (Sdb × Option ℕ)
  launched sdb no_child = print waitpid_failed >> pure (sdb, none)
  launched sdb (reported st) =
      attempt (exitkill sdb.pid) >>= λ _. print (started sdb.pid) >> pure (sdb, some st)

  abbrev pub forked : Sdb → Cmd World (Sdb × Option ℕ)
  forked sdb =
      if is_negative sdb.pid
      then (print fork_failed >> pure (sdb, none))
      else (wait K sdb >>= launched sdb)

  -- The parent's side of `fork`: `none` where the caller returns at once.
  unfoldable pub launch : Sdb → Cmd World (Sdb × Option ℕ)
  launch sdb = fork sdb >>= forked

  abbrev pub then_patch : Sdb × Option ℕ → Cmd World Sdb
  then_patch (sdb, none) = pure sdb
  then_patch (sdb, some st) = sdb_patch_all_bp K sdb

  unfoldable pub sdb_start : Sdb → Cmd World Sdb
  sdb_start sdb =
      if not (sdb_is_loaded sdb)
      then (print no_program >> pure sdb)
      else (launch sdb >>= then_patch)

  -- `run` from a process that has stopped; `status` is what `launch` wrote.
  unfoldable pub run_on : ℕ → Sdb → Option ℕ → Cmd World Sdb
  run_on fuel sdb status = do sdb' ← sdb_patch_all_bp K sdb; resume fuel sdb' status

  abbrev pub then_run : ℕ → Sdb × Option ℕ → Cmd World Sdb
  then_run fuel (sdb, none) = pure sdb
  then_run fuel (sdb, some st) = run_on fuel sdb (some st)

  unfoldable pub sdb_run : ℕ → Sdb → Cmd World Sdb
  sdb_run fuel sdb =
      if not (sdb_is_loaded sdb)
      then (print no_program >> pure sdb)
      else if sdb_is_running sdb
      then (print (already_running sdb.path) >> run_on fuel sdb none)
      else (launch sdb >>= then_run fuel)

  unfoldable pub sdb_step : Sdb → Cmd World (Unit {0})
  sdb_step sdb = if not (sdb_is_running sdb) then print not_running else do
    done ← attempt (K.singlestep sdb.pid)
    if done then wait_or_say K sdb else print step_failed

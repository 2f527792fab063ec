-- ===== src/Shell/Invariant.antt =====
-- What holds of the debugger after any lines.
use advanced_unix_progr.Base.{ℕ, Text, List, Option, none, some, ◌≡◌, length, All}
use advanced_unix_progr.Elf.{Files}
use advanced_unix_progr.Cstd.{words}
use advanced_unix_progr.Sdb.Host.{Host, Run, and_then, pure}
use advanced_unix_progr.Sdb.Host.Ensures.{Ensures, returns, Ensures-then, Ensures-ok, ensures_rules}
use advanced_unix_progr.Sdb.State.{Bp, Sdb, sdb_create, max_break}
use advanced_unix_progr.Sdb.Kernel.{Kernel}
use advanced_unix_progr.Sdb.Load.{sdb_load}
use advanced_unix_progr.Sdb.Valid.{IsValid, HasAddr}
use advanced_unix_progr.Sdb.Valid.Breaks.{sdb_set_break-IsValid, sdb_delete-IsValid}
use advanced_unix_progr.Sdb.Valid.Resume.{sdb_cont-IsValid, sdb_start-IsValid, sdb_run-IsValid}
use advanced_unix_progr.Sdb.Valid.Memory.{sdb_disasm-IsValid}
use advanced_unix_progr.Sdb.Valid.Load.{sdb_create-IsValid, sdb_load-IsValid}
use advanced_unix_progr.Shell.{
  Shell, Verb, break_at, cont, delete, disasm, exit, load, run, start, verbs, verb_of, next_shell,
  later_words, dispatch, round, begin, Reaches, begun, line, elsewhere,
}

-- What holds of the record that a command leaves, unless it ends the loop.
abbrev pub StaysValid : Option Sdb → Type 0
StaysValid none = Unit
StaysValid (some sdb) = IsValid sdb

abbrev ShellStaysValid : Option Shell → Type 0
ShellStaysValid none = Unit
ShellStaysValid (some s) = IsValid s.sdb

module _ (K : Kernel) (F : Files) (fuel : ℕ) where
  open K use {World}

  change-StaysValid :
      (r : Run World Sdb)
      → Ensures IsValid r
      → Ensures StaysValid (and_then r (λ sdb'. pure (some sdb')))
  change-StaysValid r e =
      Ensures-then r (λ sdb'. pure (some sdb')) e (λ sdb' h' v'. returns _ h' v')

  -- Every command keeps the invariant.
  pub dispatch-StaysValid :
      (verb : Verb) (command : Text) (ws : List Text) (sdb : Sdb) (h : Host World)
      → IsValid sdb
      → Ensures StaysValid (dispatch K F fuel verb command ws sdb h)
  unfolding dispatch
  dispatch-StaysValid break_at command ws sdb h v =
      search (ensures_rules, change-StaysValid, sdb_set_break-IsValid, v) depth 8
  dispatch-StaysValid cont command ws sdb h v =
      change-StaysValid _ (sdb_cont-IsValid K fuel sdb h v)
  dispatch-StaysValid delete command ws sdb h v =
      search (ensures_rules, change-StaysValid, sdb_delete-IsValid, v) depth 8
  dispatch-StaysValid disasm command ws sdb h v =
      search (ensures_rules, change-StaysValid, sdb_disasm-IsValid, v) depth 8
  dispatch-StaysValid load command ws sdb h v =
      search (ensures_rules, change-StaysValid, sdb_load-IsValid, v) depth 8
  dispatch-StaysValid run command ws sdb h v = change-StaysValid _ (sdb_run-IsValid K fuel sdb h v)
  dispatch-StaysValid start command ws sdb h v = change-StaysValid _ (sdb_start-IsValid K sdb h v)
  dispatch-StaysValid exit command ws sdb h v = returns _ h tt
  dispatch-StaysValid _ command ws sdb h v = search (ensures_rules, v) depth 9

  next_shell-StaysValid :
      (command : Text) (next : Option Sdb) (h : Host World)
      → StaysValid next
      → Ensures ShellStaysValid (pure (next_shell K F fuel command next) h)
  next_shell-StaysValid command none h v = returns _ h tt
  next_shell-StaysValid command (some sdb) h v = returns _ h v

  round-StaysValid :
      (text : Text) (s : Shell) (h : Host World)
      → IsValid s.sdb
      → Ensures ShellStaysValid (round K F fuel text s h)
  unfolding round
  round-StaysValid text s h v = search (
    ensures_rules,
    λ (command : Text) (h : Host World).
        Ensures-then
          (dispatch K F fuel (verb_of verbs command) command (later_words (words text)) s.sdb h)
          (λ next. pure (next_shell K F fuel command next))
          (dispatch-StaysValid (verb_of verbs command) command (later_words (words text)) s.sdb h v)
          (next_shell-StaysValid command),
  )

  begin-IsValid :
      (raw : List Bp) (file : Option Text) (h : Host World)
      → length raw ≡ max_break
      → All HasAddr raw
      → Ensures (λ (s : Shell). IsValid s.sdb) (begin K F fuel raw file h)
  unfolding begin
  begin-IsValid raw none h ten addrs = returns _ h (sdb_create-IsValid raw ten addrs)
  begin-IsValid raw (some file) h ten addrs =
      Ensures-then (sdb_load K F (sdb_create raw) file h)
        (λ sdb. pure (record { sdb = sdb; command = none }))
        (sdb_load-IsValid K F (sdb_create raw) file h (sdb_create-IsValid raw ten addrs))
        λ sdb h' v. returns _ h' v

  -- After any lines, from the start with or without a program to load, and whatever the system does
  -- in between: the table has ten slots, every address that the debugger keeps is a 64-bit number,
  -- the path fits its buffer of 128 bytes with the NUL, where the debugger has a process it has a path
  -- that is not empty, and where the pointer to the names is into tables that are there, it is to the
  -- section names of the open handle. What `malloc` left in the table is ten slots of such numbers.
  pub Reaches-IsValid :
      (raw : List Bp) (file : Option Text) {s : Shell} {h : Host World}
      → length raw ≡ max_break
      → All HasAddr raw
      → Reaches K F fuel raw file s h
      → IsValid s.sdb
  Reaches-IsValid raw file ten addrs (begun h begins) =
      Ensures-ok (λ (s : Shell). IsValid s.sdb) _ _ _ (begin-IsValid raw file h ten addrs) begins
  Reaches-IsValid raw file ten addrs (line {s} {s'} {h} text before runs) =
      Ensures-ok ShellStaysValid _ _ _
        (round-StaysValid text s h (Reaches-IsValid raw file ten addrs before)) runs
  Reaches-IsValid raw file ten addrs (elsewhere w before) =
      Reaches-IsValid raw file ten addrs before

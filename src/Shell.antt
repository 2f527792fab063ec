-- ===== src/Shell.antt =====
-- hw4/main.c: one round of the debugger's shell, from a line that was read to the command's end. The
-- prompt is not part of the output.
pub mod Invariant
use advanced_unix_progr.Base.{
  ℕ, ℤ, Bool, true, false, not, ◌&&◌, ◌||◌, Text, List, [], ◌∷◌, Option, none, some, str_eq, codes,
  drop, length, ltb, ◌≡◌, ◌==◌, if◌then◌else◌,
}
use advanced_unix_progr.Cstd.{byte_at, scan_hex, scan_dec, scan_int, words}
use advanced_unix_progr.Elf.{Files}
use advanced_unix_progr.Sdb.Host.{
  Message, help, unknown_command, Fault, Host, Run, ok, uninitialised, out_of_bounds, Cmd, ◌>>=◌,
  ◌>>◌, need, pure, print, fail,
}
use advanced_unix_progr.Sdb.State.{Bp, Sdb, sdb_create, sdb_is_loaded}
use advanced_unix_progr.Sdb.Kernel.{Kernel}
use advanced_unix_progr.Sdb.Regs.{sdb_get, sdb_set, sdb_getregs}
use advanced_unix_progr.Sdb.Breaks.{sdb_set_break, sdb_list, sdb_delete}
use advanced_unix_progr.Sdb.Resume.{sdb_cont, sdb_run, sdb_start, sdb_step}
use advanced_unix_progr.Sdb.Memory.{sdb_disasm, sdb_dump}
use advanced_unix_progr.Sdb.Load.{sdb_load, sdb_vmmap}

-- What the loop keeps from one line to the next: `command` is `none` while nothing was read into it.
pub record Shell : Type 0 where
  pub sdb : Sdb
  pub command : Option Text

pub data Verb : Type 0 where
  break_at cont delete disasm dump exit get getregs help_me list load run vmmap set step start :
      Verb
  unknown : Verb

-- The names of the commands, in the order in which they are compared.
abbrev pub verbs : List (Text × Verb)
verbs =
    (codes "break", break_at)
    ∷ (codes "b", break_at)
    ∷ (codes "cont", cont)
    ∷ (codes "c", cont)
    ∷ (codes "delete", delete)
    ∷ (codes "disasm", disasm)
    ∷ (codes "d", disasm)
    ∷ (codes "dump", dump)
    ∷ (codes "exit", exit)
    ∷ (codes "q", exit)
    ∷ (codes "get", get)
    ∷ (codes "g", get)
    ∷ (codes "getregs", getregs)
    ∷ (codes "help", help_me)
    ∷ (codes "h", help_me)
    ∷ (codes "list", list)
    ∷ (codes "l", list)
    ∷ (codes "load", load)
    ∷ (codes "run", run)
    ∷ (codes "r", run)
    ∷ (codes "vmmap", vmmap)
    ∷ (codes "m", vmmap)
    ∷ (codes "set", set)
    ∷ (codes "s", set)
    ∷ (codes "si", step)
    ∷ (codes "start", start)
    ∷ []

-- The chain of `strcmp`.
unfoldable pub verb_of : List (Text × Verb) → Text → Verb
verb_of [] command = unknown
verb_of ((name, v) ∷ rest) command =
    let other = verb_of rest command in if str_eq command name then v else other

abbrev pub command_size : ℕ
command_size = 64

abbrev pub operand_size : ℕ
operand_size = 16

abbrev pub filename_size : ℕ
filename_size = 64

abbrev pub first_word : List Text → Option Text
first_word [] = none
first_word (w ∷ ws) = some w

abbrev pub later_words : List Text → List Text
later_words [] = []
later_words (w ∷ ws) = ws

-- The value of `set`, from its second operand.
unfoldable pub set_value : Text → Option ℕ
set_value s =
    if (byte_at s 0 == b'0') && (byte_at s 1 == b'x') then scan_hex (drop 2 s) else scan_dec s

-- `%s` into a buffer of a size: a word that fills it or more is written past its end.
abbrev pub fits : {W : Type 0} → ℕ → Text → Cmd W Text
fits size w = if ltb (length w) size then pure w else fail out_of_bounds

-- An operand that the line does not have leaves its buffer as it was, with nothing written.
abbrev pub operand : {W : Type 0} → ℕ → Option Text → Cmd W Text
operand size w = need uninitialised w >>= fits size

-- The operand of `break`, whose buffer is not read where no program is loaded.
abbrev pub address_operand : {W : Type 0} → (is_read : Bool) → Option Text → Cmd W Text
address_operand is_read (some w) = fits operand_size w
address_operand true none = fail uninitialised
address_operand false none = pure []

abbrev pub or_empty : Option Text → Text
or_empty none = []
or_empty (some w) = w

module _ (K : Kernel) (F : Files) (fuel : ℕ) where
  open K use {World}

  -- A command that leaves the debugger's record alone.
  abbrev pub keep : {A : Type 0} → Sdb → Cmd World A → Cmd World (Option Sdb)
  keep sdb m = m >>= λ _. pure (some sdb)

  abbrev pub change : Cmd World Sdb → Cmd World (Option Sdb)
  change m = m >>= λ sdb'. pure (some sdb')

  abbrev pub set_from : Sdb → List Text → Cmd World (Unit {0})
  set_from sdb ws = do
    name ← operand operand_size (first_word ws)
    value ← operand operand_size (first_word (later_words ws))
    val ← need uninitialised (set_value value)
    sdb_set K sdb name val

  -- The command with the words behind its name; `none` ends the loop.
  unfoldable pub dispatch : Verb → Text → List Text → Sdb → Cmd World (Option Sdb)
  dispatch break_at command ws sdb =
      change (address_operand (sdb_is_loaded sdb) (first_word ws) >>= sdb_set_break K sdb)
  dispatch cont command ws sdb = change (sdb_cont K fuel sdb)
  dispatch delete command ws sdb = change (
      need uninitialised (first_word ws) >>= λ w.
      need uninitialised (scan_int w) >>= sdb_delete K sdb)
  dispatch disasm command ws sdb =
      change (fits operand_size (or_empty (first_word ws)) >>= sdb_disasm K sdb)
  dispatch dump command ws sdb = keep sdb (operand operand_size (first_word ws) >>= sdb_dump K sdb)
  dispatch exit command ws sdb = pure none
  dispatch get command ws sdb = keep sdb (operand operand_size (first_word ws) >>= sdb_get K sdb)
  dispatch getregs command ws sdb = keep sdb (sdb_getregs K sdb)
  dispatch help_me command ws sdb = keep sdb (print help)
  dispatch list command ws sdb = keep sdb (sdb_list K sdb)
  dispatch load command ws sdb = change (operand filename_size (first_word ws) >>= sdb_load K F sdb)
  dispatch run command ws sdb = change (sdb_run K fuel sdb)
  dispatch vmmap command ws sdb = keep sdb (sdb_vmmap K sdb)
  dispatch set command ws sdb = keep sdb (set_from sdb ws)
  dispatch step command ws sdb = keep sdb (sdb_step K sdb)
  dispatch start command ws sdb = change (sdb_start K sdb)
  dispatch unknown command ws sdb = keep sdb (print (unknown_command command))

  -- `sscanf(line, "%s", command)`
  abbrev pub read_command : Option Text → List Text → Cmd World Text
  read_command old ws = elim (first_word ws) [
    | none ↦ need uninitialised old
    | some w ↦ fits command_size w
  ]

  abbrev pub next_shell : Text → Option Sdb → Option Shell
  next_shell command none = none
  next_shell command (some sdb) = some (record { sdb = sdb; command = some command })

  -- The body of the loop, for a line that `getline` has read.
  unfoldable pub round : Text → Shell → Cmd World (Option Shell)
  unfolding verb_of
  round line s = do
    let ws = words line
    command ← read_command s.command ws
    next ← dispatch (verb_of verbs command) command (later_words ws) s.sdb
    pure (next_shell command next)

  -- From the start to the loop; `raw` is what `malloc` left in the slots, `file` the argument.
  unfoldable pub begin : List Bp → Option Text → Cmd World Shell
  begin raw none = pure (record { sdb = sdb_create raw; command = none })
  begin raw (some file) =
      sdb_load K F (sdb_create raw) file >>= λ sdb. pure (record { sdb = sdb; command = none })

  -- The states of the shell, with the process and the output: each line that is read is a step, and
  -- the system may change in between.
  pub data Reaches (raw : List Bp) (file : Option Text) : Shell → Host World → Type 0 where
    begun :
        (h : Host World) {s : Shell} {h' : Host World}
        → begin raw file h ≡ ok s h'
        → Reaches raw file s h'
    line :
        {s s' : Shell} {h h' : Host World} (text : Text)
        → Reaches raw file s h
        → round text s h ≡ ok (some s') h'
        → Reaches raw file s' h'
    elsewhere :
        {s : Shell} {h : Host World} (w : World)
        → Reaches raw file s h
        → Reaches raw file s (record h { world = w })

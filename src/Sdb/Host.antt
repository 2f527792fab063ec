-- ===== src/Sdb/Host.antt =====
-- How a command of the debugger runs: it acts on the operating system, prints, and may run into
-- undefined behaviour or wait for ever. `W` is the type of the system's states.
pub mod Inversion
pub mod Ensures
use advanced_unix_progr.Base.{ℕ, ℤ, Bool, true, false, Text, List, ◌∷◌, Option, none, some}

-- What C leaves undefined.
pub data Fault : Type 0 where
  null_pointer dangling_pointer uninitialised out_of_bounds : Fault

-- What `vmmap` prints of one token of a line of /proc/<pid>/maps.
pub data MapField : Type 0 where
  range : (begin end : ℕ) → MapField
  perms mapped_file : Text → MapField
  file_offset : ℕ → MapField

-- The lines that the commands print, with what is formatted into them.
pub data Message : Type 0 where
  no_program : Message  -- "No program loaded"
  not_running : Message  -- "not running", "Not running"
  fork_failed : Message  -- "Failed to fork"
  waitpid_failed : Message  -- "waitpid failed"
  wait_failed : Message  -- "Failed to wait"
  step_failed : Message  -- "Step failed"
  patch_failed : Message  -- "failed to patch the code"
  set_regs_failed : Message  -- "Failed to set regs"
  disasm_failed : Message  -- "ERROR: Failed to disassemble given code!"
  no_addr : Message  -- "** no addr is given"
  invalid_addr : Message  -- "Invalid addr!"
  unable_to_open : Text → Message  -- "** unabel to open '%s'."
  unable_to_load : Text → Message  -- "** unable to load '%s."
  no_section_names : Message  -- "** section header string table not found."
  loaded : Text → (entrypoint addr offset size : ℕ) → Message  -- "** program '%s' loaded. ..."
  started : ℤ → Message  -- "** pid %d"
  already_running : Text → Message  -- "** program %s is already running."
  exited : ℤ → ℕ → Message  -- "** child process %d terminated normally (code %d)"
  exited_with_error : ℤ → ℕ → Message  -- "** child process %d exited with error (code %d)"
  breakpoint : (addr : ℕ) → (bytes mnemonic op_str : Text) → Message  -- "** breakpoint @ ..."
  instruction : (addr : ℕ) → (bytes mnemonic op_str : Text) → Message  -- a line of `disasm`
  register : Text → ℕ → Message  -- "%s = %llu (0x%llx)"
  registers : List ℕ → Message  -- the five lines of `getregs`
  break_entry : ℕ → ℕ → Message  -- "%4d: %llx"
  deleted : ℕ → Message  -- "** breakpoint %d deleted."
  dump_row : (addr : ℕ) → (bytes : List ℕ) → (shown : Text) → Message  -- a line of `dump`
  text_area : (begin end offset : ℕ) → Text → Message  -- a line of `vmmap`, not running
  map_line : List MapField → Message  -- a line of `vmmap`, running
  echo : Text → Message  -- `puts(addr_str)`
  help : Message
  unknown_command : Text → Message

pub record Host (W : Type 0) : Type 0 where
  pub world : W
  pub out : List Message  -- the latest line first

-- `blocked` is a system call that never returns.
pub data Run (W A : Type 0) : Type 0 where
  ok : A → Host W → Run W A
  fault : Fault → Run W A
  blocked : Run W A
  out_of_fuel : Run W A

abbrev pub Cmd : Type 0 → Type 0 → Type 0
Cmd W A = Host W → Run W A

module _ {W A B : Type 0} where
  abbrev pub and_then : Run W A → (A → Cmd W B) → Run W B
  and_then (ok a h) k = k a h
  and_then (fault f) k = fault f
  and_then blocked k = blocked
  and_then out_of_fuel k = out_of_fuel

  infixl 5 ◌>>=◌ ◌>>◌
  abbrev pub ◌>>=◌ : Cmd W A → (A → Cmd W B) → Cmd W B
  ◌>>=◌ m k h = and_then (m h) k

  abbrev pub ◌>>◌ : Cmd W A → Cmd W B → Cmd W B
  ◌>>◌ m n h = and_then (m h) (λ _. n)

module _ {W A : Type 0} where
  abbrev pub pure : A → Cmd W A
  pure = ok

  abbrev pub fail : Fault → Cmd W A
  fail f h = fault f

  -- A value that may be missing: a null pointer, or memory that was never written.
  abbrev pub need : Fault → Option A → Cmd W A
  need f none h = fault f
  need f (some a) h = ok a h

  -- A read of the system's state.
  abbrev pub observe : (W → A) → Cmd W A
  observe f h = ok (f h.world) h

module _ {W : Type 0} where
  abbrev pub print : Message → Cmd W (Unit {0})
  print m h = ok tt (record h { out = m ∷ h.out })

  -- A system call that may fail; a failing one changes nothing. The result says if it succeeded.
  abbrev pub attempt_from : Option W → Cmd W Bool
  attempt_from none h = ok false h
  attempt_from (some w) h = ok true (record h { world = w })

  abbrev pub attempt : (W → Option W) → Cmd W Bool
  attempt f h = attempt_from (f h.world) h

  abbrev pub when : Bool → Cmd W (Unit {0}) → Cmd W (Unit {0})
  when true m = m
  when false m = pure tt

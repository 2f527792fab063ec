-- ===== src/Sdb/Patch.antt =====
-- hw4/sdb.h, `sdb_patch_all_bp`: puts the trap instruction at every break point.
pub mod Word
pub mod Slot
pub mod Traps
pub mod Slots
use advanced_unix_progr.Base.{
  ℕ, Bool, true, false, not, Text, List, [], ◌∷◌, Option, none, some, bit_and, bit_or, ◌^◌, ◌-◌,
  ◌==◌, if◌then◌else◌,
}
use advanced_unix_progr.Elf.{Handle}
use advanced_unix_progr.Sdb.Host.{
  Message, wait_failed, patch_failed, null_pointer, Host, Run, ok, fault, blocked, Cmd, ◌>>=◌, ◌>>◌,
  need, observe, pure, print, attempt, when,
}
use advanced_unix_progr.Sdb.State.{Bp, Sdb}
use advanced_unix_progr.Sdb.Kernel.{Kernel, Regs, WaitResult, no_child, reported}
use advanced_unix_progr.Sdb.Maps.{convert_dynamic_addr}

-- `eh->type == 3`, a position-independent program
abbrev pub et_dyn : ℕ
et_dyn = 3

-- The word with the trap instruction as its lowest byte.
unfoldable pub trap_word : ℕ → ℕ
trap_word word = bit_or (bit_and word 0xffffffffffffff00) 0xcc

-- `(word & 0xff) == 0xcc`
unfoldable pub is_trapped : ℕ → Bool
is_trapped word = bit_and word 0xff == 0xcc

-- What `PTRACE_PEEKTEXT` returns, -1 on an error.
abbrev pub peeked : Option ℕ → ℕ
peeked none = 2 ^ 64 - 1
peeked (some word) = word

-- How the loop goes on from one slot: with the next one, or with `return`.
pub data Patched : Type 0 where
  next : Bp → Patched
  stop : Bp → Patched

module _ (K : Kernel) where
  open K use {World, getregs, peektext, poketext, singlestep, waitpid}

  -- `waitpid(pid, &status, 0)`
  unfoldable pub wait : Sdb → Cmd World WaitResult
  wait sdb h = elim (waitpid sdb.pid h.world) [
    | none ↦ blocked
    | some (r, w) ↦ ok r (record h { world = w })
  ]

  -- `vaddr` of a break point
  unfoldable pub bp_addr : Sdb → Bp → Cmd World ℕ
  bp_addr sdb bp = do
    eh ← need null_pointer sdb.eh
    if eh.type == et_dyn then convert_dynamic_addr K sdb bp.addr else pure bp.addr

  -- `waitpid(pid, 0, 0) < 0` with its message
  unfoldable pub wait_or_say : Sdb → Cmd World (Unit {0})
  wait_or_say sdb = do
    r ← wait sdb
    elim r [ no_child ↦ print wait_failed | reported status ↦ pure tt ]

  -- A process that stands at the address steps over it first.
  unfoldable pub step_off : Sdb → ℕ → Cmd World (Unit {0})
  step_off sdb addr = do
    regs ← observe (getregs sdb.pid)
    when (regs.rip == addr) (attempt (singlestep sdb.pid) >>= λ _. wait_or_say sdb)

  unfoldable pub poke_trap : Sdb → Bp → ℕ → ℕ → Cmd World Patched
  poke_trap sdb bp addr word = do
    let bp' : Bp = record bp { original_word = word }
    done ← attempt (poketext sdb.pid addr (trap_word word))
    if done then pure (next bp') else (print patch_failed >> pure (stop bp'))

  unfoldable pub patch_at : Sdb → Bp → ℕ → Cmd World Patched
  patch_at sdb bp addr = do
    found ← observe (peektext sdb.pid addr)
    if is_trapped (peeked found) then pure (next bp) else poke_trap sdb bp addr (peeked found)

  -- The body of the loop for a slot that is used.
  unfoldable pub patch_used : Sdb → Bp → Cmd World Patched
  patch_used sdb bp = do addr ← bp_addr sdb bp; step_off sdb addr; patch_at sdb bp addr

  unfoldable pub patch_bp : Sdb → Bp → Cmd World Patched
  patch_bp sdb bp = if bp.is_used then patch_used sdb bp else pure (next bp)

  -- From one slot to the others, which `again` goes through.
  abbrev pub go_on : List Bp → Cmd World (List Bp) → Patched → Cmd World (List Bp)
  go_on rest again (next bp) = again >>= λ rest'. pure (bp ∷ rest')
  go_on rest again (stop bp) = pure (bp ∷ rest)

  unfoldable pub patch_breaks : Sdb → List Bp → Cmd World (List Bp)
  patch_breaks sdb [] = pure []
  patch_breaks sdb (bp ∷ rest) = patch_bp sdb bp >>= go_on rest (patch_breaks sdb rest)

  unfoldable pub sdb_patch_all_bp : Sdb → Cmd World Sdb
  sdb_patch_all_bp sdb = do
    breaks' ← patch_breaks sdb sdb.breaks
    pure (record sdb { breaks = breaks' })

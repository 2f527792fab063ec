-- ===== src/Sdb/Tests/Patch.antt =====
-- Patching and registers at the concrete machine.
use advanced_unix_progr.Base.{ℕ, ◌%◌, pos, false, List, [], ◌∷◌, ◌≡◌, refl, ap, sym, if◌then◌else◌}
use mathlib.Core.Option.{some-injective}
use advanced_unix_progr.Sdb.Host.{Host, ok, ◌>>◌, register}
use advanced_unix_progr.Sdb.State.{Bp, Sdb}
use advanced_unix_progr.Sdb.Kernel.{IsMapped}
use advanced_unix_progr.Sdb.Regs.{rax, rip, reg_name, sdb_get, sdb_set}
use advanced_unix_progr.Sdb.Regs.RoundTrip.{written, sdb_get-sdb_set}
use advanced_unix_progr.Sdb.Patch.{bp_addr, sdb_patch_all_bp}
use advanced_unix_progr.Sdb.Patch.Slot.{bp_addr-static}
use advanced_unix_progr.Sdb.Patch.Traps.{
  traps, SameSlots, Saves, KeepsWords, sdb_patch_all_bp-traps,
}
use advanced_unix_progr.Sdb.Tests.Machine.{
  Machine, machine, machine_text, machine_mapped, zero_regs, stopped, bp_at, no_bp, handle,
  debugger,
}

abbrev start : Host Machine
start = record { world = stopped []; out = [] }

abbrev one_break : Sdb
one_break = debugger (bp_at 0x4000b0 ∷ no_bp ∷ bp_at 0x4000c6 ∷ [])

sdb_get-sdb_set_example :
    (sdb_set machine one_break (reg_name rax) 42 >> sdb_get machine one_break (reg_name rip)) start
    ≡ ok (written rax 42 zero_regs rip) (record {
      world = record (stopped []) { regs = record zero_regs { rax = 42 } };
      out = register (reg_name rip) (written rax 42 zero_regs rip) ∷ [];
    })
sdb_get-sdb_set_example =
    sdb_get-sdb_set machine one_break rax rip 42 start
      (record (stopped []) { regs = record zero_regs { rax = 42 } })
      (λ p regs w w' e. ap (λ (m : Machine). m.regs) (sym (some-injective _ _ e))) refl

static : (bp : Bp) (h : Host Machine) → bp_addr machine one_break bp h ≡ ok bp.addr h
static bp h = bp_addr-static machine one_break handle bp h refl refl

sdb_patch_all_bp-traps_example :
    (breaks' : List Bp) × (h' : Host Machine) × (sdb_patch_all_bp machine one_break start
      ≡ ok (record one_break { breaks = breaks' }) h')
    × SameSlots one_break.breaks breaks'
    × ((b : ℕ)
        → h'.world.memory b % 256 ≡ (if traps (λ a. a) one_break.breaks b then 0xcc else 0x90))
    × Saves machine one_break (λ a. a) (machine_text (pos 7)) start one_break.breaks breaks'
    × KeepsWords machine one_break (λ a. a) (machine_text (pos 7)) start one_break.breaks breaks'
    × (h'.world.gone ≡ false)
sdb_patch_all_bp-traps_example =
    sdb_patch_all_bp-traps machine one_break (λ a. a) (machine_text (pos 7)) start
      (static _, (static _, (static _, tt))) refl refl
      (mapped 0x4000b0, (mapped 0, (mapped 0x4000c6, tt)))
  where
    mapped : (a : ℕ) {P : Type 0} → P → IsMapped machine (pos 7) (machine_text (pos 7)) a
    mapped a _ = machine_mapped (pos 7) a

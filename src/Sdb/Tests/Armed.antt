-- ===== src/Sdb/Tests/Armed.antt =====
-- `break` on the running process of the concrete machine.
use advanced_unix_progr.Base.{
  ℕ, ◌%◌, pos, true, List, [], ◌∷◌, some, ◌≡◌, refl, codes, str_eq, ◌==◌, if◌then◌else◌,
}
use advanced_unix_progr.Cstd.{scan_hex}
use advanced_unix_progr.Sdb.Host.{Host, ok}
use advanced_unix_progr.Sdb.State.{Bp, Sdb, sdb_is_loaded, sdb_is_running}
use advanced_unix_progr.Sdb.Kernel.{IsMapped}
use advanced_unix_progr.Sdb.Patch.{bp_addr}
use advanced_unix_progr.Sdb.Patch.Slot.{bp_addr-static}
use advanced_unix_progr.Sdb.Patch.Traps.{traps}
use advanced_unix_progr.Sdb.Breaks.{skip_prefix, free_slot, put_break, sdb_set_break}
use advanced_unix_progr.Sdb.Breaks.Table.{entry}
use advanced_unix_progr.Sdb.Breaks.Armed.{sdb_set_break-traps}
use advanced_unix_progr.Sdb.Tests.Machine.{
  Machine, machine, machine_text, machine_mapped, stopped, bp_at, no_bp, handle, debugger,
}

abbrev started : Host Machine
started = record { world = stopped []; out = [] }

abbrev sdb : Sdb
sdb = debugger (bp_at 0x4000b0 ∷ no_bp ∷ [])

abbrev later : Sdb
later = put_break 1 0x4000cf sdb

loaded : sdb_is_loaded sdb ≡ true
unfolding sdb_is_loaded str_eq
loaded = refl

running : sdb_is_running sdb ≡ true
unfolding sdb_is_running
running = refl

scanned : scan_hex (skip_prefix (codes "0x4000cf")) ≡ some 0x4000cf
unfolding scan_hex
scanned = refl

free : free_slot 0 sdb.breaks ≡ some 1
unfolding free_slot
free = refl

static : (bp : Bp) (h : Host Machine) → bp_addr machine later bp h ≡ ok bp.addr h
static bp h = bp_addr-static machine later handle bp h refl refl

mapped : (a : ℕ) {P : Type 0} → P → IsMapped machine (pos 7) (machine_text (pos 7)) a
mapped a _ = machine_mapped (pos 7) a

sdb_set_break-traps_example :
    (breaks' : List Bp) × (h' : Host Machine) × (sdb_set_break machine sdb
        (codes "0x4000cf")
        started
      ≡ ok (record sdb { breaks = breaks' }) h')
    × ((j : ℕ) → entry breaks' j ≡ (if 1 == j then some 0x4000cf else entry sdb.breaks j))
    × (h'.world.memory 0x4000cf % 256 ≡ 0xcc)
    × ((b : ℕ) → h'.world.memory b % 256 ≡ (if traps (λ a. a) later.breaks b then 0xcc else 0x90))
sdb_set_break-traps_example =
    sdb_set_break-traps machine sdb started (λ a. a) (machine_text (pos 7)) (codes "0x4000cf")
      0x4000cf 1 loaded running scanned free refl refl (static _, (static _, tt))
      (mapped 0x4000b0, (mapped 0x4000cf, tt))

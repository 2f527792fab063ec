-- ===== src/Sdb/Tests/Undone.antt =====
-- `break` and `delete` on the running process of the concrete machine, with another break point set.
use advanced_unix_progr.Base.{
  ℕ, ◌+◌, ◌%◌, ◌<◌, pos, true, false, [], ◌∷◌, some, ◌≡◌, refl, arith, codes, str_eq,
}
use advanced_unix_progr.Cstd.{scan_hex}
use advanced_unix_progr.Sdb.Host.{Host, ok}
use advanced_unix_progr.Sdb.State.{Bp, Sdb, sdb_is_loaded, sdb_is_running}
use advanced_unix_progr.Sdb.Kernel.{IsMapped}
use advanced_unix_progr.Sdb.Patch.{bp_addr}
use advanced_unix_progr.Sdb.Patch.Slot.{bp_addr-static}
use advanced_unix_progr.Sdb.Patch.Traps.{traps}
use advanced_unix_progr.Sdb.Breaks.{skip_prefix, free_slot, put_break, sdb_set_break, sdb_delete}
use advanced_unix_progr.Sdb.Breaks.Table.{entry}
use advanced_unix_progr.Sdb.Breaks.Undone.{sdb_delete-sdb_set_break}
use advanced_unix_progr.Sdb.Tests.Machine.{
  Machine, machine, machine_text, machine_mapped, stopped, bp_at, no_bp, handle, debugger, store,
}

abbrev sdb : Sdb
sdb =
    debugger
      (bp_at 0x4000b0 ∷ no_bp ∷ no_bp ∷ no_bp ∷ no_bp ∷ no_bp ∷ no_bp ∷ no_bp ∷ no_bp ∷ no_bp ∷ [])

abbrev before : Host Machine
before = record {
  world = record (stopped []) { memory = store (λ a. 0x90) 0x4000b0 0x90909090909090cc };
  out = [];
}

is_loaded : sdb_is_loaded sdb ≡ true
unfolding sdb_is_loaded str_eq
is_loaded = refl

is_running : sdb_is_running sdb ≡ true
unfolding sdb_is_running
is_running = refl

scanned : scan_hex (skip_prefix (codes "0x4000cf")) ≡ some 0x4000cf
unfolding scan_hex
scanned = refl

free : free_slot 0 sdb.breaks ≡ some 1
unfolding free_slot
free = refl

static :
    (bp : Bp) (h : Host Machine) → bp_addr machine (put_break 1 0x4000cf sdb) bp h ≡ ok bp.addr h
static bp h = bp_addr-static machine (put_break 1 0x4000cf sdb) handle bp h refl refl

mapped : (a : ℕ) {P : Type 0} → P → IsMapped machine (pos 7) (machine_text (pos 7)) a
mapped a _ = machine_mapped (pos 7) a

armed : (b : ℕ) → traps (λ a. a) sdb.breaks b ≡ true → before.world.memory b % 256 ≡ 0xcc
armed b trap = let e : b ≡ 0x4000b0 = ground arith in rw e refl

apart : (j : ℕ) → j < 8 → traps (λ a. a) (bp_at 0x4000b0 ∷ []) (0x4000cf + j) ≡ false
apart j near = ground arith

sdb_delete-sdb_set_break_example :
    (sdb' sdb'' : Sdb) × (h' h'' : Host Machine) × (sdb_set_break machine sdb
        (codes "0x4000cf")
        before
      ≡ ok sdb' h')
    × (sdb_delete machine sdb' (pos 1) h' ≡ ok sdb'' h'')
    × ((j : ℕ) → entry sdb''.breaks j ≡ entry sdb.breaks j)
    × ((b : ℕ) → h''.world.memory b % 256 ≡ before.world.memory b % 256)
sdb_delete-sdb_set_break_example =
    sdb_delete-sdb_set_break machine sdb before (machine_text (pos 7)) (codes "0x4000cf") 0x4000cf 1
      is_loaded is_running refl scanned free refl refl
      (
        static _,
        (
          static _,
          (
            static _,
            (static _, (static _, (static _, (static _, (static _, (static _, (static _, tt))))))),
          ),
        ),
      )
      (
        mapped _,
        (
          mapped _,
          (
            mapped _,
            (mapped _, (mapped _, (mapped _, (mapped _, (mapped _, (mapped _, (mapped _, tt))))))),
          ),
        ),
      )
      armed (omega arith) apart

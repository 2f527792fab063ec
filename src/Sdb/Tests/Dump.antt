-- ===== src/Sdb/Tests/Dump.antt =====
-- `dump` at the concrete machine.
use advanced_unix_progr.Base.{ℕ, pos, true, false, List, some, ◌≡◌, refl, arith, codes, str_eq}
use advanced_unix_progr.Cstd.{scan_hex}
use advanced_unix_progr.Sdb.Host.{Host, ok}
use advanced_unix_progr.Sdb.State.{Sdb, sdb_is_running}
use advanced_unix_progr.Sdb.Breaks.{skip_prefix}
use advanced_unix_progr.Sdb.Memory.{sdb_dump}
use advanced_unix_progr.Sdb.Memory.Dump.{IsCopy, rows, sdb_dump-rows}
use advanced_unix_progr.Sdb.Tests.Machine.{
  Machine, machine, machine_text, machine_mapped, stopped, debugger,
}
use mathlib.Core.List.{[]}

abbrev waiting : Host Machine
waiting = record { world = stopped []; out = [] }

abbrev sdb : Sdb
sdb = debugger []

given : str_eq (codes "4000b0") [] ≡ false
unfolding str_eq
given = refl

running : sdb_is_running sdb ≡ true
unfolding sdb_is_running
running = refl

scanned : scan_hex (skip_prefix (codes "4000b0")) ≡ some 0x4000b0
unfolding scan_hex
scanned = refl

sdb_dump-rows_example :
    (buffer : List ℕ) × IsCopy machine sdb (machine_text (pos 7)) waiting.world 0x4000b0 80 buffer
    × (sdb_dump machine sdb (codes "4000b0") waiting
        ≡ ok tt (record { world = waiting.world; out = rows 5 0x4000b0 buffer [] }))
sdb_dump-rows_example =
    sdb_dump-rows machine sdb (machine_text (pos 7)) (codes "4000b0") 0x4000b0 waiting given running
      scanned refl (omega arith) (λ a above below. machine_mapped (pos 7) a)

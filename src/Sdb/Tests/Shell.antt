-- ===== src/Sdb/Tests/Shell.antt =====
-- The shell at the concrete machine.
use advanced_unix_progr.Base.{List, [], ◌∷◌, none, some, ◌≡◌, refl, arith, codes, replicate, str_eq}
use advanced_unix_progr.Cstd.{words, strtok}
use advanced_unix_progr.Sdb.Host.{Host, ok, no_program}
use advanced_unix_progr.Sdb.State.{Bp, sdb_create, sdb_is_loaded}
use advanced_unix_progr.Sdb.Breaks.{sdb_set_break}
use advanced_unix_progr.Sdb.Valid.{IsValid}
use advanced_unix_progr.Sdb.Tests.Machine.{Machine, machine, stopped, no_bp}
use advanced_unix_progr.Sdb.Tests.Load.{files}
use advanced_unix_progr.Shell.{Shell, begin, round, dispatch, verb_of, begun, line}
use advanced_unix_progr.Shell.Invariant.{Reaches-IsValid}

abbrev power_on : Host Machine
power_on = record { world = stopped []; out = [] }

abbrev raw : List Bp
raw = replicate 10 (record no_bp { addr = 77 })

abbrev at_start : Shell
at_start = record { sdb = sdb_create raw; command = none }

-- `b 4000b0` with no program loaded.
abbrev after_break : Shell
after_break = record at_start { command = some (codes "b") }

starts : begin machine files 2 raw none power_on ≡ ok at_start power_on
unfolding begin
starts = refl

breaks :
    round machine files 2 (codes "b 4000b0\n") at_start power_on
    ≡ ok (some after_break) (record { world = stopped []; out = no_program ∷ [] })
unfolding round words strtok dispatch verb_of str_eq sdb_set_break sdb_is_loaded sdb_create
breaks = refl

Reaches-IsValid_example : IsValid (sdb_create raw)
Reaches-IsValid_example =
    Reaches-IsValid machine files 2 raw none refl (omega arith)
      (line (codes "b 4000b0\n") (begun power_on starts) breaks)

-- The repeated command has no operand, which is not read.
breaks_again :
    round machine files 2 (codes "b\n") at_start power_on
    ≡ ok (some after_break) (record { world = stopped []; out = no_program ∷ [] })
unfolding round words strtok dispatch verb_of str_eq sdb_set_break sdb_is_loaded sdb_create
breaks_again = refl

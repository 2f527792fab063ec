-- ===== src/Sdb/Tests/Views.antt =====
-- Views of small tables, and commands on the concrete machine.
use advanced_unix_progr.Base.{pos, List, [], ◌∷◌, ◌≡◌, refl, codes, str_eq, replicate}
use advanced_unix_progr.Sdb.Host.{Host}
use advanced_unix_progr.Sdb.State.{Sdb, no_pid, sdb_is_loaded, sdb_is_running}
use advanced_unix_progr.Sdb.Breaks.View.{view}
use advanced_unix_progr.Sdb.Breaks.View.Edits.{
  Edit, break_at, delete, steps, edits, view_of, IsEditable, edits-steps,
}
use advanced_unix_progr.Sdb.Tests.Machine.{Machine, machine, stopped, no_bp, debugger}

abbrev idle : Sdb
idle = record (debugger (replicate 10 no_bp)) { pid = no_pid }

abbrev at_prompt : Host Machine
at_prompt = record { world = stopped []; out = [] }

abbrev session : List Edit
session = break_at (codes "0x4000b0") ∷ break_at (codes "4000c6") ∷ delete (pos 0) ∷ []

idle-IsEditable : IsEditable machine idle
unfolding sdb_is_loaded sdb_is_running str_eq
idle-IsEditable = (refl, refl, refl)

edits-steps_example :
    view_of machine (edits machine session idle at_prompt) ≡ steps session (view idle.breaks)
edits-steps_example = edits-steps machine session idle at_prompt idle-IsEditable

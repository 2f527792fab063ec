-- ===== src/Sdb/Tests/Breaks.antt =====
-- The table of break points and the loop over `waitpid` at the concrete machine.
use advanced_unix_progr.Base.{
  ℕ, zero, suc, ◌<◌, pos, true, false, List, [], ◌∷◌, none, some, ◌≡◌, ◌≢◌, refl, arith, ◌==◌,
  if◌then◌else◌, replicate, codes, str_eq,
}
use advanced_unix_progr.Cstd.{scan_hex}
use advanced_unix_progr.Sdb.Host.{Host, ok, fault, uninitialised, ◌>>=◌}
use advanced_unix_progr.Sdb.State.{Bp, Sdb, no_pid, sdb_is_loaded, sdb_is_running}
use advanced_unix_progr.Sdb.Patch.{wait}
use advanced_unix_progr.Sdb.Breaks.{skip_prefix, free_slot, sdb_set_break, sdb_delete}
use advanced_unix_progr.Sdb.Breaks.Table.{
  entry, without, IsTold, sdb_set_break-entry, sdb_set_break-full, sdb_delete-entry,
}
use advanced_unix_progr.Sdb.Resume.{wait_loop}
use advanced_unix_progr.Sdb.Resume.Waiting.{one_pass, wait_loop-one_pass}
use advanced_unix_progr.Sdb.Tests.Machine.{
  Machine, machine, stopped, bp_at, no_bp, debugger, machine-WaitsOnce, continued, sigtrap,
}

abbrev idle : Host Machine
idle = record { world = stopped []; out = [] }

-- Ten slots, of which the first and the third are used.
abbrev two_breaks : Sdb
two_breaks = debugger (
    bp_at 0x4000b0
    ∷ no_bp
    ∷ bp_at 0x4000c6
    ∷ no_bp
    ∷ no_bp
    ∷ no_bp
    ∷ no_bp
    ∷ no_bp
    ∷ no_bp
    ∷ no_bp
    ∷ [])

abbrev two_idle : Sdb
two_idle = record two_breaks { pid = no_pid }

abbrev all_used : Sdb
all_used = record two_breaks { breaks = replicate 10 (bp_at 0x4000b0) }

loaded : sdb_is_loaded two_idle ≡ true
unfolding sdb_is_loaded str_eq
loaded = refl

not_running : sdb_is_running two_idle ≡ false
unfolding sdb_is_running
not_running = refl

second_free : free_slot 0 two_idle.breaks ≡ some 1
unfolding free_slot
second_free = refl

scanned : scan_hex (skip_prefix (codes "0x4000cf")) ≡ some 0x4000cf
unfolding scan_hex
scanned = refl

scanned_plain : scan_hex (skip_prefix (codes "4000cf")) ≡ some 0x4000cf
unfolding scan_hex
scanned_plain = refl

sdb_set_break-entry_example :
    (breaks' : List Bp) × (sdb_set_break machine two_idle (codes "0x4000cf") idle
      ≡ ok (record two_idle { breaks = breaks' }) idle)
    × (entry two_idle.breaks 1 ≡ none)
    × ((j : ℕ) → j < 1 → entry two_idle.breaks j ≢ none)
    × ((j : ℕ) → entry breaks' j ≡ (if 1 == j then some 0x4000cf else entry two_idle.breaks j))
sdb_set_break-entry_example =
    sdb_set_break-entry machine two_idle idle (codes "0x4000cf") 0x4000cf loaded not_running scanned
      1 second_free

full_table : (n j : ℕ) → j < n → entry (replicate n (bp_at 0x4000b0)) j ≢ none
full_table zero j h = elim h [ ]
full_table (suc n) zero h = ground arith
full_table (suc n) (suc j) h = full_table n j (omega arith)

loaded_used : sdb_is_loaded all_used ≡ true
unfolding sdb_is_loaded str_eq
loaded_used = refl

sdb_set_break-full_example :
    sdb_set_break machine all_used (codes "4000cf") idle ≡ fault uninitialised
sdb_set_break-full_example =
    sdb_set_break-full machine all_used idle (codes "4000cf") 0x4000cf loaded_used scanned_plain
      (full_table 10)

sdb_delete-entry_example :
    (breaks' : List Bp) × (h' : Host Machine) × (sdb_delete machine two_breaks (pos 2) idle
      ≡ ok (record two_breaks { breaks = breaks' }) h')
    × ((j : ℕ) → entry breaks' j ≡ without (pos 2) j (entry two_breaks.breaks j))
    × IsTold machine two_breaks idle (pos 2) (entry two_breaks.breaks 2) breaks' h'
sdb_delete-entry_example = sdb_delete-entry machine two_breaks idle (pos 2) refl

-- The process has been continued, and its next stop is a trap.
abbrev resumed : Host Machine
resumed = record {
  world = continued (stopped (record { status = sigtrap; at = 0x4000c7 } ∷ []));
  out = [];
}

wait_loop-one_pass_example :
    wait_loop machine 2 two_breaks none resumed
    ≡ (wait machine two_breaks >>= one_pass machine two_breaks none) resumed
wait_loop-one_pass_example =
    wait_loop-one_pass machine two_breaks (machine-WaitsOnce (pos 7)) 0 none resumed

-- ===== src/Sdb/Tests/Launched.antt =====
-- `run` at the concrete machine, from `fork` to a break point.
use advanced_unix_progr.Base.{
  ℕ, ◌+◌, ◌%◌, ◌≤◌, ◌<◌, ◌⊎◌, pos, true, false, [], ◌∷◌, some, str_eq, ◌≡◌, refl, arith,
}
use advanced_unix_progr.Sdb.Host.{Host, started, ok, and_then, pure}
use advanced_unix_progr.Sdb.State.{Sdb, no_pid, sdb_is_loaded, sdb_is_running}
use advanced_unix_progr.Sdb.Kernel.{IsMapped}
use advanced_unix_progr.Sdb.Patch.{
  bp_addr, patch_breaks, patch_bp, patch_used, patch_at, poke_trap, step_off, is_trapped, trap_word,
  sdb_patch_all_bp,
}
use advanced_unix_progr.Sdb.Patch.Traps.{traps}
use advanced_unix_progr.Sdb.Resume.{sdb_run}
use advanced_unix_progr.Sdb.Resume.Hit.{report_hit}
use advanced_unix_progr.Sdb.Resume.Launched.{running_as, sdb_run-hit}
use advanced_unix_progr.Sdb.Tests.Machine.{
  Machine, machine, machine_text, machine_mapped, stopped, no_bp, debugger, sigtrap, word_at, store,
  report, continued,
}
use advanced_unix_progr.Sdb.Tests.Resume.{
  event, target, saved, located, machine-RegsAreKept, machine-CanSetRegs,
}

abbrev idle : Sdb
idle = record (debugger (target ∷ no_bp ∷ [])) { pid = no_pid }

abbrev before : Host Machine
before = record { world = stopped (event sigtrap 0x4000c7 ∷ []); out = [] }

abbrev forked : Machine
forked = record (before.world) { pending = some (event sigtrap 0x4000b0) }

abbrev loaded : Machine
loaded = report forked (event sigtrap 0x4000b0)

-- After `sdb_patch_all_bp`.
abbrev armed : Host Machine
armed = record {
  world = record loaded { memory = store (λ a. 0x90) 0x4000c6 0x90909090909090cc };
  out = started (pos 7) ∷ [];
}

arms :
    sdb_patch_all_bp machine
      (running_as 7 idle)
      (record { world = loaded; out = started (pos 7) ∷ [] })
    ≡ ok (record (running_as 7 idle) { breaks = saved ∷ no_bp ∷ [] }) armed
unfolding sdb_patch_all_bp patch_breaks patch_bp patch_used patch_at poke_trap step_off is_trapped
    trap_word bp_addr word_at
arms = refl

is_loaded : sdb_is_loaded idle ≡ true
unfolding sdb_is_loaded str_eq
is_loaded = refl

is_idle : sdb_is_running idle ≡ false
unfolding sdb_is_running
is_idle = refl

no_slots_before : (j : ℕ) → j < 8 → traps (λ a. a) [] (0x4000c6 + j) ≡ false
no_slots_before j h = refl

sdb_run-hit_example :
    let w₅ = report (continued armed.world) (event sigtrap 0x4000c7) in
    (w' : Machine) × (sdb_run machine 1 idle before
      ≡ and_then
          (report_hit machine
            (running_as 7 idle)
            (λ a. a)
            (machine_text (pos 7))
            0
            target
            (record armed { world = w' }))
          (λ _. pure (record (running_as 7 idle) { breaks = saved ∷ no_bp ∷ [] })))
    × (w'.regs.rip ≡ 0x4000c6)
    × ((j : ℕ) → j < 8 → w'.memory (0x4000c6 + j) % 256 ≡ 0x90)
    × ((b : ℕ) → (b < 0x4000c6) ⊎ (0x4000c6 + 8 ≤ b) → w'.memory b % 256 ≡ w₅.memory b % 256)
sdb_run-hit_example =
    sdb_run-hit machine idle (λ a. a) 7 (machine_text (pos 7)) 0 sigtrap before armed
      (saved ∷ no_bp ∷ []) forked loaded loaded (continued armed.world)
      (report (continued armed.world) (event sigtrap 0x4000c7)) sigtrap 0 target machine-RegsAreKept
      machine-CanSetRegs is_loaded is_idle refl refl refl refl refl (located _, (located _, tt))
      (mapped 0x4000c6, (mapped 0, tt)) arms refl refl refl refl refl (omega arith) no_slots_before
  where
    mapped : (a : ℕ) {P : Type 0} → P → IsMapped machine (pos 7) (machine_text (pos 7)) a
    mapped a _ = machine_mapped (pos 7) a

-- ===== src/Sdb/Tests/Resume.antt =====
-- `cont` at the concrete machine: to a break point, to the end, and to a stop of another kind.
use advanced_unix_progr.Base.{
  ℕ, ◌+◌, ◌%◌, ◌≤◌, ◌<◌, ◌⊎◌, pos, true, [], ◌∷◌, ◌≡◌, refl, ap, sym, get_elem?, some, ◌/◌, ◌^◌,
}
use mathlib.Core.Option.{some-injective}
use advanced_unix_progr.Sdb.Host.{Host, ok, blocked, and_then, pure}
use advanced_unix_progr.Sdb.State.{Bp, Sdb, no_pid, sdb_is_running}
use advanced_unix_progr.Sdb.Kernel.{RegsAreKept, CanSetRegs}
use advanced_unix_progr.Sdb.Patch.{
  bp_addr, patch_breaks, patch_bp, patch_used, patch_at, poke_trap, step_off, is_trapped, trap_word,
  sdb_patch_all_bp,
}
use advanced_unix_progr.Sdb.Patch.Slot.{bp_addr-static}
use advanced_unix_progr.Sdb.Resume.{sdb_cont, goodbye}
use advanced_unix_progr.Sdb.Resume.Hit.{report_hit}
use advanced_unix_progr.Sdb.Resume.Cont.{sdb_cont-hit}
use advanced_unix_progr.Sdb.Resume.Ends.{sdb_cont-exit, sdb_cont-foreign_stop}
use advanced_unix_progr.Sdb.Tests.Machine.{
  Machine, Event, machine, machine_text, machine_mapped, stopped, bp_at, no_bp, handle, debugger,
  sigtrap, word_at, machine-WaitsOnce, store, report, continued,
}

abbrev pub target : Bp
target = bp_at 0x4000c6

abbrev sdb : Sdb
sdb = debugger (target ∷ no_bp ∷ [])

abbrev pub saved : Bp
saved = record target { original_word = 0x9090909090909090 }

abbrev pub event : ℕ → ℕ → Event
event status at = record { status = status; at = at }

abbrev start : Event → Host Machine
start e = record { world = stopped (e ∷ []); out = [] }

-- After `sdb_patch_all_bp`.
abbrev armed : Event → Host Machine
armed e = record {
  world = record (stopped (e ∷ [])) { memory = store (λ a. 0x90) 0x4000c6 0x90909090909090cc };
  out = [];
}

arms :
    (e : Event)
    → sdb_patch_all_bp machine sdb (start e)
      ≡ ok (record sdb { breaks = saved ∷ no_bp ∷ [] }) (armed e)
unfolding sdb_patch_all_bp patch_breaks patch_bp patch_used patch_at poke_trap step_off is_trapped
    trap_word bp_addr word_at
arms e = refl

pub located : (bp : Bp) (h : Host Machine) → bp_addr machine sdb bp h ≡ ok bp.addr h
located bp h = bp_addr-static machine sdb handle bp h refl refl

pub machine-RegsAreKept : RegsAreKept machine
machine-RegsAreKept p regs w w' e = ap (λ (m : Machine). m.regs) (sym (some-injective _ _ e))

pub machine-CanSetRegs : CanSetRegs machine (pos 7) (machine_text (pos 7))
machine-CanSetRegs regs w s = (record w { regs = regs }, refl)

running : sdb_is_running sdb ≡ true
unfolding sdb_is_running
running = refl

sdb_cont-hit_example :
    let e = event sigtrap 0x4000c7 in
    let w₂ = report (continued (armed e).world) e in
    (w' : Machine) × (bp' : Bp) × (get_elem? (saved ∷ no_bp ∷ []) 0 ≡ some bp')
    × (sdb_cont machine 1 sdb (start e)
        ≡ and_then
            (report_hit machine sdb
              (λ a. a)
              (machine_text (pos 7))
              0
              target
              (record (armed e) { world = w' }))
            (λ _. pure (record sdb { breaks = saved ∷ no_bp ∷ [] })))
    × (w'.regs.rip ≡ 0x4000c6)
    × ((j : ℕ) → j < 8 → w'.memory (0x4000c6 + j) % 256 ≡ bp'.original_word / 256 ^ j % 256)
    × ((b : ℕ) → (b < 0x4000c6) ⊎ (0x4000c6 + 8 ≤ b) → w'.memory b % 256 ≡ w₂.memory b % 256)
sdb_cont-hit_example =
    let e = event sigtrap 0x4000c7 in
    sdb_cont-hit machine sdb (λ a. a) (machine_text (pos 7)) 0 (start e) (armed e)
      (saved ∷ no_bp ∷ []) (continued (armed e).world) (report (continued (armed e).world) e)
      sigtrap 0 target machine-RegsAreKept machine-CanSetRegs running (located _, (located _, tt))
      (machine_mapped (pos 7) 0x4000c6) (arms e) refl refl refl refl refl

sdb_cont-exit_example :
    let e = event 0 0x4000d0 in
    (w : Machine) × (sdb_cont machine 2 sdb (start e)
      ≡ ok
          (record sdb { pid = no_pid; breaks = saved ∷ no_bp ∷ [] })
          (record { world = w; out = goodbye machine (pos 7) 0 ∷ [] }))
sdb_cont-exit_example =
    let e = event 0 0x4000d0 in
    sdb_cont-exit machine sdb (record sdb { breaks = saved ∷ no_bp ∷ [] }) (start e) (armed e)
      (continued (armed e).world) 0 0 (report (continued (armed e).world) e) running (arms e) refl
      (machine-WaitsOnce (pos 7)) refl refl

-- A segmentation fault at 0x4000d0.
sdb_cont-foreign_stop_example : sdb_cont machine 2 sdb (start (event 0xb7f 0x4000d0)) ≡ blocked
sdb_cont-foreign_stop_example =
    let e = event 0xb7f 0x4000d0 in
    sdb_cont-foreign_stop machine sdb (record sdb { breaks = saved ∷ no_bp ∷ [] }) (start e)
      (armed e) (continued (armed e).world) 0 (λ a. a) 0xb7f (report (continued (armed e).world) e)
      running (arms e) refl (machine-WaitsOnce (pos 7)) refl refl (found _, (found _, tt)) refl
  where
    found :
        (bp : Bp) (h : Host Machine)
        → bp_addr machine (record sdb { breaks = saved ∷ no_bp ∷ [] }) bp h ≡ ok bp.addr h
    found bp h = bp_addr-static machine _ handle bp h refl refl

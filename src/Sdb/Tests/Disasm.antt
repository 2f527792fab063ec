-- ===== src/Sdb/Tests/Disasm.antt =====
-- `disasm` at the concrete machine, with a trap in the code.
use advanced_unix_progr.Base.{
  ℕ, ◌+◌, ◌/◌, ◌%◌, ◌^◌, ◌<◌, pos, true, List, [], ◌∷◌, some, ◌≡◌, refl, sym, arith, length,
  get_elem?, ◌==◌, if◌then◌else◌,
}
use mathlib.Core.Bool.{false≢true}
use advanced_unix_progr.Sdb.Host.{Host}
use advanced_unix_progr.Sdb.State.{Bp, Sdb}
use advanced_unix_progr.Sdb.Patch.Slot.{bp_addr-static}
use advanced_unix_progr.Sdb.Patch.Traps.{traps}
use advanced_unix_progr.Sdb.Memory.{disasm_memory, show_disasm}
use advanced_unix_progr.Sdb.Memory.Disasm.{as_given, disasm_memory-code}
use advanced_unix_progr.Sdb.Tests.Machine.{
  Machine, machine, machine_text, machine_mapped, stopped, no_bp, handle, debugger, word_at,
  word_at_byte,
}

abbrev nops : ℕ → ℕ
nops b = 0x90

abbrev armed : Bp
armed = record { is_used = true; addr = 0x4000b0; original_word = word_at nops 0x4000b0 8 }

abbrev sdb : Sdb
sdb = debugger (armed ∷ no_bp ∷ [])

abbrev trapped : Host Machine
trapped = record {
  world = record (stopped []) { memory = λ b. if b == 0x4000b0 then 0xcc else 0x90 };
  out = [];
}

saved : (j : ℕ) → j < 8 → armed.original_word / 256 ^ j % 256 ≡ nops (0x4000b0 + j)
saved j below = sym (word_at_byte 8 0x4000b0 j nops below)

disasm_memory-code_example :
    (buffer : List ℕ) × (breaks' : List Bp) × (h' : Host Machine) × (length buffer ≡ 64)
    × ((i : ℕ) → i < 64 → get_elem? buffer i ≡ some 0x90)
    × (disasm_memory machine sdb 0x4000b0 trapped
        ≡ show_disasm machine (record sdb { breaks = breaks' }) (machine.disasm buffer 0x4000b0) h')
    × ((b : ℕ) → h'.world.memory b % 256 ≡ (if traps as_given sdb.breaks b then 0xcc else 0x90))
disasm_memory-code_example =
    disasm_memory-code machine sdb (machine_text (pos 7)) nops 0x4000b0 trapped (omega arith) refl
      refl (λ a above below. machine_mapped (pos 7) a)
      (
        λ h. bp_addr-static machine sdb handle armed h refl refl,
        (λ h. bp_addr-static machine sdb handle no_bp h refl refl, tt),
      )
      (
        λ used. (machine_mapped (pos 7) 0x4000b0, saved),
        (λ used. (machine_mapped (pos 7) no_bp.addr, absurd (false≢true used)), tt),
      )
      (λ b. ground arith)

-- ===== src/Sdb/Tests/Unstarted.antt =====
-- `disasm` of a small program that does not run.
use advanced_unix_progr.Base.{false, [], ◌∷◌, some, ◌≡◌, refl, arith, codes, replicate, str_eq}
use advanced_unix_progr.Cstd.{scan_hex}
use advanced_unix_progr.Elf.{Handle, Shdr}
use advanced_unix_progr.Sdb.Host.{Host, instruction, echo, ok}
use advanced_unix_progr.Sdb.State.{Sdb, no_pid, sdb_is_running}
use advanced_unix_progr.Sdb.Breaks.{skip_prefix}
use advanced_unix_progr.Sdb.Code.{show_bytes}
use advanced_unix_progr.Sdb.Memory.{sdb_disasm}
use advanced_unix_progr.Sdb.Memory.Unstarted.{sdb_disasm-section}
use advanced_unix_progr.Sdb.Tests.Load.{section}
use advanced_unix_progr.Sdb.Tests.Machine.{Machine, machine, stopped, handle, debugger, nop}

abbrev null_section : Shdr
null_section = record (section 0 0 0 0) { addr = 0 }

abbrev text_section : Shdr
text_section = section 1 1 16 176

abbrev with_headers : Handle
with_headers = record handle { shnum = 2; shdr = some (null_section ∷ text_section ∷ []) }

abbrev idle : Sdb
idle = record (debugger []) { eh = some with_headers; pid = no_pid }

abbrev at_prompt : Host Machine
at_prompt = record { world = stopped []; out = [] }

is_idle : sdb_is_running idle ≡ false
unfolding sdb_is_running
is_idle = refl

not_empty : str_eq (codes "0x4000b2") [] ≡ false
unfolding str_eq
not_empty = refl

scanned : scan_hex (skip_prefix (codes "0x4000b2")) ≡ some 0x4000b2
unfolding scan_hex
scanned = refl

sdb_disasm-section_example :
    sdb_disasm machine idle (codes "0x4000b2") at_prompt
    ≡ ok
        (record idle { last_disasm_addr = 0x4000b4 })
        (record at_prompt {
          out =
              instruction 0x4000b3 (codes "90 ") (codes "nop") []
              ∷ instruction 0x4000b2 (codes "90 ") (codes "nop") []
              ∷ echo (codes "0x4000b2")
              ∷ [];
        })
unfolding show_bytes
sdb_disasm-section_example =
    sdb_disasm-section machine idle at_prompt (codes "0x4000b2") 0x4000b2 with_headers
      (null_section ∷ text_section ∷ []) (null_section ∷ []) [] text_section (replicate 64 0x90)
      (nop 0x4000b2) (nop 0x4000b3 ∷ []) is_idle refl refl refl
      (((omega arith, omega arith), refl), tt) (omega arith, omega arith) refl not_empty scanned
      refl refl (omega arith, (omega arith, tt))

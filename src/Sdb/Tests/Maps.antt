-- ===== src/Sdb/Tests/Maps.antt =====
-- The base of a position-independent program in a small /proc/<pid>/maps.
use advanced_unix_progr.Base.{Text, [], ◌∷◌, some, ◌≡◌, refl, codes, str_eq}
use advanced_unix_progr.Cstd.{strtok, before_char, basename, scan_hex}
use advanced_unix_progr.Sdb.Host.{Host, ok}
use advanced_unix_progr.Sdb.Kernel.{Kernel}
use advanced_unix_progr.Sdb.Maps.{convert_dynamic_addr}
use advanced_unix_progr.Sdb.Maps.Chosen.{HasRange, convert_dynamic_addr-chosen}
use advanced_unix_progr.Sdb.Tests.Machine.{Machine, machine, stopped, debugger}

-- The headers of the program, its code, and a library.
abbrev header_line : Text
header_line = codes "5000-6000 r--p 00000000 08:01 42 /tmp/guess"

abbrev code_line : Text
code_line = codes "6000-7000 r-xp 00001000 08:01 42 /tmp/guess"

abbrev library_line : Text
library_line = codes "7f00-8000 r-xp 00000000 08:01 43 /lib/ld.so"

abbrev with_maps : Kernel
with_maps = record machine { maps = λ p m. some (header_line ∷ code_line ∷ library_line ∷ []) }

abbrev at_prompt : Host Machine
at_prompt = record { world = stopped []; out = [] }

header-HasRange : HasRange header_line
unfolding strtok before_char
header-HasRange = (_, _, _, refl, refl)

code-HasRange : HasRange code_line
unfolding strtok before_char
code-HasRange = (_, _, _, refl, refl)

library-HasRange : HasRange library_line
unfolding strtok before_char
library-HasRange = (_, _, _, refl, refl)

convert_dynamic_addr-chosen_example :
    convert_dynamic_addr with_maps (debugger []) 0x9cc at_prompt ≡ ok 0x69cc at_prompt
unfolding strtok before_char str_eq basename scan_hex
convert_dynamic_addr-chosen_example =
    convert_dynamic_addr-chosen with_maps (debugger []) 0x9cc at_prompt header_line
      (code_line ∷ library_line ∷ []) refl
      (header-HasRange, (code-HasRange, (library-HasRange, tt)))

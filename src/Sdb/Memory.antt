-- ===== src/Sdb/Memory.antt =====
-- hw4/sdb.h, `sdb_disasm` and `sdb_dump`.
pub mod Dump
pub mod Disasm
pub mod Unstarted
use advanced_unix_progr.Base.{
  ℕ, zero, suc, ◌+◌, ◌-◌, ◌*◌, ◌%◌, ◌^◌, not, ◌&&◌, Text, List, [], ◌∷◌, ◌++◌, map, Option, none,
  some, take, drop, length, str_eq, ltb, leb, if◌then◌else◌, ◌==◌,
}
use advanced_unix_progr.Cstd.{scan_hex}
use advanced_unix_progr.Elf.{Handle, Shdr}
use advanced_unix_progr.Sdb.Host.{
  no_addr, invalid_addr, not_running, patch_failed, disasm_failed, instruction, dump_row, echo,
  null_pointer, uninitialised, out_of_bounds, Cmd, ◌>>=◌, ◌>>◌, need, observe, pure, print, attempt,
  when, fail,
}
use advanced_unix_progr.Sdb.State.{Bp, Sdb, sdb_is_running}
use advanced_unix_progr.Sdb.Kernel.{Kernel, Insn}
use advanced_unix_progr.Sdb.Patch.{sdb_patch_all_bp}
use advanced_unix_progr.Sdb.Breaks.{skip_prefix}
use advanced_unix_progr.Sdb.Code.{bytes_str, word_bytes}

abbrev pub u64 : ℕ → ℕ
u64 n = n % 2 ^ 64

-- A section's offset in the file for an address inside it. The headers are `shnum` many.
unfoldable pub find_offset : ℕ → List Shdr → Option ℕ
find_offset addr [] = none
find_offset addr (s ∷ rest) =
    let later = find_offset addr rest in
    if leb s.addr addr && ltb addr (u64 (s.addr + s.size))
    then some (u64 (s.offset + addr + 2 ^ 64 - s.addr))
    else later

abbrev pub buffer_size : ℕ
buffer_size = 64

abbrev pub dump_size : ℕ
dump_size = 80

abbrev pub shown_char : ℕ → ℕ
shown_char c = if leb 32 c && leb c 126 then c else b'.'

-- The section headers, where the loop over them reads any.
abbrev pub headers : Handle → Option (List Shdr)
headers eh = if eh.shnum == 0 then some [] else eh.shdr

module _ (K : Kernel) where
  open K use {World, peektext, poketext, read_file, disasm}

  -- The loop over `PTRACE_PEEKTEXT`, with the rounds that the buffer allows; the bytes read.
  unfoldable pub read_words : ℕ → Sdb → ℕ → ℕ → World → List ℕ
  read_words zero sdb ptr limit w = []
  read_words (suc left) sdb ptr limit w =
      let rest = read_words left sdb (u64 (ptr + 8)) limit w in
      if ltb ptr limit
      then elim (peektext sdb.pid ptr w) [ none ↦ [] | some word ↦ word_bytes word ++ rest ]
      else []

  unfoldable pub read_memory : Sdb → ℕ → ℕ → World → List ℕ
  unfolding read_words
  read_memory sdb words addr w = read_words words sdb addr (u64 (addr + words * 8)) w

  -- The original words are put back, at the addresses as they were given.
  unfoldable pub restore_breaks : Sdb → List Bp → Cmd World (Unit {0})
  restore_breaks sdb [] = pure tt
  restore_breaks sdb (bp ∷ rest) = do
    when bp.is_used (
        attempt (poketext sdb.pid bp.addr bp.original_word) >>= λ done.
        when (not done) (print patch_failed))
    restore_breaks sdb rest

  -- At most `left` instructions are printed, and `last_disasm_addr` moves behind each.
  unfoldable pub show_code : ℕ → List Insn → Sdb → Cmd World Sdb
  show_code zero insns sdb = pure sdb
  show_code (suc left) [] sdb = pure sdb
  show_code (suc left) (insn ∷ rest) sdb = do
    bytes ← need out_of_bounds (bytes_str insn)
    print (instruction insn.address bytes insn.mnemonic insn.op_str)
    show_code left rest (record sdb { last_disasm_addr = u64 (sdb.last_disasm_addr + insn.size) })

  unfoldable pub show_disasm : Sdb → List Insn → Cmd World Sdb
  unfolding show_code
  show_disasm sdb [] = print disasm_failed >> pure sdb
  show_disasm sdb (insn ∷ rest) = show_code 10 (insn ∷ rest) sdb

  -- The file's bytes for an address inside a section, at their offset.
  abbrev pub disasm_offset : Sdb → ℕ → Option ℕ → Cmd World Sdb
  disasm_offset sdb addr none = print invalid_addr >> pure sdb
  disasm_offset sdb addr (some offset) =
      observe (read_file sdb.path offset) >>= need null_pointer >>= λ buffer.
      show_disasm sdb (disasm (take buffer_size buffer) addr)

  unfoldable pub disasm_file : Sdb → ℕ → Cmd World Sdb
  unfolding show_disasm find_offset
  disasm_file sdb addr = do
    eh ← need null_pointer sdb.eh
    shdr ← need null_pointer (headers eh)
    disasm_offset sdb addr (find_offset addr (take eh.shnum shdr))

  unfoldable pub disasm_memory : Sdb → ℕ → Cmd World Sdb
  unfolding restore_breaks read_memory show_disasm
  disasm_memory sdb addr = do
    restore_breaks sdb sdb.breaks
    buffer ← observe (read_memory sdb 8 addr)
    sdb' ← sdb_patch_all_bp K sdb
    show_disasm sdb' (disasm buffer addr)

  unfoldable pub disasm_at : Sdb → ℕ → Cmd World Sdb
  unfolding disasm_file disasm_memory
  disasm_at sdb addr = if sdb_is_running sdb then disasm_memory sdb addr else disasm_file sdb addr

  unfoldable pub sdb_disasm : Sdb → Text → Cmd World Sdb
  unfolding disasm_at
  sdb_disasm sdb addr_str = do
    print (echo addr_str)
    if str_eq addr_str []
        then (if sdb.last_disasm_addr == 0
            then (print no_addr >> pure sdb)
            else disasm_at sdb sdb.last_disasm_addr)
        else (need uninitialised (scan_hex (skip_prefix addr_str)) >>= λ addr.
            disasm_at (record sdb { last_disasm_addr = addr }) addr)

  -- The five rows of 16 bytes.
  unfoldable pub dump_rows : ℕ → ℕ → List ℕ → Cmd World (Unit {0})
  dump_rows zero addr buffer = pure tt
  dump_rows (suc left) addr buffer = do
    print (dump_row addr (take 16 buffer) (map shown_char (take 16 buffer)))
    dump_rows left (u64 (addr + 16)) (drop 16 buffer)

  -- Bytes that the loop did not reach were never written.
  abbrev pub dump_buffer : ℕ → List ℕ → Cmd World (Unit {0})
  dump_buffer addr buffer =
      if length buffer == dump_size then dump_rows 5 addr buffer else fail uninitialised

  unfoldable pub sdb_dump : Sdb → Text → Cmd World (Unit {0})
  unfolding read_memory dump_rows
  sdb_dump sdb addr_str =
      if str_eq addr_str []
      then print no_addr
      else if not (sdb_is_running sdb)
      then print not_running
      else do
        addr ← need uninitialised (scan_hex (skip_prefix addr_str))
        buffer ← observe (read_memory sdb 10 addr)
        dump_buffer addr buffer

-- ===== src/Sdb/Memory/Unstarted.antt =====
-- `disasm` of a program that does not run: which bytes of the file are shown, and what comes next.
use advanced_unix_progr.Base.{
  ℕ, zero, suc, ◌+◌, ◌-◌, ◌*◌, ◌^◌, ◌≤◌, ◌<◌, Bool, true, false, ◌&&◌, Text, List, [], ◌∷◌, ◌++◌,
  some, ◌≡◌, refl, ap, ◌∙◌, arith, length, take, ltb, leb, str_eq, All,
}
use advanced_unix_progr.Cstd.{scan_hex}
use advanced_unix_progr.Cstd.Bounds.{scan_hex-lt}
use advanced_unix_progr.Elf.{Handle, Shdr}
use advanced_unix_progr.Sdb.Host.{Message, echo, instruction, Host, ok}
use advanced_unix_progr.Sdb.State.{Sdb, sdb_is_running}
use advanced_unix_progr.Sdb.Kernel.{Kernel, Insn}
use advanced_unix_progr.Sdb.Breaks.{skip_prefix}
use advanced_unix_progr.Sdb.Code.{show_bytes, bytes_str}
use advanced_unix_progr.Sdb.Memory.{
  u64, find_offset, headers, show_code, show_disasm, disasm_file, disasm_at, sdb_disasm,
  buffer_size,
}

-- The address lies in the section.
abbrev pub contains : ℕ → Shdr → Bool
contains addr s = leb s.addr addr && ltb addr (s.addr + s.size)

-- The section ends below 2 ^ 64, in memory and in the file.
abbrev pub IsPlaced : Shdr → Type 0
IsPlaced s = (s.addr + s.size < 2 ^ 64) × (s.offset + s.size < 2 ^ 64)

-- The first section that has the address decides the offset.
find_offset-first :
    (addr : ℕ) (before after : List Shdr) (s : Shdr)
    → All (λ t. IsPlaced t × (contains addr t ≡ false)) before
    → IsPlaced s
    → contains addr s ≡ true
    → find_offset addr (before ++ (s ∷ after)) ≡ some (s.offset + (addr - s.addr))
unfolding find_offset
find_offset-first addr [] after s none_before placed has =
    let tested : (leb s.addr addr && ltb addr (u64 (s.addr + s.size))) ≡ true = ground arith in
    let inside : (s.addr ≤ addr) × (addr < s.addr + s.size) = ground arith in
    let offset : u64 (s.offset + addr + 2 ^ 64 - s.addr) ≡ s.offset + (addr - s.addr) =
      omega (arith, inside.0, inside.1, placed.0, placed.1) in
    rw (tested, offset) refl
find_offset-first addr (t ∷ before) after s ((placed_t, others), others_before) placed has =
    let tested : (leb t.addr addr && ltb addr (u64 (t.addr + t.size))) ≡ false = ground arith in
    rw tested (find_offset-first addr before after s others_before placed has)

length-show_bytes : (bs : List ℕ) → length (show_bytes bs) ≡ 3 * length bs
unfolding show_bytes
length-show_bytes [] = refl
length-show_bytes (b ∷ bs) = omega (arith, length-show_bytes bs)

length-take_le : (n : ℕ) (bs : List ℕ) → length (take n bs) ≤ n
length-take_le zero bs = omega arith
length-take_le (suc n) [] = omega arith
length-take_le (suc n) (b ∷ bs) = omega (arith, length-take_le n bs)

-- An instruction whose bytes fit as text.
abbrev pub IsShort : Insn → Type 0
IsShort insn = insn.size ≤ 5

bytes_str-IsShort :
    (insn : Insn) → IsShort insn → bytes_str insn ≡ some (show_bytes (take insn.size insn.bytes))
unfolding bytes_str
bytes_str-IsShort insn short =
    let bs = take insn.size insn.bytes in
    let fits : ltb (length (show_bytes bs)) 16 ≡ true =
      ground (arith, length-show_bytes bs, length-take_le insn.size insn.bytes) in
    rw fits refl

-- The line of an instruction, and the lines of some behind others.
abbrev pub line_of : Insn → Message
line_of insn =
    instruction insn.address (show_bytes (take insn.size insn.bytes)) insn.mnemonic insn.op_str

abbrev pub lines_onto : List Insn → List Message → List Message
lines_onto [] out = out
lines_onto (insn ∷ rest) out = lines_onto rest (line_of insn ∷ out)

-- How many bytes some instructions take.
abbrev pub total : List Insn → ℕ
total [] = 0
total (insn ∷ rest) = insn.size + total rest

module _ (K : Kernel) where
  open K use {World, read_file, disasm}

  show_code-lines :
      (left : ℕ) (insns : List Insn) (sdb : Sdb) (h : Host World)
      → sdb.last_disasm_addr < 2 ^ 64
      → All IsShort (take left insns)
      → show_code K left insns sdb h
        ≡ ok
            (record sdb { last_disasm_addr = u64 (sdb.last_disasm_addr + total (take left insns)) })
            (record h { out = lines_onto (take left insns) h.out })
  unfolding show_code
  show_code-lines zero insns sdb h small short =
      ap (λ a. ok (record sdb { last_disasm_addr = a }) h) (omega (arith, small))
  show_code-lines (suc left) [] sdb h small short =
      ap (λ a. ok (record sdb { last_disasm_addr = a }) h) (omega (arith, small))
  show_code-lines (suc left) (insn ∷ rest) sdb h small short =
      let next = u64 (sdb.last_disasm_addr + insn.size) in
      rw (bytes_str-IsShort insn short.0) (
        show_code-lines left rest (record sdb { last_disasm_addr = next })
          (record h { out = line_of insn ∷ h.out }) (omega arith) short.1
        ∙ ap
            (λ a.
              ok (record sdb { last_disasm_addr = a })
                (record h { out = lines_onto (take left rest) (line_of insn ∷ h.out) }))
            (omega arith))

  still_idle :
      (sdb : Sdb) (addr : ℕ)
      → sdb_is_running sdb ≡ false
      → sdb_is_running (record sdb { last_disasm_addr = addr }) ≡ false
  unfolding sdb_is_running
  still_idle sdb addr idle = idle

  -- `disasm` of an address that can be read, in a program that is loaded and does not run, where the
  -- first section that has the address is `s`: it reads the file at the place of the address in `s`,
  -- and prints the first ten instructions that the disassembler finds in 64 bytes from there. If
  -- those are at most five bytes long each, it returns, the system is as it was, and the next
  -- `disasm` without an address goes on behind the last one that was printed.
  pub sdb_disasm-section :
      (sdb : Sdb) (h : Host World) (text : Text) (addr : ℕ) (e : Handle)
      (all before after : List Shdr) (s : Shdr) (bytes : List ℕ) (insn : Insn) (rest : List Insn)
      → sdb_is_running sdb ≡ false
      → sdb.eh ≡ some e
      → headers e ≡ some all
      → take e.shnum all ≡ before ++ (s ∷ after)
      → All (λ t. IsPlaced t × (contains addr t ≡ false)) before
      → IsPlaced s
      → contains addr s ≡ true
      → str_eq text [] ≡ false
      → scan_hex (skip_prefix text) ≡ some addr
      → read_file sdb.path (s.offset + (addr - s.addr)) h.world ≡ some bytes
      → disasm (take buffer_size bytes) addr ≡ insn ∷ rest
      → All IsShort (take 10 (insn ∷ rest))
      → let shown = take 10 (insn ∷ rest) in
        sdb_disasm K sdb text h
        ≡ ok
            (record sdb { last_disasm_addr = u64 (addr + total shown) })
            (record h { out = lines_onto shown (echo text ∷ h.out) })
  unfolding sdb_disasm disasm_at disasm_file show_disasm
  sdb_disasm-section sdb h text addr e all before after s bytes insn rest idle handle loaded
        sections others placed has given scanned reads finds short =
      let sdb' : Sdb = record sdb { last_disasm_addr = addr } in
      let offset = find_offset-first addr before after s others placed has in
      rw
        (
          given,
          scanned,
          still_idle sdb addr idle,
          handle,
          loaded,
          sections,
          offset,
          reads,
          finds,
          ← handle,
        )
        (show_code-lines 10 (insn ∷ rest) sdb' (record h { out = echo text ∷ h.out })
          (scan_hex-lt (skip_prefix text) addr scanned) short)

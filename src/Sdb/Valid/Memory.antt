-- ===== src/Sdb/Valid/Memory.antt =====
-- `disasm` keeps the invariant.
use advanced_unix_progr.Base.{
  ℕ, zero, suc, ◌+◌, ◌^◌, ◌<◌, Text, List, [], ◌∷◌, Option, none, some, refl, arith, str_eq, ◌==◌,
  if◌then◌else◌,
}
use advanced_unix_progr.Cstd.{scan_hex}
use advanced_unix_progr.Cstd.Bounds.{scan_hex-lt}
use advanced_unix_progr.Sdb.Host.{
  Host, Cmd, uninitialised, need, pure, print, no_addr, echo, ◌>>=◌, ◌>>◌,
}
use advanced_unix_progr.Sdb.Host.Ensures.{
  Ensures, returns, Ensures-then, Ensures-if, Ensures-need, ensures_rules,
}
use advanced_unix_progr.Sdb.State.{Sdb}
use advanced_unix_progr.Sdb.Kernel.{Kernel, Insn}
use advanced_unix_progr.Sdb.Patch.{sdb_patch_all_bp}
use advanced_unix_progr.Sdb.Breaks.{skip_prefix}
use advanced_unix_progr.Sdb.Memory.{
  u64, show_code, show_disasm, disasm_offset, disasm_file, disasm_memory, disasm_at, sdb_disasm,
}
use advanced_unix_progr.Sdb.Valid.{IsValid, keep_loaded, sdb_patch_all_bp-IsValid}

disasm_addr-IsValid :
    (sdb : Sdb) (addr : ℕ)
    → addr < 2 ^ 64
    → IsValid sdb
    → IsValid (record sdb { last_disasm_addr = addr })
disasm_addr-IsValid sdb addr fits v = keep_loaded _ sdb v.slots v.addrs fits v.names refl refl v

u64-lt : (n : ℕ) → u64 n < 2 ^ 64
u64-lt n = omega arith

module _ (K : Kernel) where
  open K use {World}

  show_code-IsValid :
      (left : ℕ) (insns : List Insn) (sdb : Sdb) (h : Host World)
      → IsValid sdb
      → Ensures IsValid (show_code K left insns sdb h)
  unfolding show_code
  show_code-IsValid zero insns sdb h v = returns sdb h v
  show_code-IsValid (suc left) [] sdb h v = returns sdb h v
  show_code-IsValid (suc left) (insn ∷ rest) sdb h v = search (
    ensures_rules,
    λ (h : Host World).
        show_code-IsValid left rest
          (record sdb { last_disasm_addr = u64 (sdb.last_disasm_addr + insn.size) }) h
          (disasm_addr-IsValid sdb (u64 (sdb.last_disasm_addr + insn.size))
            (u64-lt (sdb.last_disasm_addr + insn.size)) v),
  )

  show_disasm-IsValid :
      (sdb : Sdb) (insns : List Insn) (h : Host World)
      → IsValid sdb
      → Ensures IsValid (show_disasm K sdb insns h)
  unfolding show_disasm
  show_disasm-IsValid sdb [] h v = returns _ _ v
  show_disasm-IsValid sdb (insn ∷ rest) h v = show_code-IsValid 10 (insn ∷ rest) sdb h v

  disasm_offset-IsValid :
      (sdb : Sdb) (addr : ℕ) (offset : Option ℕ) (h : Host World)
      → IsValid sdb
      → Ensures IsValid (disasm_offset K sdb addr offset h)
  disasm_offset-IsValid sdb addr none h v = returns _ _ v
  disasm_offset-IsValid sdb addr (some offset) h v = search (ensures_rules, show_disasm-IsValid)

  disasm_file-IsValid :
      (sdb : Sdb) (addr : ℕ) (h : Host World)
      → IsValid sdb
      → Ensures IsValid (disasm_file K sdb addr h)
  unfolding disasm_file
  disasm_file-IsValid sdb addr h v = search (ensures_rules, disasm_offset-IsValid)

  disasm_memory-IsValid :
      (sdb : Sdb) (addr : ℕ) (h : Host World)
      → IsValid sdb
      → Ensures IsValid (disasm_memory K sdb addr h)
  unfolding disasm_memory
  disasm_memory-IsValid sdb addr h v = search (
    ensures_rules,
    λ (h : Host World) (buffer : List ℕ).
        Ensures-then (sdb_patch_all_bp K sdb h) (λ sdb'. show_disasm K sdb' (K.disasm buffer addr))
          (sdb_patch_all_bp-IsValid K sdb h v)
          (λ sdb' h' v'. show_disasm-IsValid sdb' (K.disasm buffer addr) h' v'),
  )

  disasm_at-IsValid :
      (sdb : Sdb) (addr : ℕ) (h : Host World)
      → IsValid sdb
      → Ensures IsValid (disasm_at K sdb addr h)
  unfolding disasm_at
  disasm_at-IsValid sdb addr h v =
      search (ensures_rules, disasm_file-IsValid, disasm_memory-IsValid)

  pub sdb_disasm-IsValid :
      (sdb : Sdb) (s : Text) (h : Host World) → IsValid sdb → Ensures IsValid (sdb_disasm K sdb s h)
  unfolding sdb_disasm
  sdb_disasm-IsValid sdb s h v =
      let given = scan_hex (skip_prefix s) in
      let at : ℕ → Cmd World Sdb =
        λ addr. disasm_at K (record sdb { last_disasm_addr = addr }) addr in
      Ensures-if (str_eq s [])
        (if sdb.last_disasm_addr == 0
          then (print no_addr >> pure sdb)
          else disasm_at K sdb sdb.last_disasm_addr)
        (need uninitialised given >>= at) (record h { out = echo s ∷ h.out })
        (λ _. search (ensures_rules, v, disasm_at-IsValid))
        λ _.
          Ensures-then (need uninitialised given _) at
            (Ensures-need uninitialised given _ (scan_hex-lt (skip_prefix s)))
            λ addr h' fits.
              disasm_at-IsValid (record sdb { last_disasm_addr = addr }) addr h'
                (disasm_addr-IsValid sdb addr fits v)

-- ===== src/Sdb/Valid.antt =====
-- The invariant of the debugger's record, and that `sdb_patch_all_bp` keeps it.
pub mod Breaks
pub mod Resume
pub mod Memory
pub mod Load
use advanced_unix_progr.Base.{
  ℕ, zero, suc, ◌^◌, ◌<◌, Bool, true, false, List, [], ◌∷◌, Option, none, some, ◌≡◌, refl, ap, ◌∙◌,
  arith, length, alter, map, All, if◌then◌else◌, Bool-cases, ◌⊎◌, str_eq,
}
use advanced_unix_progr.Elf.{Handle}
use advanced_unix_progr.Elf.Symbols.{find_tab}
use advanced_unix_progr.Sdb.Host.{
  Host, Run, ok, fault, blocked, and_then, Cmd, attempt_from, ◌>>=◌, ◌>>◌, pure, attempt, print,
  observe,
}
use advanced_unix_progr.Sdb.Host.Ensures.{
  Ensures, returns, faults, blocks, runs_out, Ensures-any, Ensures-then, Ensures-if, Ensures-need,
  Ensures-next, ensures_rules,
}
use advanced_unix_progr.Sdb.State.{
  Bp, Sdb, TabPointer, null_tab, dangling_tab, tab, unuse, max_break, no_pid,
}
use advanced_unix_progr.Sdb.Kernel.{Kernel}
use advanced_unix_progr.Sdb.Load.{path_size}
use advanced_unix_progr.Sdb.Patch.{
  Patched, next, stop, bp_addr, step_off, patch_at, poke_trap, patch_used, patch_bp, go_on,
  patch_breaks, sdb_patch_all_bp,
}

-- An address of 64 bits.
abbrev pub HasAddr : Bp → Type 0
HasAddr bp = bp.addr < 2 ^ 64

-- Where the pointer is into tables that are there, a handle is open, and it is to the table of that
-- handle's section names.
abbrev pub HasNames : TabPointer → Option Handle → Type 0
HasNames null_tab eh = Unit
HasNames dangling_tab eh = Unit
HasNames (tab t) none = ⊥
HasNames (tab t) (some e) = find_tab e.shstrndx e.strtab ≡ some t

-- The table has ten slots, all addresses are 64-bit numbers, the path fits its buffer with the NUL,
-- a process is only there where a program is loaded, and the names are those of the open handle.
pub record IsValid (sdb : Sdb) : Type 0 where
  pub slots : length sdb.breaks ≡ max_break
  pub addrs : All HasAddr sdb.breaks
  pub next_disasm : sdb.last_disasm_addr < 2 ^ 64
  pub path_fits : length sdb.path < path_size
  pub names : HasNames sdb.strtab sdb.eh
  pub process : (sdb.pid ≡ no_pid) ⊎ (str_eq sdb.path [] ≡ false)

-- A record with the path and the process of a valid one.
pub keep_loaded :
    (sdb' sdb : Sdb)
    → length sdb'.breaks ≡ max_break
    → All HasAddr sdb'.breaks
    → sdb'.last_disasm_addr < 2 ^ 64
    → HasNames sdb'.strtab sdb'.eh
    → sdb'.path ≡ sdb.path
    → sdb'.pid ≡ sdb.pid
    → IsValid sdb
    → IsValid sdb'
keep_loaded sdb' sdb slots addrs fits names path pid v = record {
  names = names;
  slots = slots;
  addrs = addrs;
  next_disasm = fits;
  path_fits = (rw path v.path_fits);
  process = (rw path (rw pid v.process));
}

-- The slot with which the loop over the table goes on or stops.
abbrev slot : Patched → Bp
slot (next bp) = bp
slot (stop bp) = bp

module _ (K : Kernel) where
  open K use {World}

  poke_trap-addr :
      (sdb : Sdb) (bp : Bp) (addr word : ℕ) (h : Host World)
      → Ensures (λ r. (slot r).addr ≡ bp.addr) (poke_trap K sdb bp addr word h)
  unfolding poke_trap
  poke_trap-addr sdb bp addr word h = search ensures_rules

  patch_used-addr :
      (sdb : Sdb) (bp : Bp) (h : Host World)
      → Ensures (λ r. (slot r).addr ≡ bp.addr) (patch_used K sdb bp h)
  unfolding patch_used patch_at
  patch_used-addr sdb bp h = search (ensures_rules, poke_trap-addr)

  patch_bp-addr :
      (sdb : Sdb) (bp : Bp) (h : Host World)
      → Ensures (λ r. (slot r).addr ≡ bp.addr) (patch_bp K sdb bp h)
  unfolding patch_bp
  patch_bp-addr sdb bp h = search (ensures_rules, patch_used-addr)

  -- A table of a length whose addresses are 64-bit numbers.
  abbrev IsTable : ℕ → List Bp → Type 0
  IsTable n bps = (length bps ≡ n) × All HasAddr bps

  go_on-IsTable :
      (bp : Bp) (rest : List Bp) (again : Cmd World (List Bp)) (r : Patched) (h : Host World)
      → All HasAddr (bp ∷ rest)
      → ((h : Host World) → Ensures (IsTable (length rest)) (again h))
      → (slot r).addr ≡ bp.addr
      → Ensures (IsTable (suc (length rest))) (go_on K rest again r h)
  go_on-IsTable bp rest again (stop bp') h addrs later e =
      returns _ h (refl, (rw e addrs.0, addrs.1))
  go_on-IsTable bp rest again (next bp') h addrs later e =
      Ensures-then (again h) (λ rest'. pure (bp' ∷ rest')) (later h)
        λ rest' h' t. returns _ h' (ap suc t.0, (rw e addrs.0, t.1))

  patch_breaks-IsTable :
      (sdb : Sdb) (bps : List Bp) (h : Host World)
      → All HasAddr bps
      → Ensures (IsTable (length bps)) (patch_breaks K sdb bps h)
  unfolding patch_breaks
  patch_breaks-IsTable sdb [] h addrs = returns _ h (refl, tt)
  patch_breaks-IsTable sdb (bp ∷ rest) h addrs =
      Ensures-then (patch_bp K sdb bp h) (go_on K rest (patch_breaks K sdb rest))
        (patch_bp-addr sdb bp h)
        λ r h₁ e.
          go_on-IsTable bp rest (patch_breaks K sdb rest) r h₁ addrs
            (λ h₂. patch_breaks-IsTable sdb rest h₂ addrs.1) e

  pub sdb_patch_all_bp-IsValid :
      (sdb : Sdb) (h : Host World) → IsValid sdb → Ensures IsValid (sdb_patch_all_bp K sdb h)
  unfolding sdb_patch_all_bp
  sdb_patch_all_bp-IsValid sdb h v =
      Ensures-then (patch_breaks K sdb sdb.breaks h)
        (λ breaks'. pure (record sdb { breaks = breaks' }))
        (patch_breaks-IsTable sdb sdb.breaks h v.addrs)
        λ breaks' h' t.
          returns _ h' (keep_loaded _ sdb (t.0 ∙ v.slots) t.1 v.next_disasm v.names refl refl v)

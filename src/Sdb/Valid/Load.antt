-- ===== src/Sdb/Valid/Load.antt =====
-- A new debugger has the invariant, and `load` keeps it.
use advanced_unix_progr.Base.{
  suc, Text, List, [], ◌∷◌, Option, none, some, ◌≡◌, refl, ap, ◌∙◌, length, map, All, arith, ◌<◌,
  inl, ltb→lt,
}
use advanced_unix_progr.Elf.{StrTab, Handle, Files}
use advanced_unix_progr.Elf.Load.{elf_open}
use advanced_unix_progr.Elf.Symbols.{Read, found, null, find_tab, elf_load_all}
use advanced_unix_progr.Sdb.Host.{Host}
use advanced_unix_progr.Sdb.Host.Ensures.{Ensures, returns, faults, ensures_rules}
use advanced_unix_progr.Sdb.State.{
  Bp, Sdb, TabPointer, null_tab, dangling_tab, tab, max_break, unuse, sdb_create,
}
use advanced_unix_progr.Sdb.Kernel.{Kernel}
use advanced_unix_progr.Sdb.Load.{
  unload_handle, unload, path_size, freed, loaded_sdb, load_text, load_names, load_tables,
  load_handle, sdb_load,
}
use advanced_unix_progr.Sdb.Valid.{IsValid, HasNames, HasAddr, keep_loaded}

length-map : (bps : List Bp) → length (map unuse bps) ≡ length bps
length-map [] = refl
length-map (bp ∷ rest) = ap suc (length-map rest)

All-map : (bps : List Bp) → All HasAddr bps → All HasAddr (map unuse bps)
All-map [] a = tt
All-map (bp ∷ rest) a = (a.0, All-map rest a.1)

-- The addresses that `malloc` leaves in the slots are 64-bit numbers, whatever they are.
pub sdb_create-IsValid :
    (raw : List Bp) → length raw ≡ max_break → All HasAddr raw → IsValid (sdb_create raw)
unfolding sdb_create
sdb_create-IsValid raw ten addrs = record {
  slots = length-map raw ∙ ten;
  addrs = All-map raw addrs;
  next_disasm = omega arith;
  path_fits = omega arith;
  names = tt;
  process = inl refl;
}

loaded_sdb-IsValid :
    (sdb : Sdb) (e : Handle) (t : StrTab) (filename : Text)
    → length filename < path_size
    → find_tab e.shstrndx e.strtab ≡ some t
    → IsValid sdb
    → IsValid (loaded_sdb sdb e t filename)
unfolding loaded_sdb
loaded_sdb-IsValid sdb e t filename fits named v = record {
  slots = length-map sdb.breaks ∙ v.slots;
  addrs = All-map sdb.breaks v.addrs;
  next_disasm = omega arith;
  path_fits = fits;
  names = named;
  process = inl refl;
}

freed-HasNames : (p : TabPointer) → HasNames (freed p) none
freed-HasNames null_tab = tt
freed-HasNames dangling_tab = tt
freed-HasNames (tab t) = tt

-- Once the handle is closed, the pointer is into no tables that are there.
unload-HasNames :
    (sdb : Sdb) (eh : Option Handle)
    → HasNames sdb.strtab eh
    → HasNames (unload_handle sdb eh).strtab none
unload-HasNames sdb none named = named
unload-HasNames sdb (some e) named = freed-HasNames sdb.strtab

HasNames-any : (p : TabPointer) (eh : Option Handle) → HasNames p none → HasNames p eh
HasNames-any null_tab eh named = tt
HasNames-any dangling_tab eh named = tt
HasNames-any (tab t) eh named = absurd named

unload-IsValid : (sdb : Sdb) (eh : Option Handle) → IsValid sdb → IsValid (unload_handle sdb eh)
unload-IsValid sdb none v = v
unload-IsValid sdb (some e) v =
    keep_loaded _ sdb v.slots v.addrs v.next_disasm (freed-HasNames sdb.strtab) refl refl v

module _ (K : Kernel) (F : Files) where
  open K use {World}

  load_text-IsValid :
      (sdb : Sdb) (e : Handle) (filename : Text) (t : StrTab) (h : Host World)
      → find_tab e.shstrndx e.strtab ≡ some t
      → IsValid sdb
      → Ensures IsValid (load_text K sdb e filename t h)
  unfolding load_text
  load_text-IsValid sdb e filename t h named v =
      search (ensures_rules, loaded_sdb-IsValid, faults, ltb→lt) depth 9

  load_names-IsValid :
      (sdb : Sdb) (e : Handle) (filename : Text) (t : Option StrTab) (h : Host World)
      → find_tab e.shstrndx e.strtab ≡ t
      → IsValid sdb
      → Ensures IsValid (load_names K sdb e filename t h)
  load_names-IsValid sdb e filename none h named v =
      returns _ _ (keep_loaded _ sdb v.slots v.addrs v.next_disasm tt refl refl v)
  load_names-IsValid sdb e filename (some t) h named v =
      load_text-IsValid sdb e filename t h named v

  load_tables-IsValid :
      (sdb : Sdb) (e : Handle) (filename : Text) (r : Read Handle) (h : Host World)
      → HasNames sdb.strtab none
      → IsValid sdb
      → Ensures IsValid (load_tables K sdb e filename r h)
  load_tables-IsValid sdb e filename Read.uninitialised h closed v = faults _
  load_tables-IsValid sdb e filename null h closed v = returns _ _ (
      keep_loaded _ sdb v.slots v.addrs v.next_disasm (HasNames-any sdb.strtab _ closed) refl refl
        v)
  load_tables-IsValid sdb e filename (found e') h closed v =
      load_names-IsValid sdb e' filename (find_tab e'.shstrndx e'.strtab) h refl v

  load_handle-IsValid :
      (sdb : Sdb) (filename : Text) (e : Option Handle) (h : Host World)
      → HasNames sdb.strtab none
      → IsValid sdb
      → Ensures IsValid (load_handle K F sdb filename e h)
  load_handle-IsValid sdb filename none h closed v =
      returns _ _ (keep_loaded _ sdb v.slots v.addrs v.next_disasm closed refl refl v)
  load_handle-IsValid sdb filename (some e) h closed v =
      load_tables-IsValid sdb e filename (elf_load_all F e) h closed v

  pub sdb_load-IsValid :
      (sdb : Sdb) (filename : Text) (h : Host World)
      → IsValid sdb
      → Ensures IsValid (sdb_load K F sdb filename h)
  unfolding sdb_load
  sdb_load-IsValid sdb filename h v =
      load_handle-IsValid (unload sdb) filename (elf_open F filename) h
        (unload-HasNames sdb sdb.eh v.names) (unload-IsValid sdb sdb.eh v)

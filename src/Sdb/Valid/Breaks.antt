-- ===== src/Sdb/Valid/Breaks.antt =====
-- `break` and `delete` keep the invariant.
use advanced_unix_progr.Base.{
  ℕ, zero, suc, ◌^◌, ◌<◌, ℤ, Text, List, [], ◌∷◌, Option, none, some, ◌≡◌, refl, ap, ◌∙◌, length,
  alter, All, not, if◌then◌else◌,
}
use advanced_unix_progr.Cstd.{scan_hex}
use advanced_unix_progr.Cstd.Bounds.{scan_hex-lt}
use advanced_unix_progr.Sdb.Host.{
  Host, no_program, uninitialised, Cmd, need, pure, print, ◌>>=◌, ◌>>◌,
}
use advanced_unix_progr.Sdb.Host.Ensures.{
  Ensures, returns, Ensures-then, Ensures-if, Ensures-need, ensures_rules,
}
use advanced_unix_progr.Sdb.State.{Bp, Sdb, unuse, sdb_is_loaded, sdb_is_running}
use advanced_unix_progr.Sdb.Kernel.{Kernel}
use advanced_unix_progr.Sdb.Patch.{sdb_patch_all_bp}
use advanced_unix_progr.Sdb.Breaks.{
  skip_prefix, free_slot, occupy, put_break, drop_break, slot_number, sdb_set_break, delete_used,
  delete_slot, delete_number, sdb_delete,
}
use advanced_unix_progr.Sdb.Valid.{IsValid, HasAddr, keep_loaded, sdb_patch_all_bp-IsValid}

pub length-alter : (f : Bp → Bp) (i : ℕ) (bps : List Bp) → length (alter f i bps) ≡ length bps
length-alter f i [] = refl
length-alter f zero (bp ∷ rest) = refl
length-alter f (suc i) (bp ∷ rest) = ap suc (length-alter f i rest)

pub All-alter :
    (f : Bp → Bp) (i : ℕ) (bps : List Bp)
    → ((bp : Bp) → HasAddr bp → HasAddr (f bp))
    → All HasAddr bps
    → All HasAddr (alter f i bps)
All-alter f i [] keep addrs = tt
All-alter f zero (bp ∷ rest) keep addrs = (keep bp addrs.0, addrs.1)
All-alter f (suc i) (bp ∷ rest) keep addrs = (addrs.0, All-alter f i rest keep addrs.1)

pub alter-IsValid :
    (f : Bp → Bp) (i : ℕ) (sdb : Sdb)
    → ((bp : Bp) → HasAddr bp → HasAddr (f bp))
    → IsValid sdb
    → IsValid (record sdb { breaks = alter f i sdb.breaks })
alter-IsValid f i sdb keep v =
    keep_loaded _ sdb (length-alter f i sdb.breaks ∙ v.slots)
      (All-alter f i sdb.breaks keep v.addrs) v.next_disasm v.names refl refl v

module _ (K : Kernel) (sdb : Sdb) (v : IsValid sdb) where
  open K use {World}

  put_break-IsValid : (i addr : ℕ) → addr < 2 ^ 64 → IsValid (put_break i addr sdb)
  put_break-IsValid i addr fits = alter-IsValid (occupy addr) i sdb (λ bp a. fits) v

  -- `break` once the address is read.
  abbrev break_at : ℕ → Cmd World Sdb
  break_at addr = do
    i ← need uninitialised (free_slot 0 sdb.breaks)
    if sdb_is_running sdb
        then sdb_patch_all_bp K (put_break i addr sdb)
        else pure (put_break i addr sdb)

  break_at-IsValid : (addr : ℕ) (h : Host World) → addr < 2 ^ 64 → Ensures IsValid (break_at addr h)
  break_at-IsValid addr h fits = search (ensures_rules, sdb_patch_all_bp-IsValid, put_break-IsValid)

  pub sdb_set_break-IsValid :
      (s : Text) (h : Host World) → Ensures IsValid (sdb_set_break K sdb s h)
  unfolding sdb_set_break
  sdb_set_break-IsValid s h =
      let scanned = scan_hex (skip_prefix s) in
      Ensures-if (not (sdb_is_loaded sdb)) (print no_program >> pure sdb)
        (need uninitialised scanned >>= break_at) h (λ _. returns sdb _ v)
        λ _.
          Ensures-then (need uninitialised scanned h) break_at
            (Ensures-need uninitialised scanned h (scan_hex-lt (skip_prefix s))) break_at-IsValid

  drop_break-IsValid : (i : ℕ) → IsValid (drop_break i sdb)
  unfolding drop_break
  drop_break-IsValid i = alter-IsValid unuse i sdb (λ bp a. a) v

  delete_number-IsValid :
      (n : Option ℕ) (h : Host World) → Ensures IsValid (delete_number K sdb n h)
  unfolding delete_slot delete_used
  delete_number-IsValid none h = returns sdb h v
  delete_number-IsValid (some i) h = search (ensures_rules, drop_break-IsValid)

  pub sdb_delete-IsValid : (index : ℤ) (h : Host World) → Ensures IsValid (sdb_delete K sdb index h)
  unfolding sdb_delete
  sdb_delete-IsValid index h = delete_number-IsValid (slot_number index) h

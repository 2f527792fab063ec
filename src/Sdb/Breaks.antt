-- ===== src/Sdb/Breaks.antt =====
-- hw4/sdb.h, `sdb_set_break`, `sdb_list` and `sdb_delete`.
pub mod Table
pub mod Armed
pub mod Undone
pub mod View
use advanced_unix_progr.Base.{
  ℕ, zero, suc, ◌+◌, ℤ, pos, negsuc, Bool, true, false, not, ◌&&◌, Text, List, [], ◌∷◌, Option,
  none, some, get_elem?, alter, drop, ltb, ◌==◌, if◌then◌else◌,
}
use advanced_unix_progr.Cstd.{byte_at, scan_hex}
use advanced_unix_progr.Sdb.Host.{
  Message, no_program, break_entry, deleted, uninitialised, out_of_bounds, Host, Run, ok, fault,
  Cmd, ◌>>=◌, ◌>>◌, need, observe, pure, print, attempt, when, fail,
}
use advanced_unix_progr.Sdb.State.{Bp, Sdb, unuse, max_break, sdb_is_loaded, sdb_is_running}
use advanced_unix_progr.Sdb.Kernel.{Kernel}
use advanced_unix_progr.Sdb.Patch.{peeked, is_trapped, sdb_patch_all_bp}

-- `addr_str` without a prefix `0x`; only its second byte is looked at.
abbrev pub skip_prefix : Text → Text
skip_prefix s = if byte_at s 1 == b'x' then drop 2 s else s

-- The index of the first slot that is not used, counted from `i`.
unfoldable pub free_slot : ℕ → List Bp → Option ℕ
free_slot i [] = none
free_slot i (bp ∷ rest) = let next = free_slot (i + 1) rest in if bp.is_used then next else some i

abbrev pub occupy : ℕ → Bp → Bp
occupy addr bp = record bp { is_used = true; addr = addr }

-- The slot's `is_used` and `addr` are written; its word stays what it was.
abbrev pub put_break : ℕ → ℕ → Sdb → Sdb
put_break i addr sdb = record sdb { breaks = alter (occupy addr) i sdb.breaks }

-- The lines of `list`, the latest first.
unfoldable pub list_entries : ℕ → List Bp → List Message → List Message
list_entries i [] out = out
list_entries i (bp ∷ rest) out =
    list_entries (i + 1) rest (if bp.is_used then break_entry i bp.addr ∷ out else out)

unfoldable pub drop_break : ℕ → Sdb → Sdb
drop_break i sdb = record sdb { breaks = alter unuse i sdb.breaks }

-- `index >= 0 && index < MAX_BREAK`
abbrev pub slot_number : ℤ → Option ℕ
slot_number (pos i) = if ltb i max_break then some i else none
slot_number (negsuc i) = none

module _ (K : Kernel) where
  open K use {World, peektext, poketext}

  -- With no free slot the source writes through a pointer that was never set.
  unfoldable pub sdb_set_break : Sdb → Text → Cmd World Sdb
  sdb_set_break sdb addr_str =
      if not (sdb_is_loaded sdb) then (print no_program >> pure sdb) else do
        addr ← need uninitialised (scan_hex (skip_prefix addr_str))
        i ← need uninitialised (free_slot 0 sdb.breaks)
        if sdb_is_running sdb
            then sdb_patch_all_bp K (put_break i addr sdb)
            else pure (put_break i addr sdb)

  unfoldable pub sdb_list : Sdb → Cmd World (Unit {0})
  sdb_list sdb h = ok tt (record h { out = list_entries 0 sdb.breaks h.out })

  -- The original word is put back if the trap is there.
  unfoldable pub restore_word : Sdb → Bp → Cmd World (Unit {0})
  restore_word sdb bp = do
    found ← observe (peektext sdb.pid bp.addr)
    when (is_trapped (peeked found))
        (attempt (poketext sdb.pid bp.addr bp.original_word) >>= λ _. pure tt)

  unfoldable pub delete_used : Sdb → ℕ → Bp → Cmd World Sdb
  delete_used sdb i bp = do restore_word sdb bp; print (deleted i); pure (drop_break i sdb)

  unfoldable pub delete_slot : Sdb → ℕ → Bp → Cmd World Sdb
  delete_slot sdb i bp = if bp.is_used then delete_used sdb i bp else pure sdb

  abbrev pub delete_number : Sdb → Option ℕ → Cmd World Sdb
  delete_number sdb none = pure sdb
  delete_number sdb (some i) =
      need out_of_bounds (get_elem? sdb.breaks i) >>= λ bp. delete_slot sdb i bp

  unfoldable pub sdb_delete : Sdb → ℤ → Cmd World Sdb
  sdb_delete sdb index = delete_number sdb (slot_number index)

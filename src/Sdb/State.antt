-- ===== src/Sdb/State.antt =====
-- hw4/sdb.h, `bp_t` and `SDB`. The handle of the disassembler library is not part of the state.
use advanced_unix_progr.Base.{
  ℕ, ℤ, negsuc, ◌==ℤ◌, Bool, false, not, Text, List, [], Option, none, map, str_eq,
}
use advanced_unix_progr.Elf.{Handle, StrTab}

abbrev pub max_break : ℕ
max_break = 10

pub record Bp : Type 0 where
  pub is_used : Bool
  pub addr : ℕ
  pub original_word : ℕ

-- `sdb->strtab` points into the tables of `sdb->eh`, and dangles once those are freed.
pub data TabPointer : Type 0 where
  null_tab dangling_tab : TabPointer
  tab : StrTab → TabPointer

pub record Sdb : Type 0 where
  pub eh : Option Handle
  pub strtab : TabPointer
  pub path : Text
  pub pid : ℤ
  pub breaks : List Bp
  pub last_disasm_addr : ℕ

abbrev pub no_pid : ℤ
no_pid = negsuc 0

abbrev pub unuse : Bp → Bp
unuse bp = record bp { is_used = false }

-- `raw` is what `malloc` returns: the addresses and words of its slots are never initialised.
unfoldable pub sdb_create : List Bp → Sdb
sdb_create raw = record {
  eh = none;
  strtab = null_tab;
  path = [];
  pid = no_pid;
  breaks = map unuse raw;
  last_disasm_addr = 0;
}

unfoldable pub sdb_is_loaded : Sdb → Bool
sdb_is_loaded sdb = not (str_eq sdb.path [])

unfoldable pub sdb_is_running : Sdb → Bool
sdb_is_running sdb = not (sdb.pid ==ℤ no_pid)

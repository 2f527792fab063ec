-- ===== src/Sdb/Maps.antt =====
-- hw4/sdb.h, `convert_dynamic_addr`: the address of a position-independent program's code.
pub mod Chosen
use advanced_unix_progr.Base.{
  ℕ, ◌+◌, ◌%◌, ◌^◌, Bool, true, false, ◌&&◌, Text, List, [], ◌∷◌, Option, none, some, str_eq, codes,
  take, ◌==◌, if◌then◌else◌,
}
use advanced_unix_progr.Cstd.{strtok, before_char, basename, scan_hex}
use advanced_unix_progr.Sdb.Host.{null_pointer, uninitialised, Cmd, ◌>>=◌, need, observe, pure}
use advanced_unix_progr.Sdb.State.{Sdb}
use advanced_unix_progr.Sdb.Kernel.{Kernel}

-- The variables of the loop: `base_addr` is `none` while it is not written.
pub record Scan : Type 0 where
  pub base_addr : Option ℕ
  pub is_executable : Bool
  pub is_exe_area : Bool

-- The `switch` on the token's number; `none` is the write through the null pointer that `strchr`
-- returns for a token without `-`.
unfoldable pub scan_token : Text → ℕ → Text → Scan → Option Scan
scan_token path count token s =
    if count == 0
    then elim (before_char b'-' token) [
      | none ↦ none
      | some first ↦ some (record s { base_addr = scan_hex first })
    ]
    else if count == 1
    then some (if str_eq (take 3 token) (codes "r-x") then record s { is_executable = true } else s)
    else if count == 5
    then some
        (if str_eq (basename token) (basename path) then record s { is_exe_area = true } else s)
    else some s

unfoldable pub scan_tokens : Text → ℕ → List Text → Scan → Option Scan
unfolding scan_token
scan_tokens path count [] s = some s
scan_tokens path count (token ∷ rest) s = elim (scan_token path count token s) [
  | none ↦ none
  | some s' ↦ scan_tokens path (count + 1) rest s'
]

-- One line of the file.
unfoldable pub scan_line : Text → Text → Option ℕ → Option Scan
unfolding scan_tokens
scan_line path line base =
    scan_tokens path 0 (strtok (codes " \n") line)
      (record { base_addr = base; is_executable = false; is_exe_area = false })

-- The lines up to the first executable one of the program's file; the result is `base_addr`.
unfoldable pub scan_lines : Text → List Text → Option ℕ → Option (Option ℕ)
unfolding scan_line
scan_lines path [] base = some base
scan_lines path (line ∷ rest) base = elim (scan_line path line base) [
  | none ↦ none
  | some s ↦
      let next = scan_lines path rest s.base_addr in
      if s.is_executable && s.is_exe_area then some s.base_addr else next
]

module _ (K : Kernel) where
  open K use {World, maps}

  unfoldable pub convert_dynamic_addr : Sdb → ℕ → Cmd World ℕ
  unfolding scan_lines
  convert_dynamic_addr sdb addr = do
    found ← observe (maps sdb.pid)
    lines ← need null_pointer found
    scanned ← need null_pointer (scan_lines sdb.path lines none)
    base ← need uninitialised scanned
    pure ((base + addr) % 2 ^ 64)

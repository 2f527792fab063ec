-- ===== src/Monitor/Programs/Dir.antt =====
-- hw2/testcases/dir.c
use advanced_unix_progr.Base.{
  ℕ, zero, suc, ℤ, pos, negsuc, Text, Option, none, some, codes, ◌==◌, if◌then◌else◌,
}
use advanced_unix_progr.Monitor.{closedir, readdir, opendir}
use advanced_unix_progr.Monitor.Programs.{Program, done, call, direct}

-- `printf` of the name of an entry and a newline is not replaced. The value of the program is its
-- exit code, and `none` where the fuel does not reach to the end of the directory.
module _ {W : Type 0} (printf : Text → W → ℤ × W) where
  -- The body of the loop; `again` is its next round.
  abbrev pub on_entry : ℕ → Program W (Option ℤ) → Option Text → Program W (Option ℤ)
  on_entry dir again none = call (closedir dir) λ _. done (some (pos 0))
  on_entry dir again (some d_name) = direct (printf d_name) λ _. again

  unfoldable pub list_entries : ℕ → ℕ → Program W (Option ℤ)
  list_entries zero dir = done none
  list_entries (suc fuel) dir = call (readdir dir) (on_entry dir (list_entries fuel dir))

  abbrev pub opened : ℕ → ℕ → Program W (Option ℤ)
  opened fuel dir = if dir == 0 then done (some (negsuc 0)) else list_entries fuel dir

  unfoldable pub main : ℕ → Program W (Option ℤ)
  main fuel = call (opendir (codes ".")) (opened fuel)

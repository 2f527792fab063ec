-- ===== src/Monitor/Tests.antt =====
-- The texts of the log at concrete values.
mod Programs
mod Closing
use advanced_unix_progr.Base.{
  ℕ, pos, Bool, true, false, Text, List, [], ◌∷◌, ◌++◌, none, some, ◌≡◌, refl, arith, codes,
  replicate, if◌then◌else◌,
}
use advanced_unix_progr.Cstd.{before_char}
use advanced_unix_progr.Monitor.{
  Call, opendir, readdir, closedir, fopen, fclose, fgets, chmod, Ret, Stat, Libc, Process,
}
use advanced_unix_progr.Monitor.Strings.{
  stat_text, get_verbose_stat, convert_to_verbose_newline, show_digits,
}
use advanced_unix_progr.Monitor.Strings.Fits.{get_verbose_stat-stat_text}
use advanced_unix_progr.Monitor.Strings.Stale.{convert_to_verbose_newline-stale}
use advanced_unix_progr.Monitor.Log.{fd_to_filename}
use advanced_unix_progr.Monitor.Calls.{monitor}
use advanced_unix_progr.Monitor.Ready.{IsReady}

abbrev regular : Stat
regular = record { st_mode = 33188; st_size = pos 1024 }

abbrev start : Process ℕ
start = record { world = 0; buff1 = codes "abcdef" ++ replicate 122 0 }

get_verbose_stat-stat_text_example : get_verbose_stat regular ≡ some (stat_text regular)
get_verbose_stat-stat_text_example = get_verbose_stat-stat_text regular (omega arith) (omega arith)

no_nul : before_char 0 (codes "xy") ≡ none
unfolding before_char
no_nul = refl

left_over : before_char 0 (codes "cdef" ++ replicate 122 0) ≡ some (codes "cdef")
unfolding before_char
left_over = refl

-- What is left of an earlier text.
convert_to_verbose_newline-stale_example :
    convert_to_verbose_newline (some (codes "xy\n")) start
    ≡ some (some (codes "xycdef\\n"), record start { buff1 = codes "xycdef" ++ replicate 122 0 })
convert_to_verbose_newline-stale_example =
    convert_to_verbose_newline-stale (codes "xy") (codes "cdef") start (omega arith) no_nul
      left_over

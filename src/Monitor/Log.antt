-- ===== src/Monitor/Log.antt =====
-- hw2/fsmon.c, the log: `load_function`, `write_msg` and the names of open files.
use advanced_unix_progr.Base.{
  ℕ, ℤ, pos, ◌==ℤ◌, Text, List, Option, none, some, codes, ◌==◌, if◌then◌else◌,
}
use advanced_unix_progr.Monitor.{
  fopen, fclose, Arg, Libc, Run, ◌>>=◌, ◌>>◌, pure, undefined, ask, need, act,
}
use advanced_unix_progr.Monitor.Strings.{get_verbose_stat}

module _ {W : Type 0} (libc : Libc W) where
  -- A function that is not found is NULL, and is called all the same.
  abbrev pub load_function : Text → Run W Unit
  load_function name = if libc.has name then pure tt else undefined

  abbrev pub log_to : Text → List Arg → ℕ → Run W Unit
  log_to format args fp p = some (tt, record p { world = libc.vfprintf fp format args p.world })

  -- The file of the log is opened and closed for each line; a file that cannot be opened is NULL.
  abbrev pub log_to_file : Text → Text → List Arg → Run W Unit
  log_to_file log_name format args = do
    load_function (codes "fclose")
    load_function (codes "fopen")
    fp ← act (libc.real (fopen log_name (codes "a")))
    if fp == 0 then undefined else log_to format args fp
    ret ← act (libc.real (fclose fp))
    pure tt

  abbrev pub log_line : Text → List Arg → Option Text → Run W Unit
  log_line format args none = log_to format args libc.stderr
  log_line format args (some log_name) = log_to_file log_name format args

  unfoldable pub write_msg : Text → List Arg → Run W Unit
  write_msg format args = do
    log_name ← ask (libc.getenv (codes "MONITOR_OUTPUT"))
    log_line format args log_name

  -- Where readlink fails, its result -1 is taken for a length, and the byte before the buffer is
  -- written.
  unfoldable pub fd_to_filename : ℤ → Run W Text
  fd_to_filename fd =
      if fd ==ℤ pos 1
      then pure (codes "<STDOUT>")
      else if fd ==ℤ pos 2
      then pure (codes "<STDERR>")
      else do load_function (codes "readlink"); name ← ask (libc.link_of fd); need name

  unfoldable pub get_file_name : ℕ → Run W Text
  get_file_name fp = do fileno ← ask (libc.fileno fp); fd ← need fileno; fd_to_filename fd

  unfoldable pub get_dir_name : ℕ → Run W Text
  get_dir_name dp = do dirfd ← ask (libc.dirfd dp); fd ← need dirfd; fd_to_filename fd

  abbrev pub verbose_stat : ℕ → Run W Text
  verbose_stat buf = do s ← ask (libc.stat_at buf); need (get_verbose_stat s)

  abbrev pub arg_string : ℕ → Run W Text
  arg_string address = do s ← ask (libc.string_at address); need s

-- ===== src/Monitor/Calls.antt =====
-- hw2/fsmon.c, the log and the functions that are replaced.
use advanced_unix_progr.Base.{ℕ, ℤ, pos, ◌==ℤ◌, Text, [], ◌∷◌, none, some, codes, if◌then◌else◌}
use advanced_unix_progr.Monitor.{
  Call, closedir, readdir, opendir, creat, open_file, read, write, dup, close, dup2, lstat, stat,
  pwrite, fopen, fclose, fgetc, fflush, fread, fwrite, fwrite_unlocked, fgets, fscanf, fprintf,
  chdir, remove, unlink, rmdir, chown, chmod, mkdir, rename, link, symlink, readlink, xstat, lxstat,
  fputs_unlocked, Ret, num, hex, str, chr, Libc, Run, ◌>>=◌, ◌>>◌, pure, act,
}
use advanced_unix_progr.Monitor.Strings.{convert_to_verbose_newline}
use advanced_unix_progr.Monitor.Log.{
  load_function, write_msg, fd_to_filename, get_file_name, get_dir_name, verbose_stat, arg_string,
}

abbrev pub name_of : Call → Text
name_of (closedir dp) = codes "closedir"
name_of (readdir dp) = codes "readdir"
name_of (opendir name) = codes "opendir"
name_of (creat path mode) = codes "creat"
name_of (open_file path flags mode) = codes "open"
name_of (read fd buf count) = codes "read"
name_of (write fd buf count) = codes "write"
name_of (dup fd) = codes "dup"
name_of (close fd) = codes "close"
name_of (dup2 fd1 fd2) = codes "dup2"
name_of (lstat path buf) = codes "lstat"
name_of (stat path buf) = codes "stat"
name_of (pwrite fd buf count offset) = codes "pwrite"
name_of (fopen path mode) = codes "fopen"
name_of (fclose fp) = codes "fclose"
name_of (fgetc fp) = codes "fgetc"
name_of (fflush fp) = codes "fflush"
name_of (fread buf size count fp) = codes "fread"
name_of (fwrite buf size count fp) = codes "fwrite"
name_of (fwrite_unlocked buf size count fp) = codes "fwrite_unlocked"
name_of (fgets buf size fp) = codes "fgets"
name_of (fscanf fp format args) = codes "fscanf"
name_of (fprintf fp format args) = codes "fprintf"
name_of (chdir path) = codes "chdir"
name_of (remove path) = codes "remove"
name_of (unlink path) = codes "unlink"
name_of (rmdir path) = codes "rmdir"
name_of (chown path uid gid) = codes "chown"
name_of (chmod path mode) = codes "chmod"
name_of (mkdir path mode) = codes "mkdir"
name_of (rename old_path new_path) = codes "rename"
name_of (link old_path new_path) = codes "link"
name_of (symlink old_path new_path) = codes "symlink"
name_of (readlink path buf size) = codes "readlink"
name_of (xstat version path buf) = codes "__xstat"
name_of (lxstat version path buf) = codes "__lxstat"
name_of (fputs_unlocked text fp) = codes "fputs_unlocked"

module _ {W : Type 0} (libc : Libc W) where
  -- What stands between BEGIN_MON and END_MON: the line of each function.
  unfoldable pub log_call : (c : Call) → Ret c → Run W Unit
  log_call (closedir dp) ret = do
    name ← get_dir_name libc dp
    write_msg libc (codes "closedir(\"%s\") = %d\n") (str (some name) ∷ num ret ∷ [])
  log_call (opendir name) ret =
      write_msg libc (codes "opendir(\"%s\") = 0x%X\n") (str (some name) ∷ hex ret ∷ [])
  log_call (readdir dp) none = pure tt
  log_call (readdir dp) (some d_name) = do
    name ← get_dir_name libc dp
    write_msg libc (codes "readdir(\"%s\") = %s\n") (str (some name) ∷ str (some d_name) ∷ [])
  log_call (creat path mode) ret =
      write_msg libc (codes "creat(\"%s\", %d) = %d\n")
        (str (some path) ∷ num (pos mode) ∷ num ret ∷ [])
  log_call (open_file path flags mode) ret =
      write_msg libc (codes "open(\"%s\", %d) = %d\n") (str (some path) ∷ num flags ∷ num ret ∷ [])
  log_call (read fd buf count) ret = do
    name ← fd_to_filename libc fd
    write_msg libc (codes "read(%s, 0x%X, %d) = %d\n")
        (str (some name) ∷ hex buf ∷ num (pos count) ∷ num ret ∷ [])
  log_call (write fd buf count) ret =
      write_msg libc (codes "write(%d, 0x%X, %d) = %d\n")
        (num fd ∷ hex buf ∷ num (pos count) ∷ num ret ∷ [])
  log_call (dup fd) ret = write_msg libc (codes "dup(%d) = %d\n") (num fd ∷ num ret ∷ [])
  log_call (dup2 fd1 fd2) ret =
      write_msg libc (codes "dup2(%d, %d) = %d\n") (num fd1 ∷ num fd2 ∷ num ret ∷ [])
  log_call (close fd) ret = write_msg libc (codes "close(%d) = %d\n") (num fd ∷ num ret ∷ [])
  log_call (lstat path buf) ret =
      write_msg libc (codes "lstat(\"%s\", 0x%X) = %d\n") (str (some path) ∷ hex buf ∷ num ret ∷ [])
  log_call (stat path buf) ret =
      write_msg libc (codes "stat(\"%s\", 0x%X) = %d\n") (str (some path) ∷ hex buf ∷ num ret ∷ [])
  log_call (pwrite fd buf count offset) ret =
      write_msg libc (codes "pwrite(%d, 0x%X, %d, %d) = %d\n")
        (num fd ∷ hex buf ∷ num (pos count) ∷ num offset ∷ num ret ∷ [])
  log_call (fopen path mode) ret =
      write_msg libc (codes "fopen(\"%s\", \"%s\") = 0x%X\n")
        (str (some path) ∷ str (some mode) ∷ hex ret ∷ [])
  log_call (fread buf size count fp) ret = do
    name ← get_file_name libc fp
    write_msg libc (codes "pwrite(0x%X, %d, %d, %s) = %d\n")
        (hex buf ∷ num (pos size) ∷ num (pos count) ∷ str (some name) ∷ num ret ∷ [])
  log_call (fwrite buf size count fp) ret = do
    name ← get_file_name libc fp
    write_msg libc (codes "fwrite(0x%X, %d, %d, %s) = %d\n")
        (hex buf ∷ num (pos size) ∷ num (pos count) ∷ str (some name) ∷ num ret ∷ [])
  log_call (fwrite_unlocked buf size count fp) ret = do
    name ← get_file_name libc fp
    write_msg libc (codes "fwrite_unlocked(0x%X, %d, %d, %s) = %d\n")
        (hex buf ∷ num (pos size) ∷ num (pos count) ∷ str (some name) ∷ num ret ∷ [])
  log_call (fgetc fp) ret = do
    name ← get_file_name libc fp
    if ret ==ℤ pos b'\n'
        then write_msg libc (codes "fgetc(%s) = '\\n'\n") (str (some name) ∷ [])
        else write_msg libc (codes "fgetc(%s) = '%c'\n") (str (some name) ∷ chr ret ∷ [])
  log_call (fgets buf size fp) ret = do
    shown ← convert_to_verbose_newline ret
    name ← get_file_name libc fp
    write_msg libc (codes "fgets(0x%X, %d, %s) = \"%s\"\n")
        (hex buf ∷ num size ∷ str (some name) ∷ str shown ∷ [])
  log_call (fscanf fp format args) ret = do
    shown ← convert_to_verbose_newline (some format)
    name ← get_file_name libc fp
    write_msg libc (codes "fscanf(%s, \"%s\", ...) = %d\n")
        (str (some name) ∷ str shown ∷ num ret ∷ [])
  log_call (fprintf fp format args) ret = do
    shown ← convert_to_verbose_newline (some format)
    name ← get_file_name libc fp
    write_msg libc (codes "fprintf(%s, \"%s\", ...) = %d\n")
        (str (some name) ∷ str shown ∷ num ret ∷ [])
  log_call (chdir path) ret =
      write_msg libc (codes "chdir(\"%s\") = %d\n") (str (some path) ∷ num ret ∷ [])
  log_call (chown path uid gid) ret =
      write_msg libc (codes "chown(\"%s\", %d, %d) = %d\n")
        (str (some path) ∷ num (pos uid) ∷ num (pos gid) ∷ num ret ∷ [])
  log_call (chmod path mode) ret =
      write_msg libc (codes "chmod(%s, %d) = %d\n")
        (str (some path) ∷ num (pos mode) ∷ num ret ∷ [])
  log_call (remove path) ret =
      write_msg libc (codes "remove(\"%s\") = %d\n") (str (some path) ∷ num ret ∷ [])
  log_call (rename old_path new_path) ret =
      write_msg libc (codes "rename(\"%s\", \"%s\") = %d\n")
        (str (some old_path) ∷ str (some new_path) ∷ num ret ∷ [])
  log_call (link old_path new_path) ret =
      write_msg libc (codes "link(\"%s\", \"%s\") = %d\n")
        (str (some old_path) ∷ str (some new_path) ∷ num ret ∷ [])
  log_call (unlink path) ret =
      write_msg libc (codes "unlink(\"%s\") = %d\n") (str (some path) ∷ num ret ∷ [])
  log_call (readlink path buf size) ret = do
    bytes ← arg_string libc buf
    write_msg libc (codes "readlink(\"%s\", \"%s\", %d) = %d\n")
        (str (some path) ∷ str (some bytes) ∷ num (pos size) ∷ num ret ∷ [])
  log_call (symlink old_path new_path) ret =
      write_msg libc (codes "syslink(\"%s\", \"%s\") = %d\n")
        (str (some old_path) ∷ str (some new_path) ∷ num ret ∷ [])
  log_call (mkdir path mode) ret =
      write_msg libc (codes "mkdir(\"%s\", %d) = %d\n")
        (str (some path) ∷ num (pos mode) ∷ num ret ∷ [])
  log_call (rmdir path) ret =
      write_msg libc (codes "rmdir(\"%s\") = %d\n") (str (some path) ∷ num ret ∷ [])
  log_call (xstat version path buf) ret = do
    shown ← verbose_stat libc buf
    write_msg libc (codes "__xstat(%d, %s, 0x%X %s) = %d\n")
        (num version ∷ str (some path) ∷ hex buf ∷ str (some shown) ∷ num ret ∷ [])
  log_call (lxstat version path buf) ret = do
    shown ← verbose_stat libc buf
    write_msg libc (codes "__lxstat(%d, %s, 0x%X %s) = %d\n")
        (num version ∷ str (some path) ∷ hex buf ∷ str (some shown) ∷ num ret ∷ [])
  log_call (fputs_unlocked text fp) ret = do
    name ← get_file_name libc fp
    write_msg libc (codes "fputs_unlocked(0x%X, %s) = %d\n")
        (hex text ∷ str (some name) ∷ num ret ∷ [])
  log_call (fflush fp) ret = do
    name ← get_file_name libc fp
    write_msg libc (codes "fflush(%s) = %d\n") (str (some name) ∷ num ret ∷ [])
  -- `fclose` is logged by itself.
  log_call (fclose fp) ret = pure tt

  -- The real function, found by its name, and the line of its call.
  unfoldable pub begin_mon : (c : Call) → Run W (Ret c)
  begin_mon c = do load_function libc (name_of c); ret ← act (libc.real c); log_call c ret; pure ret

  -- The name of the file is read before it is closed.
  unfoldable pub monitor_fclose : ℕ → Run W ℤ
  monitor_fclose fp = do
    load_function libc (codes "fclose")
    name ← get_file_name libc fp
    ret ← act (libc.real (fclose fp))
    write_msg libc (codes "fclose(\"%s\") = %d\n") (str (some name) ∷ num ret ∷ [])
    pure ret

  -- `fscanf` and `fprintf` call `vfscanf` and `vfprintf`, which are not replaced.
  unfoldable pub monitor_direct : (c : Call) → Run W (Ret c)
  monitor_direct c = do ret ← act (libc.real c); log_call c ret; pure ret

  -- The functions of the library by their calls. `open` is replaced by a function of two arguments,
  -- which loses the mode.
  unfoldable pub monitor : (c : Call) → Run W (Ret c)
  monitor (fclose fp) = monitor_fclose fp
  monitor (fscanf fp format args) = monitor_direct (fscanf fp format args)
  monitor (fprintf fp format args) = monitor_direct (fprintf fp format args)
  monitor (open_file path flags mode) = begin_mon (open_file path flags none)
  monitor c = begin_mon c

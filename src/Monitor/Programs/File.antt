-- ===== src/Monitor/Programs/File.antt =====
-- hw2/testcases/file.c
pub mod Shown
use advanced_unix_progr.Base.{none, ℕ, ℤ, pos, negsuc, is_negative, Text, codes, if◌then◌else◌}
use advanced_unix_progr.Monitor.{
  creat, open_file, read, write, dup, close, dup2, lstat, stat, pwrite, chdir, remove, unlink,
  rmdir, chown, chmod, mkdir, rename, link, symlink, readlink,
}
use advanced_unix_progr.Monitor.Programs.{Program, done, call, direct}

abbrev pub filename1 : Text
filename1 = codes "./test1.txt"

abbrev pub filename2 : Text
filename2 = codes "./test2.txt"

abbrev pub dirname : Text
dirname = codes "./dir1"

-- What the program calls that is not replaced, and the addresses of its literals and variables.
pub record Extern (W : Type 0) : Type 0 where
  pub lseek : (fd offset whence : ℤ) → W → ℤ × W
  pub pread : (fd : ℤ) → (buf count : ℕ) → (offset : ℤ) → W → ℤ × W
  pub perror : Text → W → ℤ × W
  pub abcd : ℕ
  pub efgh : ℕ
  pub ijkl : ℕ
  pub buf : ℕ
  pub st : ℕ

module _ {W : Type 0} (x : Extern W) where
  -- `errquit`; the value of a program is its exit code.
  abbrev pub errquit : Text → Program W ℤ
  errquit text = direct (x.perror text) λ _. done (negsuc 0)

  -- From `stat` to the end.
  abbrev pub change_names : Program W ℤ
  change_names = call (stat filename1 x.st) λ _. call (chown filename1 0 0) λ _.
      call (chmod filename1 384) λ _. call (lstat filename1 x.st) λ _.
        call (rename filename1 filename2) λ _. call (link filename2 filename1) λ _.
          call (unlink filename2) λ _. call (symlink filename1 filename2) λ _.
            call (readlink filename2 x.buf 16) λ _. call (mkdir dirname 511) λ _.
              call (lstat dirname x.st) λ _.
                call (rmdir dirname)
                  λ _. call (unlink filename1) λ _. call (remove filename2) λ _. done (pos 0)

  -- What is done with the file once it is opened again.
  abbrev pub read_back : ℤ → Program W ℤ
  read_back fd = call (dup fd) λ fd2. call (dup2 fd (pos 1000)) λ fd3.
      call (read fd2 x.buf 16)
        λ _. direct (x.pread fd3 x.buf 16 (pos 8192)) λ _. call (close fd) λ _. change_names

  abbrev pub reopened : ℤ → Program W ℤ
  reopened fd = if is_negative fd then errquit (codes "open") else read_back fd

  abbrev pub write_out : ℤ → Program W ℤ
  write_out fd = call (write fd x.abcd 4) λ _. direct (x.lseek fd (pos 4096) (pos 0)) λ _.
      call (write fd x.efgh 4) λ _.
        call (pwrite fd x.ijkl 4 (pos 8192))
          λ _. call (close fd) λ _. call (open_file filename1 (pos 0) none) reopened

  abbrev pub created : ℤ → Program W ℤ
  created fd = if is_negative fd then errquit (codes "creat") else write_out fd

  unfoldable pub main : Program W ℤ
  main = call (creat filename1 420) λ fd. call (chdir (codes "./././")) λ _. created fd

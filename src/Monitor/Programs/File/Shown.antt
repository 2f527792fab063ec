-- ===== src/Monitor/Programs/File/Shown.antt =====
-- The lines that hw2/testcases/file.c needs.
use advanced_unix_progr.Base.{ℕ, ℤ, is_negative, Text, Bool, true, false, none, ◌≡◌, if◌then◌else◌}
use advanced_unix_progr.Monitor.{
  Call, Ret, Libc, creat, open_file, chdir, read, write, pwrite, dup, dup2, close, stat, lstat,
  chown, chmod, rename, link, symlink, readlink, unlink, remove, mkdir, rmdir,
}
use advanced_unix_progr.Monitor.Programs.{Program, call, direct}
use advanced_unix_progr.Monitor.Programs.Hidden.{IsHidden, IsHiddenFrom}
use advanced_unix_progr.Monitor.Programs.File.{
  Extern, errquit, change_names, read_back, reopened, write_out, created, main,
}

-- The calls of hw2/testcases/file.c.
abbrev pub is_plain : Call → Bool
is_plain (creat path mode) = true
is_plain (open_file path flags none) = true
is_plain (chdir path) = true
is_plain (read fd buf count) = true
is_plain (write fd buf count) = true
is_plain (pwrite fd buf count offset) = true
is_plain (dup fd) = true
is_plain (dup2 fd1 fd2) = true
is_plain (close fd) = true
is_plain (stat path buf) = true
is_plain (lstat path buf) = true
is_plain (chown path uid gid) = true
is_plain (chmod path mode) = true
is_plain (rename old_path new_path) = true
is_plain (link old_path new_path) = true
is_plain (symlink old_path new_path) = true
is_plain (readlink path buf size) = true
is_plain (unlink path) = true
is_plain (remove path) = true
is_plain (mkdir path mode) = true
is_plain (rmdir path) = true
is_plain _ = false

module _ {W : Type 0} (libc : Libc W) (Same : W → W → Type 0) where
  call-IsHiddenFrom :
      {A : Type 0} (c : Call) (next : Ret c → Program W A) (v : W)
      → IsHidden libc Same c v
      → IsHiddenFrom libc Same (next (libc.real c v).0) (libc.real c v).1
      → IsHiddenFrom libc Same (call c next) v
  call-IsHiddenFrom c next v shown later = (shown, later)

  if-IsHiddenFrom :
      {A : Type 0} (test : Bool) (m n : Program W A) (v : W)
      → IsHiddenFrom libc Same m v
      → IsHiddenFrom libc Same n v
      → IsHiddenFrom libc Same (if test then m else n) v
  if-IsHiddenFrom true m n v hm hn = hm
  if-IsHiddenFrom false m n v hm hn = hn

  -- The calls that are not replaced find no difference.
  pub record IsBlind (x : Extern W) : Type 0 where
    pub lseek_same :
        (fd offset whence : ℤ) (w v : W)
        → Same w v
        → ((x.lseek fd offset whence w).0 ≡ (x.lseek fd offset whence v).0)
          × Same (x.lseek fd offset whence w).1 (x.lseek fd offset whence v).1
    pub pread_same :
        (fd : ℤ) (buf count : ℕ) (offset : ℤ) (w v : W)
        → Same w v
        → ((x.pread fd buf count offset w).0 ≡ (x.pread fd buf count offset v).0)
          × Same (x.pread fd buf count offset w).1 (x.pread fd buf count offset v).1
    pub perror_same :
        (text : Text) (w v : W)
        → Same w v
        → ((x.perror text w).0 ≡ (x.perror text v).0) × Same (x.perror text w).1 (x.perror text v).1

  -- The calls that the program makes are hidden.
  module _ (x : Extern W) (blind : IsBlind x)
      (hidden : (c : Call) (v : W) → is_plain c ≡ true → IsHidden libc Same c v) where
    pread-IsHiddenFrom :
        {A : Type 0} (fd : ℤ) (buf count : ℕ) (offset : ℤ) (next : ℤ → Program W A) (v : W)
        → let (ret, v') = x.pread fd buf count offset v in
          IsHiddenFrom libc Same (next ret) v'
          → IsHiddenFrom libc Same (direct (x.pread fd buf count offset) next) v
    pread-IsHiddenFrom fd buf count offset next v later =
        (λ w. blind.pread_same fd buf count offset w v, later)

    lseek-IsHiddenFrom :
        {A : Type 0} (fd offset whence : ℤ) (next : ℤ → Program W A) (v : W)
        → let (ret, v') = x.lseek fd offset whence v in
          IsHiddenFrom libc Same (next ret) v'
          → IsHiddenFrom libc Same (direct (x.lseek fd offset whence) next) v
    lseek-IsHiddenFrom fd offset whence next v later =
        (λ w. blind.lseek_same fd offset whence w v, later)

    errquit-IsHiddenFrom : (text : Text) (v : W) → IsHiddenFrom libc Same (errquit x text) v
    errquit-IsHiddenFrom text v = (λ w. blind.perror_same text w v, tt)

    ruleset shown_rules = (
      call-IsHiddenFrom, pread-IsHiddenFrom, lseek-IsHiddenFrom, errquit-IsHiddenFrom,
      if-IsHiddenFrom,
    )

    change_names-IsHiddenFrom : (v : W) → IsHiddenFrom libc Same (change_names x) v
    change_names-IsHiddenFrom v = search (shown_rules, hidden) depth 20

    read_back-IsHiddenFrom : (fd : ℤ) (v : W) → IsHiddenFrom libc Same (read_back x fd) v
    read_back-IsHiddenFrom fd v = search (shown_rules, hidden, change_names-IsHiddenFrom) depth 12

    reopened-IsHiddenFrom : (fd : ℤ) (v : W) → IsHiddenFrom libc Same (reopened x fd) v
    reopened-IsHiddenFrom fd v =
        if-IsHiddenFrom (is_negative fd) _ _ v (search shown_rules) (read_back-IsHiddenFrom fd v)

    write_out-IsHiddenFrom : (fd : ℤ) (v : W) → IsHiddenFrom libc Same (write_out x fd) v
    write_out-IsHiddenFrom fd v = search (shown_rules, hidden, reopened-IsHiddenFrom) depth 12

    created-IsHiddenFrom : (fd : ℤ) (v : W) → IsHiddenFrom libc Same (created x fd) v
    created-IsHiddenFrom fd v =
        if-IsHiddenFrom (is_negative fd) _ _ v (search shown_rules) (write_out-IsHiddenFrom fd v)

    -- Then each of its calls is.
    pub main-IsHiddenFrom : (v : W) → IsHiddenFrom libc Same (main x) v
    unfolding main
    main-IsHiddenFrom v = search (shown_rules, hidden, created-IsHiddenFrom)

-- ===== src/Monitor.antt =====
-- hw2/fsmon.c: a library that stands between a program and the C library, and logs the calls.
pub mod Strings
pub mod Log
pub mod Calls
pub mod Programs
pub mod Ready
pub mod Transparent
mod Tests
use advanced_unix_progr.Base.{ℕ, ℤ, Bool, Text, List, Option, none, some}

-- The functions that are replaced, with their arguments. `FILE *`, `DIR *` and other pointers are
-- addresses, 0 the null pointer; `mode` is the third argument of `open`, where one is given; `args` is what stands for `...`.
pub data Call : Type 0 where
  closedir readdir : (dp : ℕ) → Call
  opendir : (name : Text) → Call
  creat : (path : Text) → (mode : ℕ) → Call
  open_file : (path : Text) → (flags : ℤ) → (mode : Option ℕ) → Call
  read write : (fd : ℤ) → (buf count : ℕ) → Call
  dup close : (fd : ℤ) → Call
  dup2 : (fd1 fd2 : ℤ) → Call
  lstat stat : (path : Text) → (buf : ℕ) → Call
  pwrite : (fd : ℤ) → (buf count : ℕ) → (offset : ℤ) → Call
  fopen : (path mode : Text) → Call
  fclose fgetc fflush : (fp : ℕ) → Call
  fread fwrite fwrite_unlocked : (buf size count fp : ℕ) → Call
  fgets : (buf : ℕ) → (size : ℤ) → (fp : ℕ) → Call
  fscanf fprintf : (fp : ℕ) → (format : Text) → (args : List ℕ) → Call
  chdir remove unlink rmdir : (path : Text) → Call
  chown : (path : Text) → (uid gid : ℕ) → Call
  chmod mkdir : (path : Text) → (mode : ℕ) → Call
  rename link symlink : (old_path new_path : Text) → Call
  readlink : (path : Text) → (buf size : ℕ) → Call
  xstat lxstat : (version : ℤ) → (path : Text) → (buf : ℕ) → Call
  fputs_unlocked : (text fp : ℕ) → Call

-- What a call returns: a pointer, what a returned `char *` or `struct dirent *` points to, or a number.
abbrev pub Ret : Call → Type 0
Ret (opendir name) = ℕ
Ret (fopen path mode) = ℕ
Ret (readdir dp) = Option Text
Ret (fgets buf size fp) = Option Text
Ret _ = ℤ

-- The arguments of a format: `%d`, `%X`, `%s` and `%c`.
pub data Arg : Type 0 where
  num : ℤ → Arg
  hex : ℕ → Arg
  str : Option Text → Arg
  chr : ℤ → Arg

-- What the code reads of `struct stat`.
pub record Stat : Type 0 where
  pub st_mode : ℕ
  pub st_size : ℤ

-- The C library and the system. `has` is the functions that dlsym finds. `fileno` and `dirfd` have
-- no result for an object that is closed; `link_of` is readlink on /proc/self/fd/<fd>, at most 127
-- bytes, without a result where it fails. `string_at` has no result where no NUL ends the bytes.
pub record Libc (W : Type 0) : Type 0 where
  pub has : Text → Bool
  pub real : (c : Call) → W → Ret c × W
  pub vfprintf : ℕ → Text → List Arg → W → W
  pub stderr : ℕ
  pub getenv : Text → W → Option Text
  pub fileno : ℕ → W → Option ℤ
  pub dirfd : ℕ → W → Option ℤ
  pub link_of : ℤ → W → Option Text
  pub stat_at : ℕ → W → Stat
  pub string_at : ℕ → W → Option Text

-- `buff1` is the static buffer of `convert_to_verbose_newline`, which keeps its bytes between calls.
pub record Process (W : Type 0) : Type 0 where
  pub world : W
  pub buff1 : Text

-- `none` is undefined behaviour: a call of a function that was not found, a closed object, or a
-- write or read outside of a buffer.
abbrev pub Run : Type 0 → Type 0 → Type 0
Run W A = Process W → Option (A × Process W)

module _ {W A B : Type 0} where
  abbrev pub and_then : Option (A × Process W) → (A → Run W B) → Option (B × Process W)
  and_then none k = none
  and_then (some (a, p)) k = k a p

  infixl 5 ◌>>=◌ ◌>>◌
  abbrev pub ◌>>=◌ : Run W A → (A → Run W B) → Run W B
  ◌>>=◌ m k p = and_then (m p) k

  abbrev pub ◌>>◌ : Run W A → Run W B → Run W B
  ◌>>◌ m n p = and_then (m p) (λ _. n)

module _ {W A : Type 0} where
  abbrev pub pure : A → Run W A
  pure a p = some (a, p)

  abbrev pub undefined : Run W A
  undefined p = none

  -- What is read of the system.
  abbrev pub ask : (W → A) → Run W A
  ask f p = some (f p.world, p)

  -- A value that must be there.
  abbrev pub need : Option A → Run W A
  need none = undefined
  need (some a) = pure a

  -- A call that changes the system.
  abbrev pub act : (W → A × W) → Run W A
  act f p = let (a, w) = f p.world in some (a, record p { world = w })

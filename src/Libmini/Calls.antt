-- ===== src/Libmini/Calls.antt =====
-- hw3/libmini.c, `read` to `sigpending`: the wrappers of the system calls.
pub mod Results
use advanced_unix_progr.Base.{
  ℕ, zero, suc, ◌-◌, ◌%◌, ◌^◌, ℤ, pos, negsuc, is_negative, Text, Option, none, some, if◌then◌else◌,
}
use advanced_unix_progr.Cstd.{int_of_u32}
use advanced_unix_progr.Libmini.Errno.{State, opposite, minus_one, wrapper_retval}

-- The calls with their arguments; pointers are addresses. The size of a set of signals, which the last
-- two pass as well, is always 8.
pub data Syscall : Type 0 where
  read write : (fd : ℤ) → (buf count : ℕ) → Syscall
  close : (fd : ℕ) → Syscall
  mmap : (addr len : ℕ) → (prot flags fd : ℤ) → (off : ℤ) → Syscall
  mprotect : (addr len : ℕ) → (prot : ℤ) → Syscall
  munmap : (addr len : ℕ) → Syscall
  pipe : (filedes : ℕ) → Syscall
  dup : (filedes : ℤ) → Syscall
  dup2 : (oldfd newfd : ℤ) → Syscall
  pause fork getuid getgid geteuid getegid : Syscall
  alarm : (seconds : ℕ) → Syscall
  getcwd : (buf size : ℕ) → Syscall
  chdir rmdir unlink : (pathname : Text) → Syscall
  rename link : (oldname newname : Text) → Syscall
  mkdir creat : (pathname : Text) → (mode : ℤ) → Syscall
  readlink : (path : Text) → (buf bufsz : ℕ) → Syscall
  chmod : (filename : Text) → (mode : ℕ) → Syscall
  chown : (filename : Text) → (user group : ℕ) → Syscall
  umask : (mask : ℤ) → Syscall
  gettimeofday : (tv tz : ℕ) → Syscall
  setuid setgid : (id : ℕ) → Syscall
  sigprocmask : (how : ℤ) → (set oset : ℕ) → Syscall
  sigpending : (set : ℕ) → Syscall

-- `ssize_t`, `int` and `pid_t`, `uid_t` and `gid_t`, or a pointer.
pub data Kind : Type 0 where
  ssize int uid pointer : Kind

abbrev pub kind_of : Syscall → Kind
kind_of (read fd buf count) = ssize
kind_of (write fd buf count) = ssize
kind_of (readlink path buf bufsz) = ssize
kind_of (mmap addr len prot flags fd off) = pointer
kind_of (getcwd buf size) = pointer
kind_of getuid = uid
kind_of getgid = uid
kind_of geteuid = uid
kind_of getegid = uid
kind_of _ = int

-- The lowest 32 bits of a `long`.
abbrev pub low_32 : ℤ → ℕ
low_32 (pos n) = n % 2 ^ 32
low_32 (negsuc n) = 2 ^ 32 - 1 - n % 2 ^ 32

abbrev pub cast : Kind → ℤ → ℤ
cast ssize ret = ret
cast int ret = int_of_u32 (low_32 ret)
cast uid ret = pos (low_32 ret)
cast pointer ret = ret

-- `WRAPPER_RETptr`: `NULL` where the call failed.
abbrev pub wrapper_retptr : ℤ → ℤ × ℤ
wrapper_retptr ret = if is_negative ret then (pos 0, opposite ret) else (ret, pos 0)

abbrev pub wrap : Kind → ℤ → ℤ × ℤ
wrap pointer ret = wrapper_retptr ret
wrap kind ret = let (result, errno) = wrapper_retval ret in (cast kind result, errno)

-- `sys` is the system calls: what the kernel returns.
module _ {W : Type 0} (sys : Syscall → W → ℤ × W) where
  unfoldable pub call : Syscall → State W → ℤ × State W
  call c s =
      let (ret, w) = sys c s.world in
      let (result, errno) = wrap (kind_of c) ret in (result, record { errno = errno; world = w })

-- `nanosleep`, which calls itself; `none` is not returning within `fuel` calls.
unfoldable pub nanosleep : {W : Type 0} → ℕ → (rqtp rmtp : ℕ) → State W → Option (ℤ × State W)
nanosleep zero rqtp rmtp s = none
nanosleep (suc fuel) rqtp rmtp s = elim (nanosleep fuel rqtp rmtp s) [
  | none ↦ none
  | some (ret, s') ↦
      some (cast int (wrapper_retval ret).0, record s' { errno = (wrapper_retval ret).1 })
]

-- `exit`: `sys_exit` does not return, and what is behind it is not run.
abbrev pub exit : {W : Type 0} → (sys_exit : ℤ → W → W) → ℤ → State W → W
exit sys_exit error_code s = sys_exit error_code s.world

-- ===== src/Libmini/Errno.antt =====
-- hw3/libmini.c: `errno` as the wrappers of system calls set it, and `perror`.
pub mod Messages
use advanced_unix_progr.Base.{
  ℕ, zero, suc, ◌-◌, ℤ, pos, negsuc, is_negative, Bool, true, false, ◌||◌, Text, List, [], ◌∷◌,
  Option, none, some, map, get_elem?, codes, ltb, if◌then◌else◌,
}
use Prim.Native.String.{String}

-- `errno`, and the system; `W` is the type of its states.
pub record State (W : Type 0) : Type 0 where
  pub errno : ℤ
  pub world : W

-- `- ret`
abbrev pub opposite : ℤ → ℤ
opposite (pos zero) = pos zero
opposite (pos (suc n)) = negsuc n
opposite (negsuc n) = pos (suc n)

abbrev pub minus_one : ℤ
minus_one = negsuc 0

-- `WRAPPER_RETval`: what a call that returned `ret` gives back, with `errno`.
abbrev pub wrapper_retval : ℤ → ℤ × ℤ
wrapper_retval ret = if is_negative ret then (minus_one, opposite ret) else (ret, pos 0)

abbrev pub perrmsg_max : ℕ
perrmsg_max = 34

abbrev pub errmsg : List Text
errmsg = map codes (
    "Success" ∷ "Operation not permitted" ∷ "No such file or directory" ∷ "No such process"
    ∷ "Interrupted system call" ∷ "I/O error" ∷ "No such device or address"
    ∷ "Argument list too long" ∷ "Exec format error" ∷ "Bad file number" ∷ "No child processes"
    ∷ "Try again" ∷ "Out of memory" ∷ "Permission denied" ∷ "Bad address" ∷ "Block device required"
    ∷ "Device or resource busy" ∷ "File exists" ∷ "Cross-device link" ∷ "No such device"
    ∷ "Not a directory" ∷ "Is a directory" ∷ "Invalid argument" ∷ "File table overflow"
    ∷ "Too many open files" ∷ "Not a typewriter" ∷ "Text file busy" ∷ "File too large"
    ∷ "No space left on device" ∷ "Illegal seek" ∷ "Read-only file system" ∷ "Too many links"
    ∷ "Broken pipe" ∷ "Math argument out of domain of func" ∷ "Math result not representable" ∷ [])

-- `errno < PERRMSG_MIN || errno > PERRMSG_MAX`
abbrev pub is_unknown : ℤ → Bool
is_unknown (pos n) = ltb perrmsg_max n
is_unknown (negsuc n) = true

-- `errmsg[i]`; `none` is a read out of bounds.
abbrev pub message : ℤ → Option Text
message (pos n) = get_elem? errmsg n
message (negsuc n) = none

-- What `perror` shows of the number `backup` where it tests `errno`.
abbrev pub shown : (errno backup : ℤ) → Option Text
shown errno backup = if is_unknown errno then some (codes "Unknown") else message backup

-- The system call `write`, on a file and the bytes: what it returns, and the state it leaves.
module _ {W : Type 0} (sys_write : ℕ → Text → W → ℤ × W) where
  -- `write`; what it returns is not looked at by `perror`.
  unfoldable pub write : ℕ → Text → State W → ℤ × State W
  write fd text s =
      let (ret, w) = sys_write fd text s.world in
      let (result, errno) = wrapper_retval ret in (result, record { errno = errno; world = w })

  -- A line on the standard error, in parts.
  abbrev pub say : Text → State W → State W
  say text s = (write 2 text s).1

  abbrev pub say_prefix : Option Text → State W → State W
  say_prefix none s = s
  say_prefix (some prefix) s = say (codes ": ") (say prefix s)

  abbrev pub say_message : Option Text → State W → Option (State W)
  say_message none s = none
  say_message (some m) s = some (say (codes "\n") (say m s))

  -- `none` is undefined behaviour. The test reads `errno` as it is after the prefix is written.
  unfoldable pub perror : Option Text → State W → Option (State W)
  perror prefix s = let s' = say_prefix prefix s in say_message (shown s'.errno s.errno) s'

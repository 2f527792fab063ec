-- ===== src/Monitor/Strings.antt =====
-- hw2/fsmon.c, `get_verbose_stat` and `convert_to_verbose_newline`.
pub mod Fits
pub mod Stale
use advanced_unix_progr.Base.{
  ℕ, zero, suc, ◌+◌, ◌-◌, ◌/◌, ◌%◌, ℤ, pos, negsuc, Text, List, [], ◌∷◌, ◌++◌, Option, none, some,
  length, take, drop, codes, bit_and, ltb, ◌==◌, if◌then◌else◌,
}
use advanced_unix_progr.Cstd.{byte_at, before_char, int_of_u32}
use advanced_unix_progr.Monitor.{Stat, Process, Run}

-- The digits of a number, before those that are there.
unfoldable pub show_digits : ℕ → ℕ → Text → Text
show_digits zero n more = more
show_digits (suc fuel) n more =
    let rest = show_digits fuel (n / 10) ((b'0' + n % 10) ∷ more) in
    if ltb n 10 then (b'0' + n) ∷ more else rest

-- `%d`; a number has fewer digits than it counts.
abbrev pub show_nat : ℕ → Text
show_nat n = show_digits (suc n) n []

abbrev pub show_int : ℤ → Text
show_int (pos n) = show_nat n
show_int (negsuc n) = b'-' ∷ show_nat (n + 1)

abbrev pub s_ifmt : ℕ
s_ifmt = 61440

-- The cases of the switch, in its order.
abbrev pub file_type : ℕ → Text
file_type kind =
    if kind == 24576
    then codes "block device"
    else if kind == 8192
    then codes "character device"
    else if kind == 16384
    then codes "directory"
    else if kind == 4096
    then codes "FIFO/pipe"
    else if kind == 40960
    then codes "symlink"
    else if kind == 32768
    then codes "regular file"
    else if kind == 49152
    then codes "socket"
    else codes "unknown"

abbrev pub stat_text : Stat → Text
stat_text s =
    codes "{type="
    ++ file_type (bit_and s.st_mode s_ifmt)
    ++ codes ", mode="
    ++ show_int (int_of_u32 s.st_mode)
    ++ codes ", size="
    ++ show_int s.st_size
    ++ codes "}"

-- `buff` has 64 bytes.
unfoldable pub get_verbose_stat : Stat → Option Text
get_verbose_stat s = if ltb (length (stat_text s)) 64 then some (stat_text s) else none

abbrev pub buff1_size : ℕ
buff1_size = 128

-- The bytes of `buff1` after strncpy, which copies `n` bytes and writes no NUL.
abbrev pub copied : ℕ → Text → Text → Text
copied n format buff1 = take n format ++ drop n buff1

-- `%s` of `buff1`, and a backslash and an `n` behind it; snprintf writes at most 131 bytes.
abbrev pub shown_line : Option Text → Option Text
shown_line none = none
shown_line (some s) = some (take 131 (s ++ codes "\\n"))

abbrev pub with_buff1 : {W : Type 0} → Option Text → Text → Run W (Option Text)
with_buff1 none bytes p = none
with_buff1 (some s) bytes p = some (some s, record p { buff1 = bytes })

-- The text is shown with its last newline written out; `NULL` stays `NULL`. An empty text is read
-- before its start.
unfoldable pub convert_to_verbose_newline : {W : Type 0} → Option Text → Run W (Option Text)
convert_to_verbose_newline none p = some (none, p)
convert_to_verbose_newline (some []) p = none
convert_to_verbose_newline (some (c ∷ s)) p =
    let n = length s in
    let bytes = copied n (c ∷ s) p.buff1 in
    if byte_at (c ∷ s) n == b'\n'
    then if ltb buff1_size n then none else with_buff1 (shown_line (before_char 0 bytes)) bytes p
    else some (some (c ∷ s), p)

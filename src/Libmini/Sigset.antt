-- ===== src/Libmini/Sigset.antt =====
-- hw3/libmini.h, `sigemptyset` to `sigismember`: a set of signals as a 64-bit mask. The functions
-- take the old value of `*set` and return the new one; `none` is a shift that C leaves undefined,
-- for a signal that is not 1 to 64 (a negative one is like 0).
pub mod Members
use advanced_unix_progr.Base.{
  ℕ, ◌-◌, ◌^◌, Bool, true, false, ◌&&◌, Option, none, some, bit_and, bit_or, leb, ◌==◌,
  if◌then◌else◌,
}

abbrev pub is_signal : ℕ → Bool
is_signal sig = leb 1 sig && leb sig 64

-- `1UL << (sig - 1)`
abbrev pub signal_bit : ℕ → ℕ
signal_bit sig = 2 ^ (sig - 1)

-- `~m`
abbrev pub complement : ℕ → ℕ
complement m = 2 ^ 64 - 1 - m

unfoldable pub sigemptyset : ℕ → ℕ
sigemptyset set = 0

unfoldable pub sigfillset : ℕ → ℕ
sigfillset set = complement 0

unfoldable pub sigaddset : ℕ → ℕ → Option ℕ
sigaddset set sig = if is_signal sig then some (bit_or set (signal_bit sig)) else none

unfoldable pub sigdelset : ℕ → ℕ → Option ℕ
sigdelset set sig = if is_signal sig then some (bit_and set (complement (signal_bit sig))) else none

unfoldable pub sigismember : ℕ → ℕ → Option ℕ
sigismember set sig =
    if is_signal sig then some (if bit_and set (signal_bit sig) == 0 then 0 else 1) else none

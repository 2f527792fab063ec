-- ===== src/Cstd/Bounds.antt =====
-- The range of what `sscanf` reads.
use advanced_unix_progr.Base.{ℕ, ◌^◌, ◌<◌, Text, Option, none, some, ◌≡◌, arith, drop}
use advanced_unix_progr.Cstd.{hex_value, negate, signed_hex, skip_spaces, scan_hex}

pub hex_value-lt : (s : Text) (n : ℕ) → hex_value s ≡ some n → n < 2 ^ 64
hex_value-lt s n e = ground arith

negate-lt : (a : Option ℕ) (n : ℕ) → negate a ≡ some n → n < 2 ^ 64
negate-lt none n e = cc
negate-lt (some a) n e = ground arith

signed_hex-lt : (s : Text) (n : ℕ) → signed_hex s ≡ some n → n < 2 ^ 64
signed_hex-lt s n e =
    ground (arith, hex_value-lt s n, hex_value-lt (drop 1 s) n, negate-lt (hex_value (drop 1 s)) n)

-- What `%llx` reads is a 64-bit number.
pub scan_hex-lt : (s : Text) (n : ℕ) → scan_hex s ≡ some n → n < 2 ^ 64
unfolding scan_hex
scan_hex-lt s n e = signed_hex-lt (skip_spaces s) n e

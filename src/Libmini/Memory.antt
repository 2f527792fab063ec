-- ===== src/Libmini/Memory.antt =====
-- hw3/libmini.c, `bzero`, `strlen` and `memcpy`, on memory as a function of the address.
pub mod Copied
use advanced_unix_progr.Base.{
  ℕ, zero, suc, ◌+◌, ◌%◌, ◌^◌, ltb, Option, none, some, ◌==◌, if◌then◌else◌,
}

abbrev pub Memory : Type 0
Memory = ℕ → ℕ

abbrev pub store : ℕ → ℕ → Memory → Memory
store addr byte m a = if a == addr then byte else m a

-- `size` more bytes.
unfoldable pub bzero : ℕ → ℕ → Memory → Memory
bzero s zero m = m
bzero s (suc size) m = bzero (s + 1) size (store s 0 m)

-- The bytes up to the first NUL, of which at most `fuel` are looked at.
unfoldable pub strlen : ℕ → ℕ → ℕ → Memory → Option ℕ
strlen zero s count m = none
strlen (suc fuel) s count m =
    let rest = strlen fuel (s + 1) (count + 1) m in if m s == 0 then some count else rest

-- The loop of `memcpy` from index `i`, for `left` more bytes; addresses have 64 bits.
unfoldable pub copy_from : (left i dst src : ℕ) → Memory → Memory
copy_from zero i dst src m = m
copy_from (suc left) i dst src m =
    copy_from left (i + 1) dst src (store ((dst + i) % 2 ^ 64) (m ((src + i) % 2 ^ 64)) m)

-- The index is an `int`: `none` is its overflow, where `num` is more than the largest one.
unfoldable pub memcpy : (dst src num : ℕ) → Memory → Option Memory
memcpy dst src num m = if ltb num (2 ^ 31) then some (copy_from num 0 dst src m) else none

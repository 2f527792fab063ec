-- ===== src/Libmini/Calls/Results.antt =====
-- What the wrappers return.
use advanced_unix_progr.Base.{ℕ, zero, suc, ◌+◌, ◌-◌, ◌^◌, ◌<◌, ℤ, pos, negsuc, none, ◌≡◌, refl}
use advanced_unix_progr.Libmini.Errno.{State, minus_one}
use advanced_unix_progr.Libmini.Calls.{Kind, ssize, int, uid, pointer, nanosleep}

-- What a function returns where it fails.
abbrev pub failure : Kind → ℤ
failure pointer = pos 0
failure uid = pos (2 ^ 32 - 1)
failure _ = minus_one

abbrev pub room : Kind → ℕ
room ssize = 2 ^ 63
room pointer = 2 ^ 63
room int = 2 ^ 31
room uid = 2 ^ 32

-- What the kernel may return: an error's negative number, or one that the function's type has.
abbrev pub IsAnswer : Kind → ℤ → Type 0
IsAnswer k (pos n) = n < room k
IsAnswer k (negsuc n) = Unit

-- A failed call's result, and the number of its error.
abbrev pub result_of : Kind → ℤ → ℤ
result_of k (pos n) = pos n
result_of k (negsuc n) = failure k

abbrev pub errno_of : ℤ → ℤ
errno_of (pos n) = pos 0
errno_of (negsuc n) = pos (n + 1)

-- However many calls are waited for, `nanosleep` does not return.
pub nanosleep-none :
    {W : Type 0} (fuel rqtp rmtp : ℕ) (s : State W) → nanosleep fuel rqtp rmtp s ≡ none
unfolding nanosleep
nanosleep-none zero rqtp rmtp s = refl
nanosleep-none (suc fuel) rqtp rmtp s = rw (nanosleep-none fuel rqtp rmtp s) refl

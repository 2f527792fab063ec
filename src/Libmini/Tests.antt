-- ===== src/Libmini/Tests.antt =====
-- The theorems about the small C library at concrete values.
mod Programs
mod System
use advanced_unix_progr.Base.{
  ℕ, ℤ, pos, Text, List, [], ◌∷◌, none, some, ◌≡◌, refl, length, codes, ◌==◌, if◌then◌else◌,
}
use advanced_unix_progr.Libmini.Sigset.{sigemptyset, sigfillset, sigaddset, sigdelset, sigismember}
use advanced_unix_progr.Libmini.Sigset.Members.{
  sigismember-sigemptyset, sigismember-sigaddset, sigismember-sigdelset,
}
use advanced_unix_progr.Libmini.Errno.{State, message, shown, say, say_message, perror}
use advanced_unix_progr.Libmini.Errno.Messages.{perror-prefix}

-- A terminal: the parts that were written, the latest first.
abbrev terminal : ℕ → Text → List Text → ℤ × List Text
terminal fd text lines = (pos (length text), text ∷ lines)

abbrev state : ℤ → State (List Text)
state errno = record { errno = errno; world = [] }

-- EDEADLK, 35, has no message.
perror-prefix_example :
    perror terminal (some (codes "lock")) (state (pos 35))
    ≡ say_message terminal
        (message (pos 35))
        (say terminal (codes ": ") (say terminal (codes "lock") (state (pos 35))))
perror-prefix_example = perror-prefix terminal (codes "lock") (state (pos 35)) (λ text w. refl)

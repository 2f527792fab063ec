-- ===== src/Monitor/Programs/Closing.antt =====
-- What becomes of a program that closes a directory.
use advanced_unix_progr.Base.{◌≡◌}
use advanced_unix_progr.Monitor.{closedir, Libc}
use advanced_unix_progr.Monitor.Programs.{Program, done, call, direct}
use advanced_unix_progr.Monitor.Programs.Hidden.{IsHidden}

module _ {W : Type 0} (libc : Libc W) (Same : W → W → Type 0) where
  -- The run of the program from `v` calls `closedir`, the line of each call before can be shown, and
  -- the other calls before find no difference.
  abbrev pub ClosesFrom : {A : Type 0} → Program W A → W → Type 0
  ClosesFrom (done a) v = ⊥
  ClosesFrom (call (closedir dp) next) v = Unit
  ClosesFrom (call c next) v =
      IsHidden libc Same c v × ClosesFrom (next (libc.real c v).0) (libc.real c v).1
  ClosesFrom (direct f next) v =
      ((w : W) → Same w v → ((f w).0 ≡ (f v).0) × Same (f w).1 (f v).1)
      × ClosesFrom (next (f v).0) (f v).1

-- ===== src/Monitor/Programs.antt =====
-- Programs that run with the library of hw2/fsmon.c in front of the C library, as the sequences of
-- their calls; hw2/testcases/file.c and dir.c are two.
pub mod File
pub mod Dir
pub mod Hidden
pub mod Closing
use advanced_unix_progr.Base.{ℤ, none, some, Option}
use advanced_unix_progr.Monitor.{Call, Ret, Libc, Run, ◌>>=◌, pure, act}
use advanced_unix_progr.Monitor.Calls.{monitor}

-- What a program does until it ends with a value: a call of a function that is replaced, or another
-- call, with what it does to the system and returns.
pub data Program (W A : Type 0) : Type 0 where
  done : A → Program W A
  call : (c : Call) → (Ret c → Program W A) → Program W A
  direct : (W → ℤ × W) → (ℤ → Program W A) → Program W A

module _ {W A : Type 0} (libc : Libc W) where
  -- The program with the C library alone.
  unfoldable pub run_real : Program W A → W → A × W
  run_real (done a) w = (a, w)
  run_real (call c next) w = let (ret, w') = libc.real c w in run_real (next ret) w'
  run_real (direct f next) w = let (ret, w') = f w in run_real (next ret) w'

  -- The program with the library in front of it.
  unfoldable pub run_monitored : Program W A → Run W A
  run_monitored (done a) = pure a
  run_monitored (call c next) = monitor libc c >>= λ ret. run_monitored (next ret)
  run_monitored (direct f next) = act f >>= λ ret. run_monitored (next ret)

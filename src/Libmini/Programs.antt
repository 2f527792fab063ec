-- ===== src/Libmini/Programs.antt =====
-- hw3/jmp1.c and hw3/jmp2.c: programs that jump back with `longjmp`.
pub mod Jmp1
pub mod Jmp2
pub mod Verdict
pub mod Visits
use advanced_unix_progr.Base.{ℕ, Text, List, ◌∷◌, ◌==◌, if◌then◌else◌}
use advanced_unix_progr.Libmini.Jumps.{JmpBuf}

-- A program with the buffer `jb`. `local` is the `volatile` variable of `main` in the frame whose
-- base is the argument, and `out` what was given to `write` on the standard output, the latest first.
pub record Program (W : Type 0) : Type 0 where
  pub jb : JmpBuf
  pub local : ℕ → ℕ
  pub world : W
  pub out : List Text

-- An assignment to the variable of a frame.
abbrev pub assign : {W : Type 0} → (frame value : ℕ) → Program W → Program W
assign frame value s = record s { local = λ base. if frame == base then value else s.local base }

-- `write(1, text, strlen(text))`, where `put` is what the call does to the system.
abbrev pub print : {W : Type 0} → (put : Text → W → W) → Text → Program W → Program W
print put text s = record s { world = put text s.world; out = text ∷ s.out }

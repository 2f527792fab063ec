-- ===== src/Monitor/Tests/Closing.antt =====
-- hw2/testcases/dir.c with the library, in front of a C library with one directory.
use advanced_unix_progr.Base.{
  pos, Bool, true, false, Text, List, [], ◌∷◌, Option, none, some, ◌≡◌, refl, codes, if◌then◌else◌,
}
use advanced_unix_progr.Monitor.{Call, closedir, readdir, opendir, fopen, fgets, Ret, Libc, Process}
use advanced_unix_progr.Monitor.Ready.{DirNamed}
use advanced_unix_progr.Monitor.Programs.{run_real}
use advanced_unix_progr.Monitor.Programs.Dir.{main, list_entries}

-- The directory with the entries that are still to be read.
record World : Type 0 where
  is_open : Bool
  entries : List Text

abbrev entry : List Text → Option Text
entry [] = none
entry (name ∷ rest) = some name

abbrev later : List Text → List Text
later [] = []
later (name ∷ rest) = rest

abbrev real : (c : Call) → World → Ret c × World
real (opendir name) w = (5, record w { is_open = true })
real (readdir dp) w = (entry w.entries, record w { entries = later w.entries })
real (closedir dp) w = (pos 0, record w { is_open = false })
real (fopen path mode) w = (7, w)
real (fgets buf size fp) w = (none, w)
real c w = (pos 0, w)

abbrev libc : Libc World
libc = record {
  has = λ name. true;
  real = real;
  vfprintf = λ fp format args w. w;
  stderr = 2;
  getenv = λ name w. none;
  fileno = λ fp w. some (pos 4);
  dirfd = λ dp w. if w.is_open then some (pos 5) else none;
  link_of = λ fd w. some (codes "/tmp");
  stat_at = λ address w. record { st_mode = 0; st_size = pos 0 };
  string_at = λ address w. some [];
}

abbrev Same : World → World → Type 0
Same w v = w ≡ v

abbrev start : Process World
start = record {
  world = record { is_open = false; entries = codes "a" ∷ codes "b" ∷ [] };
  buff1 = [];
}

-- The program without the library: it ends with 0.
dir_alone : (run_real libc (main (λ name w. (pos 2, w)) 3) start.world).0 ≡ some (pos 0)
unfolding main list_entries run_real
dir_alone = refl

-- The name of the directory while it is open.
abbrev named : DirNamed libc 5 (record start.world { is_open = true })
named = (pos 5, refl, (codes "/tmp", refl))

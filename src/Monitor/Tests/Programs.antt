-- ===== src/Monitor/Tests/Programs.antt =====
-- hw2/testcases/file.c with and without the library in front of a C library that counts the streams.
use advanced_unix_progr.Base.{
  ℕ, ◌+◌, ◌-◌, pos, Text, List, [], ◌∷◌, none, some, ◌≡◌, refl, codes, true,
}
use advanced_unix_progr.Monitor.{
  Call, opendir, readdir, fopen, fclose, fgets, Ret, Stat, Libc, Process,
}
use advanced_unix_progr.Monitor.Strings.{get_verbose_stat, show_digits}
use advanced_unix_progr.Monitor.Programs.File.{Extern}

record World : Type 0 where
  streams : ℕ
  log : List Text

abbrev real : (c : Call) → World → Ret c × World
real (opendir name) w = (5, w)
real (fopen path mode) w = (w.streams + 3, record w { streams = w.streams + 1 })
real (readdir dp) w = (none, w)
real (fgets buf size fp) w = (none, w)
real (fclose fp) w = (pos 0, record w { streams = w.streams - 1 })
real c w = (pos (w.streams + 3), w)

abbrev regular : Stat
regular = record { st_mode = 33188; st_size = pos 1024 }

abbrev libc : Libc World
libc = record {
  has = λ name. true;
  real = real;
  vfprintf = λ fp format args w. record w { log = format ∷ w.log };
  stderr = 2;
  getenv = λ name w. some (codes "/tmp/log");
  fileno = λ fp w. some (pos 4);
  dirfd = λ dp w. some (pos 5);
  link_of = λ fd w. some (codes "/tmp/a");
  stat_at = λ address w. regular;
  string_at = λ address w. some [];
}

regular_shown : get_verbose_stat regular ≡ some (codes "{type=regular file, mode=33188, size=1024}")
unfolding get_verbose_stat show_digits
regular_shown = refl

-- The log is not seen; the number of open streams is.
abbrev Same : World → World → Type 0
Same w v = w.streams ≡ v.streams

abbrev extern : Extern World
extern = record {
  lseek = λ fd offset whence w. (offset, w);
  pread = λ fd buf count offset w. (pos count, w);
  perror = λ text w. (pos 0, w);
  abcd = 100;
  efgh = 200;
  ijkl = 300;
  buf = 400;
  st = 500;
}

abbrev start : Process World
start = record { world = record { streams = 3; log = [] }; buff1 = [] }

-- ===== src/Monitor/Programs/Hidden.antt =====
-- That a program cannot see the library of hw2/fsmon.c.
use advanced_unix_progr.Base.{Text, List, some, ◌≡◌, refl, ap, ◌==◌, false, codes}
use advanced_unix_progr.Monitor.Calls.{monitor}
use advanced_unix_progr.Monitor.{Call, fopen, fclose, Arg, Libc, Process}
use advanced_unix_progr.Monitor.Ready.{IsReady, IsUnseen, CanShow}
use advanced_unix_progr.Monitor.Transparent.{Gives, monitor-Gives}
use advanced_unix_progr.Monitor.Programs.{Program, done, call, direct}

module _ {W : Type 0} (libc : Libc W) (Same : W → W → Type 0) where
  -- `Same w v`: the system `w`, in which lines are logged, is `v`, in which they are not, but for
  -- what is logged. Of a call that is made in `v`: it gives the same in `w`, where its line can be
  -- shown and is not seen afterwards, on the standard error or in the file of the log.
  pub record IsHidden (c : Call) (v : W) : Type 0 where
    pub same_call :
        (w : W)
        → Same w v
        → ((libc.real c w).0 ≡ (libc.real c v).0) × Same (libc.real c w).1 (libc.real c v).1
    pub shown : (w : W) → Same w v → CanShow libc c w
    pub same_stderr :
        (format : Text) (args : List Arg) (w : W)
        → Same w (libc.real c v).1
        → Same (libc.vfprintf libc.stderr format args w) (libc.real c v).1
    pub same_file :
        (log_name format : Text) (args : List Arg) (w : W)
        → libc.getenv (codes "MONITOR_OUTPUT") w ≡ some log_name
        → Same w (libc.real c v).1
        → let (fp, w') = libc.real (fopen log_name (codes "a")) w in
          ((fp == 0) ≡ false)
          × Same (libc.real (fclose fp) (libc.vfprintf fp format args w')).1 (libc.real c v).1

  -- The run of the program from `v`: each call that is replaced is hidden, and the other calls give
  -- the same too.
  abbrev pub IsHiddenFrom : {A : Type 0} → Program W A → W → Type 0
  IsHiddenFrom (done a) v = Unit {0}
  IsHiddenFrom (call c next) v =
      IsHidden c v × IsHiddenFrom (next (libc.real c v).0) (libc.real c v).1
  IsHiddenFrom (direct f next) v =
      ((w : W) → Same w v → ((f w).0 ≡ (f v).0) × Same (f w).1 (f v).1)
      × IsHiddenFrom (next (f v).0) (f v).1

  module _ (ready : IsReady libc) where
    Same-IsUnseen :
        (c : Call) (v : W) (b : Text)
        → IsHidden c v
        → IsUnseen libc (λ p. Same p.world (libc.real c v).1 × (p.buff1 ≡ b))
    Same-IsUnseen c v b hidden = record {
      stderr_line = λ format args p h. (hidden.same_stderr format args p.world h.0, h.1);
      file_line = λ log_name format args p e h.
          let (opens, same) = hidden.same_file log_name format args p.world e h.0 in
          (opens, (same, h.1));
    }

    -- A replaced function that is hidden gives what the real one gives in the other system.
    pub monitor-Same :
        (c : Call) (p : Process W) (v : W)
        → IsHidden c v
        → Same p.world v
        → Gives
            (λ q. Same q.world (libc.real c v).1 × (q.buff1 ≡ p.buff1))
            (libc.real c v).0
            (monitor libc c p)
    monitor-Same c p v hidden same =
        let (ret_eq, after) = hidden.same_call p.world same in
        let (q, runs, kept) =
          monitor-Gives libc ready (Same-IsUnseen c v p.buff1 hidden) c p
            (hidden.shown p.world same) (after, refl) in
        (q, (rw runs (ap (λ ret. some (ret, q)) ret_eq)), kept)

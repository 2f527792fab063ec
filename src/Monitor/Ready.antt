-- ===== src/Monitor/Ready.antt =====
-- What the lines of the log need, and that they are written then.
use advanced_unix_progr.Base.{
  ℕ, ℤ, pos, ◌==ℤ◌, Bool, true, false, Text, List, Option, none, some, ◌≡◌, refl, codes, ◌==◌,
  if◌then◌else◌, Bool-cases, inl, inr,
}
use advanced_unix_progr.Monitor.{
  Call, closedir, readdir, fopen, open_file, fclose, fgets, fscanf, fprintf, read, fread, fwrite,
  fwrite_unlocked, fgetc, fputs_unlocked, fflush, readlink, xstat, lxstat, Ret, Arg, Libc, Process,
  Run, and_then,
}
use advanced_unix_progr.Monitor.Strings.{get_verbose_stat}
use advanced_unix_progr.Monitor.Log.{
  load_function, log_line, write_msg, fd_to_filename, get_file_name, get_dir_name, verbose_stat,
  arg_string,
}
use advanced_unix_progr.Monitor.Calls.{log_call}

-- A run that ends, in a state that has `P`.
pub data Ends {W A : Type 0} (P : Process W → Type 0) : Option (A × Process W) → Type 0 where
  ends : (a : A) (p : Process W) → P p → Ends P (some (a, p))

module _ {W A B : Type 0} {P : Process W → Type 0} where
  pub Ends-then :
      (r : Option (A × Process W)) (k : A → Run W B)
      → Ends P r
      → ((a : A) (p : Process W) → P p → Ends P (k a p))
      → Ends P (and_then r k)
  Ends-then none k e h = elim e [ ]
  Ends-then (some (a, p)) k (ends _ _ same) h = h a p same

module _ {W A : Type 0} {P : Process W → Type 0} where
  Ends-if :
      (test : Bool) (m n : Run W A) (p : Process W)
      → Ends P (m p)
      → Ends P (n p)
      → Ends P ((if test then m else n) p)
  Ends-if true m n p hm hn = hm
  Ends-if false m n p hm hn = hn

module _ {W : Type 0} (libc : Libc W) where
  -- The functions are found.
  pub record IsReady : Type 0 where
    pub finds : (name : Text) → libc.has name ≡ true

  -- The descriptor, the stream or the directory has a name.
  abbrev pub FdNamed : ℤ → W → Type 0
  FdNamed fd w = (name : Text) × (libc.link_of fd w ≡ some name)

  abbrev pub FileNamed : ℕ → W → Type 0
  FileNamed fp w = (fd : ℤ) × (libc.fileno fp w ≡ some fd) × FdNamed fd w

  abbrev pub DirNamed : ℕ → W → Type 0
  DirNamed dp w = (fd : ℤ) × (libc.dirfd dp w ≡ some fd) × FdNamed fd w

  abbrev StatShown : ℕ → W → Type 0
  StatShown buf w = (s : Text) × (get_verbose_stat (libc.stat_at buf w) ≡ some s)

  -- What the line of a call shows can be read in the state `w` behind the call. `closedir` shows the
  -- name of a directory that is closed, and three functions a text of any length: they are left out.
  abbrev pub IsShown : Call → W → Type 0
  IsShown (closedir dp) w = ⊥
  IsShown (fgets buf size fp) w = ⊥
  IsShown (fscanf fp format args) w = ⊥
  IsShown (fprintf fp format args) w = ⊥
  IsShown (readdir dp) w = DirNamed dp w
  IsShown (read fd buf count) w = FdNamed fd w
  IsShown (fread buf size count fp) w = FileNamed fp w
  IsShown (fwrite buf size count fp) w = FileNamed fp w
  IsShown (fwrite_unlocked buf size count fp) w = FileNamed fp w
  IsShown (fgetc fp) w = FileNamed fp w
  IsShown (fputs_unlocked text fp) w = FileNamed fp w
  IsShown (fflush fp) w = FileNamed fp w
  IsShown (readlink path buf size) w = (s : Text) × (libc.string_at buf w ≡ some s)
  IsShown (xstat version path buf) w = StatShown buf w
  IsShown (lxstat version path buf) w = StatShown buf w
  IsShown c w = Unit

  -- The same from the state before the call; `fclose` reads the name before it closes the file,
  -- and `open` with a mode is left out, which is not what the real one is called with.
  abbrev pub CanShow : Call → W → Type 0
  CanShow (fclose fp) w = FileNamed fp w
  CanShow (open_file path flags (some mode)) w = ⊥
  CanShow c w = IsShown c (libc.real c w).1

  fd_to_filename-name :
      (fd : ℤ) (p : Process W)
      → libc.has (codes "readlink") ≡ true
      → FdNamed fd p.world
      → (name : Text) × (fd_to_filename libc fd p ≡ some (name, p))
  unfolding fd_to_filename
  fd_to_filename-name fd p found (name, e) = elim (Bool-cases (fd ==ℤ pos 1)) [
    | inl one ↦ (codes "<STDOUT>", rw one refl)
    | inr other ↦ elim (Bool-cases (fd ==ℤ pos 2)) [
      | inl two ↦ (codes "<STDERR>", rw (other, two) refl)
      | inr file ↦ (name, rw (other, file, found, e) refl)
    ]
  ]

  pub get_file_name-name :
      (fp : ℕ) (p : Process W)
      → libc.has (codes "readlink") ≡ true
      → FileNamed fp p.world
      → (name : Text) × (get_file_name libc fp p ≡ some (name, p))
  unfolding get_file_name
  get_file_name-name fp p found (fd, e, named) =
      let (shown, f) = fd_to_filename-name fd p found named in (shown, rw (e, f) refl)

  -- A line on the standard error keeps `P`; the file of the log can be opened, and a line that is
  -- appended to it keeps `P` too.
  pub record IsUnseen (P : Process W → Type 0) : Type 0 where
    pub stderr_line :
        (format : Text) (args : List Arg) (p : Process W)
        → P p
        → P (record p { world = libc.vfprintf libc.stderr format args p.world })
    pub file_line :
        (log_name format : Text) (args : List Arg) (p : Process W)
        → libc.getenv (codes "MONITOR_OUTPUT") p.world ≡ some log_name
        → P p
        → let (fp, w) = libc.real (fopen log_name (codes "a")) p.world in
          ((fp == 0) ≡ false)
          × P (record p { world = (libc.real (fclose fp) (libc.vfprintf fp format args w)).1 })

  module _ (ready : IsReady) {P : Process W → Type 0} (unseen : IsUnseen P) where
    Ends-load :
        {A : Type 0} (name : Text) (k : Unit → Run W A) (p : Process W)
        → Ends P (k tt p)
        → Ends P (and_then (load_function libc name p) k)
    Ends-load name k p h = rw (ready.finds name) h

    log_line-Ends :
        (format : Text) (args : List Arg) (log_name : Option Text) (p : Process W)
        → libc.getenv (codes "MONITOR_OUTPUT") p.world ≡ log_name
        → P p
        → Ends P (log_line libc format args log_name p)
    log_line-Ends format args none p e h = ends tt _ (unseen.stderr_line format args p h)
    log_line-Ends format args (some log_name) p e h =
        let (opens, kept) = unseen.file_line log_name format args p e h in
        rw (ready.finds (codes "fclose"), ready.finds (codes "fopen"), opens) (ends tt _ kept)

    pub write_msg-Ends :
        (format : Text) (args : List Arg) (p : Process W)
        → P p
        → Ends P (write_msg libc format args p)
    unfolding write_msg
    write_msg-Ends format args p h =
        log_line-Ends format args (libc.getenv (codes "MONITOR_OUTPUT") p.world) p refl h

    fd_to_filename-Ends :
        (fd : ℤ) (p : Process W) → FdNamed fd p.world → P p → Ends P (fd_to_filename libc fd p)
    fd_to_filename-Ends fd p named h =
        let (name, e) = fd_to_filename-name fd p (ready.finds (codes "readlink")) named in
        rw e (ends name p h)

    get_file_name-Ends :
        (fp : ℕ) (p : Process W) → FileNamed fp p.world → P p → Ends P (get_file_name libc fp p)
    get_file_name-Ends fp p named h =
        let (name, e) = get_file_name-name fp p (ready.finds (codes "readlink")) named in
        rw e (ends name p h)

    get_dir_name-Ends :
        (dp : ℕ) (p : Process W) → DirNamed dp p.world → P p → Ends P (get_dir_name libc dp p)
    unfolding get_dir_name
    get_dir_name-Ends dp p (fd, e, named) h = rw e (fd_to_filename-Ends fd p named h)

    verbose_stat-Ends :
        (buf : ℕ) (p : Process W) → StatShown buf p.world → P p → Ends P (verbose_stat libc buf p)
    verbose_stat-Ends buf p (s, e) h = rw e (ends s p h)

    arg_string-Ends :
        (address : ℕ) (p : Process W)
        → (s : Text) × (libc.string_at address p.world ≡ some s)
        → P p
        → Ends P (arg_string libc address p)
    arg_string-Ends address p (s, e) h = rw e (ends s p h)

    ruleset line_rules = (
      Ends-if, Ends-then, write_msg-Ends, fd_to_filename-Ends, get_file_name-Ends,
      get_dir_name-Ends, verbose_stat-Ends, arg_string-Ends,
    )

    -- A call whose line can be shown.
    pub log_call-Ends :
        (c : Call) (ret : Ret c) (p : Process W)
        → IsShown c p.world
        → P p
        → Ends P (log_call libc c ret p)
    unfolding log_call
    log_call-Ends (closedir dp) ret p s h = elim s [ ]
    log_call-Ends (fgets buf size fp) ret p s h = elim s [ ]
    log_call-Ends (fscanf fp format args) ret p s h = elim s [ ]
    log_call-Ends (fprintf fp format args) ret p s h = elim s [ ]
    log_call-Ends (readdir dp) none p s h = ends tt p h
    log_call-Ends (readdir dp) (some d_name) p s h = search (line_rules, s) depth 7
    log_call-Ends (fclose fp) ret p s h = ends tt p h
    log_call-Ends c ret p s h = search line_rules depth 7

-- ===== src/Monitor/Transparent.antt =====
-- That the functions do what the ones they replace do.
use advanced_unix_progr.Base.{
  ℕ, [], ◌∷◌, Option, none, some, ◌≡◌, refl, codes, Bool-cases, inl, inr,
}
use advanced_unix_progr.Monitor.{
  Call, closedir, open_file, fclose, fscanf, fprintf, num, str, Libc, Process, and_then, pure,
}
use advanced_unix_progr.Monitor.Log.{write_msg, get_dir_name}
use advanced_unix_progr.Monitor.Calls.{name_of, log_call, begin_mon, monitor_fclose, monitor}
use advanced_unix_progr.Monitor.Ready.{
  Ends, ends, IsReady, IsUnseen, IsShown, CanShow, FileNamed, log_call-Ends, write_msg-Ends,
  get_file_name-name,
}

-- The caller gets `ret`, and the state has `P`.
abbrev pub Gives : {W A : Type 0} → (Process W → Type 0) → A → Option (A × Process W) → Type 0
Gives {W} P ret r = (q : Process W) × (r ≡ some (ret, q)) × P q

Gives-line :
    {W A : Type 0} {P : Process W → Type 0} (ret : A) (r : Option (Unit × Process W))
    → Ends P r
    → Gives P ret (and_then r (λ _. pure ret))
Gives-line ret none e = elim e [ ]
Gives-line ret (some (u, q)) (ends _ _ same) = (q, refl, same)

module _ {W : Type 0} (libc : Libc W) (ready : IsReady libc) {P : Process W → Type 0}
    (unseen : IsUnseen libc P) where
  -- The state behind the real function.
  abbrev pub behind : Call → Process W → Process W
  behind c p = record p { world = (libc.real c p.world).1 }

  begin_mon-Gives :
      (c : Call) (p : Process W)
      → IsShown libc c (libc.real c p.world).1
      → P (behind c p)
      → Gives P (libc.real c p.world).0 (begin_mon libc c p)
  unfolding begin_mon
  begin_mon-Gives c p s h =
      let (ret, w) = libc.real c p.world in
      rw (ready.finds (name_of c)) (
        Gives-line ret (log_call libc c ret (record p { world = w }))
          (log_call-Ends libc ready unseen c ret (record p { world = w }) s h))

  monitor_fclose-Gives :
      (fp : ℕ) (p : Process W)
      → FileNamed libc fp p.world
      → P (behind (fclose fp) p)
      → Gives P (libc.real (fclose fp) p.world).0 (monitor_fclose libc fp p)
  unfolding monitor_fclose
  monitor_fclose-Gives fp p named h =
      let (name, e) = get_file_name-name libc fp p (ready.finds (codes "readlink")) named in
      let (ret, w) = libc.real (fclose fp) p.world in
      let format = codes "fclose(\"%s\") = %d\n" in
      rw (ready.finds (codes "fclose"), e)
        (Gives-line ret
          (write_msg libc format (str (some name) ∷ num ret ∷ []) (record p { world = w }))
          (write_msg-Ends libc ready unseen format (str (some name) ∷ num ret ∷ [])
            (record p { world = w }) h))

  -- A function that is replaced gives what the real one gives, and keeps what no line changes.
  pub monitor-Gives :
      (c : Call) (p : Process W)
      → CanShow libc c p.world
      → P (behind c p)
      → Gives P (libc.real c p.world).0 (monitor libc c p)
  unfolding monitor
  monitor-Gives (open_file path flags none) p s h = begin_mon-Gives _ p s h
  monitor-Gives (open_file path flags (some mode)) p s h = absurd s
  monitor-Gives (fclose fp) p s h = monitor_fclose-Gives fp p s h
  monitor-Gives (fscanf fp format args) p s h = absurd s
  monitor-Gives (fprintf fp format args) p s h = absurd s
  monitor-Gives c p s h = begin_mon-Gives c p s h

-- The name of a directory is asked for when it is closed: where a closed directory has no descriptor,
-- `closedir` is undefined, whatever else holds.
pub monitor-closedir :
    {W : Type 0} (libc : Libc W) (dp : ℕ) (p : Process W)
    → libc.dirfd dp (libc.real (closedir dp) p.world).1 ≡ none
    → monitor libc (closedir dp) p ≡ none
unfolding monitor begin_mon log_call get_dir_name
monitor-closedir libc dp p closed = elim (Bool-cases (libc.has (codes "closedir"))) [
  | inl found ↦ rw (found, closed) refl
  | inr missing ↦ rw missing refl
]

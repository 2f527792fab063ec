-- ===== src/Libmini/Programs/Jmp2.antt =====
-- hw3/jmp2.c: a program that tests if a jump keeps the mask of the signals.
use advanced_unix_progr.Base.{
  ℕ, zero, suc, ◌%◌, ◌^◌, Text, Option, none, some, codes, ◌==◌, if◌then◌else◌,
}
use advanced_unix_progr.Libmini.Sigset.{sigemptyset, sigaddset, sigismember}
use advanced_unix_progr.Libmini.Jumps.{Regs, Masks, sig_block, setjmp, longjmp}
use advanced_unix_progr.Libmini.Jumps.Back.{returned}
use advanced_unix_progr.Libmini.Programs.{Program, assign, print}

-- `SIGALRM`
abbrev pub sigalrm : ℕ
sigalrm = 14

abbrev pub before_setjmp : Text
before_setjmp = codes "before setjmp\n"

abbrev pub after_setjmp : Text
after_setjmp = codes "after setjmp\n"

abbrev pub before_longjmp : Text
before_longjmp = codes "before longjmp\n"

abbrev pub verdict : ℕ → Text
verdict member =
    if member == 0
    then codes "FAIL: The sigmask is not preserved\n"
    else codes "PASS: The sigmask is preserved\n"

module _ {W : Type 0} (kernel : Masks W) (put : Text → W → W) where
  -- The mask is asked for, and the verdict printed; `none` is what C leaves undefined.
  unfoldable pub check_mask : Program W → Option (Program W)
  check_mask s =
      let s' : Program W = record s { world = kernel.sigprocmask sig_block none s.world } in
      elim (sigismember (kernel.old_mask s.world) sigalrm) [
        | none ↦ none
        | some member ↦ some (print put (verdict member) s')
      ]

  -- `if(setjmp(jb) != 0)`, for the `int` that is returned.
  unfoldable pub if_jumped : Regs → Program W → Option (Program W)
  if_jumped regs s =
      let checked = check_mask (assign regs.rbp 1 (print put after_setjmp s)) in
      if regs.rax % 2 ^ 32 == 0 then some s else checked

  -- `if(has_jumped == 0)`, where `again` is the program behind the return of `setjmp`, at `place`;
  -- `none` is a jump to another address. What is behind the jump is not run.
  unfoldable pub jump_once :
      ℕ → (Regs → Program W → Option (Program W)) → Regs → Program W → Option (Program W)
  jump_once place again regs s =
      let s' = print put before_longjmp s in
      let (regs', w) = longjmp kernel s'.jb 1 s'.world in
      if s.local regs.rbp == 0
      then (if regs'.rip == place then again regs' (record s' { world = w }) else none)
      else some s

  -- `main` from the return of `setjmp` at `place`; `none` is also more than `fuel` returns.
  unfoldable pub behind_setjmp : (fuel place : ℕ) → Regs → Program W → Option (Program W)
  behind_setjmp zero place regs s = none
  behind_setjmp (suc fuel) place regs s = elim (if_jumped regs s) [
    | none ↦ none
    | some s' ↦ jump_once place (behind_setjmp fuel place) regs s'
  ]

  -- `main` with `SIGALRM` blocked; `inside` is the registers inside of `setjmp`, whose frame has that
  -- of `main` behind it.
  abbrev pub main_blocked : (fuel : ℕ) → (inside : Regs) → Program W → Option (Program W)
  main_blocked fuel inside s =
      let regs = returned kernel inside 0 (put before_setjmp s.world) in
      let s' = print put before_setjmp (assign regs.rbp 0 s) in
      let (env, w) = setjmp kernel inside s'.world in
      behind_setjmp fuel regs.rip regs (record s' { jb = env; world = w })

  -- `main`; `set` is what its variable holds at first.
  unfoldable pub main : (fuel set : ℕ) → (inside : Regs) → Program W → Option (Program W)
  unfolding sigemptyset
  main fuel set inside s = elim (sigaddset (sigemptyset set) sigalrm) [
    | none ↦ none
    | some alarm ↦
        main_blocked fuel inside
          (record s { world = kernel.sigprocmask sig_block (some alarm) s.world })
  ]

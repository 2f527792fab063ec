-- ===== src/Libmini/Tests/Programs.antt =====
-- The programs that jump, with a small kernel.
use advanced_unix_progr.Base.{ℕ, ◌∷◌, [], none, some, ◌≡◌, refl, arith}
use advanced_unix_progr.Libmini.Sigset.{sigismember}
use advanced_unix_progr.Libmini.Jumps.{How, sig_block, sig_unblock, sig_setmask}
use advanced_unix_progr.Libmini.Programs.{Program}
use advanced_unix_progr.Libmini.Programs.Jmp1
use advanced_unix_progr.Libmini.Programs.Jmp1.{funs}
use advanced_unix_progr.Libmini.Programs.Jmp2
use advanced_unix_progr.Libmini.Programs.Jmp2.{
  sigalrm, before_setjmp, after_setjmp, before_longjmp, verdict,
}
use advanced_unix_progr.Libmini.Programs.Visits.{main-funs, printed_onto}
use advanced_unix_progr.Libmini.Programs.Verdict.{main-verdict}
use advanced_unix_progr.Libmini.Tests.System.{masks, inside}

-- SIGINT is blocked; the buffer and the variable hold what they may.
abbrev start : Program ℕ
start = record {
  jb = record {
    reg0 = 77;
    reg1 = 77;
    reg2 = 77;
    reg3 = 77;
    reg4 = 77;
    reg5 = 77;
    reg6 = 77;
    reg7 = 77;
    mask = 77;
  };
  local = λ frame. 77;
  world = 2;
  out = [];
}

main-funs_example :
    (s' : Program ℕ) × (Jmp1.main masks (λ text w. w) 11 inside start ≡ some s')
    × (s'.out ≡ printed_onto funs [])
main-funs_example = main-funs masks (λ text w. w) 11 inside start (omega arith)

main-verdict_example :
    (s' : Program ℕ) × (Jmp2.main masks (λ text w. w) 2 77 inside start ≡ some s')
    × (s'.out ≡ verdict 1 ∷ after_setjmp ∷ before_longjmp ∷ before_setjmp ∷ [])
    × (sigismember s'.world sigalrm ≡ some 1)
main-verdict_example =
    main-verdict masks (λ text w. w) 2 77 inside start
      (record { adds = λ set w. refl; asks = asks; writes = λ text w. refl }) (omega arith)
  where
    asks : (how : How) (w : ℕ) → masks.sigprocmask how none w ≡ w
    asks sig_block w = refl
    asks sig_unblock w = refl
    asks sig_setmask w = refl

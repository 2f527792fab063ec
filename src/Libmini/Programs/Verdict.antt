-- ===== src/Libmini/Programs/Verdict.antt =====
-- What hw3/jmp2.c finds of the mask behind its jump.
use advanced_unix_progr.Base.{
  ℕ, zero, suc, ◌+◌, ◌%◌, ◌^◌, ◌≤◌, Text, ◌∷◌, none, some, true, bit_or, ◌≡◌, refl, ◌∙◌, arith,
  ◌==◌,
}
use advanced_unix_progr.Libmini.Sigset.{is_signal, sigemptyset, sigaddset, sigismember}
use advanced_unix_progr.Libmini.Sigset.Members.{sigismember-bit_or}
use advanced_unix_progr.Libmini.Jumps.{Regs, How, Masks, sig_block, sig_unblock, setjmp, longjmp}
use advanced_unix_progr.Libmini.Programs.{Program, assign, print}
use advanced_unix_progr.Libmini.Programs.Jmp2.{
  sigalrm, before_setjmp, after_setjmp, before_longjmp, verdict, check_mask, if_jumped, jump_once,
  behind_setjmp, main,
}

same_self : (n : ℕ) → (n == n) ≡ true
same_self n = ground arith

alarm_signal : is_signal sigalrm ≡ true
alarm_signal = refl

-- SIGALRM is in the mask `m`, and in the one that adds a mask with it.
with_alarm : (m n : ℕ) → sigismember (bit_or m (bit_or n 8192)) sigalrm ≡ some 1
unfolding sigismember
with_alarm m n =
    sigismember-bit_or m (bit_or n 8192) sigalrm refl (sigismember-bit_or n 8192 sigalrm refl refl)

module _ {W : Type 0} (kernel : Masks W) (put : Text → W → W) where
  -- What the documentation of the system says of the mask of blocked signals.
  pub record IsMasking : Type 0 where
    pub adds :
        (set : ℕ) (w : W)
        → kernel.old_mask (kernel.sigprocmask sig_block (some set) w)
          ≡ bit_or (kernel.old_mask w) set
    pub asks :
        (how : How) (w : W) → kernel.old_mask (kernel.sigprocmask how none w) ≡ kernel.old_mask w
    pub writes : (text : Text) (w : W) → kernel.old_mask (put text w) ≡ kernel.old_mask w

  check_mask-pass :
      (s : Program W)
      → sigismember (kernel.old_mask s.world) sigalrm ≡ some 1
      → check_mask kernel put s
        ≡ some
            (print put (verdict 1) (record s { world = kernel.sigprocmask sig_block none s.world }))
  unfolding check_mask
  check_mask-pass s e = rw (check_mask, e) refl

  -- For a system that adds a set to the mask at SIG_BLOCK, and changes the mask neither where no set
  -- is given nor at a `write`: `main` returns with two returns of `setjmp` or more, whatever was
  -- blocked before; it prints its lines once each and in their order, with the verdict that the mask
  -- is preserved; and SIGALRM is blocked at the end.
  pub main-verdict :
      (fuel set : ℕ) (inside : Regs) (s : Program W)
      → IsMasking
      → 2 ≤ fuel
      → (s' : Program W) × (main kernel put fuel set inside s ≡ some s')
        × (s'.out ≡ verdict 1 ∷ after_setjmp ∷ before_longjmp ∷ before_setjmp ∷ s.out)
        × (sigismember (kernel.old_mask s'.world) sigalrm ≡ some 1)
  unfolding main behind_setjmp if_jumped jump_once setjmp longjmp sigaddset sigemptyset
  main-verdict zero set inside s masking h = elim h [ ]
  main-verdict (suc zero) set inside s masking h = absurd (omega arith)
  main-verdict (suc (suc fuel)) set inside s masking h =
      let w₁ = kernel.sigprocmask sig_block (some 8192) s.world in
      let w₂ = put before_setjmp w₁ in
      let w₃ = kernel.sigprocmask sig_unblock none w₂ in
      let w₄ = put before_longjmp w₃ in
      let w₅ = kernel.sigprocmask sig_block (some (kernel.old_mask w₂)) w₄ in
      let w₆ = put after_setjmp w₅ in
      let frame = kernel.word_at inside.rbp w₂ in
      let place = kernel.word_at ((inside.rbp + 8) % 2 ^ 64) w₂ in
      let saved : kernel.old_mask w₂ ≡ bit_or (kernel.old_mask s.world) 8192 =
        masking.writes _ w₁ ∙ masking.adds 8192 s.world in
      let there : sigismember (kernel.old_mask w₆) sigalrm ≡ some 1 =
        rw (masking.writes after_setjmp w₅, masking.adds (kernel.old_mask w₂) w₄, saved)
          (with_alarm (kernel.old_mask w₄) (kernel.old_mask s.world)) in
      let kept : sigismember
            (kernel.old_mask (put (verdict 1) (kernel.sigprocmask sig_block none w₆))) sigalrm
          ≡ some 1 =
        rw
          (
            masking.writes (verdict 1) (kernel.sigprocmask sig_block none w₆),
            masking.asks sig_block w₆,
          )
          there in
      let s₆ : Program W = record (assign frame 1 (assign frame 0 s)) {
        jb = (setjmp kernel inside w₂).0;
        world = w₆;
        out = after_setjmp ∷ before_longjmp ∷ before_setjmp ∷ s.out;
      } in
      let s' = print put (verdict 1) (record s₆ { world = kernel.sigprocmask sig_block none w₆ }) in
      (
        s',
        rw (same_self frame, same_self place, check_mask-pass s₆ there, jump_once, same_self frame)
            refl,
        refl,
        kept,
      )

-- ===== src/Libmini/Jumps/Back.antt =====
-- Where a jump leads, and with which mask.
use advanced_unix_progr.Base.{ℕ, ◌+◌, ◌%◌, ◌^◌, some, ◌≡◌, ap, arith, bit_or, ◌==◌, if◌then◌else◌}
use advanced_unix_progr.Libmini.Jumps.{Regs, sig_block, Masks, setjmp, longjmp}

-- The registers as the caller of `setjmp` has them when it returns `rax`, where `inside` is those
-- inside of the function and the frame is the usual one: the old base, and the address to return to.
abbrev pub returned : {W : Type 0} → Masks W → (inside : Regs) → (rax : ℕ) → W → Regs
returned kernel inside rax w = record inside {
  rax = rax;
  rsp = (inside.rbp + 16) % 2 ^ 64;
  rbp = kernel.word_at inside.rbp w;
  rip = kernel.word_at ((inside.rbp + 8) % 2 ^ 64) w;
}

-- For a kernel that adds the set to the mask at SIG_BLOCK: a jump back, at any later state of the
-- system, has the registers with which `setjmp` returned, except that the result is the value, and 1
-- for 0. A signal is blocked then if it was blocked before the jump or at `setjmp`.
pub longjmp-setjmp :
    {W : Type 0} (kernel : Masks W) (inside : Regs) (w later : W) (val : ℕ)
    → ((set : ℕ) (v : W)
        → kernel.old_mask (kernel.sigprocmask sig_block (some set) v)
          ≡ bit_or (kernel.old_mask v) set)
    → let env = (setjmp kernel inside w).0 in
      let (regs, after) = longjmp kernel env val later in
      (regs ≡ returned kernel inside (if val == 0 then 1 else val) w)
      × (kernel.old_mask after ≡ bit_or (kernel.old_mask later) (kernel.old_mask w))
unfolding setjmp longjmp
longjmp-setjmp kernel inside w later val blocks =
    let same : (if val == 0 then val + 1 else val) ≡ (if val == 0 then 1 else val) = ground arith in
    (ap (λ rax. returned kernel inside rax w) same, blocks (kernel.old_mask w) later)

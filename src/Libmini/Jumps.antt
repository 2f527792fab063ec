-- ===== src/Libmini/Jumps.antt =====
-- hw3/libmini.c, `setjmp` and `longjmp`, with the instructions that they are written in.
pub mod Back
use advanced_unix_progr.Base.{ℕ, ◌+◌, ◌%◌, ◌^◌, ℤ, Option, none, some, ◌==◌, if◌then◌else◌}

-- The registers that a jump sets; 64 bits each.
pub record Regs : Type 0 where
  pub rax : ℕ
  pub rbx : ℕ
  pub rsp : ℕ
  pub rbp : ℕ
  pub r12 : ℕ
  pub r13 : ℕ
  pub r14 : ℕ
  pub r15 : ℕ
  pub rip : ℕ

-- `struct jmp_buf_s`; `reg` has a field for each index.
pub record JmpBuf : Type 0 where
  pub reg0 : ℕ
  pub reg1 : ℕ
  pub reg2 : ℕ
  pub reg3 : ℕ
  pub reg4 : ℕ
  pub reg5 : ℕ
  pub reg6 : ℕ
  pub reg7 : ℕ
  pub mask : ℕ

pub data How : Type 0 where
  sig_block sig_unblock sig_setmask : How

-- `sigprocmask` with a set or `NULL`, and with or without a place for the old one: the old mask is
-- what it stores there. `word_at` is a word of memory.
pub record Masks (W : Type 0) : Type 0 where
  pub sigprocmask : How → Option ℕ → W → W
  pub old_mask : W → ℕ
  pub word_at : ℕ → W → ℕ

module _ {W : Type 0} (kernel : Masks W) where
  -- The registers are those inside of `setjmp`, behind the start of the function.
  unfoldable pub setjmp : Regs → W → JmpBuf × W
  setjmp r w = (
    record {
      reg0 = r.rbx;
      reg1 = (r.rbp + 16) % 2 ^ 64;
      reg2 = kernel.word_at r.rbp w;
      reg3 = r.r12;
      reg4 = r.r13;
      reg5 = r.r14;
      reg6 = r.r15;
      reg7 = kernel.word_at ((r.rbp + 8) % 2 ^ 64) w;
      mask = kernel.old_mask w;
    },
    kernel.sigprocmask sig_unblock none w,
  )

  -- What is in the registers behind the jump; the old ones do not matter.
  unfoldable pub longjmp : JmpBuf → ℕ → W → Regs × W
  longjmp env val w = (
    record {
      rax = if val == 0 then val + 1 else val;
      rbx = env.reg0;
      rsp = env.reg1;
      rbp = env.reg2;
      r12 = env.reg3;
      r13 = env.reg4;
      r14 = env.reg5;
      r15 = env.reg6;
      rip = env.reg7;
    },
    kernel.sigprocmask sig_block (some env.mask) w,
  )

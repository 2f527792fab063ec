-- ===== src/Libmini/Tests/System.antt =====
-- The wrappers, the signals and the jumps with a small kernel.
use advanced_unix_progr.Base.{
  if◌then◌else◌, leb, ltb, ◌&&◌, ◌+◌, ◌-◌, ℕ, ◌+◌, ℤ, pos, negsuc, [], ◌∷◌, Option, some, ◌≡◌, refl,
  arith, bit_or, inl, get_or,
}
use advanced_unix_progr.Libmini.Errno.{State}
use advanced_unix_progr.Libmini.Calls.{Syscall, close}
use advanced_unix_progr.Libmini.Signals.{Sigaction, KernelSigaction, Answer, signal}
use advanced_unix_progr.Libmini.Signals.Handlers.{KeepsActions, signal-signal}
use advanced_unix_progr.Libmini.Jumps.{How, sig_block, sig_setmask, Regs, Masks, setjmp, longjmp}
use advanced_unix_progr.Libmini.Jumps.Back.{returned, longjmp-setjmp}
use advanced_unix_progr.Libmini.Memory.{Memory, memcpy}
use advanced_unix_progr.Libmini.Memory.Copied.{memcpy-store}

-- The number of calls; only `close` fails, with EBADF, 9.
abbrev sys : Syscall → ℕ → ℤ × ℕ
sys (close fd) w = (negsuc 8, w + 1)
sys c w = (pos 1000, w + 1)

abbrev counting : State ℕ
counting = record { errno = pos 3; world = 0 }

abbrev old : KernelSigaction
old = record { k_sa_handler = 1; k_sa_flags = 0; k_sa_restorer = 0; k_sa_mask = 0 }

-- The action of one signal.
abbrev one_signal : ℕ → KernelSigaction → KernelSigaction → Answer KernelSigaction
one_signal sig act w = record { ret = pos 0; koact = w; world = act }

abbrev one_signal-KeepsActions : KeepsActions 4096 one_signal 14
one_signal-KeepsActions = record {
  action = λ w. w;
  succeeds = λ act w. refl;
  gives_old = λ act w. refl;
  puts_new = λ act w. refl;
}

abbrev unset : Sigaction
unset = record { sa_handler = 77; sa_mask = 77; sa_flags = 77; sa_restorer = 77 }

abbrev with_old : State KernelSigaction
with_old = record { errno = pos 3; world = old }

signal-signal_example :
    (s' : State KernelSigaction) × (signal 4096 one_signal unset 14 4660 with_old ≡ some (1, s'))
    × ((s'' : State KernelSigaction) × (signal 4096 one_signal unset 14 0 s' ≡ some (4660, s''))
        × (s''.errno ≡ pos 0))
signal-signal_example =
    signal-signal 4096 one_signal unset unset 14 one_signal-KeepsActions 4660 0 with_old
      (omega arith) (omega arith)

-- The mask of the blocked signals.
abbrev set_mask : How → Option ℕ → ℕ → ℕ
set_mask sig_block (some set) mask = bit_or mask set
set_mask sig_setmask (some set) mask = set
set_mask _ _ mask = mask

abbrev pub masks : Masks ℕ
masks = record {
  sigprocmask = set_mask;
  old_mask = λ mask. mask;
  word_at = λ address mask. address;
}

abbrev pub inside : Regs
inside = record {
  rax = 0;
  rbx = 1;
  rsp = 4096;
  rbp = 4096;
  r12 = 2;
  r13 = 3;
  r14 = 4;
  r15 = 5;
  rip = 6;
}

-- SIGINT is blocked at setjmp, and SIGALRM when the jump is made.
longjmp-setjmp_example :
    let env = (setjmp masks inside 2).0 in
    let (regs, after) = longjmp masks env 0 8192 in
    (regs ≡ returned masks inside 1 2) × (after ≡ 8194)
longjmp-setjmp_example = longjmp-setjmp masks inside 2 8192 0 (λ set v. refl)

abbrev memory : Memory
memory a = get_or (10 ∷ 11 ∷ 12 ∷ 13 ∷ []) a 0

memcpy-store_example :
    (m' : Memory) × (memcpy 0 1 3 memory ≡ some m')
    × ((a : ℕ) → m' a ≡ (if leb 0 a && ltb a 3 then memory (1 + (a - 0)) else memory a))
memcpy-store_example =
    memcpy-store 0 1 3 memory (omega arith) (omega arith) (omega arith) (inl (omega arith))

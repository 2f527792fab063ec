-- ===== src/Libmini/Signals.antt =====
-- hw3/libmini.c, `sigaction` and `signal`.
pub mod Handlers
use advanced_unix_progr.Base.{
  ℕ, ◌-◌, ◌^◌, ℤ, pos, negsuc, is_negative, not, Option, none, some, bit_or, ltb, if◌then◌else◌,
}
use advanced_unix_progr.Libmini.Errno.{State, wrapper_retval}
use advanced_unix_progr.Libmini.Sigset.{sigemptyset}

-- `struct sigaction`; functions are addresses.
pub record Sigaction : Type 0 where
  pub sa_handler : ℕ
  pub sa_mask : ℕ
  pub sa_flags : ℕ
  pub sa_restorer : ℕ

-- `struct kernel_sigaction`
pub record KernelSigaction : Type 0 where
  pub k_sa_handler : ℕ
  pub k_sa_flags : ℕ
  pub k_sa_restorer : ℕ
  pub k_sa_mask : ℕ

abbrev pub sa_restorer_flag : ℕ
sa_restorer_flag = 2 ^ 26

-- `SA_ONESHOT | SA_NOMASK`
abbrev pub oneshot_nomask : ℕ
oneshot_nomask = bit_or 16 8

-- `SIG_ERR`
abbrev pub sig_err : ℕ
sig_err = 2 ^ 64 - 1

-- The action as the kernel gets it; `restore_rt` is the address of that function.
abbrev pub to_kernel : ℕ → Sigaction → KernelSigaction
to_kernel restore_rt act = record {
  k_sa_handler = act.sa_handler;
  k_sa_flags = bit_or act.sa_flags sa_restorer_flag;
  k_sa_restorer = restore_rt;
  k_sa_mask = act.sa_mask;
}

abbrev pub from_kernel : KernelSigaction → Sigaction
from_kernel koact = record {
  sa_handler = koact.k_sa_handler;
  sa_mask = koact.k_sa_mask;
  sa_flags = koact.k_sa_flags;
  sa_restorer = koact.k_sa_restorer;
}

-- What is behind `oact`, if that is not `NULL`, after a call that returned `ret`.
abbrev pub put_old : ℤ → KernelSigaction → Option Sigaction → Option Sigaction
put_old ret koact none = none
put_old ret koact (some old) = some (if not (is_negative ret) then from_kernel koact else old)

-- A `sighandler_t`, where the number `ret` is tested as a `long`.
abbrev pub handler_result : ℕ → ℕ × ℤ
handler_result ret = if ltb ret (2 ^ 63) then (ret, pos 0) else (0, pos (2 ^ 64 - ret))

-- What one call of rt_sigaction gives: its result, the old action, and the system.
pub record Answer (W : Type 0) : Type 0 where
  pub ret : ℤ
  pub koact : KernelSigaction
  pub world : W

module _ {W : Type 0} (restore_rt : ℕ) (sys_rt_sigaction : ℕ → KernelSigaction → W → Answer W) where
  -- `none` is a read through `NULL`.
  unfoldable pub sigaction :
      ℕ → Option Sigaction → Option Sigaction → State W → Option (ℤ × (Option Sigaction × State W))
  sigaction sig none oact s = none
  sigaction sig (some act) oact s =
      let a = sys_rt_sigaction sig (to_kernel restore_rt act) s.world in
      let (result, errno) = wrapper_retval a.ret in
      some (result, (put_old a.ret a.koact oact, record { errno = errno; world = a.world }))

  abbrev pub old_handler : ℤ → Option Sigaction → State W → Option (ℕ × State W)
  old_handler ret none s = none
  old_handler ret (some oact) s =
      if is_negative ret
      then some (sig_err, s)
      else (let (handler, errno) = handler_result oact.sa_handler in
          some (handler, record s { errno = errno }))

  abbrev pub after_sigaction : Option (ℤ × (Option Sigaction × State W)) → Option (ℕ × State W)
  after_sigaction none = none
  after_sigaction (some (ret, (oact, s))) = old_handler ret oact s

  -- `unset` is what the variables of the function hold at first.
  unfoldable pub signal : Sigaction → ℕ → ℕ → State W → Option (ℕ × State W)
  unfolding sigemptyset
  signal unset signum handler s =
      let act : Sigaction = record unset {
        sa_handler = handler;
        sa_mask = sigemptyset unset.sa_mask;
        sa_flags = oneshot_nomask;
      } in
      after_sigaction (sigaction signum (some act) (some unset) s)

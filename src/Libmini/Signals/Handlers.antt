-- ===== src/Libmini/Signals/Handlers.antt =====
-- What `signal` gives back.
use advanced_unix_progr.Base.{ℕ, ◌^◌, ◌<◌, pos, some, ◌≡◌, refl, ap, ◌∙◌, true, ltb, lt→ltb}
use advanced_unix_progr.Libmini.Errno.{State}
use advanced_unix_progr.Libmini.Sigset.{sigemptyset}
use advanced_unix_progr.Libmini.Signals.{
  Sigaction, KernelSigaction, oneshot_nomask, to_kernel, Answer, sigaction, signal,
}

module _ {W : Type 0} (restore_rt : ℕ) (sys_rt_sigaction : ℕ → KernelSigaction → W → Answer W) where
  -- The kernel has one action for each signal, which a call replaces and gives back.
  pub record KeepsActions (signum : ℕ) : Type 0 where
    pub action : W → KernelSigaction
    pub succeeds : (act : KernelSigaction) (w : W) → (sys_rt_sigaction signum act w).ret ≡ pos 0
    pub gives_old :
        (act : KernelSigaction) (w : W) → (sys_rt_sigaction signum act w).koact ≡ action w
    pub puts_new :
        (act : KernelSigaction) (w : W) → action (sys_rt_sigaction signum act w).world ≡ act

  -- What the kernel gets of `signal`.
  abbrev pub registered : ℕ → KernelSigaction
  registered handler =
      to_kernel restore_rt
        (record { sa_handler = handler; sa_mask = 0; sa_flags = oneshot_nomask; sa_restorer = 0 })

  module _ (unset : Sigaction) (signum : ℕ) (h : KeepsActions signum) where
    signal-action :
        (handler : ℕ) (s : State W)
        → (h.action s.world).k_sa_handler < 2 ^ 63
        → signal restore_rt sys_rt_sigaction unset signum handler s
          ≡ some (
            (h.action s.world).k_sa_handler,
            record {
              errno = pos 0;
              world = (sys_rt_sigaction signum (registered handler) s.world).world;
            },
          )
    unfolding signal sigaction sigemptyset
    signal-action handler s small =
        let sent = registered handler in
        let fits : ltb (h.action s.world).k_sa_handler (2 ^ 63) ≡ true =
          lt→ltb (h.action s.world).k_sa_handler (2 ^ 63) small in
        rw (h.succeeds sent s.world, h.gives_old sent s.world, fits) refl

  -- For a signal whose actions the kernel keeps, two calls of `signal` one after the other both
  -- succeed, and the second gives back the handler of the first, an address below 2 ^ 63, with `errno` 0.
  pub signal-signal :
      (unset unset' : Sigaction) (signum : ℕ) (h : KeepsActions signum) (first second : ℕ)
      (s : State W)
      → (h.action s.world).k_sa_handler < 2 ^ 63
      → first < 2 ^ 63
      → (s' : State W) × (signal restore_rt sys_rt_sigaction unset signum first s
          ≡ some ((h.action s.world).k_sa_handler, s'))
        × ((s'' : State W) × (signal restore_rt sys_rt_sigaction unset' signum second s'
              ≡ some (first, s''))
            × (s''.errno ≡ pos 0))
  signal-signal unset unset' signum h first second s small small' =
      let w = (sys_rt_sigaction signum (registered first) s.world).world in
      let s' : State W = record { errno = pos 0; world = w } in
      let kept : (h.action w).k_sa_handler ≡ first =
        ap (λ a. a.k_sa_handler) (h.puts_new (registered first) s.world) in
      let s'' : State W = record {
        errno = pos 0;
        world = (sys_rt_sigaction signum (registered second) w).world;
      } in
      (
        s',
        signal-action unset signum h first s small,
        (
          s'',
          signal-action unset' signum h second s' (rw kept small') ∙ ap (λ f. some (f, s'')) kept,
          refl,
        ),
      )

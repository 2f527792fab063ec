-- ===== src/Sdb/Resume/Launched.antt =====
-- `sdb_run` of a program that is loaded: from `fork` to the first break point.
use advanced_unix_progr.Base.{
  ℕ, suc, ◌+◌, ◌≤◌, ◌<◌, ◌⊎◌, pos, true, List, ◌∷◌, none, some, ◌≡◌, ◌≢◌, refl, ◌∙◌, All,
  All-get_elem?, get_elem?, false, arith, take,
}
use advanced_unix_progr.Sdb.Host.{Host, started, ok, and_then, pure}
use advanced_unix_progr.Sdb.State.{Bp, Sdb, sdb_is_loaded, sdb_is_running}
use advanced_unix_progr.Sdb.Kernel.{
  Kernel, TextIsMemory, IsMapped, CanSetRegs, RegsAreKept, reported, wifstopped,
}
use advanced_unix_progr.Sdb.Patch.{wait, sdb_patch_all_bp}
use advanced_unix_progr.Sdb.Patch.Traps.{traps, Located, patched_facts}
use advanced_unix_progr.Sdb.Patch.Slots.{SameSlots-refl}
use advanced_unix_progr.Sdb.Resume.{
  before_trap, on_report, wait_loop, resume, launch, run_on, sdb_cont, sdb_run,
}
use advanced_unix_progr.Sdb.Resume.Hit.{find_hit, find_hit-SameSlots, report_hit}
use advanced_unix_progr.Sdb.Resume.Cont.{sdb_cont-hit}

-- The debugger once the process is there.
abbrev pub running_as : ℕ → Sdb → Sdb
running_as p sdb = record sdb { pid = pos p }

running_as-running : (p : ℕ) (sdb : Sdb) → sdb_is_running (running_as p sdb) ≡ true
unfolding sdb_is_running
running_as-running p sdb = refl

module _ (K : Kernel) where
  open K use {World, cont, waitpid, spawn, exitkill}

  -- The status of an earlier `waitpid` is not looked at where the next one reports a status.
  resume-status :
      (fuel : ℕ) (sdb : Sdb) (s : ℕ) (h : Host World) (w₁ w₂ : World) (st : ℕ)
      → cont sdb.pid h.world ≡ some w₁
      → waitpid sdb.pid w₁ ≡ some (reported st, w₂)
      → resume K (suc fuel) sdb (some s) h ≡ resume K (suc fuel) sdb none h
  unfolding resume wait_loop wait on_report
  resume-status fuel sdb s h w₁ w₂ st goes reports = rw (goes, reports, wait)

  module _ (sdb : Sdb) (p s : ℕ) (h : Host World) (w₁ w₂ w₃ : World) where
    launch_lem :
        spawn sdb.path h.world ≡ (pos p, w₁)
        → waitpid (pos p) w₁ ≡ some (reported s, w₂)
        → exitkill (pos p) w₂ ≡ some w₃
        → launch K sdb h
          ≡ ok (running_as p sdb, some s) (record { world = w₃; out = started (pos p) ∷ h.out })
    unfolding launch wait
    launch_lem forks waits kills = rw (forks, wait, waits, kills)

    -- From `fork` on, `run` is `cont` of the process that was started.
    sdb_run-sdb_cont :
        (fuel : ℕ) (h₁ : Host World) (breaks' : List Bp) (w₄ w₅ : World) (st : ℕ)
        → let sdb₁ : Sdb = running_as p sdb in
          let h₀ : Host World = record { world = w₃; out = started (pos p) ∷ h.out } in
          sdb_is_loaded sdb ≡ true
          → sdb_is_running sdb ≡ false
          → launch K sdb h ≡ ok (sdb₁, some s) h₀
          → sdb_patch_all_bp K sdb₁ h₀ ≡ ok (record sdb₁ { breaks = breaks' }) h₁
          → cont (pos p) h₁.world ≡ some w₄
          → waitpid (pos p) w₄ ≡ some (reported st, w₅)
          → sdb_run K (suc fuel) sdb h ≡ sdb_cont K (suc fuel) sdb₁ h₀
    unfolding sdb_run run_on sdb_cont
    sdb_run-sdb_cont fuel h₁ breaks' w₄ w₅ st is_loaded idle launches patches goes reports =
        rw (is_loaded, idle, launches, run_on, running_as-running p sdb, patches)
          (resume-status fuel _ s h₁ w₄ w₅ st goes reports)

-- The slot that was hit.
find_hit-slot :
    (va : ℕ → ℕ) (a : ℕ) (bps : List Bp) (n : ℕ) (bp : Bp)
    → find_hit va a 0 bps ≡ some (n, bp)
    → (get_elem? bps n ≡ some bp) × (bp.is_used ≡ true)
find_hit-slot va a bps n bp found =
    let (bp', k, _, number, here, _, used, _, _) =
      find_hit-SameSlots va a 0 bps bps n bp (SameSlots-refl bps) found in
    let e : n ≡ k = omega (arith, number) in (rw e here, used)

module _ (K : Kernel) (sdb : Sdb) (va : ℕ → ℕ) (p : ℕ) (text : TextIsMemory K (pos p)) where
  open K use {World, getregs, cont, waitpid, spawn, exitkill}

  -- `run` of a program that is loaded and not running, to a break point. Let `fork` start process
  -- `p`, `waitpid` report it and the option be set, and let the process be stopped then, not at a used
  -- break point; let the table's addresses be found, and the words of its used slots be readable and
  -- writable; let `sdb_patch_all_bp` return with the table `breaks'` and in state `h₁`; and let the
  -- process then run, whatever it does, and stop where the first used break point before `rip` is slot
  -- `n`, `bp`. Where `bp` held no trap when the program was started, and no used slot of a smaller
  -- number lies at its address or in the seven bytes behind, `run` says that process `p` was started
  -- and returns the debugger with that process and the table `breaks'` once the instruction at `bp` is
  -- printed, whatever that prints or fails with. Then `rip` is the address of the break point, the
  -- eight bytes there are those of the program when it was started, and all other bytes are those
  -- that the process left.
  pub sdb_run-hit :
      (fuel s : ℕ) (h h₁ : Host World) (breaks' : List Bp) (w₁ w₂ w₃ w₄ w₅ : World) (st n : ℕ)
      (bp : Bp)
      → let sdb₁ : Sdb = running_as p sdb in
        let h₀ : Host World = record { world = w₃; out = started (pos p) ∷ h.out } in
        RegsAreKept K
        → CanSetRegs K (pos p) text
        → sdb_is_loaded sdb ≡ true
        → sdb_is_running sdb ≡ false
        → spawn sdb.path h.world ≡ (pos p, w₁)
        → waitpid (pos p) w₁ ≡ some (reported s, w₂)
        → exitkill (pos p) w₂ ≡ some w₃
        → text.Stopped w₃
        → traps va sdb.breaks (getregs (pos p) w₃).rip ≡ false
        → All (Located K sdb₁ va text) sdb.breaks
        → All (λ bp. bp.is_used ≡ true → IsMapped K (pos p) text (va bp.addr)) sdb.breaks
        → sdb_patch_all_bp K sdb₁ h₀ ≡ ok (record sdb₁ { breaks = breaks' }) h₁
        → cont (pos p) h₁.world ≡ some w₄
        → waitpid (pos p) w₄ ≡ some (reported st, w₅)
        → wifstopped st ≡ true
        → text.Stopped w₅
        → find_hit va (before_trap (getregs (pos p) w₅).rip) 0 sdb.breaks ≡ some (n, bp)
        → text.byte (va bp.addr) w₃ ≢ 0xcc
        → ((j : ℕ) → j < 8 → traps va (take n sdb.breaks) (va bp.addr + j) ≡ false)
        → (w' : World) × (sdb_run K (suc fuel) sdb h
            ≡ and_then
                (report_hit K sdb₁ va text n bp (record h₁ { world = w' }))
                (λ _. pure (record sdb₁ { breaks = breaks' })))
          × ((getregs (pos p) w').rip ≡ va bp.addr)
          × ((j : ℕ) → j < 8 → text.byte (va bp.addr + j) w' ≡ text.byte (va bp.addr + j) w₃)
          × ((b : ℕ) → (b < va bp.addr) ⊎ (va bp.addr + 8 ≤ b) → text.byte b w' ≡ text.byte b w₅)
  sdb_run-hit fuel s h h₁ breaks' w₁ w₂ w₃ w₄ w₅ st n bp kept can_set is_loaded idle forks waits
        kills stopped away located mapped patches goes reports stops stopped' found clear apart =
      let sdb₁ : Sdb = running_as p sdb in
      let (_, _, saves, _, _) =
        patched_facts K sdb₁ va text _ h₁ breaks' located stopped away mapped patches in
      let (at_n, used) = find_hit-slot va _ sdb.breaks n bp found in
      let m =
        All-get_elem? (λ bp. bp.is_used ≡ true → IsMapped K (pos p) text (va bp.addr)) sdb.breaks n
          mapped at_n used in
      let (w', bp', at_n', runs, at, inside, outside) =
        sdb_cont-hit K sdb₁ va text fuel _ h₁ breaks' w₄ w₅ st n bp kept can_set
          (running_as-running p sdb) located m patches goes reports stops stopped' found in
      (
        w',
        sdb_run-sdb_cont K sdb p s h w₁ w₂ w₃ fuel h₁ breaks' w₄ w₅ st is_loaded idle
              (launch_lem K sdb p s h w₁ w₂ w₃ forks waits kills) patches goes reports
            ∙ runs,
        at,
        λ j near. inside j near ∙ saves n bp bp' at_n at_n' used clear apart j near,
        outside,
      )

-- ===== src/Sdb/Resume/Waiting.antt =====
-- The loop over `waitpid` makes one pass: a report that the process has ended is followed by a call
-- that fails, and a stop at no break point by a call that never returns.
use advanced_unix_progr.Base.{
  ℕ, suc, ◌+◌, Bool, true, false, ◌&&◌, List, [], ◌∷◌, Option, none, some, ◌≡◌, refl, ◌∙◌, arith,
  Bool-cases, inl, inr, if◌then◌else◌, ◌==◌,
}
use advanced_unix_progr.Sdb.Host.{
  Host, Run, ok, fault, blocked, out_of_fuel, and_then, ◌>>=◌, pure, Cmd,
}
use advanced_unix_progr.Sdb.Host.Inversion.{and_then-eq-ok}
use advanced_unix_progr.Sdb.State.{Bp, Sdb}
use advanced_unix_progr.Sdb.Kernel.{
  Kernel, Regs, WaitResult, no_child, reported, wifstopped, WaitsOnce,
}
use advanced_unix_progr.Sdb.Patch.{bp_addr, wait}
use advanced_unix_progr.Sdb.Maps.{convert_dynamic_addr}
use advanced_unix_progr.Sdb.Resume.{
  Stop, hit, over, before_trap, hit_bp, check_breaks, on_stop, on_report, wait_loop,
}

module _ (K : Kernel) where
  open K use {World}

  -- Finding an address only reads.
  convert-host :
      (sdb : Sdb) (a : ℕ) (h h' : Host World) (v : ℕ)
      → convert_dynamic_addr K sdb a h ≡ ok v h'
      → h' ≡ h
  unfolding convert_dynamic_addr
  convert-host sdb a h h' v e = ground arith

  bp_addr-host :
      (sdb : Sdb) (bp : Bp) (h h' : Host World) (v : ℕ) → bp_addr K sdb bp h ≡ ok v h' → h' ≡ h
  unfolding bp_addr
  bp_addr-host sdb bp h h' v e = ground (arith, convert-host sdb bp.addr h h' v)

  hit_true :
      (m : Cmd World (Unit {0})) (h h' : Host World)
      → and_then (m h) (λ _. pure true) ≡ ok false h'
      → ⊥
  hit_true m h h' e = let (u, h₁, runs, returns) = and_then-eq-ok (m h) _ e in cc

  check_breaks-false :
      (sdb : Sdb) (regs : Regs) (i : ℕ) (bps : List Bp) (h h' : Host World)
      → check_breaks K sdb regs i bps h ≡ ok false h'
      → h' ≡ h
  unfolding check_breaks
  check_breaks-false sdb regs i [] h h' e = ground arith
  check_breaks-false sdb regs i (bp ∷ rest) h h' e =
      let (vaddr, h₁, found, runs) = and_then-eq-ok (bp_addr K sdb bp h) _ e in
      elim (Bool-cases (bp.is_used && (vaddr == before_trap regs.rip))) [
        | inr miss ↦
            check_breaks-false sdb regs (i + 1) rest h₁ h' (rw miss at runs)
            ∙ bp_addr-host sdb bp h h₁ vaddr found
        | inl same ↦ absurd (hit_true (hit_bp K sdb regs i bp vaddr) h₁ h' (rw same at runs))
      ]

  on_stop-false : (sdb : Sdb) (h h' : Host World) → on_stop K sdb h ≡ ok false h' → h' ≡ h
  unfolding on_stop
  on_stop-false sdb h h' e = check_breaks-false sdb _ 0 sdb.breaks h h' e

  -- What the loop over `waitpid` does, with one call and what follows it.
  abbrev pub after_stop : Bool → Cmd World Stop
  after_stop true = pure hit
  after_stop false = λ h. blocked

  abbrev pub after_exit : Sdb → ℕ → Cmd World Stop
  after_exit sdb st = wait K sdb >>= λ r. pure (over (some st))

  abbrev pub one_pass : Sdb → Option ℕ → WaitResult → Cmd World Stop
  one_pass sdb status no_child = pure (over status)
  one_pass sdb status (reported st) =
      if wifstopped st then (on_stop K sdb >>= after_stop) else after_exit sdb st

  module _ (sdb : Sdb) (once : WaitsOnce K sdb.pid) (fuel : ℕ) where
    second_exit :
        (st : ℕ) (h : Host World) (w : World)
        → K.waitpid sdb.pid h.world ≡ some (no_child, w)
        → wait_loop K (suc fuel) sdb (some st) h ≡ after_exit sdb st h
    unfolding wait_loop wait on_report
    second_exit st h w e = rw (e, wait)

    second_stop :
        (st : ℕ) (h : Host World)
        → K.waitpid sdb.pid h.world ≡ none
        → wait_loop K (suc fuel) sdb (some st) h ≡ blocked
    unfolding wait_loop wait on_report
    second_stop st h e = rw (e, wait)

    stop_then_wait :
        (st : ℕ) (h : Host World) (r : Run World Bool)
        → on_stop K sdb h ≡ r
        → K.waitpid sdb.pid h.world ≡ none
        → and_then r (λ found. if found then pure hit else wait_loop K (suc fuel) sdb (some st))
          ≡ and_then r after_stop
    stop_then_wait st h (ok true h') e w = refl
    stop_then_wait st h (ok false h') e w = second_stop st h' (rw (on_stop-false sdb h h' e) w)
    stop_then_wait st h (fault f) e w = refl
    stop_then_wait st h blocked e w = refl
    stop_then_wait st h out_of_fuel e w = refl

    reported_once :
        (status : Option ℕ) (r : WaitResult) (h : Host World) (w : World)
        → K.waitpid sdb.pid h.world ≡ some (r, w)
        → let h' : Host World = record h { world = w } in
          on_report K sdb status (λ st. wait_loop K (suc fuel) sdb (some st)) r h'
          ≡ one_pass sdb status r h'
    unfolding on_report
    reported_once status no_child h w e = refl
    reported_once status (reported st) h w e = elim (Bool-cases (wifstopped st)) [
      | inl stops ↦ rw stops (stop_then_wait st _ _ refl (once.after_stop st h.world w e stops))
      | inr exits ↦
          let (w₂, gone) = once.after_exit st h.world w e exits in
          rw exits (second_exit st (record h { world = w }) w₂ gone)
    ]

    wait_loop-one_pass_from :
        (status : Option ℕ) (h : Host World) (found : Option (WaitResult × World))
        → K.waitpid sdb.pid h.world ≡ found
        → wait_loop K (suc (suc fuel)) sdb status h ≡ (wait K sdb >>= one_pass sdb status) h
    unfolding wait_loop wait
    wait_loop-one_pass_from status h none e = rw (e, wait)
    wait_loop-one_pass_from status h (some (r, w)) e = rw (e, wait) (reported_once status r h w e)

    -- For a kernel that reports the end of a process once, and a stop once until the process is
    -- resumed, two rounds of fuel are enough: whatever the process does, the loop over `waitpid` is one call
    -- of it and what follows. After a report that the process has ended the next call ends the loop
    -- with that status; after a stop at a break point the loop is left; and after a stop at no break
    -- point the next call never returns, because the process is not resumed.
    pub wait_loop-one_pass :
        (status : Option ℕ) (h : Host World)
        → wait_loop K (suc (suc fuel)) sdb status h ≡ (wait K sdb >>= one_pass sdb status) h
    wait_loop-one_pass status h = wait_loop-one_pass_from status h _ refl

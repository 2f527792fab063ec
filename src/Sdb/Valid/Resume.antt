-- ===== src/Sdb/Valid/Resume.antt =====
-- `start`, `run` and `cont` keep the invariant.
use advanced_unix_progr.Base.{
  arith, ℕ, ℤ, Option, none, some, [], not, false, str_eq, ◌≡◌, refl, inl, inr, ◌⊎◌,
}
use advanced_unix_progr.Sdb.Host.{Host}
use advanced_unix_progr.Sdb.Host.Ensures.{Ensures, returns, Ensures-then, ensures_rules}
use advanced_unix_progr.Sdb.State.{Sdb, no_pid, sdb_is_loaded}
use advanced_unix_progr.Sdb.Kernel.{Kernel, WaitResult, no_child, reported}
use advanced_unix_progr.Sdb.Patch.{sdb_patch_all_bp}
use advanced_unix_progr.Sdb.Resume.{
  Stop, hit, over, after_loop, resume, sdb_cont, launched, forked, launch, then_patch, run_on,
  then_run, sdb_start, sdb_run,
}
use advanced_unix_progr.Sdb.Valid.{IsValid, sdb_patch_all_bp-IsValid}

with_process :
    (sdb : Sdb) (p : ℤ)
    → (p ≡ no_pid) ⊎ (str_eq sdb.path [] ≡ false)
    → IsValid sdb
    → IsValid (record sdb { pid = p })
with_process sdb p process v = record {
  slots = v.slots;
  addrs = v.addrs;
  next_disasm = v.next_disasm;
  names = v.names;
  path_fits = v.path_fits;
  process = process;
}

sdb_is_loaded-path : (sdb : Sdb) → not (sdb_is_loaded sdb) ≡ false → str_eq sdb.path [] ≡ false
unfolding sdb_is_loaded
sdb_is_loaded-path sdb loaded = ground arith

module _ (K : Kernel) where
  open K use {World}

  after_loop-IsValid :
      (sdb : Sdb) (stop : Stop) (h : Host World)
      → IsValid sdb
      → Ensures IsValid (after_loop K sdb stop h)
  unfolding after_loop
  after_loop-IsValid sdb hit h v = returns sdb h v
  after_loop-IsValid sdb (over status) h v =
      search (ensures_rules, with_process sdb no_pid (inl refl) v)

  resume-IsValid :
      (fuel : ℕ) (sdb : Sdb) (status : Option ℕ) (h : Host World)
      → IsValid sdb
      → Ensures IsValid (resume K fuel sdb status h)
  unfolding resume
  resume-IsValid fuel sdb status h v = search (ensures_rules, after_loop-IsValid)

  run_on-IsValid :
      (fuel : ℕ) (sdb : Sdb) (status : Option ℕ) (h : Host World)
      → IsValid sdb
      → Ensures IsValid (run_on K fuel sdb status h)
  unfolding run_on
  run_on-IsValid fuel sdb status h v =
      Ensures-then (sdb_patch_all_bp K sdb h) (λ sdb'. resume K fuel sdb' status)
        (sdb_patch_all_bp-IsValid K sdb h v) λ sdb' h' v'. resume-IsValid fuel sdb' status h' v'

  pub sdb_cont-IsValid :
      (fuel : ℕ) (sdb : Sdb) (h : Host World)
      → IsValid sdb
      → Ensures IsValid (sdb_cont K fuel sdb h)
  unfolding sdb_cont run_on
  sdb_cont-IsValid fuel sdb h v = search (ensures_rules, run_on-IsValid)

  launched-IsValid :
      (sdb : Sdb) (r : WaitResult) (h : Host World)
      → IsValid sdb
      → Ensures (λ (p : Sdb × Option ℕ). IsValid p.0) (launched K sdb r h)
  launched-IsValid sdb no_child h v = returns _ _ v
  launched-IsValid sdb (reported st) h v = search (ensures_rules, v)

  forked-IsValid :
      (sdb : Sdb) (h : Host World)
      → IsValid sdb
      → Ensures (λ (p : Sdb × Option ℕ). IsValid p.0) (forked K sdb h)
  forked-IsValid sdb h v = search (ensures_rules, launched-IsValid, v)

  launch-IsValid :
      (sdb : Sdb) (h : Host World)
      → not (sdb_is_loaded sdb) ≡ false
      → IsValid sdb
      → Ensures (λ (p : Sdb × Option ℕ). IsValid p.0) (launch K sdb h)
  unfolding launch
  launch-IsValid sdb h loaded v =
      let (pid, w) = K.spawn sdb.path h.world in
      forked-IsValid (record sdb { pid = pid }) (record h { world = w })
        (with_process sdb pid (inr (sdb_is_loaded-path sdb loaded)) v)

  then_patch-IsValid :
      (p : Sdb × Option ℕ) (h : Host World) → IsValid p.0 → Ensures IsValid (then_patch K p h)
  then_patch-IsValid (sdb, none) h v = returns sdb h v
  then_patch-IsValid (sdb, some st) h v = sdb_patch_all_bp-IsValid K sdb h v

  then_run-IsValid :
      (fuel : ℕ) (p : Sdb × Option ℕ) (h : Host World)
      → IsValid p.0
      → Ensures IsValid (then_run K fuel p h)
  then_run-IsValid fuel (sdb, none) h v = returns sdb h v
  then_run-IsValid fuel (sdb, some st) h v = run_on-IsValid fuel sdb (some st) h v

  pub sdb_start-IsValid :
      (sdb : Sdb) (h : Host World) → IsValid sdb → Ensures IsValid (sdb_start K sdb h)
  unfolding sdb_start
  sdb_start-IsValid sdb h v = search (
    ensures_rules,
    v,
    λ (h : Host World) (loaded : not (sdb_is_loaded sdb) ≡ false).
        Ensures-then (launch K sdb h) (then_patch K) (launch-IsValid sdb h loaded v)
          then_patch-IsValid,
  )

  pub sdb_run-IsValid :
      (fuel : ℕ) (sdb : Sdb) (h : Host World) → IsValid sdb → Ensures IsValid (sdb_run K fuel sdb h)
  unfolding sdb_run
  sdb_run-IsValid fuel sdb h v = search (
    ensures_rules,
    v,
    run_on-IsValid,
    λ (h : Host World) (loaded : not (sdb_is_loaded sdb) ≡ false).
        Ensures-then (launch K sdb h) (then_run K fuel) (launch-IsValid sdb h loaded v)
          (then_run-IsValid fuel),
  )

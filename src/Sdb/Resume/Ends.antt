-- ===== src/Sdb/Resume/Ends.antt =====
-- How `sdb_cont` ends where no break point is hit.
use advanced_unix_progr.Base.{ℕ, suc, true, false, none, some, ◌≡◌, ◌∙◌, All, ◌∷◌}
use advanced_unix_progr.Sdb.Host.{Host, ok, blocked, and_then, ◌>>=◌}
use advanced_unix_progr.Sdb.State.{Sdb, no_pid, sdb_is_running}
use advanced_unix_progr.Sdb.Kernel.{Kernel, reported, wifstopped, WaitsOnce}
use advanced_unix_progr.Sdb.Patch.{bp_addr, wait, sdb_patch_all_bp}
use advanced_unix_progr.Sdb.Resume.{before_trap, goodbye, on_stop, after_loop, resume, sdb_cont}
use advanced_unix_progr.Sdb.Resume.Hit.{find_hit, check_breaks-find_hit}
use advanced_unix_progr.Sdb.Resume.Waiting.{one_pass, wait_loop-one_pass}

module _ (K : Kernel) (sdb sdb' : Sdb) (h h₁ : Host K.World) (w₁ : K.World) (fuel : ℕ) where
  open K use {World, getregs, cont, waitpid}

  cont_loop :
      sdb_is_running sdb ≡ true
      → sdb_patch_all_bp K sdb h ≡ ok sdb' h₁
      → cont sdb'.pid h₁.world ≡ some w₁
      → WaitsOnce K sdb'.pid
      → sdb_cont K (suc (suc fuel)) sdb h
        ≡ and_then
            ((wait K sdb' >>= one_pass K sdb' none) (record h₁ { world = w₁ }))
            (after_loop K sdb')
  unfolding sdb_cont resume
  cont_loop running patches goes once =
      rw (running, patches, goes, wait_loop-one_pass K sdb' once fuel none _)

  -- `cont` of a process that ends next, where `sdb_patch_all_bp` returns, the process is resumed and
  -- the kernel reports each end once: `cont` returns with two rounds of fuel or more, says with which
  -- status the process ended, and forgets it; the break points stay.
  pub sdb_cont-exit :
      (st : ℕ) (w₂ : World)
      → sdb_is_running sdb ≡ true
      → sdb_patch_all_bp K sdb h ≡ ok sdb' h₁
      → cont sdb'.pid h₁.world ≡ some w₁
      → WaitsOnce K sdb'.pid
      → waitpid sdb'.pid w₁ ≡ some (reported st, w₂)
      → wifstopped st ≡ false
      → (w₃ : World) × (sdb_cont K (suc (suc fuel)) sdb h
          ≡ ok
              (record sdb' { pid = no_pid })
              (record { world = w₃; out = goodbye K sdb'.pid st ∷ h₁.out }))
  unfolding wait after_loop
  sdb_cont-exit st w₂ running patches goes once reports exits =
      let (w₃, gone) = once.after_exit st w₁ w₂ reports exits in
      (w₃, cont_loop running patches goes once ∙ rw (reports, wait, exits, gone))

  -- `cont` of a process that stops next where no used break point lies just before `rip`, such as at
  -- a signal, where `sdb_patch_all_bp` returns, the process is resumed, the addresses of the break
  -- points are found, and the kernel does not report a stop again: `cont` waits for ever, because the
  -- process is not resumed once more.
  pub sdb_cont-foreign_stop :
      (va : ℕ → ℕ) (st : ℕ) (w₂ : World)
      → sdb_is_running sdb ≡ true
      → sdb_patch_all_bp K sdb h ≡ ok sdb' h₁
      → cont sdb'.pid h₁.world ≡ some w₁
      → WaitsOnce K sdb'.pid
      → waitpid sdb'.pid w₁ ≡ some (reported st, w₂)
      → wifstopped st ≡ true
      → All (λ bp. (h : Host World) → bp_addr K sdb' bp h ≡ ok (va bp.addr) h) sdb'.breaks
      → find_hit va (before_trap (getregs sdb'.pid w₂).rip) 0 sdb'.breaks ≡ none
      → sdb_cont K (suc (suc fuel)) sdb h ≡ blocked
  unfolding wait after_loop on_stop
  sdb_cont-foreign_stop va st w₂ running patches goes once reports stops located away =
      cont_loop running patches goes once
      ∙ rw (
        reports,
        wait,
        stops,
        check_breaks-find_hit K sdb' va (getregs sdb'.pid w₂) 0 sdb'.breaks _ located,
        away,
      )

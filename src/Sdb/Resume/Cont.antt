-- ===== src/Sdb/Resume/Cont.antt =====
-- `sdb_cont` from the debugger's prompt to the next break point.
use advanced_unix_progr.Base.{
  ℕ, suc, ◌+◌, ◌/◌, ◌%◌, ◌^◌, ◌≤◌, ◌<◌, ◌⊎◌, true, List, [], ◌∷◌, Option, none, some, ◌≡◌, refl, ap,
  ◌∙◌, sym, arith, if◌then◌else◌, All, get_elem?,
}
use advanced_unix_progr.Sdb.Host.{Host, Run, ok, fault, blocked, out_of_fuel, and_then, pure, Cmd}
use advanced_unix_progr.Sdb.State.{Bp, Sdb, sdb_is_running}
use advanced_unix_progr.Sdb.Kernel.{
  Kernel, TextIsMemory, IsMapped, CanSetRegs, RegsAreKept, reported, wifstopped,
}
use advanced_unix_progr.Sdb.Maps.{convert_dynamic_addr}
use advanced_unix_progr.Sdb.Patch.{bp_addr, wait, sdb_patch_all_bp}
use advanced_unix_progr.Sdb.Patch.Traps.{SameSlots, Located}
use advanced_unix_progr.Sdb.Patch.Slots.{patched_slots}
use advanced_unix_progr.Sdb.Resume.{
  Stop, before_trap, hit, hit_bp, on_stop, on_report, wait_loop, after_loop, resume, sdb_cont,
}
use advanced_unix_progr.Sdb.Resume.Hit.{
  find_hit, find_hit-SameSlots, report_hit, check_breaks-find_hit, hit_bp-IsRestored, IsRestored,
}

module _ (K : Kernel) (sdb : Sdb) (va : ℕ → ℕ) (text : TextIsMemory K sdb.pid)
    (kept : RegsAreKept K) (can_set : CanSetRegs K sdb.pid text) where
  open K use {World, getregs, setregs, cont, waitpid}

  -- Addresses do not depend on the table.
  Located-move :
      (bps : List Bp) (bp bp' : Bp)
      → bp'.addr ≡ bp.addr
      → Located K sdb va text bp
      → Located K (record sdb { breaks = bps }) va text bp'
  unfolding bp_addr convert_dynamic_addr
  Located-move bps bp bp' e located h = rw e (located h)

  Located-SameSlots :
      (table bps bps' : List Bp)
      → SameSlots bps bps'
      → All (Located K sdb va text) bps
      → All (Located K (record sdb { breaks = table }) va text) bps'
  Located-SameSlots table [] [] same located = tt
  Located-SameSlots table [] (q' ∷ rest') same located = absurd same
  Located-SameSlots table (q ∷ rest) [] same located = absurd same
  Located-SameSlots table (q ∷ rest) (q' ∷ rest') same located = (
    Located-move table q q' same.1 located.0,
    Located-SameSlots table rest rest' same.2 located.1,
  )

  on_stop-hit :
      (h h' : Host World) (n : ℕ) (bp : Bp)
      → All (Located K sdb va text) sdb.breaks
      → find_hit va (before_trap (getregs sdb.pid h.world).rip) 0 sdb.breaks ≡ some (n, bp)
      → hit_bp K sdb (getregs sdb.pid h.world) n bp (va bp.addr) h
        ≡ report_hit K sdb va text n bp h'
      → on_stop K sdb h ≡ and_then (report_hit K sdb va text n bp h') (λ _. pure true)
  unfolding on_stop
  on_stop-hit h h' n bp located found hits =
      check_breaks-find_hit K sdb va _ 0 sdb.breaks h located ∙ rw (found, hits)

  leave_loop :
      (r : Run World (Unit {0})) (again : Cmd World Stop)
      → and_then
          (and_then (and_then r (λ _. pure true)) (λ found. if found then pure hit else again))
          (after_loop K sdb)
        ≡ and_then r (λ _. pure sdb)
  unfolding after_loop
  leave_loop (ok u h) again = refl
  leave_loop (fault f) again = refl
  leave_loop blocked again = refl
  leave_loop out_of_fuel again = refl

  -- One report of a stop, at a break point of the table.
  resume-hit :
      (fuel : ℕ) (status : Option ℕ) (h h' : Host World) (w₁ w₂ : World) (st n : ℕ) (bp : Bp)
      → cont sdb.pid h.world ≡ some w₁
      → waitpid sdb.pid w₁ ≡ some (reported st, w₂)
      → wifstopped st ≡ true
      → on_stop K sdb (record h { world = w₂ })
        ≡ and_then (report_hit K sdb va text n bp h') (λ _. pure true)
      → resume K (suc fuel) sdb status h
        ≡ and_then (report_hit K sdb va text n bp h') (λ _. pure sdb)
  unfolding resume wait_loop wait on_report
  resume-hit fuel status h h' w₁ w₂ st n bp goes reports stops hits =
      rw (goes, reports, wait, stops, hits) (leave_loop (report_hit K sdb va text n bp h') _)

  -- From `PTRACE_CONT` to a break point that the table has.
  resume-restores :
      (fuel : ℕ) (status : Option ℕ) (h : Host World) (w₁ w₂ : World) (st n : ℕ) (bp : Bp)
      → All (Located K sdb va text) sdb.breaks
      → IsMapped K sdb.pid text (va bp.addr)
      → text.Stopped w₂
      → cont sdb.pid h.world ≡ some w₁
      → waitpid sdb.pid w₁ ≡ some (reported st, w₂)
      → wifstopped st ≡ true
      → find_hit va (before_trap (getregs sdb.pid w₂).rip) 0 sdb.breaks ≡ some (n, bp)
      → (w' : World) × (resume K (suc fuel) sdb status h
          ≡ and_then (report_hit K sdb va text n bp (record h { world = w' })) (λ _. pure sdb))
        × IsRestored K sdb va text (getregs sdb.pid w₂) bp w₂ w'
  resume-restores fuel status h w₁ w₂ st n bp located mapped stopped goes reports stops found =
      let regs = getregs sdb.pid w₂ in
      let (w₃, poke) = mapped.pokes bp.original_word w₂ stopped in
      let (w', put) =
        can_set (record regs { rip = before_trap regs.rip }) w₃
          (text.poke_stopped _ _ _ _ stopped poke) in
      let (hits, restored) =
        hit_bp-IsRestored K sdb va text regs n bp (record h { world = w₂ }) w₃ w' kept
          (λ b. text.setregs_text _ b _ _ put) poke put in
      let stop =
        on_stop-hit (record h { world = w₂ }) (record h { world = w' }) n bp located found hits in
      (
        w',
        resume-hit fuel status h (record h { world = w' }) w₁ w₂ st n bp goes reports stops stop,
        restored,
      )

module _ (K : Kernel) (sdb : Sdb) (va : ℕ → ℕ) (text : TextIsMemory K sdb.pid) where
  open K use {World, getregs, cont, waitpid}

  report_hit-addr :
      (table : List Bp) (n : ℕ) (bp bp' : Bp) (h : Host World)
      → bp'.addr ≡ bp.addr
      → report_hit K (record sdb { breaks = table }) va text n bp' h
        ≡ report_hit K sdb va text n bp h
  report_hit-addr table n bp bp' h e = rw e

  -- `cont` to a break point. Let the table's addresses be found, let `sdb_patch_all_bp` return with
  -- the table `breaks'` and in state `h₁`, and let the process then run, whatever it does, and stop
  -- where the first used break point before `rip` is slot `n`, `bp`, whose word can be read and
  -- written. Then `cont` returns the debugger with the table `breaks'` once the instruction at `bp` is
  -- printed, whatever that prints or fails with; `rip` is the address of the break point, the eight
  -- bytes there are the word that slot `n` of `breaks'` has saved, and all other bytes are those that
  -- the process left.
  pub sdb_cont-hit :
      (fuel : ℕ) (h h₁ : Host World) (breaks' : List Bp) (w₁ w₂ : World) (st n : ℕ) (bp : Bp)
      → RegsAreKept K
      → CanSetRegs K sdb.pid text
      → sdb_is_running sdb ≡ true
      → All (Located K sdb va text) sdb.breaks
      → IsMapped K sdb.pid text (va bp.addr)
      → sdb_patch_all_bp K sdb h ≡ ok (record sdb { breaks = breaks' }) h₁
      → cont sdb.pid h₁.world ≡ some w₁
      → waitpid sdb.pid w₁ ≡ some (reported st, w₂)
      → wifstopped st ≡ true
      → text.Stopped w₂
      → find_hit va (before_trap (getregs sdb.pid w₂).rip) 0 sdb.breaks ≡ some (n, bp)
      → (w' : World) × (bp' : Bp) × (get_elem? breaks' n ≡ some bp')
        × (sdb_cont K (suc fuel) sdb h
            ≡ and_then
                (report_hit K sdb va text n bp (record h₁ { world = w' }))
                (λ _. pure (record sdb { breaks = breaks' })))
        × ((getregs sdb.pid w').rip ≡ va bp.addr)
        × ((j : ℕ) → j < 8 → text.byte (va bp.addr + j) w' ≡ bp'.original_word / 256 ^ j % 256)
        × ((b : ℕ) → (b < va bp.addr) ⊎ (va bp.addr + 8 ≤ b) → text.byte b w' ≡ text.byte b w₂)
  unfolding sdb_cont
  sdb_cont-hit fuel h h₁ breaks' w₁ w₂ st n bp kept can_set running located mapped patches goes
        reports stops stopped found =
      let same = patched_slots K sdb (record sdb { breaks = breaks' }) h h₁ patches in
      let (bp', k, found', number, here, here', used, addr, at) =
        find_hit-SameSlots va _ 0 sdb.breaks breaks' n bp same found in
      let slot : n ≡ k = omega (arith, number) in
      let sdb' : Sdb = record sdb { breaks = breaks' } in
      let (w', runs, restored) =
        resume-restores K sdb' va text kept can_set fuel none h₁ w₁ w₂ st n bp'
          (Located-SameSlots K sdb va text kept can_set breaks' sdb.breaks breaks' same located)
          (rw addr mapped) stopped goes reports stops found' in
      (
        w',
        bp',
        rw slot here',
        rw (running, patches)
            (runs
              ∙ ap (λ r. and_then r (λ _. pure sdb'))
                  (report_hit-addr breaks' n bp bp' (record h₁ { world = w' }) addr)),
        restored.rip_back ∙ sym at,
        λ j near. ap (λ t. text.byte (va t + j) w') (sym addr) ∙ restored.inside j near,
        λ b far. restored.outside b (rw addr far),
      )

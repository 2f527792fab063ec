-- ===== src/Sdb/Patch/Slots.antt =====
-- That `sdb_patch_all_bp` keeps the slots of the table, whatever the system does.
use advanced_unix_progr.Base.{ℕ, List, [], ◌∷◌, ◌≡◌, refl}
use advanced_unix_progr.Sdb.Host.{Host, ok, Cmd, pure}
use advanced_unix_progr.Sdb.Host.Ensures.{Ensures, returns, Ensures-then, Ensures-ok, ensures_rules}
use advanced_unix_progr.Sdb.State.{Bp, Sdb}
use advanced_unix_progr.Sdb.Kernel.{Kernel}
use advanced_unix_progr.Sdb.Patch.{
  Patched, next, stop, poke_trap, patch_at, patch_used, patch_bp, go_on, patch_breaks,
  sdb_patch_all_bp,
}
use advanced_unix_progr.Sdb.Patch.Traps.{SameSlots}

-- The slot with which the loop goes on or stops is the same but for its word.
abbrev IsSlotOf : Bp → Patched → Type 0
IsSlotOf bp (next bp') = (bp'.is_used ≡ bp.is_used) × (bp'.addr ≡ bp.addr)
IsSlotOf bp (stop bp') = (bp'.is_used ≡ bp.is_used) × (bp'.addr ≡ bp.addr)

pub SameSlots-refl : (bps : List Bp) → SameSlots bps bps
SameSlots-refl [] = tt
SameSlots-refl (bp ∷ rest) = (refl, refl, SameSlots-refl rest)

module _ (K : Kernel) (sdb : Sdb) where
  open K use {World}

  poke_trap-IsSlotOf :
      (bp : Bp) (addr word : ℕ) (h : Host World)
      → Ensures (IsSlotOf bp) (poke_trap K sdb bp addr word h)
  unfolding poke_trap
  poke_trap-IsSlotOf bp addr word h = search ensures_rules

  patch_used-IsSlotOf : (bp : Bp) (h : Host World) → Ensures (IsSlotOf bp) (patch_used K sdb bp h)
  unfolding patch_used patch_at
  patch_used-IsSlotOf bp h = search (ensures_rules, poke_trap-IsSlotOf)

  patch_bp-IsSlotOf : (bp : Bp) (h : Host World) → Ensures (IsSlotOf bp) (patch_bp K sdb bp h)
  unfolding patch_bp
  patch_bp-IsSlotOf bp h = search (ensures_rules, patch_used-IsSlotOf)

  go_on-SameSlots :
      (bp : Bp) (rest : List Bp) (again : Cmd World (List Bp)) (r : Patched) (h : Host World)
      → ((h : Host World) → Ensures (SameSlots rest) (again h))
      → IsSlotOf bp r
      → Ensures (SameSlots (bp ∷ rest)) (go_on K rest again r h)
  go_on-SameSlots bp rest again (stop bp') h later e = returns _ h (e.0, e.1, SameSlots-refl rest)
  go_on-SameSlots bp rest again (next bp') h later e =
      Ensures-then (again h) (λ rest'. pure (bp' ∷ rest')) (later h)
        λ rest' h' same. returns _ h' (e.0, e.1, same)

  patch_breaks-SameSlots :
      (bps : List Bp) (h : Host World) → Ensures (SameSlots bps) (patch_breaks K sdb bps h)
  unfolding patch_breaks
  patch_breaks-SameSlots [] h = returns _ h tt
  patch_breaks-SameSlots (bp ∷ rest) h =
      Ensures-then (patch_bp K sdb bp h) (go_on K rest (patch_breaks K sdb rest))
        (patch_bp-IsSlotOf bp h)
        λ r h₁ e.
          go_on-SameSlots bp rest (patch_breaks K sdb rest) r h₁ (patch_breaks-SameSlots rest) e

  patch_all-SameSlots :
      (h : Host World)
      → Ensures (λ (sdb' : Sdb). SameSlots sdb.breaks sdb'.breaks) (sdb_patch_all_bp K sdb h)
  unfolding sdb_patch_all_bp
  patch_all-SameSlots h =
      Ensures-then (patch_breaks K sdb sdb.breaks h)
        (λ breaks'. pure (record sdb { breaks = breaks' })) (patch_breaks-SameSlots sdb.breaks h)
        λ breaks' h' same. returns _ h' same

  -- A run that returns leaves the slots as they were but for their words.
  pub patched_slots :
      (sdb' : Sdb) (h h' : Host World)
      → sdb_patch_all_bp K sdb h ≡ ok sdb' h'
      → SameSlots sdb.breaks sdb'.breaks
  patched_slots sdb' h h' e =
      Ensures-ok (λ (sdb' : Sdb). SameSlots sdb.breaks sdb'.breaks) _ _ _ (patch_all-SameSlots h) e

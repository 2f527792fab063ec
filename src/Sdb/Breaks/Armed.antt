-- ===== src/Sdb/Breaks/Armed.antt =====
-- `break` while the program runs.
use advanced_unix_progr.Base.{
  ℕ, zero, suc, true, false, Text, List, [], ◌∷◌, some, ◌≡◌, refl, ◌∙◌, arith, ◌==◌, if◌then◌else◌,
  alter, All, Bool-cases, inl, inr,
}
use advanced_unix_progr.Cstd.{scan_hex}
use advanced_unix_progr.Sdb.Host.{Host, ok}
use advanced_unix_progr.Sdb.State.{Bp, Sdb, sdb_is_loaded, sdb_is_running}
use advanced_unix_progr.Sdb.Kernel.{Kernel, TextIsMemory, IsMapped}
use advanced_unix_progr.Sdb.Patch.Traps.{traps, SameSlots, Located, sdb_patch_all_bp-traps}
use advanced_unix_progr.Sdb.Breaks.{skip_prefix, free_slot, occupy, put_break, sdb_set_break}
use advanced_unix_progr.Sdb.Breaks.Table.{entry, entry-occupy, free_slot-first}

pub entry-SameSlots : (bps bps' : List Bp) (j : ℕ) → SameSlots bps bps' → entry bps' j ≡ entry bps j
entry-SameSlots [] [] j same = refl
entry-SameSlots (bp ∷ rest) (bp' ∷ rest') zero same = rw (same.0, same.1)
entry-SameSlots (bp ∷ rest) (bp' ∷ rest') (suc j) same = entry-SameSlots rest rest' j same.2
entry-SameSlots [] (bp' ∷ rest') j same = elim same [ ]
entry-SameSlots (bp ∷ rest) [] j same = elim same [ ]

-- An address in the table is one where a trap belongs.
pub traps-entry :
    (va : ℕ → ℕ) (bps : List Bp) (j a : ℕ) → entry bps j ≡ some a → traps va bps (va a) ≡ true
traps-entry va [] j a e = absurd (cc)
traps-entry va (bp ∷ rest) zero a e = elim (Bool-cases bp.is_used) [
  | inl used ↦ ground arith
  | inr unused ↦ ground arith
]
traps-entry va (bp ∷ rest) (suc j) a e = ground (arith, traps-entry va rest j a e)

module _ (K : Kernel) (sdb : Sdb) (h : Host K.World) (va : ℕ → ℕ)
    (text : TextIsMemory K sdb.pid) where
  -- `break` while the program runs, with an address that can be read and with a free slot: where
  -- the process is stopped, not at a used break point of the new table, the new table's addresses are found and its used words can be read and written, the free slot of
  -- the smallest number holds the address, every other slot keeps its own, and the memory of the
  -- process has the trap at exactly the addresses of the new table, the new one among them.
  pub sdb_set_break-traps :
      (s : Text) (addr n : ℕ)
      → sdb_is_loaded sdb ≡ true
      → sdb_is_running sdb ≡ true
      → scan_hex (skip_prefix s) ≡ some addr
      → free_slot 0 sdb.breaks ≡ some n
      → text.Stopped h.world
      → traps va (alter (occupy addr) n sdb.breaks) (K.getregs sdb.pid h.world).rip ≡ false
      → All (Located K (put_break n addr sdb) va text) (alter (occupy addr) n sdb.breaks)
      → All
          (λ bp. bp.is_used ≡ true → IsMapped K sdb.pid text (va bp.addr))
          (alter (occupy addr) n sdb.breaks)
      → (breaks' : List Bp) × (h' : Host K.World) × (sdb_set_break K sdb s h
          ≡ ok (record sdb { breaks = breaks' }) h')
        × ((j : ℕ) → entry breaks' j ≡ (if n == j then some addr else entry sdb.breaks j))
        × (text.byte (va addr) h'.world ≡ 0xcc)
        × ((b : ℕ)
            → text.byte b h'.world ≡ (
                if traps va (alter (occupy addr) n sdb.breaks) b
                then 0xcc
                else text.byte b h.world))
  unfolding sdb_set_break
  sdb_set_break-traps s addr n loaded running scanned free stopped away located mapped =
      let (k, number, below, empty, full) = free_slot-first sdb.breaks 0 n free in
      let e : n ≡ k = omega arith in
      let (breaks', h', patches, same, bytes, saves, keeps, still) =
        sdb_patch_all_bp-traps K (put_break n addr sdb) va text h located stopped away mapped in
      let entries = entry-occupy sdb.breaks addr n in
      let armed =
        traps-entry va (alter (occupy addr) n sdb.breaks) n addr
          (entries n (rw e below) ∙ ground arith) in
      (
        breaks',
        h',
        rw (loaded, scanned, free, running) patches,
        λ j.
            entry-SameSlots (alter (occupy addr) n sdb.breaks) breaks' j same
            ∙ entries j (rw e below),
        bytes (va addr) ∙ rw armed,
        bytes,
      )

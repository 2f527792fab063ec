-- ===== src/Sdb/Patch/Traps.antt =====
-- What `sdb_patch_all_bp` does to the memory of the process and to the table.
use advanced_unix_progr.Base.{
  ℕ, zero, suc, ◌+◌, ◌/◌, ◌%◌, ◌^◌, ◌<◌, Bool, true, false, ◌&&◌, ◌||◌, List, [], ◌∷◌, some, ◌≡◌,
  ◌≢◌, refl, sym, ◌∙◌, arith, ◌==◌, if◌then◌else◌, All, get_elem?, take,
}
use mathlib.Core.Path.{subst₂}
use advanced_unix_progr.Sdb.Host.{Host, ok}
use advanced_unix_progr.Sdb.State.{Bp, Sdb}
use advanced_unix_progr.Sdb.Kernel.{Kernel, TextIsMemory, IsMapped}
use advanced_unix_progr.Sdb.Patch.{patch_breaks, sdb_patch_all_bp}
use advanced_unix_progr.Sdb.Patch.Slot
use advanced_unix_progr.Sdb.Patch.Slot.{IsPatched, patch_bp-IsPatched}

-- Some used break point of the list stands at address `b`; `va` is where an address of the
-- program lies in memory.
abbrev pub traps : (ℕ → ℕ) → List Bp → ℕ → Bool
traps va [] b = false
traps va (bp ∷ rest) b = (bp.is_used && (va bp.addr == b)) || traps va rest b

-- Corresponding slots of two tables differ in their words alone.
abbrev pub SameSlots : List Bp → List Bp → Type 0
SameSlots [] [] = Unit
SameSlots (bp ∷ rest) (bp' ∷ rest') =
    (bp'.is_used ≡ bp.is_used) × (bp'.addr ≡ bp.addr) × SameSlots rest rest'
SameSlots _ _ = ⊥

module _ (K : Kernel) (sdb : Sdb) (va : ℕ → ℕ) (text : TextIsMemory K sdb.pid) where
  open K use {World}

  abbrev pub Located : Bp → Type 0
  Located = Slot.Located K sdb va text

  -- The slots of `bps'` hold the bytes of `h` at their addresses: each used one whose address holds
  -- no trap in `h`, and lies less than eight bytes below no used one of a smaller number.
  abbrev pub Saves : Host World → List Bp → List Bp → Type 0
  Saves h bps bps' =
      (i : ℕ) (bp bp' : Bp)
      → get_elem? bps i ≡ some bp
      → get_elem? bps' i ≡ some bp'
      → bp.is_used ≡ true
      → text.byte (va bp.addr) h.world ≢ 0xcc
      → ((j : ℕ) → j < 8 → traps va (take i bps) (va bp.addr + j) ≡ false)
      → (j : ℕ) → j < 8
      → bp'.original_word / 256 ^ j % 256 ≡ text.byte (va bp.addr + j) h.world

  -- The slots whose trap was there keep the word that they have.
  abbrev pub KeepsWords : Host World → List Bp → List Bp → Type 0
  KeepsWords h bps bps' =
      (i : ℕ) (bp bp' : Bp)
      → get_elem? bps i ≡ some bp
      → get_elem? bps' i ≡ some bp'
      → bp.is_used ≡ true
      → text.byte (va bp.addr) h.world ≡ 0xcc
      → bp'.original_word ≡ bp.original_word

  KeepsWords-cons :
      (bp bp' : Bp) (rest rest' : List Bp) (h h₁ : Host World)
      → IsPatched K sdb va text bp h bp' h₁
      → KeepsWords h₁ rest rest'
      → KeepsWords h (bp ∷ rest) (bp' ∷ rest')
  KeepsWords-cons bp bp' rest rest' h h₁ done keeps zero q q' e e' used trap =
      ground (arith, done.armed)
  KeepsWords-cons bp bp' rest rest' h h₁ done keeps (suc i) q q' e e' used trap =
      keeps i q q' e e' used (ground (arith, done.byte (va q.addr)))

  Saves-cons :
      (bp bp' : Bp) (rest rest' : List Bp) (h h₁ : Host World)
      → IsPatched K sdb va text bp h bp' h₁
      → Saves h₁ rest rest'
      → Saves h (bp ∷ rest) (bp' ∷ rest')
  Saves-cons bp bp' rest rest' h h₁ done saves zero q q' e e' used clear apart j near =
      ground (arith, done.saved j)
  Saves-cons bp bp' rest rest' h h₁ done saves (suc i) q q' e e' used clear apart j near =
      saves i q q' e e' used (rw (unchanged_self) clear) (λ k below. later k below) j near
      ∙ unchanged j near
    where
      unchanged :
          (k : ℕ) → k < 8 → text.byte (va q.addr + k) h₁.world ≡ text.byte (va q.addr + k) h.world
      unchanged k below = ground (arith, done.byte (va q.addr + k), apart k)

      unchanged_self : text.byte (va q.addr) h₁.world ≡ text.byte (va q.addr) h.world
      unchanged_self =
          let z : va q.addr + 0 ≡ va q.addr = omega arith in rw z at (unchanged 0 (omega arith))

      later : (k : ℕ) → k < 8 → traps va (take i rest) (va q.addr + k) ≡ false
      later k below = ground (arith, apart k)

  patch_breaks-traps :
      (bps : List Bp) (h : Host World)
      → All Located bps
      → text.Stopped h.world
      → traps va bps (K.getregs sdb.pid h.world).rip ≡ false
      → All (λ bp. bp.is_used ≡ true → IsMapped K sdb.pid text (va bp.addr)) bps
      → (bps' : List Bp) × (h' : Host World) × (patch_breaks K sdb bps h ≡ ok bps' h')
        × SameSlots bps bps'
        × ((b : ℕ) → text.byte b h'.world ≡ (if traps va bps b then 0xcc else text.byte b h.world))
        × Saves h bps bps'
        × KeepsWords h bps bps'
        × text.Stopped h'.world
  unfolding patch_breaks
  patch_breaks-traps [] h located stopped away mapped =
      ([], h, refl, tt, λ b. refl, λ i bp bp' e. absurd (cc), λ i bp bp' e. absurd (cc), stopped)
  patch_breaks-traps (bp ∷ rest) h located stopped away mapped =
      let here : (bp.is_used && (va bp.addr == (K.getregs sdb.pid h.world).rip)) ≡ false =
        ground arith in
      let (bp', h₁, patches, done) =
        patch_bp-IsPatched K sdb va text bp h located.0 stopped here mapped.0 in
      let later : traps va rest (K.getregs sdb.pid h₁.world).rip ≡ false =
        rw (done.regs) (ground arith) in
      let (rest', h₂, runs, same, bytes, saves, keeps, still) =
        patch_breaks-traps rest h₁ located.1 done.stopped later mapped.1 in
      (
        bp' ∷ rest',
        h₂,
        rw (patches, runs),
        (done.used, done.addr, same),
        λ b. ground (arith, bytes b, done.byte b),
        Saves-cons bp bp' rest rest' h h₁ done saves,
        KeepsWords-cons bp bp' rest rest' h h₁ done keeps,
        still,
      )

  -- Let the process be stopped, not at a used break point, and let each break point's address be
  -- found and each used one's word be readable and writable. Then `sdb_patch_all_bp` returns. The
  -- table keeps its slots but for the saved words; the memory of the process then holds the trap at
  -- exactly the addresses of the used break points and is unchanged everywhere else; each used slot
  -- whose address held no trap before, and has no used slot of a smaller number at its address or in
  -- the seven bytes behind, has saved the eight bytes that the memory held at its address; and each
  -- used slot whose address held the trap keeps its word. The process is stopped still.
  pub sdb_patch_all_bp-traps :
      (h : Host World)
      → All Located sdb.breaks
      → text.Stopped h.world
      → traps va sdb.breaks (K.getregs sdb.pid h.world).rip ≡ false
      → All (λ bp. bp.is_used ≡ true → IsMapped K sdb.pid text (va bp.addr)) sdb.breaks
      → (breaks' : List Bp) × (h' : Host World) × (sdb_patch_all_bp K sdb h
          ≡ ok (record sdb { breaks = breaks' }) h')
        × SameSlots sdb.breaks breaks'
        × ((b : ℕ)
            → text.byte b h'.world ≡ (if traps va sdb.breaks b then 0xcc else text.byte b h.world))
        × Saves h sdb.breaks breaks'
        × KeepsWords h sdb.breaks breaks'
        × text.Stopped h'.world
  unfolding sdb_patch_all_bp
  sdb_patch_all_bp-traps h located stopped away mapped =
      let (bps', h', runs, same, bytes, saves, keeps, still) =
        patch_breaks-traps sdb.breaks h located stopped away mapped in
      (bps', h', rw runs, same, bytes, saves, keeps, still)

  -- What the theorem says of a run that is given.
  pub patched_facts :
      (h h' : Host World) (breaks' : List Bp)
      → All Located sdb.breaks
      → text.Stopped h.world
      → traps va sdb.breaks (K.getregs sdb.pid h.world).rip ≡ false
      → All (λ bp. bp.is_used ≡ true → IsMapped K sdb.pid text (va bp.addr)) sdb.breaks
      → sdb_patch_all_bp K sdb h ≡ ok (record sdb { breaks = breaks' }) h'
      → SameSlots sdb.breaks breaks'
        × ((b : ℕ)
            → text.byte b h'.world ≡ (if traps va sdb.breaks b then 0xcc else text.byte b h.world))
        × Saves h sdb.breaks breaks'
        × KeepsWords h sdb.breaks breaks'
        × text.Stopped h'.world
  patched_facts h h' breaks' located stopped away mapped e =
      let (bps, h₁, runs, same, bytes, saves, keeps, still) =
        sdb_patch_all_bp-traps h located stopped away mapped in
      let r : ok (record sdb { breaks = bps }) h₁ ≡ ok (record sdb { breaks = breaks' }) h' =
        sym runs ∙ e in
      let eb : bps ≡ breaks' = cc in
      let eh : h₁ ≡ h' = cc in
      subst₂
        (λ (x : List Bp) (y : Host World).
          SameSlots sdb.breaks x
          × ((b : ℕ)
              → text.byte b y.world ≡ (if traps va sdb.breaks b then 0xcc else text.byte b h.world))
          × Saves h sdb.breaks x
          × KeepsWords h sdb.breaks x
          × text.Stopped y.world)
        eb eh (same, bytes, saves, keeps, still)

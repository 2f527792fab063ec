-- ===== src/Sdb/Memory/Disasm.antt =====
-- What `disasm` reads of a process that has traps in its code.
use advanced_unix_progr.Base.{
  ℕ, ◌+◌, ◌-◌, ◌/◌, ◌%◌, ◌^◌, ◌≤◌, ◌<◌, true, false, List, [], ◌∷◌, some, inl, inr, ◌≡◌, refl, sym,
  ap, ◌∙◌, arith, ◌==◌, if◌then◌else◌, All, get_elem?, length, Bool-cases,
}
use native.Mathlib.Decide.{dec_lt}
use advanced_unix_progr.Sdb.Host.{Host, ok}
use advanced_unix_progr.Sdb.State.{Bp, Sdb}
use advanced_unix_progr.Sdb.Kernel.{Kernel, TextIsMemory, IsMapped}
use advanced_unix_progr.Sdb.Patch.Traps.{traps, Located, sdb_patch_all_bp-traps}
use advanced_unix_progr.Sdb.Memory.{restore_breaks, read_memory, show_disasm, disasm_memory}
use advanced_unix_progr.Sdb.Memory.Dump.{read_memory-IsCopy}

abbrev pub as_given : ℕ → ℕ
as_given a = a

-- `code` is the bytes of the program without traps.
module _ (K : Kernel) (sdb : Sdb) (text : TextIsMemory K sdb.pid) (code : ℕ → ℕ) where
  open K use {World}

  -- A used slot has saved the bytes of the code at its address, where memory can be read and written.
  abbrev pub HasSaved : Bp → Type 0
  HasSaved bp =
      bp.is_used ≡ true
      → IsMapped K sdb.pid text bp.addr
        × ((j : ℕ) → j < 8 → bp.original_word / 256 ^ j % 256 ≡ code (bp.addr + j))

  poked :
      (bp : Bp) (rest : List Bp) (w w' : World)
      → ((j : ℕ) → j < 8 → bp.original_word / 256 ^ j % 256 ≡ code (bp.addr + j))
      → K.poketext sdb.pid bp.addr bp.original_word w ≡ some w'
      → ((b : ℕ) → traps as_given (bp ∷ rest) b ≡ false → text.byte b w ≡ code b)
      → (b : ℕ) → traps as_given rest b ≡ false
      → text.byte b w' ≡ code b
  poked bp rest w w' saved poke same b clear = elim (dec_lt b bp.addr) [
    | yes below ↦
        let apart : (bp.addr == b) ≡ false = ground arith in
        text.poke_outside bp.addr bp.original_word b w w' poke (inl below)
        ∙ same b (ground (arith, apart, clear))
    | no above ↦ elim (dec_lt b (bp.addr + 8)) [
      | no beyond ↦
          let apart : (bp.addr == b) ≡ false = ground arith in
          text.poke_outside bp.addr bp.original_word b w w' poke (inr (omega arith))
          ∙ same b (ground (arith, apart, clear))
      | yes near ↦
          let e : b ≡ bp.addr + (b - bp.addr) = omega arith in
          ap (λ a. text.byte a w') e
          ∙ text.poke_inside bp.addr bp.original_word (b - bp.addr) w w' poke (omega arith)
          ∙ saved (b - bp.addr) (omega arith)
          ∙ ap code (sym e)
    ]
  ]

  restore_breaks-code :
      (bps : List Bp) (h : Host World)
      → text.Stopped h.world
      → All HasSaved bps
      → ((b : ℕ) → traps as_given bps b ≡ false → text.byte b h.world ≡ code b)
      → (w : World) × (restore_breaks K sdb bps h ≡ ok tt (record h { world = w }))
        × ((b : ℕ) → text.byte b w ≡ code b)
        × text.Stopped w
        × (K.getregs sdb.pid w ≡ K.getregs sdb.pid h.world)
  unfolding restore_breaks
  restore_breaks-code [] h stopped saved same = (h.world, refl, λ b. same b refl, stopped, refl)
  restore_breaks-code (bp ∷ rest) h stopped (saved, more) same = elim (Bool-cases bp.is_used) [
    | inl used ↦
        let (mapped, word) = saved used in
        let (w₁, poke) = mapped.pokes bp.original_word h.world stopped in
        let (w, runs, bytes, still, regs) =
          restore_breaks-code rest (record h { world = w₁ })
            (text.poke_stopped _ _ _ _ stopped poke) more
            (poked bp rest h.world w₁ word poke same) in
        (w, rw (used, poke) runs, bytes, still, regs ∙ text.poke_regs _ _ _ _ poke)
    | inr free ↦
        let (w, runs, bytes, still, regs) =
          restore_breaks-code rest h stopped more (λ b clear. same b (rw (free, clear) refl)) in
        (w, rw free runs, bytes, still, regs)
  ]

  All-mapped :
      (bps : List Bp)
      → All HasSaved bps
      → All (λ bp. bp.is_used ≡ true → IsMapped K sdb.pid text (as_given bp.addr)) bps
  All-mapped [] h = tt
  All-mapped (bp ∷ rest) (saved, more) = (λ used. (saved used).0, All-mapped rest more)

  -- For a process that is stopped, not at a used break point, and at the addresses of its file, with the traps of the used break points in
  -- its code and their words saved: `disasm` of an address prints what the disassembler makes of the 64
  -- bytes of the code there, without the traps, and leaves the process with the traps in the code.
  pub disasm_memory-code :
      (addr : ℕ) (h : Host World)
      → addr + 64 < 2 ^ 64
      → text.Stopped h.world
      → traps as_given sdb.breaks (K.getregs sdb.pid h.world).rip ≡ false
      → ((a : ℕ) → addr ≤ a → a < addr + 64 → IsMapped K sdb.pid text a)
      → All (Located K sdb as_given text) sdb.breaks
      → All HasSaved sdb.breaks
      → ((b : ℕ) → text.byte b h.world ≡ (if traps as_given sdb.breaks b then 0xcc else code b))
      → (buffer : List ℕ) × (breaks' : List Bp) × (h' : Host World) × (length buffer ≡ 64)
        × ((i : ℕ) → i < 64 → get_elem? buffer i ≡ some (code (addr + i)))
        × (disasm_memory K sdb addr h
            ≡ show_disasm K (record sdb { breaks = breaks' }) (K.disasm buffer addr) h')
        × ((b : ℕ) → text.byte b h'.world ≡ (if traps as_given sdb.breaks b then 0xcc else code b))
  unfolding disasm_memory
  disasm_memory-code addr h fits stopped away mapped located saved trapped =
      let (w, restores, bytes, still, regs) =
        restore_breaks-code sdb.breaks h stopped saved (λ b clear. trapped b ∙ rw clear refl) in
      let (size, copy) = read_memory-IsCopy K sdb text 8 addr w still fits mapped in
      let (breaks', h', patches, _, after, _, _, _) =
        sdb_patch_all_bp-traps K sdb as_given text (record h { world = w }) located still
          (rw regs away) (All-mapped sdb.breaks saved) in
      (
        read_memory K sdb 8 addr w,
        breaks',
        h',
        size,
        λ i below. copy i below ∙ ap some (bytes (addr + i)),
        rw (restores, patches) refl,
        λ b. after b ∙ rw (bytes b) refl,
      )

-- ===== src/Sdb/Patch/Slot.antt =====
-- What `sdb_patch_all_bp` does for one slot of the table.
use advanced_unix_progr.Base.{
  ℕ, ◌+◌, ◌/◌, ◌%◌, ◌^◌, ◌-◌, ◌<◌, true, false, ◌&&◌, inl, inr, ◌≡◌, ◌≢◌, refl, ap, ◌∙◌, sym, arith,
  ◌==◌, if◌then◌else◌, Bool-cases, some,
}
use native.Mathlib.Decide.{dec_lt}
use advanced_unix_progr.Elf.{Handle}
use advanced_unix_progr.Sdb.Host.{Host, ok, pure}
use advanced_unix_progr.Sdb.State.{Bp, Sdb}
use advanced_unix_progr.Sdb.Kernel.{Kernel, TextIsMemory, IsMapped}
use advanced_unix_progr.Sdb.Patch.{
  next, et_dyn, trap_word, is_trapped, bp_addr, step_off, poke_trap, patch_at, patch_used, patch_bp,
}
use advanced_unix_progr.Sdb.Patch.Word.{trap_word_byte, is_trapped_lem}

module _ (K : Kernel) (sdb : Sdb) (va : ℕ → ℕ) (text : TextIsMemory K sdb.pid) where
  open K use {World}

  abbrev pub Located : Bp → Type 0
  Located bp = (h : Host World) → bp_addr K sdb bp h ≡ ok (va bp.addr) h

  poke_trap-byte_near :
      (addr word i : ℕ) (w w' : World)
      → K.peektext sdb.pid addr w ≡ some word
      → K.poketext sdb.pid addr (trap_word word) w ≡ some w'
      → i < 8
      → text.byte (addr + i) w' ≡ (if addr == addr + i then 0xcc else text.byte (addr + i) w)
  poke_trap-byte_near addr word i w w' peek poke near = ground (
    arith,
    text.poke_inside addr (trap_word word) i w w' poke near,
    text.peek_byte addr word i w peek near,
    trap_word_byte word i (text.peek-lt addr word w peek),
  )

  -- Writing the trap word changes one byte.
  poke_trap-byte :
      (addr word b : ℕ) (w w' : World)
      → K.peektext sdb.pid addr w ≡ some word
      → K.poketext sdb.pid addr (trap_word word) w ≡ some w'
      → text.byte b w' ≡ (if addr == b then 0xcc else text.byte b w)
  poke_trap-byte addr word b w w' peek poke = elim (dec_lt b addr) [
    | yes below ↦ ground (arith, text.poke_outside addr (trap_word word) b w w' poke (inl below))
    | no above ↦ elim (dec_lt b (addr + 8)) [
      | no beyond ↦ ground (arith, text.poke_outside addr (trap_word word) b w w' poke)
      | yes near ↦
          let e : b ≡ addr + (b - addr) = omega arith in
          rw e (poke_trap-byte_near addr word (b - addr) w w' peek poke (omega arith))
    ]
  ]

  lowest_byte :
      (addr word : ℕ) (w : World)
      → K.peektext sdb.pid addr w ≡ some word
      → is_trapped word ≡ true
      → text.byte addr w ≡ 0xcc
  lowest_byte addr word w peek trapped =
      let e : addr + 0 ≡ addr = omega arith in
      let low = rw e at (text.peek_byte addr word 0 w peek (omega arith)) in
      ground (arith, is_trapped_lem word)

  -- A word with the trap as its lowest byte is left alone.
  trapped_byte :
      (addr word b : ℕ) (w : World)
      → K.peektext sdb.pid addr w ≡ some word
      → is_trapped word ≡ true
      → text.byte b w ≡ (if addr == b then 0xcc else text.byte b w)
  trapped_byte addr word b w peek trapped = elim (Bool-cases (addr == b)) [
    | inr other ↦ rw other
    | inl same ↦ ground (arith, lowest_byte addr word w peek trapped)
  ]

  untrapped :
      (addr word : ℕ) (w : World)
      → K.peektext sdb.pid addr w ≡ some word
      → is_trapped word ≡ false
      → text.byte addr w ≢ 0xcc
  untrapped addr word w peek clear trap =
      let e : addr + 0 ≡ addr = omega arith in
      let low = rw e at (text.peek_byte addr word 0 w peek (omega arith)) in
      ground (arith, is_trapped_lem word)

  -- `bp'` is `bp` but for its word, which is saved from the memory unless the trap is there, and the
  -- memory is `h`'s but for the trap at the address.
  pub record IsPatched (bp : Bp) (h : Host World) (bp' : Bp) (h' : Host World) : Type 0 where
    pub used : bp'.is_used ≡ bp.is_used
    pub addr : bp'.addr ≡ bp.addr
    pub byte :
        (b : ℕ)
        → text.byte b h'.world
          ≡ (if bp.is_used && (va bp.addr == b) then 0xcc else text.byte b h.world)
    pub stopped : text.Stopped h'.world
    pub regs : K.getregs sdb.pid h'.world ≡ K.getregs sdb.pid h.world
    pub armed :
        bp.is_used ≡ true
        → text.byte (va bp.addr) h.world ≡ 0xcc
        → bp'.original_word ≡ bp.original_word
    pub saved :
        (j : ℕ)
        → bp.is_used ≡ true
        → text.byte (va bp.addr) h.world ≢ 0xcc
        → j < 8
        → bp'.original_word / 256 ^ j % 256 ≡ text.byte (va bp.addr + j) h.world

  step_off-away :
      (addr : ℕ) (h : Host World)
      → ((K.getregs sdb.pid h.world).rip == addr) ≡ false
      → step_off K sdb addr h ≡ ok tt h
  unfolding step_off
  step_off-away addr h away = rw away refl

  patch_at-IsPatched :
      (bp : Bp) (h : Host World)
      → bp.is_used ≡ true
      → text.Stopped h.world
      → IsMapped K sdb.pid text (va bp.addr)
      → (bp' : Bp) × (h' : Host World) × (patch_at K sdb bp (va bp.addr) h ≡ ok (next bp') h')
        × IsPatched bp h bp' h'
  unfolding patch_at poke_trap
  patch_at-IsPatched bp h used stopped mapped =
      let (word, peek) = mapped.peeks h.world stopped in
      let (w', poke) = mapped.pokes (trap_word word) h.world stopped in
      elim (Bool-cases (is_trapped word)) [
        | inl trapped ↦ (
          bp,
          h,
          rw (peek, trapped),
          record {
            used = refl;
            addr = refl;
            byte = λ b. rw used (trapped_byte (va bp.addr) word b h.world peek trapped);
            stopped = stopped;
            regs = refl;
            armed = λ u trap. refl;
            saved =
                λ j _ clear. absurd (clear (lowest_byte (va bp.addr) word h.world peek trapped));
          },
        )
        | inr clear ↦ (
          record bp { original_word = word },
          record h { world = w' },
          rw (peek, clear, poke),
          record {
            used = refl;
            addr = refl;
            byte = λ b. rw used (poke_trap-byte (va bp.addr) word b h.world w' peek poke);
            stopped = text.poke_stopped _ _ _ _ stopped poke;
            regs = text.poke_regs _ _ _ _ poke;
            armed = λ u trap. absurd (untrapped (va bp.addr) word h.world peek clear trap);
            saved = λ j _ _ near. sym (text.peek_byte (va bp.addr) word j h.world peek near);
          },
        )
      ]

  patch_used-IsPatched :
      (bp : Bp) (h : Host World)
      → bp.is_used ≡ true
      → Located bp
      → text.Stopped h.world
      → ((K.getregs sdb.pid h.world).rip == va bp.addr) ≡ false
      → IsMapped K sdb.pid text (va bp.addr)
      → (bp' : Bp) × (h' : Host World) × (patch_used K sdb bp h ≡ ok (next bp') h')
        × IsPatched bp h bp' h'
  unfolding patch_used
  patch_used-IsPatched bp h used located stopped away mapped =
      let (bp', h', patches, done) = patch_at-IsPatched bp h used stopped mapped in
      (bp', h', rw (located h, step_off-away (va bp.addr) h away) patches, done)

  pub patch_bp-IsPatched :
      (bp : Bp) (h : Host World)
      → Located bp
      → text.Stopped h.world
      → (bp.is_used && (va bp.addr == (K.getregs sdb.pid h.world).rip)) ≡ false
      → (bp.is_used ≡ true → IsMapped K sdb.pid text (va bp.addr))
      → (bp' : Bp) × (h' : Host World) × (patch_bp K sdb bp h ≡ ok (next bp') h')
        × IsPatched bp h bp' h'
  unfolding patch_bp
  patch_bp-IsPatched bp h located stopped away mapped = elim (Bool-cases bp.is_used) [
    | inr unused ↦ (
      bp,
      h,
      ap (λ t. (if t then patch_used K sdb bp else pure (next bp)) h) unused,
      record {
        used = refl;
        addr = refl;
        byte = λ b. rw unused;
        stopped = stopped;
        regs = refl;
        armed = λ u trap. refl;
        saved = λ j u. absurd (cc);
      },
    )
    | inl used ↦
        let (bp', h', patches, done) =
          patch_used-IsPatched bp h used located stopped (ground arith) (mapped used) in
        (
          bp',
          h',
          ap (λ t. (if t then patch_used K sdb bp else pure (next bp)) h) used ∙ patches,
          done,
        )
  ]

-- A program that is not position independent lies where its file says.
pub bp_addr-static :
    (K : Kernel) (sdb : Sdb) (eh : Handle) (bp : Bp) (h : Host K.World)
    → sdb.eh ≡ some eh
    → (eh.type == et_dyn) ≡ false
    → bp_addr K sdb bp h ≡ ok bp.addr h
unfolding bp_addr
bp_addr-static K sdb eh bp h loaded static = rw (loaded, static)

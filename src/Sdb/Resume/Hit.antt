-- ===== src/Sdb/Resume/Hit.antt =====
-- A stop at a break point: which one is found, and what is put back.
use advanced_unix_progr.Base.{
  ℕ, suc, ◌+◌, ◌/◌, ◌%◌, ◌^◌, ◌≤◌, ◌<◌, ◌⊎◌, Bool, true, false, ◌&&◌, List, [], ◌∷◌, Option, none,
  some, ◌≡◌, refl, ◌∙◌, arith, ◌==◌, if◌then◌else◌, All, get_elem?, Bool-cases, inl, inr, get_elem?,
}
use advanced_unix_progr.Sdb.Host.{Host, Run, ok, ◌>>=◌, pure, Cmd}
use advanced_unix_progr.Sdb.State.{Bp, Sdb}
use advanced_unix_progr.Sdb.Kernel.{Kernel, Regs, TextIsMemory, RegsAreKept}
use advanced_unix_progr.Sdb.Patch.{bp_addr, peeked}
use advanced_unix_progr.Sdb.Patch.Traps.{SameSlots}
use advanced_unix_progr.Sdb.Code.{word_bytes}
use advanced_unix_progr.Sdb.Resume.{before_trap, show_insns, hit_bp, check_breaks}

-- The first used break point at address `a`, with its number; `i` is the number of the first slot.
abbrev pub find_hit : (ℕ → ℕ) → ℕ → ℕ → List Bp → Option (ℕ × Bp)
find_hit va a i [] = none
find_hit va a i (bp ∷ rest) =
    if bp.is_used && (va bp.addr == a) then some (i, bp) else find_hit va a (i + 1) rest

-- Tables that differ in the words alone have their hit in the same slot.
pub find_hit-SameSlots :
    (va : ℕ → ℕ) (a i : ℕ) (bps bps' : List Bp) (n : ℕ) (bp : Bp)
    → SameSlots bps bps'
    → find_hit va a i bps ≡ some (n, bp)
    → (bp' : Bp) × (k : ℕ) × (find_hit va a i bps' ≡ some (n, bp'))
      × (n ≡ i + k)
      × (get_elem? bps k ≡ some bp)
      × (get_elem? bps' k ≡ some bp')
      × (bp.is_used ≡ true)
      × (bp'.addr ≡ bp.addr)
      × (va bp.addr ≡ a)
find_hit-SameSlots va a i [] bps' n bp same e = absurd (cc)
find_hit-SameSlots va a i (q ∷ rest) [] n bp same e = absurd same
find_hit-SameSlots va a i (q ∷ rest) (q' ∷ rest') n bp same e =
    elim (Bool-cases (q.is_used && (va q.addr == a))) [
      | inl hits ↦ (
        q',
        0,
        ground arith,
        ground arith,
        ground arith,
        refl,
        ground arith,
        ground arith,
        ground arith,
      )
      | inr misses ↦
          let (bp', k, found, number, here, here', used, addr, at) =
            find_hit-SameSlots va a (i + 1) rest rest' n bp same.2 (rw misses at e) in
          (bp', suc k, ground arith, omega arith, here, here', used, addr, at)
    ]

module _ (K : Kernel) (sdb : Sdb) (va : ℕ → ℕ) where
  open K use {World, getregs, setregs, peektext, poketext, disasm}

  -- What is done about a hit.
  abbrev pub on_hit : Regs → Option (ℕ × Bp) → Cmd World Bool
  on_hit regs none = pure false
  on_hit regs (some (n, bp)) = hit_bp K sdb regs n bp (va bp.addr) >>= λ _. pure true

  pub check_breaks-find_hit :
      (regs : Regs) (i : ℕ) (bps : List Bp) (h : Host World)
      → All (λ bp. (h : Host World) → bp_addr K sdb bp h ≡ ok (va bp.addr) h) bps
      → check_breaks K sdb regs i bps h ≡ on_hit regs (find_hit va (before_trap regs.rip) i bps) h
  unfolding check_breaks
  check_breaks-find_hit regs i [] h located = refl
  check_breaks-find_hit regs i (bp ∷ rest) h located =
      elim (Bool-cases (bp.is_used && (va bp.addr == before_trap regs.rip))) [
        | inl hits ↦ rw (located.0 h, hits)
        | inr misses ↦
            rw (located.0 h, misses) (check_breaks-find_hit regs (i + 1) rest h located.1)
      ]

  module _ (text : TextIsMemory K sdb.pid) where
    -- The original word is put back, and `rip` points to it.
    pub record IsRestored (regs : Regs) (bp : Bp) (w w' : World) : Type 0 where
      pub rip_back : (getregs sdb.pid w').rip ≡ before_trap regs.rip
      pub inside :
          (j : ℕ) → j < 8 → text.byte (va bp.addr + j) w' ≡ bp.original_word / 256 ^ j % 256
      pub outside :
          (b : ℕ) → (b < va bp.addr) ⊎ (va bp.addr + 8 ≤ b) → text.byte b w' ≡ text.byte b w

    -- The line about the instruction that is printed once the word is back.
    abbrev pub report_hit : ℕ → Bp → Host World → Run World (Unit {0})
    report_hit n bp h =
        show_insns K n
          (disasm (word_bytes (peeked (peektext sdb.pid (va bp.addr) h.world))) (va bp.addr)) h

    pub hit_bp-IsRestored :
        (regs : Regs) (n : ℕ) (bp : Bp) (h : Host World) (w₁ w₂ : World)
        → RegsAreKept K
        → ((b : ℕ) → text.byte b w₂ ≡ text.byte b w₁)
        → poketext sdb.pid (va bp.addr) bp.original_word h.world ≡ some w₁
        → setregs sdb.pid (record regs { rip = before_trap regs.rip }) w₁ ≡ some w₂
        → (hit_bp K sdb regs n bp (va bp.addr) h ≡ report_hit n bp (record h { world = w₂ }))
          × IsRestored regs bp h.world w₂
    unfolding hit_bp
    hit_bp-IsRestored regs n bp h w₁ w₂ kept same poke put = (
      rw (poke, put),
      record {
        rip_back = rw (kept _ _ _ _ put);
        inside = λ j near. same _ ∙ text.poke_inside _ _ j _ _ poke near;
        outside = λ b far. same b ∙ text.poke_outside _ _ b _ _ poke far;
      },
    )

-- ===== src/Sdb/Breaks/Undone.antt =====
-- `break` and `delete` of the same slot, while the program runs.
use advanced_unix_progr.Base.{
  ℕ, zero, suc, ◌+◌, ◌-◌, ◌/◌, ◌%◌, ◌^◌, ◌≤◌, ◌<◌, ◌⊎◌, pos, Bool, true, false, Text, List, [], ◌∷◌,
  none, some, ◌≡◌, ◌≢◌, refl, ap, sym, ◌∙◌, arith, ◌==◌, ltb, ltb→lt, if◌then◌else◌, alter,
  get_elem?, take, length, All, All-get_elem?, Bool-cases, inl, inr,
}
use advanced_unix_progr.Cstd.{scan_hex}
use advanced_unix_progr.Sdb.Host.{Host, ok, deleted, pure}
use advanced_unix_progr.Sdb.State.{Bp, Sdb, unuse, max_break, sdb_is_loaded, sdb_is_running}
use advanced_unix_progr.Sdb.Kernel.{Kernel, TextIsMemory, IsMapped}
use advanced_unix_progr.Sdb.Patch.{is_trapped}
use advanced_unix_progr.Sdb.Patch.Word.{is_trapped_lem}
use advanced_unix_progr.Sdb.Patch.Traps.{traps, SameSlots, Located, sdb_patch_all_bp-traps}
use advanced_unix_progr.Sdb.Breaks.{
  skip_prefix, free_slot, occupy, put_break, drop_break, restore_word, delete_used, delete_slot,
  sdb_set_break, sdb_delete,
}
use advanced_unix_progr.Sdb.Breaks.Table.{
  entry, entry-occupy, entry-unuse, free_slot-first, delete_within,
}
use advanced_unix_progr.Sdb.Breaks.Armed.{entry-SameSlots, traps-entry}

-- An address lies in the table as it does in memory.
abbrev here : ℕ → ℕ
here a = a

take-alter : (f : Bp → Bp) (n : ℕ) (bps : List Bp) → take n (alter f n bps) ≡ take n bps
take-alter f zero bps = refl
take-alter f (suc n) [] = refl
take-alter f (suc n) (bp ∷ rest) = ap (λ t. bp ∷ t) (take-alter f n rest)

traps-occupy :
    (bps : List Bp) (n a b : ℕ)
    → n < length bps
    → entry bps n ≡ none
    → b ≢ a
    → traps here (alter (occupy a) n bps) b ≡ traps here bps b
traps-occupy [] n a b h free away = elim h [ ]
traps-occupy (bp ∷ rest) zero a b h free away = ground arith
traps-occupy (bp ∷ rest) (suc n) a b h free away =
    ground (arith, traps-occupy rest n a b (omega arith) free away)

-- The slot that was taken, in a table with the same slots.
occupied :
    (bps bps' : List Bp) (n a : ℕ)
    → n < length bps
    → SameSlots (alter (occupy a) n bps) bps'
    → (bp bp' : Bp) × (get_elem? (alter (occupy a) n bps) n ≡ some bp)
      × (get_elem? bps' n ≡ some bp')
      × (bp.is_used ≡ true)
      × (bp.addr ≡ a)
      × (bp'.is_used ≡ true)
      × (bp'.addr ≡ a)
occupied [] bps' n a h same = elim h [ ]
occupied (bp ∷ rest) [] zero a h same = absurd same
occupied (bp ∷ rest) [] (suc n) a h same = absurd same
occupied (bp ∷ rest) (bp' ∷ rest') zero a h same =
    (occupy a bp, bp', refl, refl, refl, refl, same.0, same.1)
occupied (bp ∷ rest) (bp' ∷ rest') (suc n) a h same = occupied rest rest' n a (omega arith) same.2

-- The old entries, once the slot that was free is free again.
entry-undone :
    (bps bps' : List Bp) (n a j : ℕ)
    → n < length bps
    → entry bps n ≡ none
    → SameSlots (alter (occupy a) n bps) bps'
    → entry (alter unuse n bps') j ≡ entry bps j
entry-undone bps bps' n a j h free same =
    let occupies =
      entry-SameSlots (alter (occupy a) n bps) bps' j same ∙ entry-occupy bps a n j h in
    entry-unuse bps' n j ∙ elim (Bool-cases (n == j)) [
      | inl this ↦ let e : j ≡ n = ground arith in rw (this, e) (sym free)
      | inr other ↦ rw other (occupies ∙ rw other refl)
    ]

module _ (K : Kernel) (sdb : Sdb) (text : TextIsMemory K sdb.pid) where
  open K use {World, peektext, poketext}

  -- The word of a break point that has its trap is written back.
  restore_word-inside :
      (bp : Bp) (h : Host World)
      → text.Stopped h.world
      → IsMapped K sdb.pid text bp.addr
      → text.byte bp.addr h.world ≡ 0xcc
      → (w' : World) × (restore_word K sdb bp h ≡ ok tt (record h { world = w' }))
        × ((j : ℕ) → j < 8 → text.byte (bp.addr + j) w' ≡ bp.original_word / 256 ^ j % 256)
        × ((b : ℕ) → (b < bp.addr) ⊎ (bp.addr + 8 ≤ b) → text.byte b w' ≡ text.byte b h.world)
  unfolding restore_word
  restore_word-inside bp h stopped mapped trap =
      let (word, peek) = mapped.peeks h.world stopped in
      let (w', poke) = mapped.pokes bp.original_word h.world stopped in
      let start : bp.addr + 0 ≡ bp.addr = omega arith in
      let low = rw start at (text.peek_byte bp.addr word 0 h.world peek (omega arith)) in
      let trapped : is_trapped word ≡ true = is_trapped_lem word ∙ ground (arith, low, trap) in
      (
        w',
        rw (peek, trapped, poke) refl,
        λ j near. text.poke_inside bp.addr bp.original_word j h.world w' poke near,
        λ b far. text.poke_outside bp.addr bp.original_word b h.world w' poke far,
      )

  restore_word-at :
      (bp : Bp) (addr : ℕ) (h : Host World)
      → bp.addr ≡ addr
      → text.Stopped h.world
      → IsMapped K sdb.pid text addr
      → text.byte addr h.world ≡ 0xcc
      → (w' : World) × (restore_word K sdb bp h ≡ ok tt (record h { world = w' }))
        × ((j : ℕ) → j < 8 → text.byte (addr + j) w' ≡ bp.original_word / 256 ^ j % 256)
        × ((b : ℕ) → (b < addr) ⊎ (addr + 8 ≤ b) → text.byte b w' ≡ text.byte b h.world)
  restore_word-at bp addr h e stopped mapped trap =
      rw (← e) (restore_word-inside bp h stopped (rw e mapped) (rw e trap))

  delete_slot-used :
      (i : ℕ) (bp : Bp) (h h' : Host World)
      → bp.is_used ≡ true
      → restore_word K sdb bp h ≡ ok tt h'
      → delete_slot K sdb i bp h ≡ ok (drop_break i sdb) (record h' { out = deleted i ∷ h'.out })
  unfolding delete_slot delete_used
  delete_slot-used i bp h h' used restores =
      ap (λ t. (if t then delete_used K sdb i bp else pure sdb) h) used ∙ rw restores

-- Where the traps of a table are in memory, the bytes that a slot behind them saved are the old ones.
undone_byte :
    (byte byte' byte'' : ℕ → ℕ) (a : ℕ) (armed : ℕ → Bool)
    → ((b : ℕ) → byte' b ≡ (if armed b then 0xcc else byte b))
    → ((b : ℕ) → b ≢ a → armed b ≡ true → byte b ≡ 0xcc)
    → ((j : ℕ) → j < 8 → byte'' (a + j) ≡ byte (a + j))
    → ((b : ℕ) → (b < a) ⊎ (a + 8 ≤ b) → byte'' b ≡ byte' b)
    → (b : ℕ) → byte'' b ≡ byte b
undone_byte byte byte' byte'' a armed patched old inside outside b = elim (Bool-cases (ltb b a)) [
  | inl below ↦ outside b (inl (ltb→lt b a below)) ∙ unchanged b (ground arith)
  | inr above ↦ elim (Bool-cases (ltb b (a + 8))) [
    | inl near ↦ let e : a + (b - a) ≡ b = ground arith in rw e at (inside (b - a) (ground arith))
    | inr far ↦ outside b (inr (ground arith)) ∙ unchanged b (ground arith)
  ]
]
  where
    unchanged : (b : ℕ) → b ≢ a → byte' b ≡ byte b
    unchanged b away = elim (Bool-cases (armed b)) [
      | inl trap ↦ patched b ∙ rw trap (sym (old b away trap))
      | inr clear ↦ patched b ∙ rw clear refl
    ]

module _ (K : Kernel) (sdb : Sdb) (h : Host K.World) (text : TextIsMemory K sdb.pid) where
  -- `break` at an address of a program that runs where its file says, and `delete` of the slot that
  -- was taken. Let the process be stopped, not at a used break point of the new table. Let the new table's addresses be found and its used words be read and written; let
  -- the traps of the old table be in memory; and let the address hold no trap, and have no used slot
  -- of a smaller number at it or in the seven bytes behind. Then both return; every entry of the
  -- table is what it was, and so is every byte of the memory of the process.
  pub sdb_delete-sdb_set_break :
      (s : Text) (addr n : ℕ)
      → sdb_is_loaded sdb ≡ true
      → sdb_is_running sdb ≡ true
      → length sdb.breaks ≡ max_break
      → scan_hex (skip_prefix s) ≡ some addr
      → free_slot 0 sdb.breaks ≡ some n
      → text.Stopped h.world
      → traps here (alter (occupy addr) n sdb.breaks) (K.getregs sdb.pid h.world).rip ≡ false
      → All (Located K (put_break n addr sdb) here text) (alter (occupy addr) n sdb.breaks)
      → All
          (λ bp. bp.is_used ≡ true → IsMapped K sdb.pid text bp.addr)
          (alter (occupy addr) n sdb.breaks)
      → ((b : ℕ) → traps here sdb.breaks b ≡ true → text.byte b h.world ≡ 0xcc)
      → text.byte addr h.world ≢ 0xcc
      → ((j : ℕ) → j < 8 → traps here (take n sdb.breaks) (addr + j) ≡ false)
      → (sdb' sdb'' : Sdb) × (h' h'' : Host K.World) × (sdb_set_break K sdb s h ≡ ok sdb' h')
        × (sdb_delete K sdb' (pos n) h' ≡ ok sdb'' h'')
        × ((j : ℕ) → entry sdb''.breaks j ≡ entry sdb.breaks j)
        × ((b : ℕ) → text.byte b h''.world ≡ text.byte b h.world)
  unfolding sdb_set_break drop_break
  sdb_delete-sdb_set_break s addr n loaded running ten scanned free stopped away located mapped
        armed clear apart =
      let (k, number, below_k, empty_k, full) = free_slot-first sdb.breaks 0 n free in
      let below : n < length sdb.breaks = omega (arith, number, below_k) in
      let empty : entry sdb.breaks n ≡ none =
        let e : n ≡ k = omega (arith, number) in rw e empty_k in
      let table = alter (occupy addr) n sdb.breaks in
      let (breaks', h', patches, same, bytes, saves, keeps, still) =
        sdb_patch_all_bp-traps K (put_break n addr sdb) here text h located stopped away mapped in
      let (bp, bp', at_n, at_n', used, addr_n, used', addr_n') =
        occupied sdb.breaks breaks' n addr below same in
      let sdb' : Sdb = record sdb { breaks = breaks' } in
      let m : IsMapped K sdb.pid text addr = rw addr_n at (
        All-get_elem? (λ bp. bp.is_used ≡ true → IsMapped K sdb.pid text bp.addr) table n mapped
          at_n used) in
      let belongs =
        traps-entry here table n addr (entry-occupy sdb.breaks addr n n below ∙ ground arith) in
      let (w'', restores, inside, outside) =
        restore_word-at K sdb' text bp' addr h' addr_n' still m (bytes addr ∙ rw belongs refl) in
      let saved : (j : ℕ)
          → j < 8
          → bp'.original_word / 256 ^ j % 256 ≡ text.byte (addr + j) h.world =
        rw addr_n at (
          saves n bp bp' at_n at_n' used (rw addr_n clear)
            (rw (addr_n, take-alter (occupy addr) n sdb.breaks) apart)) in
      (
        sdb',
        drop_break n sdb',
        h',
        record { world = w''; out = deleted n ∷ h'.out },
        rw (loaded, scanned, free, running) patches,
        delete_within K sdb' h' n bp' (ground (arith, ten)) at_n'
            ∙ delete_slot-used K sdb' text n bp' h' _ used' restores,
        λ j. entry-undone sdb.breaks breaks' n addr j below empty same,
        undone_byte (λ b. text.byte b h.world) (λ b. text.byte b h'.world) (λ b. text.byte b w'')
            addr (traps here table) bytes
            (λ b away trap.
              armed b (sym (traps-occupy sdb.breaks n addr b below empty away) ∙ trap))
            (λ j near. inside j near ∙ saved j near) outside,
      )

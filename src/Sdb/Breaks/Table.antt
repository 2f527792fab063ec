-- ===== src/Sdb/Breaks/Table.antt =====
-- The table of break points as a map from the ten numbers to addresses.
use advanced_unix_progr.Base.{
  ℕ, zero, suc, ◌+◌, ◌≤◌, ◌<◌, ℤ, pos, negsuc, true, false, Text, List, [], ◌∷◌, Option, none, some,
  ◌≡◌, ◌≢◌, refl, ap, ◌∙◌, arith, ◌==◌, ltb, if◌then◌else◌, length, get_elem?, get_elem?-some,
  alter, Bool-cases, Option-cases, inl, inr,
}
use advanced_unix_progr.Cstd.{scan_hex}
use advanced_unix_progr.Sdb.Host.{Host, ok, fault, uninitialised, pure, deleted}
use advanced_unix_progr.Sdb.State.{Bp, Sdb, unuse, max_break, sdb_is_loaded, sdb_is_running}
use advanced_unix_progr.Sdb.Kernel.{Kernel}
use advanced_unix_progr.Sdb.Patch.{is_trapped, peeked}
use advanced_unix_progr.Sdb.Valid.Breaks.{length-alter}
use advanced_unix_progr.Sdb.Breaks.{
  skip_prefix, free_slot, occupy, drop_break, restore_word, delete_used, delete_slot, delete_number,
  sdb_set_break, sdb_delete,
}

-- The address of break point `j`, where there is one.
abbrev pub entry : List Bp → ℕ → Option ℕ
entry [] j = none
entry (bp ∷ rest) zero = if bp.is_used then some bp.addr else none
entry (bp ∷ rest) (suc j) = entry rest j

abbrev pub number_entry : ℤ → List Bp → Option ℕ
number_entry (pos i) bps = entry bps i
number_entry (negsuc i) bps = none

-- What the entry `a` of slot `j` is after `delete` of a number.
abbrev pub without : ℤ → ℕ → Option ℕ → Option ℕ
without (pos i) j a = if i == j then none else a
without (negsuc i) j a = a

pub entry-occupy :
    (bps : List Bp) (a i j : ℕ)
    → i < length bps
    → entry (alter (occupy a) i bps) j ≡ (if i == j then some a else entry bps j)
entry-occupy [] a i j h = elim h [ ]
entry-occupy (bp ∷ rest) a zero zero h = refl
entry-occupy (bp ∷ rest) a zero (suc j) h = ground arith
entry-occupy (bp ∷ rest) a (suc i) zero h = ground arith
entry-occupy (bp ∷ rest) a (suc i) (suc j) h = ground (arith, entry-occupy rest a i j)

pub entry-unuse :
    (bps : List Bp) (i j : ℕ) → entry (alter unuse i bps) j ≡ (if i == j then none else entry bps j)
entry-unuse [] i j = ground arith
entry-unuse (bp ∷ rest) zero zero = refl
entry-unuse (bp ∷ rest) zero (suc j) = ground arith
entry-unuse (bp ∷ rest) (suc i) zero = ground arith
entry-unuse (bp ∷ rest) (suc i) (suc j) = ground (arith, entry-unuse rest i j)

full-suc :
    (bp : Bp) (rest : List Bp) (k : ℕ)
    → bp.is_used ≡ true
    → ((j : ℕ) → j < k → entry rest j ≢ none)
    → (j : ℕ) → j < suc k
    → entry (bp ∷ rest) j ≢ none
full-suc bp rest k used full zero h = ground arith
full-suc bp rest k used full (suc j) h = full j (omega arith)

pub free_slot-first :
    (bps : List Bp) (i n : ℕ)
    → free_slot i bps ≡ some n
    → (k : ℕ) × (n ≡ i + k)
      × (k < length bps)
      × (entry bps k ≡ none)
      × ((j : ℕ) → j < k → entry bps j ≢ none)
unfolding free_slot
free_slot-first [] i n e = absurd (cc)
free_slot-first (bp ∷ rest) i n e = elim (Bool-cases bp.is_used) [
  | inr unused ↦ (0, ground arith, omega arith, rw unused, λ j h. elim h [ ])
  | inl used ↦
      let (k, number, below, empty, full) = free_slot-first rest (i + 1) n (rw used at e) in
      (suc k, omega arith, omega arith, empty, full-suc bp rest k used full)
]

free_slot-full :
    (bps : List Bp) (i : ℕ)
    → ((j : ℕ) → j < length bps → entry bps j ≢ none)
    → free_slot i bps ≡ none
unfolding free_slot
free_slot-full [] i full = refl
free_slot-full (bp ∷ rest) i full =
    ground (arith, full 0, free_slot-full rest (i + 1) (λ j h. full (suc j) (omega arith)))

entry-get_elem? :
    (bps : List Bp) (i : ℕ) {bp : Bp}
    → get_elem? bps i ≡ some bp
    → entry bps i ≡ (if bp.is_used then some bp.addr else none)
entry-get_elem? [] i e = absurd (cc)
entry-get_elem? (q ∷ rest) zero e = ground arith
entry-get_elem? (q ∷ rest) (suc i) e = entry-get_elem? rest i e

entry-beyond : (bps : List Bp) (i : ℕ) → length bps ≤ i → entry bps i ≡ none
entry-beyond [] i h = refl
entry-beyond (q ∷ rest) zero h = absurd (omega arith)
entry-beyond (q ∷ rest) (suc i) h = entry-beyond rest i (omega arith)

unused_entry :
    (bps : List Bp) (i j : ℕ)
    → entry bps i ≡ none
    → entry bps j ≡ (if i == j then none else entry bps j)
unused_entry bps i j e = elim (Bool-cases (i == j)) [
  | inr other ↦ rw other
  | inl same ↦ let p : j ≡ i = ground arith in rw same (rw p e)
]

module _ (K : Kernel) (sdb : Sdb) (h : Host K.World) where
  open K use {World, peektext, poketext}

  -- `break` in a debugger that has a program loaded and does not run it, with an address that can be
  -- read and with a free slot: it takes the free slot of the smallest number, which then holds the address, and leaves every other
  -- slot, the process and the output alone.
  pub sdb_set_break-entry :
      (s : Text) (addr : ℕ)
      → sdb_is_loaded sdb ≡ true
      → sdb_is_running sdb ≡ false
      → scan_hex (skip_prefix s) ≡ some addr
      → (n : ℕ) → free_slot 0 sdb.breaks ≡ some n
      → (breaks' : List Bp) × (sdb_set_break K sdb s h ≡ ok (record sdb { breaks = breaks' }) h)
        × (entry sdb.breaks n ≡ none)
        × ((j : ℕ) → j < n → entry sdb.breaks j ≢ none)
        × ((j : ℕ) → entry breaks' j ≡ (if n == j then some addr else entry sdb.breaks j))
  unfolding sdb_set_break
  sdb_set_break-entry s addr loaded idle scanned n free =
      let (k, number, below, empty, full) = free_slot-first sdb.breaks 0 n free in
      let e : n ≡ k = omega arith in
      (
        alter (occupy addr) n sdb.breaks,
        rw (loaded, scanned, free, idle),
        rw e empty,
        rw e full,
        λ j. entry-occupy sdb.breaks addr n j (rw e below),
      )

  -- `break` in a debugger that has a program loaded, with an address that can be read and with all
  -- slots used, runs into undefined behaviour: no slot is chosen, and the source writes through a
  -- pointer that it never set.
  pub sdb_set_break-full :
      (s : Text) (addr : ℕ)
      → sdb_is_loaded sdb ≡ true
      → scan_hex (skip_prefix s) ≡ some addr
      → ((j : ℕ) → j < length sdb.breaks → entry sdb.breaks j ≢ none)
      → sdb_set_break K sdb s h ≡ fault uninitialised
  unfolding sdb_set_break
  sdb_set_break-full s addr loaded scanned full =
      rw (loaded, scanned, free_slot-full sdb.breaks 0 full)

  restored : (bp : Bp) → (h' : Host World) × (restore_word K sdb bp h ≡ ok tt h') × (h'.out ≡ h.out)
  unfolding restore_word
  restored bp = elim (Bool-cases (is_trapped (peeked (peektext sdb.pid bp.addr h.world)))) [
    | inr clear ↦ (h, rw clear, refl)
    | inl trapped ↦ elim (Option-cases (poketext sdb.pid bp.addr bp.original_word h.world)) [
      | inl fails ↦ (h, rw (trapped, fails), refl)
      | inr (w, pokes) ↦ (record h { world = w }, rw (trapped, pokes), refl)
    ]
  ]

  -- What else is said of `delete` of an entry: nothing changes where there is none, and otherwise a
  -- line is printed.
  abbrev pub IsTold : ℤ → Option ℕ → List Bp → Host World → Type 0
  IsTold index none breaks' h' = (breaks' ≡ sdb.breaks) × (h' ≡ h)
  IsTold (pos i) (some a) breaks' h' = h'.out ≡ deleted i ∷ h.out
  IsTold (negsuc i) (some a) breaks' h' = ⊥

  IsTold-deleted :
      (i a : ℕ) (bps : List Bp) (h' : Host World)
      → entry sdb.breaks i ≡ some a
      → h'.out ≡ deleted i ∷ h.out
      → IsTold (pos i) (entry sdb.breaks i) bps h'
  IsTold-deleted i a bps h' e told = rw e told

  delete_slot-entry :
      (i : ℕ) (bp : Bp)
      → get_elem? sdb.breaks i ≡ some bp
      → (breaks' : List Bp) × (h' : Host World) × (delete_slot K sdb i bp h
          ≡ ok (record sdb { breaks = breaks' }) h')
        × (length breaks' ≡ length sdb.breaks)
        × ((j : ℕ) → entry breaks' j ≡ (if i == j then none else entry sdb.breaks j))
        × IsTold (pos i) (entry sdb.breaks i) breaks' h'
  unfolding delete_slot delete_used drop_break
  delete_slot-entry i bp e = elim (Bool-cases bp.is_used) [
    | inr unused ↦ (
      sdb.breaks,
      h,
      rw unused,
      refl,
      λ j. unused_entry sdb.breaks i j (entry-get_elem? sdb.breaks i e ∙ rw unused),
      rw (entry-get_elem? sdb.breaks i e, unused) (refl, refl),
    )
    | inl used ↦
        let (h', restores, quiet) = restored bp in
        (
          alter unuse i sdb.breaks,
          record h' { out = deleted i ∷ h'.out },
          ap (λ t. (if t then delete_used K sdb i bp else pure sdb) h) used ∙ rw restores,
          length-alter unuse i sdb.breaks,
          entry-unuse sdb.breaks i,
          IsTold-deleted i bp.addr _ _ (entry-get_elem? sdb.breaks i e ∙ rw used refl)
              (ap (λ o. deleted i ∷ o) quiet),
        )
  ]

  pub delete_within :
      (i : ℕ) (bp : Bp)
      → ltb i max_break ≡ true
      → get_elem? sdb.breaks i ≡ some bp
      → sdb_delete K sdb (pos i) h ≡ delete_slot K sdb i bp h
  unfolding sdb_delete
  delete_within i bp within e =
      ap (λ n. delete_number K sdb n h) (ap (λ t. if t then some i else none) within) ∙ rw e

  delete_beyond : (i : ℕ) → ltb i max_break ≡ false → sdb_delete K sdb (pos i) h ≡ ok sdb h
  unfolding sdb_delete
  delete_beyond i beyond =
      ap (λ n. delete_number K sdb n h) (ap (λ t. if t then some i else none) beyond)

  -- `delete` from a table of ten slots keeps their number.
  pub sdb_delete_table :
      (index : ℤ)
      → length sdb.breaks ≡ max_break
      → (breaks' : List Bp) × (h' : Host World) × (sdb_delete K sdb index h
          ≡ ok (record sdb { breaks = breaks' }) h')
        × (length breaks' ≡ length sdb.breaks)
        × ((j : ℕ) → entry breaks' j ≡ without index j (entry sdb.breaks j))
        × IsTold index (number_entry index sdb.breaks) breaks' h'
  unfolding sdb_delete
  sdb_delete_table (negsuc i) ten = (sdb.breaks, h, refl, refl, λ j. refl, (refl, refl))
  sdb_delete_table (pos i) ten = elim (Bool-cases (ltb i max_break)) [
    | inr beyond ↦ (
      sdb.breaks,
      h,
      delete_beyond i beyond,
      refl,
      λ j. unused_entry sdb.breaks i j (entry-beyond sdb.breaks i (ground arith)),
      rw (entry-beyond sdb.breaks i (ground arith)) (refl, refl),
    )
    | inl within ↦
        let (bp, e) = get_elem?-some sdb.breaks i (ground arith) in
        let (breaks', h', runs, kept, entries, told) = delete_slot-entry i bp e in
        (breaks', h', delete_within i bp within e ∙ runs, kept, entries, told)
  ]

  -- `delete` from a table of ten slots returns, whatever the process does; slot `index` is free
  -- afterwards, and every other slot is what it was. Where the slot was used, one line says that it is
  -- deleted; an index that is no slot's number, or a free slot's, changes nothing: neither the table
  -- nor the process nor the output.
  pub sdb_delete-entry :
      (index : ℤ)
      → length sdb.breaks ≡ max_break
      → (breaks' : List Bp) × (h' : Host World) × (sdb_delete K sdb index h
          ≡ ok (record sdb { breaks = breaks' }) h')
        × ((j : ℕ) → entry breaks' j ≡ without index j (entry sdb.breaks j))
        × IsTold index (number_entry index sdb.breaks) breaks' h'
  sdb_delete-entry index ten =
      let (breaks', h', runs, kept, entries, told) = sdb_delete_table index ten in
      (breaks', h', runs, entries, told)

-- ===== src/Elf/Tables.antt =====
-- What `elf_load_strtab` reads.
use advanced_unix_progr.Base.{
  ℕ, zero, suc, ◌+◌, ◌%◌, ◌^◌, ◌<◌, true, Text, List, [], ◌∷◌, Option, none, some, ◌≡◌, ◌≢◌, refl,
  ap, ◌∙◌, sym, arith, ◌==◌, if◌then◌else◌, take, get_elem?, All, Bool-cases, Option-cases, inl,
  inr,
}
use mathlib.Core.Option.{some-injective}
use advanced_unix_progr.Elf.{Shdr, StrTab, Handle, Files}
use advanced_unix_progr.Elf.Load.{
  sht_strtab, elf_load_shdr, read_tab, read_tabs, keep_tabs, load_tabs, kept_or_loaded,
  elf_load_strtab,
}
use advanced_unix_progr.Elf.Symbols.{find_tab}

module _ (F : Files) (fd : ℕ) where
  open F use {pread}

  -- The table of a section whose bytes are given.
  abbrev pub tab_from : ℕ → Shdr → Option Text → Option StrTab
  tab_from id s none = none
  tab_from id s (some contents) =
      some (record { id = id; datasize = s.size % 2 ^ 32; contents = contents })

  -- The string table that section `id` is, if it is one.
  abbrev pub tab_of : ℕ → Option Shdr → Option StrTab
  tab_of id none = none
  tab_of id (some s) =
      if s.type == sht_strtab then tab_from id s (pread fd s.size s.offset) else none

  abbrev or_else : Option StrTab → Option StrTab → Option StrTab
  or_else none b = b
  or_else (some a) b = some a

  abbrev table_at : ℕ → List Shdr → ℕ → Option StrTab
  table_at i [] id = none
  table_at i (s ∷ rest) id = if id == i then tab_of id (some s) else table_at (i + 1) rest id

  table_at-below : (i id : ℕ) (shdr : List Shdr) → id < i → table_at i shdr id ≡ none
  table_at-below i id [] h = refl
  table_at-below i id (s ∷ rest) h = ground (arith, table_at-below (i + 1) id rest)

  table_at-get_elem? :
      (i k : ℕ) (shdr : List Shdr) → table_at i shdr (i + k) ≡ tab_of (i + k) (get_elem? shdr k)
  table_at-get_elem? i k [] = refl
  table_at-get_elem? i zero (s ∷ rest) =
      let e : i + 0 ≡ i = omega arith in ground (arith, ap (λ (n : ℕ). tab_of n (some s)) e)
  table_at-get_elem? i (suc k) (s ∷ rest) =
      let e : i + suc k ≡ i + 1 + k = omega arith in
      ground (arith, table_at-get_elem? (i + 1) k rest)

  table_at-zero : (id : ℕ) (shdr : List Shdr) → table_at 0 shdr id ≡ tab_of id (get_elem? shdr id)
  table_at-zero id shdr =
      let e : 0 + id ≡ id = omega arith in
      ap (table_at 0 shdr) (sym e)
      ∙ table_at-get_elem? 0 id shdr
      ∙ ap (λ n. tab_of n (get_elem? shdr id)) e

  or_else-none : (a : Option StrTab) → or_else a none ≡ a
  or_else-none none = refl
  or_else-none (some a) = refl

  abbrev pub IsReadable : Shdr → Type 0
  IsReadable s = s.type ≡ sht_strtab → pread fd s.size s.offset ≢ none

  read_tab-find_tab :
      (i : ℕ) (s : Shdr) (acc : List StrTab)
      → IsReadable s
      → (tabs : List StrTab) × (read_tab F fd i s acc ≡ some tabs)
        × ((id : ℕ)
            → find_tab id tabs
              ≡ or_else (if id == i then tab_of id (some s) else none) (find_tab id acc))
  unfolding read_tab find_tab
  read_tab-find_tab i s acc readable = elim (Bool-cases (s.type == sht_strtab)) [
    | inr other ↦ (acc, rw other, λ id. ground arith)
    | inl tab ↦ elim (Option-cases (pread fd s.size s.offset)) [
      | inl fails ↦ absurd (readable (ground arith) fails)
      | inr (contents, reads) ↦ (
        record { id = i; datasize = s.size % 2 ^ 32; contents = contents } ∷ acc,
        rw (tab, reads),
        λ id. ground arith,
      )
    ]
  ]

  read_tabs-find_tab :
      (i : ℕ) (shdr : List Shdr) (acc : List StrTab)
      → All IsReadable shdr
      → (tabs : List StrTab) × (read_tabs F fd i shdr acc ≡ some tabs)
        × ((id : ℕ) → find_tab id tabs ≡ or_else (table_at i shdr id) (find_tab id acc))
  unfolding read_tabs
  read_tabs-find_tab i [] acc ok = (acc, refl, λ id. refl)
  read_tabs-find_tab i (s ∷ rest) acc ok =
      let (acc', reads, here) = read_tab-find_tab i s acc ok.0 in
      let (tabs, runs, later) = read_tabs-find_tab (i + 1) rest acc' ok.1 in
      (
        tabs,
        rw reads runs,
        λ id. later id ∙ ground (arith, here id, table_at-below (i + 1) id rest),
      )

module _ (F : Files) (e e' : Handle) (shdr : List Shdr) where
  -- `elf_load_strtab` on a handle without string tables, where each string table among the section
  -- headers can be read: the tables are kept in the handle and returned, and the search for a table
  -- by the number of a section finds that section's size and bytes where it is a string table, and
  -- nothing for any other number.
  pub elf_load_strtab-find_tab :
      e.strtab ≡ []
      → elf_load_shdr F e ≡ (e', some shdr)
      → All (IsReadable F e'.fd) (take e'.shnum shdr)
      → (tabs : List StrTab) × (elf_load_strtab F e ≡ (record e' { strtab = tabs }, tabs))
        × ((id : ℕ) → find_tab id tabs ≡ tab_of F e'.fd id (get_elem? (take e'.shnum shdr) id))
  unfolding elf_load_strtab find_tab
  elf_load_strtab-find_tab fresh loads readable =
      let (tabs, reads, finds) = read_tabs-find_tab F e'.fd 0 (take e'.shnum shdr) [] readable in
      (
        tabs,
        ap (kept_or_loaded F e) fresh ∙ ap (load_tabs F) loads ∙ ap (keep_tabs F e') reads,
        λ id. finds id ∙ or_else-none F e'.fd _ ∙ table_at-zero F e'.fd id (take e'.shnum shdr),
      )

  read_tabs-fails :
      (i k : ℕ) (shdr : List Shdr) (acc : List StrTab) {s : Shdr}
      → get_elem? shdr k ≡ some s
      → s.type ≡ sht_strtab
      → F.pread e'.fd s.size s.offset ≡ none
      → read_tabs F e'.fd i shdr acc ≡ none
  unfolding read_tabs read_tab
  read_tabs-fails i k [] acc here type fails = absurd (cc)
  read_tabs-fails i zero (q ∷ rest) acc {s = s} here type fails =
      let e : q ≡ s = some-injective _ _ here in
      let tab : (q.type == sht_strtab) ≡ true = ground (arith, ap (λ (x : Shdr). x.type) e) in
      let none_read : F.pread e'.fd q.size q.offset ≡ none =
        ap (λ (x : Shdr). F.pread e'.fd x.size x.offset) e ∙ fails in
      rw (tab, none_read)
  read_tabs-fails i (suc k) (q ∷ rest) acc here type fails =
      elim (Option-cases (read_tab F e'.fd i q acc)) [
        | inl stops ↦ rw stops
        | inr (more, reads) ↦ rw reads (read_tabs-fails (i + 1) k rest more here type fails)
      ]

  -- `elf_load_strtab` on a handle without string tables returns NULL and keeps no table, where some
  -- string table among the section headers cannot be read in full.
  elf_load_strtab-unreadable :
      (k : ℕ) (s : Shdr)
      → e.strtab ≡ []
      → elf_load_shdr F e ≡ (e', some shdr)
      → get_elem? (take e'.shnum shdr) k ≡ some s
      → s.type ≡ sht_strtab
      → F.pread e'.fd s.size s.offset ≡ none
      → elf_load_strtab F e ≡ (e', [])
  unfolding elf_load_strtab
  elf_load_strtab-unreadable k s fresh loads here type fails =
      ap (kept_or_loaded F e) fresh
      ∙ ap (load_tabs F) loads
      ∙ ap (keep_tabs F e') (read_tabs-fails 0 k (take e'.shnum shdr) [] here type fails)

-- ===== src/Elf/SymbolTable.antt =====
-- What `elf_load_symtab` reads.
use advanced_unix_progr.Base.{
  ◌^◌, ltb, arith, true, ℕ, zero, suc, ◌+◌, ◌*◌, ◌/◌, ◌<◌, true, Text, List, [], ◌∷◌, none, some,
  ◌≡◌, refl, ap, ◌∙◌, sym, arith, drop, take, get_elem?, if◌then◌else◌,
}
use advanced_unix_progr.Elf.{Shdr, StrTab, SymTab, Handle, Files}
use advanced_unix_progr.Elf.Load.{is_class, elf_load_shdr, elf_load_strtab}
use advanced_unix_progr.Elf.Symbols.{
  found, null, uninitialised, sht_symtab, sym_size, assign_sym, assign_syms, find_tab, find_type,
  with_strings, symtab_from, symtab_of, symtab_at, sym_or_load, keep_sym, elf_load_symtab_internal,
  elf_load_symtab,
}

drop-nil : (n : ℕ) → drop {A = ℕ} n [] ≡ []
drop-nil zero = refl
drop-nil (suc n) = refl

drop-drop : (m n : ℕ) (xs : List ℕ) → drop m (drop n xs) ≡ drop (n + m) xs
drop-drop m zero xs = ap (λ (k : ℕ). drop k xs) (omega arith)
drop-drop zero (suc n) [] = sym (drop-nil (suc n + zero))
drop-drop (suc m) (suc n) [] = sym (drop-nil (suc n + suc m))
drop-drop m (suc n) (x ∷ xs) =
    let e : suc n + m ≡ suc (n + m) = omega arith in
    drop-drop m n xs ∙ ap (λ (k : ℕ). drop k (x ∷ xs)) (sym e)

one_more : (i n : ℕ) → n + i * n ≡ suc i * n
one_more i n = grind arith

-- Symbol `i` is decoded from the bytes at its offset.
get_elem?-assign_syms :
    (clazz n i : ℕ) (raw : List ℕ)
    → i < n
    → get_elem? (assign_syms clazz n raw) i
      ≡ some (assign_sym clazz (drop (i * sym_size clazz) raw))
unfolding assign_syms
get_elem?-assign_syms clazz zero i raw h = elim h [ ]
get_elem?-assign_syms clazz (suc n) zero raw h =
    let e : 0 * sym_size clazz ≡ 0 = omega arith in
    ap (λ (k : ℕ). some (assign_sym clazz (drop k raw))) (sym e)
get_elem?-assign_syms clazz (suc n) (suc i) raw h =
    let e : sym_size clazz + i * sym_size clazz ≡ suc i * sym_size clazz =
      one_more i (sym_size clazz) in
    get_elem?-assign_syms clazz n i (drop (sym_size clazz) raw) (omega arith)
    ∙ ap (λ (t : List ℕ). some (assign_sym clazz t))
        (drop-drop (i * sym_size clazz) (sym_size clazz) raw)
    ∙ ap (λ (k : ℕ). some (assign_sym clazz (drop k raw))) e

module _ (F : Files) (e e₁ e₂ : Handle) (shdr : List Shdr) (s : Shdr) (t : StrTab)
    (ts : List StrTab) where
  -- What was read before the symbols: the handle has no symbol table, its headers and string tables
  -- are loaded, and `s` is its first section of symbols.
  pub record IsReady : Type 0 where
    pub unread : e.sym ≡ none
    pub headers : elf_load_shdr F e ≡ (e₁, some shdr)
    pub first : find_type sht_symtab (take e₁.shnum shdr) ≡ some s
    pub tables : elf_load_strtab F e₁ ≡ (e₂, t ∷ ts)
    pub class : is_class e₂.clazz ≡ true

  unfold_symtab :
      IsReady
      → elf_load_symtab F e ≡ keep_sym F (e₂, with_strings F e₂ s (find_tab s.link (t ∷ ts)))
  unfolding elf_load_symtab elf_load_symtab_internal
  unfold_symtab ready =
      ap (sym_or_load F e) ready.unread
      ∙ ap (λ r. keep_sym F (symtab_of F sht_symtab r)) ready.headers
      ∙ ap (λ r. keep_sym F (symtab_at F e₁ r)) ready.first
      ∙ ap (λ r. keep_sym F (symtab_from F s r)) ready.tables
      ∙ ap
          (λ c. keep_sym F (e₂, if c then with_strings F e₂ s (find_tab s.link (t ∷ ts)) else null))
          ready.class

  -- `elf_load_symtab` of what is ready as `IsReady` says, where the string table that the section
  -- links to is among those loaded and the section can be read in full and has fewer than 2 ^ 31
  -- symbols: the table is kept and
  -- returned, has that string table and as many symbols as fit the section, and each of them is
  -- decoded from the bytes at its own offset.
  pub elf_load_symtab-symbols :
      (strtab : StrTab) (raw : Text)
      → IsReady
      → find_tab s.link (t ∷ ts) ≡ some strtab
      → F.pread e₂.fd s.size s.offset ≡ some raw
      → s.size / sym_size e₂.clazz < 2 ^ 31
      → (tab : SymTab) × (elf_load_symtab F e ≡ (record e₂ { sym = some tab }, found tab))
        × (tab.strtab ≡ strtab)
        × (tab.count ≡ s.size / sym_size e₂.clazz)
        × ((i : ℕ)
            → i < tab.count
            → get_elem? tab.symbol i
              ≡ some (assign_sym e₂.clazz (drop (i * sym_size e₂.clazz) raw)))
  elf_load_symtab-symbols strtab raw ready links reads small =
      let count = s.size / sym_size e₂.clazz in
      let int : ltb count (2 ^ 31) ≡ true = ground arith in
      (
        record { count = count; strtab = strtab; symbol = assign_syms e₂.clazz count raw },
        unfold_symtab ready ∙ rw (links, reads, int),
        refl,
        refl,
        λ i h. get_elem?-assign_syms e₂.clazz count i raw h,
      )

  -- `elf_load_symtab` of what is ready as `IsReady` says follows a pointer that was never set,
  -- where no string table that was loaded is the one that the section links to.
  elf_load_symtab-unlinked :
      IsReady → find_tab s.link (t ∷ ts) ≡ none → elf_load_symtab F e ≡ (e₂, uninitialised)
  elf_load_symtab-unlinked ready missing = unfold_symtab ready ∙ rw missing

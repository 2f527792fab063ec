-- ===== src/Elf/Symbols.antt =====
-- hw4/elftool.c: `elf_load_symtab`, `elf_load_dsymtab` and `elf_load_all`. A symbol's layout in the
-- file is that of `Elf32_Sym` and `Elf64_Sym`.
use advanced_unix_progr.Base.{
  ℕ, zero, suc, ◌+◌, ◌*◌, ◌/◌, ◌%◌, ◌^◌, ltb, Text, List, [], ◌∷◌, Option, none, some, take, drop,
  ◌==◌, if◌then◌else◌,
}
use advanced_unix_progr.Elf.{Phdr, Shdr, StrTab, Symbol, SymTab, Handle, Files}
use advanced_unix_progr.Elf.Load.{class32, is_class, elf_load_phdr, elf_load_shdr, elf_load_strtab}

abbrev pub sht_symtab : ℕ
sht_symtab = 2

abbrev pub sht_dynsym : ℕ
sht_dynsym = 11

-- What a function that returns a pointer does: `uninitialised` follows a pointer that was never set.
pub data Read (A : Type 0) : Type 0 where
  found : A → Read A
  null : Read A
  uninitialised : Read A

-- A little-endian number.
unfoldable pub little_endian : List ℕ → ℕ
little_endian [] = 0
little_endian (b ∷ bs) = b + 256 * little_endian bs

-- The field of `width` bytes at `offset`.
abbrev pub field_at : List ℕ → (offset width : ℕ) → ℕ
field_at raw offset width = little_endian (take width (drop offset raw))

-- `sizeof(Elf32_Sym)` and `sizeof(Elf64_Sym)`
abbrev pub sym_size : ℕ → ℕ
sym_size clazz = if clazz == class32 then 16 else 24

abbrev pub assign_sym32 : List ℕ → Symbol
assign_sym32 raw =
    let info = field_at raw 12 1 in
    let other = field_at raw 13 1 in
    record {
      name = field_at raw 0 4;
      info = info;
      other = other;
      shndx = field_at raw 14 2;
      value = field_at raw 4 4;
      size = field_at raw 8 4;
      bind = info / 16;
      kind = info % 16;
      visibility = other % 4;
    }

abbrev pub assign_sym64 : List ℕ → Symbol
assign_sym64 raw =
    let info = field_at raw 4 1 in
    let other = field_at raw 5 1 in
    record {
      name = field_at raw 0 4;
      info = info;
      other = other;
      shndx = field_at raw 6 2;
      value = field_at raw 8 8;
      size = field_at raw 16 8;
      bind = info / 16;
      kind = info % 16;
      visibility = other % 4;
    }

abbrev pub assign_sym : ℕ → List ℕ → Symbol
assign_sym clazz raw = if clazz == class32 then assign_sym32 raw else assign_sym64 raw

-- The loop over the symbols.
unfoldable pub assign_syms : (clazz n : ℕ) → List ℕ → List Symbol
assign_syms clazz zero raw = []
assign_syms clazz (suc n) raw =
    assign_sym clazz raw ∷ assign_syms clazz n (drop (sym_size clazz) raw)

-- The table whose `id` is `link`, the first of the list.
unfoldable pub find_tab : ℕ → List StrTab → Option StrTab
find_tab link [] = none
find_tab link (t ∷ ts) = let later = find_tab link ts in if link == t.id then some t else later

-- The first section of a type.
unfoldable pub find_type : ℕ → List Shdr → Option Shdr
find_type type [] = none
find_type type (s ∷ rest) =
    let later = find_type type rest in if s.type == type then some s else later

-- The tables are freed on the way to `err_quit`.
abbrev pub forget : Handle → Handle
forget e = record e { phdr = none; shdr = none; strtab = []; sym = none; dsym = none }

module _ (F : Files) where
  open F use {pread}

  -- `count` is an `int`. A section with more symbols than the largest one has 2 ^ 35 bytes or more,
  -- which `pread`, and `malloc` for a count that is then negative or cut, do not give.
  abbrev pub read_symbols : Handle → Shdr → StrTab → Option Text → Read SymTab
  read_symbols e shdr strtab none = null
  read_symbols e shdr strtab (some raw) =
      let count = shdr.size / sym_size e.clazz in
      if ltb count (2 ^ 31)
      then found (record { count = count; strtab = strtab; symbol = assign_syms e.clazz count raw })
      else null

  -- The field `strtab` of the new table is set only where its string table is found.
  abbrev pub with_strings : Handle → Shdr → Option StrTab → Read SymTab
  with_strings e shdr none = uninitialised
  with_strings e shdr (some strtab) = read_symbols e shdr strtab (pread e.fd shdr.size shdr.offset)

  abbrev pub symtab_from : Shdr → Handle × List StrTab → Handle × Read SymTab
  symtab_from shdr (e, []) = (e, null)
  symtab_from shdr (e, t ∷ ts) =
      (e, if is_class e.clazz then with_strings e shdr (find_tab shdr.link (t ∷ ts)) else null)

  -- For a section header of a handle whose headers are loaded.
  unfoldable pub elf_load_symtab_internal : Handle → Shdr → Handle × Read SymTab
  elf_load_symtab_internal e shdr = symtab_from shdr (elf_load_strtab F e)

  abbrev pub symtab_at : Handle → Option Shdr → Handle × Read SymTab
  symtab_at e none = (e, null)
  symtab_at e (some s) = elf_load_symtab_internal e s

  abbrev pub symtab_of : ℕ → Handle × Option (List Shdr) → Handle × Read SymTab
  symtab_of type (e, none) = (e, null)
  symtab_of type (e, some shdr) = symtab_at e (find_type type (take e.shnum shdr))

  abbrev pub keep_sym : Handle × Read SymTab → Handle × Read SymTab
  keep_sym (e, found s) = (record e { sym = some s }, found s)
  keep_sym (e, null) = (e, null)
  keep_sym (e, uninitialised) = (e, uninitialised)

  abbrev pub keep_dsym : Handle × Read SymTab → Handle × Read SymTab
  keep_dsym (e, found s) = (record e { dsym = some s }, found s)
  keep_dsym (e, null) = (e, null)
  keep_dsym (e, uninitialised) = (e, uninitialised)

  abbrev pub sym_or_load : Handle → Option SymTab → Handle × Read SymTab
  sym_or_load e (some s) = (e, found s)
  sym_or_load e none = keep_sym (symtab_of sht_symtab (elf_load_shdr F e))

  unfoldable pub elf_load_symtab : Handle → Handle × Read SymTab
  elf_load_symtab e = sym_or_load e e.sym

  abbrev pub dsym_or_load : Handle → Option SymTab → Handle × Read SymTab
  dsym_or_load e (some s) = (e, found s)
  dsym_or_load e none = keep_dsym (symtab_of sht_dynsym (elf_load_shdr F e))

  unfoldable pub elf_load_dsymtab : Handle → Handle × Read SymTab
  elf_load_dsymtab e = dsym_or_load e e.dsym

  abbrev pub loaded : Handle × Read SymTab → Read Handle
  loaded (e, uninitialised) = uninitialised
  loaded (e, null) = found e
  loaded (e, found s) = found e

  -- The two symbol tables, which may be missing.
  abbrev pub load_dsyms : Read Handle → Read Handle
  load_dsyms uninitialised = uninitialised
  load_dsyms null = null
  load_dsyms (found e) = loaded (elf_load_dsymtab e)

  abbrev pub load_syms : Handle → Read Handle
  load_syms e = load_dsyms (loaded (elf_load_symtab e))

  abbrev pub then_strings : Handle × List StrTab → Read Handle
  then_strings (e, []) = null
  then_strings (e, t ∷ ts) = load_syms e

  abbrev pub then_sections : Handle × Option (List Shdr) → Read Handle
  then_sections (e, none) = null
  then_sections (e, some shdr) = then_strings (elf_load_strtab F e)

  abbrev pub then_programs : Handle × Option (List Phdr) → Read Handle
  then_programs (e, none) = null
  then_programs (e, some phdr) = then_sections (elf_load_shdr F e)

  -- `null` is the result -1; the handle's tables are then freed, as by `forget`.
  unfoldable pub elf_load_all : Handle → Read Handle
  elf_load_all e = then_programs (elf_load_phdr F e)

-- ===== src/Elf/Tests/Symbols.antt =====
-- The symbol table of a concrete file, which links to the string table of section `link`.
use advanced_unix_progr.Base.{
  arith, ℕ, ◌*◌, ◌/◌, ◌<◌, ◌==◌, Text, List, [], ◌∷◌, some, ◌≡◌, refl, codes, if◌then◌else◌, drop,
  get_elem?,
}
use advanced_unix_progr.Elf.{Shdr, StrTab, SymTab, Handle, Ehdr, Files}
use advanced_unix_progr.Elf.Load.{
  elf_load_shdr, elf_load_strtab, new_handle, put_sections, fresh, read_tabs, read_tab,
}
use advanced_unix_progr.Elf.Symbols.{
  found, sym_size, assign_sym, find_tab, find_type, elf_load_symtab,
}
use advanced_unix_progr.Elf.Sections.{numbered}
use advanced_unix_progr.Elf.SymbolTable.{IsReady, elf_load_symtab-symbols}

abbrev section : (type size offset link : ℕ) → Shdr
section type size offset link = record {
  name = 1;
  type = type;
  flags = 0;
  addr = 0;
  offset = offset;
  size = size;
  link = link;
  info = 0;
  addralign = 8;
  entsize = 24;
}

abbrev sections : ℕ → List Shdr
sections link = section 2 24 300 link ∷ section 3 5 192 0 ∷ []

-- One symbol: its name at 1, a global function of section 1 at 0x4000b0 with 32 bytes.
abbrev one_symbol : Text
one_symbol =
    1 ∷ 0 ∷ 0 ∷ 0 ∷ 18 ∷ 0 ∷ 1 ∷ 0 ∷ 176 ∷ 0 ∷ 64 ∷ 0 ∷ 0 ∷ 0 ∷ 0 ∷ 0 ∷ 32 ∷ 0 ∷ 0 ∷ 0 ∷ 0 ∷ 0 ∷ 0
    ∷ 0 ∷ []

abbrev header : Ehdr
header = record { type = 2; phnum = 1; shnum = 3; shstrndx = 2; entry = 0x4000b0 }

abbrev files : ℕ → Files
files link = record {
  open_rdonly = λ path. some 3;
  elf_begin = λ fd. some 0;
  elf_getident = λ elf. some (codes "ELF64");
  getehdr = λ c elf. header;
  getphdr = λ c elf. [];
  sections = λ c elf. numbered 1 (sections link);
  pread = λ fd size offset. if offset == 300 then some one_symbol else some (codes "guess");
  garbage = λ i. section 0 0 0 0;
}

abbrev elf : Handle
elf = new_handle 3 0 2 header

abbrev with_headers : ℕ → Handle
with_headers link = record elf { shdr = some (section 0 0 0 0 ∷ sections link) }

abbrev strings : StrTab
strings = record { id = 2; datasize = 5; contents = codes "guess" }

abbrev with_strings : ℕ → Handle
with_strings link = record (with_headers link) { strtab = strings ∷ [] }

ready :
    (link : ℕ)
    → IsReady
        (files link)
        elf
        (with_headers link)
        (with_strings link)
        (section 0 0 0 0 ∷ sections link)
        (section 2 24 300 link)
        strings
        []
unfolding elf_load_shdr elf_load_strtab put_sections fresh read_tabs read_tab find_type
ready link = record { unread = refl; headers = refl; first = refl; tables = refl; class = refl }

linked : find_tab 2 (strings ∷ []) ≡ some strings
unfolding find_tab
linked = refl

elf_load_symtab-symbols_example :
    (tab : SymTab) × (elf_load_symtab (files 2) elf
      ≡ (record (with_strings 2) { sym = some tab }, found tab))
    × (tab.strtab ≡ strings)
    × (tab.count ≡ 24 / 24)
    × ((i : ℕ)
        → i < tab.count
        → get_elem? tab.symbol i ≡ some (assign_sym 2 (drop (i * sym_size 2) one_symbol)))
elf_load_symtab-symbols_example =
    elf_load_symtab-symbols (files 2) elf (with_headers 2) (with_strings 2)
      (section 0 0 0 0 ∷ sections 2) (section 2 24 300 2) strings [] strings one_symbol (ready 2)
      linked refl (omega arith)

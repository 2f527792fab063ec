-- ===== src/Sdb/Tests/Load.antt =====
-- `sdb_load` of a concrete file, and of one that is missing.
use advanced_unix_progr.Base.{
  ℕ, Text, List, [], ◌∷◌, ◌++◌, none, some, ◌≡◌, refl, codes, if◌then◌else◌, str_eq,
}
use advanced_unix_progr.Cstd.{before_char}
use advanced_unix_progr.Elf.{Shdr, StrTab, Handle, Ehdr, Files}
use advanced_unix_progr.Elf.Load.{
  new_handle, elf_open, elf_load_phdr, elf_load_shdr, elf_load_strtab, fresh, put_sections,
  read_tabs, read_tab,
}
use advanced_unix_progr.Elf.Symbols.{
  found, elf_load_symtab, elf_load_dsymtab, elf_load_all, find_type, find_tab,
}
use advanced_unix_progr.Elf.Sections.{numbered}
use advanced_unix_progr.Sdb.Host.{Host, ok}
use advanced_unix_progr.Sdb.State.{Sdb}
use advanced_unix_progr.Sdb.Load.{find_text}
use advanced_unix_progr.Sdb.Tests.Machine.{Machine, machine, stopped, bp_at, debugger}

abbrev pub section : (name type size offset : ℕ) → Shdr
section name type size offset = record {
  name = name;
  type = type;
  flags = 0;
  addr = 0x4000b0;
  offset = offset;
  size = size;
  link = 0;
  info = 0;
  addralign = 1;
  entsize = 0;
}

abbrev pub sections : List Shdr
sections = section 1 1 16 176 ∷ section 0 3 7 200 ∷ []

-- The names of the sections: an empty one and `.text`.
abbrev pub names : Text
names = 0 ∷ codes ".text" ++ 0 ∷ []

abbrev pub files : Files
files = record {
  open_rdonly = λ path. if str_eq path (codes "guess") then some 3 else none;
  elf_begin = λ fd. some 0;
  elf_getident = λ elf. some (127 ∷ 69 ∷ 76 ∷ 70 ∷ 2 ∷ []);
  getehdr = λ c elf. record { type = 2; phnum = 1; shnum = 3; shstrndx = 2; entry = 0x4000b0 };
  getphdr = λ c elf. [];
  sections = λ c elf. numbered 1 sections;
  pread = λ fd size offset. some names;
  garbage = λ i. section 0 0 0 0;
}

abbrev header : Ehdr
header = record { type = 2; phnum = 1; shnum = 3; shstrndx = 2; entry = 0x4000b0 }

abbrev opened : Handle
opened = new_handle 3 0 2 header

abbrev name_tab : StrTab
name_tab = record { id = 2; datasize = 7; contents = names }

abbrev complete : Handle
complete = record opened {
  phdr = some [];
  shdr = some (section 0 0 0 0 ∷ sections);
  strtab = name_tab ∷ [];
}

abbrev before : Host Machine
before = record { world = stopped []; out = [] }

abbrev other : Sdb
other = debugger (bp_at 0x400100 ∷ [])

opens : elf_open files (codes "guess") ≡ some opened
unfolding elf_open str_eq
opens = refl

loads : elf_load_all files opened ≡ found complete
unfolding elf_load_all elf_load_phdr elf_load_shdr elf_load_strtab fresh put_sections read_tabs
    read_tab elf_load_symtab elf_load_dsymtab find_type
loads = refl

finds : find_tab 2 (name_tab ∷ []) ≡ some name_tab
unfolding find_tab
finds = refl

searched : find_text machine names sections before ≡ ok (some (section 1 1 16 176)) before
unfolding find_text before_char str_eq
searched = refl

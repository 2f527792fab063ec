-- ===== src/Elf.antt =====
-- hw4/elftool.h: the tables that elftool.c reads from an ELF file. The numbers are kept as bit
-- patterns of the width of their C type: they are compared and added as unsigned ones.
pub mod Load
pub mod Symbols
pub mod Sections
pub mod Tables
pub mod Release
pub mod SymbolTable
mod Tests
use advanced_unix_progr.Base.{ℕ, Text, Option, List}

-- `elf_phdr_t`, a program header
pub record Phdr : Type 0 where
  pub type : ℕ
  pub offset : ℕ
  pub vaddr : ℕ
  pub paddr : ℕ
  pub filesz : ℕ
  pub memsz : ℕ
  pub flags : ℕ
  pub align : ℕ

-- `elf_shdr_t`, a section header
pub record Shdr : Type 0 where
  pub name : ℕ
  pub type : ℕ
  pub flags : ℕ
  pub addr : ℕ
  pub offset : ℕ
  pub size : ℕ
  pub link : ℕ
  pub info : ℕ
  pub addralign : ℕ
  pub entsize : ℕ

-- `elf_strtab_t`, a string table; `contents` is the field `data`.
pub record StrTab : Type 0 where
  pub id : ℕ
  pub datasize : ℕ
  pub contents : Text

-- `elf_symbol_t`; `kind` is the field `type`.
pub record Symbol : Type 0 where
  pub name : ℕ
  pub info : ℕ
  pub other : ℕ
  pub shndx : ℕ
  pub value : ℕ
  pub size : ℕ
  pub bind : ℕ
  pub kind : ℕ
  pub visibility : ℕ

-- `elf_symtab_t`; `strtab` is the table that the pointer points to.
pub record SymTab : Type 0 where
  pub count : ℕ
  pub strtab : StrTab
  pub symbol : List Symbol

-- `elf_handle_t`. The tables are `none` and `[]` while they are `NULL`.
pub record Handle : Type 0 where
  pub fd : ℕ
  pub elf : ℕ
  pub clazz : ℕ
  pub type : ℕ
  pub phnum : ℕ
  pub shnum : ℕ
  pub shstrndx : ℕ
  pub entrypoint : ℕ
  pub phdr : Option (List Phdr)
  pub shdr : Option (List Shdr)
  pub strtab : List StrTab
  pub sym : Option SymTab
  pub dsym : Option SymTab

-- The numbers of an ELF header that are copied.
pub record Ehdr : Type 0 where
  pub type : ℕ
  pub phnum : ℕ
  pub shnum : ℕ
  pub shstrndx : ℕ
  pub entry : ℕ

-- libelf and the file system, as they are while a file is read: a call is `none` where it fails.
-- `malloc` is taken to succeed; a section header in memory that was just allocated is `garbage`.
pub record Files : Type 0 where
  pub open_rdonly : Text → Option ℕ
  pub elf_begin : ℕ → Option ℕ
  pub elf_getident : ℕ → Option Text
  pub getehdr : (clazz : ℕ) → ℕ → Ehdr
  pub getphdr : (clazz : ℕ) → ℕ → List Phdr
  -- The sections that `elf_nextscn` goes through, with their `elf_ndxscn`
  pub sections : (clazz : ℕ) → ℕ → List (ℕ × Shdr)
  -- `none` where fewer bytes are read than asked for
  pub pread : (fd size offset : ℕ) → Option Text
  pub garbage : ℕ → Shdr
